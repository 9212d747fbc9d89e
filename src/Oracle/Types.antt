-- ===== src/Oracle/Types.antt =====
-- The data of loco_controller/src/oracle.rs.
use locoloco.Common.{ℕ, Option, List}
use locoloco.Protocol.Types.{LocoId, Direction, Speed, ActuatorId, ActuatorType}
use locoloco.RailNetwork.Types
use locoloco.RailNetwork.Types.{CheckpointId, SegmentId, Segment, RailNetwork}
use locoloco.Backend.Types as BackendTypes
use locoloco.Backend.Types.{LocoIntent}

pub data Error : Type 0 where
  control_loco drive_actuator loco_status : BackendTypes.Error → Error
  convert_checkpoints_into_segment_id : Types.Error → Error
  next_checkpoint_not_found : Error

pub record ActiveSegment : Type 0 where
  pub id : Option SegmentId
  pub segment : Option Segment
  pub direction : Direction
  pub loco_id : LocoId

pub record ActiveLoco : Type 0 where
  pub id : LocoId
  pub speed : Speed
  pub location : Option CheckpointId
  pub intent : Option LocoIntent

-- The backend that the source keeps behind an `Arc` is an argument of the operations.
pub record Oracle : Type 0 where
  pub rail_network : RailNetwork
  pub last_segment_id : List (LocoId × SegmentId)

abbrev pub ActuatorControl : Type 0
ActuatorControl = ActuatorId × ActuatorType × ℕ

abbrev pub LocoControl : Type 0
LocoControl = LocoId × Direction × Speed
