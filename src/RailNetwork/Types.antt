-- ===== src/RailNetwork/Types.antt =====
-- The data of loco_controller/src/rail_network.rs. A `BTreeMap` is an association list.
use locoloco.Common.{ℕ, List, Eq, derive_eq}
use locoloco.Protocol.Types.{ActuatorId, Direction, SwitchRailsState}

pub data Error : Type 0 where
  convert_checkpoints_into_segment_id : Error

pub data SegmentPriority : Type 0 where
  priority0 priority1 priority2 : SegmentPriority

-- the order that `SegmentPriority` derives
abbrev pub rank : SegmentPriority → ℕ
rank priority0 = 0
rank priority1 = 1
rank priority2 = 2

pub data TrackId : Type 0 where
  track1 station1 station2 : TrackId

pub data CheckpointId : Type 0 where
  checkpoint1 checkpoint2 checkpoint3 checkpoint4 checkpoint5 checkpoint6 : CheckpointId
  station1 station2 : CheckpointId

pub data SegmentId : Type 0 where
  segment1 segment2 segment3 segment4 segment5 : SegmentId
  segment6 segment7 segment8 segment9 segment10 : SegmentId

pub record SwitchRails : Type 0 where
  pub actuator_id : ActuatorId
  pub state : SwitchRailsState

pub record Segment : Type 0 where
  pub priority : SegmentPriority
  pub switch_rails : List SwitchRails
  pub conflicts : List SegmentId

pub record Checkpoint : Type 0 where
  pub checkpoint_ids : List (Direction × List CheckpointId)
  pub track_id : TrackId
  pub priority : SegmentPriority

pub record RailNetwork : Type 0 where
  pub checkpoints : List (CheckpointId × Checkpoint)
  pub segments : List (SegmentId × Segment)
  pub longest_path : ℕ

abbrev pub TrackId-discrete : Discrete TrackId
TrackId-discrete = hlevel

abbrev pub CheckpointId-discrete : Discrete CheckpointId
CheckpointId-discrete = hlevel

abbrev pub SegmentId-discrete : Discrete SegmentId
SegmentId-discrete = hlevel

abbrev pub Direction-discrete : Discrete Direction
Direction-discrete = hlevel

instance abbrev pub track_id_eq : Eq TrackId
track_id_eq = derive_eq TrackId-discrete

instance abbrev pub checkpoint_id_eq : Eq CheckpointId
checkpoint_id_eq = derive_eq CheckpointId-discrete

instance abbrev pub segment_id_eq : Eq SegmentId
segment_id_eq = derive_eq SegmentId-discrete

instance abbrev pub direction_eq : Eq Direction
direction_eq = derive_eq Direction-discrete
