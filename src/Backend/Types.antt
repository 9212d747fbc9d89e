-- ===== src/Backend/Types.antt =====
-- The data of loco_controller/src/backend.rs. `S` is the type of a TCP stream; the errors of bincode
-- and of the socket carry no value here.
use locoloco.Common.{ℕ, Bool, Option, List}
use locoloco.Protocol.Types
use locoloco.Protocol.Types.{LocoId, SensorId, Direction, Speed, Operation}
use locoloco.RailNetwork.Types.{CheckpointId, TrackId}

pub data Error : Type 0 where
  actuators_not_connected : Error
  convert_loco_protocol_type : Types.Error → Error
  decode_from_stream : Error
  encode_to_vec : Error
  invalid_backend_protocol_magic_number : ℕ → Error
  loco_not_connected : LocoId → Error
  unsupported_operation : Operation → Error
  write_tcp_stream : Error

pub data OracleMode : Type 0 where
  off auto : OracleMode

pub data LocoIntent : Type 0 where
  drive : Direction → TrackId → LocoIntent
  stop : Direction → CheckpointId → LocoIntent

pub record LocoStatus : Type 0 where
  pub direction : Direction
  pub speed : Speed
  pub location : Option SensorId
  pub intent : Option LocoIntent

pub record LocoInfo (S : Type 0) : Type 0 where
  pub stream : Option S
  pub location : Option SensorId
  pub intent : Option LocoIntent

pub record ActuatorInfo (S : Type 0) : Type 0 where
  pub stream : Option S

pub record Backend (S : Type 0) : Type 0 where
  pub loco_info : List (LocoId × LocoInfo S)
  pub actuator_info : ActuatorInfo S
  pub oracle_enabled : Bool
