-- ===== src/Protocol/Types.antt =====
-- The enums and wire structs of loco_protocol/src/lib.rs. A field of type u8 is a number.
use native.Mathlib.Decide.{ℕ_discrete}
use locoloco.Common.{ℕ, Eq, derive_eq}

pub data LocoId : Type 0 where
  loco1 loco2 : LocoId

pub data SensorId : Type 0 where
  rfid_reader1 rfid_reader2 rfid_reader3 rfid_reader4 : SensorId
  rfid_reader5 rfid_reader6 rfid_reader7 rfid_reader8 : SensorId

pub data ActuatorId : Type 0 where
  switch_rails1 switch_rails2 switch_rails3 switch_rails4 : ActuatorId
  switch_rails5 switch_rails6 switch_rails7 switch_rails8 : ActuatorId

pub data ActuatorType : Type 0 where
  switch_rails : ActuatorType

pub data SwitchRailsState : Type 0 where
  direct diverted : SwitchRailsState

pub data Direction : Type 0 where
  forward backward : Direction

pub data Speed : Type 0 where
  stop slow normal fast : Speed
  pwm_duty_cycle : ℕ → Speed

pub data Operation : Type 0 where
  connect control_loco loco_status sensors_status drive_actuator : Operation

pub data Error : Type 0 where
  uid_too_long : Error
  unknown_actuator_id unknown_actuator_type unknown_direction unknown_loco_id : ℕ → Error
  unknown_operation unknown_sensor_id unknown_speed unknown_switch_rails_state : ℕ → Error
  unknown_uid : Error
  unsupported_operation : Operation → Error

pub record ConnectPayload : Type 0 where
  pub loco_id : ℕ

pub record ControlLocoPayload : Type 0 where
  pub direction : ℕ
  pub speed : ℕ

pub record SensorsStatusArray : Type 0 where
  pub len : ℕ

pub record SensorStatus : Type 0 where
  pub sensor_id : ℕ
  pub loco_id : ℕ

pub record LocoStatusResponse : Type 0 where
  pub direction : ℕ
  pub speed : ℕ

pub record DriveActuatorPayload : Type 0 where
  pub actuator_id : ℕ
  pub actuator_type : ℕ
  pub actuator_state : ℕ

pub record Header : Type 0 where
  pub magic : ℕ
  pub operation : ℕ
  pub payload_len : ℕ

abbrev pub backend_protocol_magic_number : ℕ
backend_protocol_magic_number = 0xab

-- The equalities that the enums derive.
abbrev pub LocoId-discrete : Discrete LocoId
LocoId-discrete = hlevel

abbrev pub ActuatorId-discrete : Discrete ActuatorId
ActuatorId-discrete = hlevel

abbrev pub Speed-discrete : Discrete Speed
Speed-discrete = hlevel ℕ_discrete

instance abbrev pub loco_id_eq : Eq LocoId
loco_id_eq = derive_eq LocoId-discrete

instance abbrev pub actuator_id_eq : Eq ActuatorId
actuator_id_eq = derive_eq ActuatorId-discrete

instance abbrev pub speed_eq : Eq Speed
speed_eq = derive_eq Speed-discrete
