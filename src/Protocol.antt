-- ===== src/Protocol.antt =====
-- The messages of the backend protocol (loco_protocol/src/lib.rs): enums, wire structs, byte codes.
pub mod Types
pub mod IsCode
pub mod LocoId
pub mod SensorId
pub mod ActuatorId
pub mod ActuatorType
pub mod SwitchRailsState
pub mod Direction
pub mod Speed
pub mod Operation
pub mod Codes
