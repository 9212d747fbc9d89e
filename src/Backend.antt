-- ===== src/Backend.antt =====
-- The state that the controller's threads share, and its operations
-- (loco_controller/src/backend.rs).
pub mod Types
pub mod State
pub mod Frames
pub mod Locos
pub mod Actuators
pub mod Sensors
pub mod Totality
pub mod Termination
pub mod Connections
pub mod Reports
pub mod Delivery
