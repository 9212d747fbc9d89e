-- ===== src/System.antt =====
-- The parts together: rounds of the oracle, from the locos' answers to the switches and the motors
-- (loco_controller/src/oracle.rs, loco_controller/src/backend.rs, the firmware of the boards).
pub mod Frames
pub mod Links
pub mod Commands
pub mod Questions
pub mod Round
pub mod Switches
pub mod Orders
pub mod Distinct
pub mod Motions
pub mod Locos
