-- ===== src/Pico/Actuators.antt =====
-- The board of the actuators (actuators_pico/src/bin/actuators_pico.rs).
pub mod Types
pub mod Messages
pub mod Switches
pub mod Delivery
pub mod Termination
pub mod Main
pub mod Program
pub mod Replay
