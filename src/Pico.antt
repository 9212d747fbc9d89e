-- ===== src/Pico.antt =====
-- The firmware of the boards: the locos, the actuators and the sensors (loco_pico, actuators_pico,
-- sensors_pico, common_pico).
pub mod Sizes
pub mod Socket
pub mod Receive
pub mod Loop
pub mod Replay
pub mod Loco
pub mod Actuators
pub mod Sensors
pub mod DetectTagUid
