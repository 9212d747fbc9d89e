-- ===== src/Pico/Loco.antt =====
-- The board of a loco (loco_pico/src/bin/loco_pico.rs).
pub mod Types
pub mod Motor
pub mod Messages
pub mod Safety
pub mod Delivery
pub mod Answers
pub mod Main
pub mod Connect
pub mod Frequency
pub mod Termination
pub mod Program
pub mod Requests
pub mod Replay
