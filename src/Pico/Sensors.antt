-- ===== src/Pico/Sensors.antt =====
-- The board of the sensors (sensors_pico/src/bin/sensors_pico.rs).
pub mod Types
pub mod Tags
pub mod Updates
pub mod Buffer
pub mod Delivery
pub mod Locating
pub mod Slots
pub mod Tasks
pub mod Session
