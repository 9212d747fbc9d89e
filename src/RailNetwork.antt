-- ===== src/RailNetwork.antt =====
-- The railway: checkpoints, segments, and the search for the next checkpoint of a loco
-- (loco_controller/src/rail_network.rs).
pub mod Types
pub mod Convert
pub mod Tables
pub mod Search
pub mod Soundness
pub mod Topology
pub mod Conflicts
pub mod Every
pub mod Arrival
