-- ===== src/Oracle.antt =====
-- The automatic mode: from the locos' states to the commands of one round
-- (loco_controller/src/oracle.rs).
pub mod Types
pub mod Segments
pub mod Order
pub mod Controls
pub mod Process
pub mod Commands
pub mod Commanded
pub mod Totality
pub mod Safety
pub mod Intents
pub mod Plans
pub mod Ordering
pub mod Priorities
pub mod Fairness
pub mod Arrivals
pub mod Turns
pub mod Progress
pub mod Round
pub mod Grants
pub mod Switches
