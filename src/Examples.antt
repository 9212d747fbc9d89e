-- ===== src/Examples.antt =====
-- Runs on concrete values, and each theorem at a concrete input.
mod Pipe
mod Slices
mod Boards
mod Actuators
mod Sightings
mod Threads
mod Railway
mod Rounds
mod Frames
mod Requests
mod System
