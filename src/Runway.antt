-- ===== src/Runway.antt =====
-- src/runway.rs: the process between the network, the alerter and the consensus; it owns the units.
pub mod Message
pub mod State
pub mod Validate
pub mod Receive
pub mod Requests
pub mod Process
pub mod Run
pub mod Accepted
pub mod Total
pub mod Forks
