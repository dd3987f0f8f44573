-- ===== src/Extender.antt =====
-- src/extender.rs: the consensus protocol on the local copy of the DAG.
pub mod State
pub mod Finalize
pub mod Voting
pub mod Progress
pub mod Quorum
pub mod Tally
pub mod Agreement
pub mod Batch
pub mod Finality
