-- ===== src/Extender/Batch.antt =====
-- The walk of `finalize_round` through the DAG, as a function into the units that it visits.
pub mod Take
pub mod Visit
pub mod Walk
pub mod Rounds
pub mod Finality
