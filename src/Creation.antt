-- ===== src/Creation.antt =====
-- src/creation: the process that creates this node's units.
pub mod Creator
pub mod Run
pub mod Rounds
