-- ===== src/Nodes.antt =====
-- src/nodes.rs: the indices of the committee's nodes, and maps and sets over them.
pub mod NodeMap
pub mod NodeSubset
pub mod Codec
use aleph_bft.Prelude.{ℕ, ◌+◌, ◌*◌, ◌/◌}

abbrev pub NodeIndex : Type 0
NodeIndex = ℕ

abbrev pub NodeCount : Type 0
NodeCount = ℕ

-- `(n_members * 2) / 3 + 1`, as it is written wherever a quorum is asked for.
abbrev pub quorum : NodeCount → NodeCount
quorum n = n * 2 / 3 + 1
