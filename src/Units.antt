-- ===== src/Units.antt =====
-- src/units.rs: the units that the nodes create. Encoding and hashing are the caller's and the
-- codec's.
pub mod Store
use aleph_bft.Prelude.{ℕ, Option, none, some, List, length, u16}
use aleph_bft.Nodes.{NodeIndex, NodeCount}
use aleph_bft.Nodes.NodeMap
use aleph_bft.Nodes.NodeMap.{NodeMap}
use aleph_bft.Nodes.NodeSubset
use aleph_bft.Nodes.NodeSubset.{NodeSubset}

abbrev pub Round : Type 0
Round = ℕ

abbrev pub SessionId : Type 0
SessionId = ℕ

pub record UnitCoord : Type 0 where
  pub round : Round
  pub creator : NodeIndex

pub record ControlHash (H : Type 0) : Type 0 where
  pub parents_mask : NodeSubset
  pub combined_hash : H

pub record PreUnit (H : Type 0) : Type 0 where
  pub coord : UnitCoord
  pub control_hash : ControlHash H

-- `H::hash` of what the codec makes of a map of parents.
pub record ParentHasher (H : Type 0) : Type 0 where
  pub hash_parents : NodeMap H → H

-- `H::hash` of what the codec makes of a full unit; it skips the cached hash.
pub record UnitHasher (H D : Type 0) : Type 0 where
  pub hash_unit : PreUnit H → D → SessionId → H

-- `hash` is the cache behind the lock.
pub record FullUnit (H D : Type 0) : Type 0 where
  pub pre_unit : PreUnit H
  pub unit_data : D
  pub session_id : SessionId
  pub hash : Option H

pub record ConsensusUnit (H : Type 0) : Type 0 where
  pub pre_unit : PreUnit H
  pub hash : H

unfoldable pub new_coord : Round → NodeIndex → UnitCoord
new_coord round creator = record { round = u16 round; creator = creator }

module _ {H : Type 0} where
  unfoldable pub combine_hashes : ⦃p : ParentHasher H⦄ → NodeMap H → H
  combine_hashes ⦃p⦄ parent_map = p.hash_parents parent_map

  unfoldable pub new_control_hash : ⦃p : ParentHasher H⦄ → NodeMap H → ControlHash H
  unfolding combine_hashes
  new_control_hash parent_map = record {
    parents_mask = NodeMap.to_subset parent_map;
    combined_hash = combine_hashes parent_map;
  }

  unfoldable pub parents : ControlHash H → List NodeIndex
  parents c = NodeSubset.elements c.parents_mask

  unfoldable pub n_parents : ControlHash H → NodeCount
  unfolding parents
  n_parents c = length (parents c)

  unfoldable pub n_members : ControlHash H → NodeCount
  n_members c = NodeSubset.size c.parents_mask

  unfoldable pub new_pre_unit : NodeIndex → Round → ControlHash H → PreUnit H
  unfolding new_coord
  new_pre_unit creator round control_hash = record {
    coord = new_coord round creator;
    control_hash = control_hash;
  }

module _ {H D : Type 0} ⦃h : UnitHasher H D⦄ where
  unfoldable pub new_full_unit : PreUnit H → D → SessionId → FullUnit H D
  new_full_unit pre_unit unit_data session_id = record {
    pre_unit = pre_unit;
    unit_data = unit_data;
    session_id = session_id;
    hash = none;
  }

  -- `FullUnit::hash`: the value, and the unit with its cache filled.
  unfoldable pub hash_of : FullUnit H D → H
  hash_of u = elim u.hash [
    | some hash ↦ hash
    | none ↦ h.hash_unit u.pre_unit u.unit_data u.session_id
  ]

  unfoldable pub hashed : FullUnit H D → FullUnit H D
  unfolding hash_of
  hashed u = record u { hash = some (hash_of u) }

  unfoldable pub unit : FullUnit H D → ConsensusUnit H
  unfolding hash_of
  unit u = record { pre_unit = u.pre_unit; hash = hash_of u }
