-- ===== src/Creation/Creator.antt =====
-- src/creation/creator.rs: the candidates for parents, and when a unit can be created from them.
pub mod Rows
pub mod Candidates
pub mod Created
use aleph_bft.Prelude.{
  ℕ, ◌+◌, ◌-◌, Bool, true, false, Option, none, some, List, [], ◌∷◌, ltb, leb, ◌==◌, if◌then◌else◌,
  u16, Exec, ok, ◌>>=◌, index, store_at, length, resize,
}
use aleph_bft.Nodes.{NodeIndex, NodeCount, quorum}
use aleph_bft.Nodes.NodeMap
use aleph_bft.Nodes.NodeMap.{NodeMap, is_some}
use aleph_bft.Units.{Round, PreUnit, ConsensusUnit, ParentHasher, new_control_hash, new_pre_unit}

pub record Creator (H : Type 0) : Type 0 where
  pub node_id : NodeIndex
  pub n_members : NodeCount
  pub candidates_by_round : List (NodeMap H)
  pub n_candidates_by_round : List NodeCount

module _ {H : Type 0} where
  unfoldable pub new : NodeIndex → NodeCount → Creator H
  new node_id n_members = record {
    node_id = node_id;
    n_members = n_members;
    candidates_by_round = NodeMap.with_size n_members ∷ [];
    n_candidates_by_round = 0 ∷ [];
  }

  unfoldable pub current_round : Creator H → Round
  current_round c = u16 (length c.n_candidates_by_round - 1)

  unfoldable pub init_round : Creator H → Round → Creator H
  unfolding current_round
  init_round c round =
      if ltb (current_round c) round
      then record c {
        candidates_by_round =
            resize (u16 (round + 1)) (NodeMap.with_size c.n_members) c.candidates_by_round;
        n_candidates_by_round = resize (u16 (round + 1)) 0 c.n_candidates_by_round;
      }
      else c

  -- The body of `add_unit` after the rows are there.
  unfoldable pub add_candidate : Creator H → Round → NodeIndex → H → Exec (Creator H)
  unfolding NodeMap.get NodeMap.insert
  add_candidate c round pid hash = do
    row ← index c.candidates_by_round round
    slot ← NodeMap.get row pid
    elim slot [
      | some _ ↦ ok c
      | none ↦ do
        row' ← NodeMap.insert row pid hash
        rows ← store_at c.candidates_by_round round row'
        n ← index c.n_candidates_by_round round
        counts ← store_at c.n_candidates_by_round round (n + 1)
        ok (record c { candidates_by_round = rows; n_candidates_by_round = counts })
    ]

  unfoldable pub add_unit : Creator H → ConsensusUnit H → Exec (Creator H)
  unfolding init_round add_candidate
  add_unit c u =
      add_candidate (init_round c u.pre_unit.coord.round) u.pre_unit.coord.round
        u.pre_unit.coord.creator u.hash

  -- `&&` looks no further than the first test that fails.
  unfoldable pub can_create : Creator H → Round → Exec Bool
  unfolding NodeMap.get
  can_create c round =
      let prev_round = round - 1 in
      if round == 0
      then ok true
      else (if ltb prev_round (length c.n_candidates_by_round)
          then (do
            n ← index c.n_candidates_by_round prev_round
            (if leb (quorum c.n_members) n
                then (do
                  row ← index c.candidates_by_round prev_round
                  slot ← NodeMap.get row c.node_id
                  ok (is_some slot))
                else ok false))
          else ok false)

  unfoldable pub create_unit :
      ⦃p : ParentHasher H⦄ → Creator H → Round → Exec (Option (PreUnit H × List H))
  unfolding new_control_hash new_pre_unit NodeMap.values
  create_unit c round = do
    allowed ← can_create c round
    (if allowed
        then (do
          parents ←
              (if round == 0
                then ok (NodeMap.with_size c.n_members)
                else index c.candidates_by_round (round - 1))
          ok (
              some
                (new_pre_unit c.node_id round (new_control_hash parents), NodeMap.values parents)))
        else ok none)
