-- ===== src/Units/Store/Marks.antt =====
-- src/units/store.rs: marked nodes, what `mark_forker` gives, and when `add_unit` returns.
use aleph_bft.Prelude.{
  suc, ◌<◌, ◌≡◌, refl, ◌⊎◌, inl, inr, Bool, true, false, not, Eq, arith, ok, Bool-cases, length,
  set, get_elem?-some, get_elem?-set_self,
}
use aleph_bft.Nodes.{NodeIndex}
use aleph_bft.Nodes.NodeSubset
use aleph_bft.Units.{UnitHasher, hash_of}
use aleph_bft.Units.Store.{
  SignedUnit, UnitStore, coord_eq, full, coord_of, units_from, mark_forker, is_forker,
  contains_hash, is_legit, alert_allowed, add_unit,
}
use aleph_bft.Units.Store.Valid.{IsValid, stored_with, add_unit-IsValid}

module _ {H D S : Type 0} where
  -- The store with a node marked.
  abbrev pub with_mark : UnitStore H D S → NodeIndex → UnitStore H D S
  with_mark s node_id = record s { forkers = set s.forkers node_id true }

  pub mark_forker_lem :
      (s : UnitStore H D S) (node_id : NodeIndex)
      → node_id < length s.forkers
      → mark_forker s node_id ≡ ok (units_from s node_id (suc s.max_round) 0, with_mark s node_id)
  unfolding mark_forker NodeSubset.contains NodeSubset.insert
  mark_forker_lem s node_id member =
      let (b, at_b) = get_elem?-some s.forkers node_id member in ground arith

  pub is_forker_returns :
      (s : UnitStore H D S) (node_id : NodeIndex)
      → node_id < length s.forkers
      → (b : Bool) × (is_forker s node_id ≡ ok b)
  unfolding is_forker NodeSubset.contains
  is_forker_returns s node_id member =
      let (b, at_b) = get_elem?-some s.forkers node_id member in (b, ground arith)

  pub is_forker-with_mark :
      (s : UnitStore H D S) (node_id : NodeIndex)
      → node_id < length s.forkers
      → is_forker (with_mark s node_id) node_id ≡ ok true
  unfolding is_forker NodeSubset.contains
  is_forker-with_mark s node_id member =
      let marked = get_elem?-set_self s.forkers node_id true member in ground arith

module _ {H D S : Type 0} ⦃e : Eq H⦄ ⦃h : UnitHasher H D⦄ where
  pub with_mark-IsValid :
      (s : UnitStore H D S) (node_id : NodeIndex) → IsValid s → IsValid (with_mark s node_id)
  with_mark-IsValid s node_id v = record { keyed = v.keyed; placed = v.placed; covered = v.covered }

  judged_allowed :
      (s : UnitStore H D S) (creator : NodeIndex) (alert marked : Bool)
      → is_forker s creator ≡ ok marked
      → (alert ≡ false) ⊎ (marked ≡ true)
      → (alert_allowed s creator alert ≡ ok tt)
        × (legit : Bool) × (is_legit s creator alert ≡ ok legit)
  unfolding alert_allowed is_legit
  judged_allowed s creator true true at_creator fine = (rw at_creator refl, true, refl)
  judged_allowed s creator true false at_creator fine = absurd (ground arith)
  judged_allowed s creator false marked at_creator fine = (refl, not marked, rw at_creator refl)

  -- A unit of a member can be added without an alert, and a marked node's with one.
  pub add_unit_returns :
      (s : UnitStore H D S) (su : SignedUnit H D S) (alert : Bool) (marked : Bool)
      → IsValid s
      → is_forker s (coord_of (full su)).creator ≡ ok marked
      → (alert ≡ false) ⊎ (marked ≡ true)
      → (s' : UnitStore H D S) × (add_unit s su alert ≡ ok s')
        × IsValid s'
        × (s'.forkers ≡ s.forkers)
        × (s'.max_round ≡ s.max_round)
  unfolding add_unit
  add_unit_returns s su alert marked v at_creator fine =
      let (allowed, legit, judged) =
        judged_allowed s (coord_of (full su)).creator alert marked at_creator fine in
      elim (Bool-cases (contains_hash s (hash_of (full su)))) [
        | inl known ↦ (s, ground arith, v, refl, refl)
        | inr fresh ↦
            let done : add_unit s su alert ≡ ok (stored_with s su legit) = ground arith in
            (stored_with s su legit, done, add_unit-IsValid s _ su alert v done, refl, refl)
      ]
