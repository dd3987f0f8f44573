-- ===== src/Units/Store/Commitment.antt =====
-- src/units/store.rs: the stored units of a node that `mark_forker` gives.
use aleph_bft.Prelude.{
  ℕ, zero, suc, ◌+◌, ◌^◌, ◌≤◌, ◌<◌, ◌≡◌, refl, sym, ap, ◌∙◌, subst, inl, inr, some, List, [], ◌∷◌,
  All, get_elem?, Eq, arith, u16, Option-cases, ℕ_discrete,
}
use aleph_bft.Prelude.HashMap
use aleph_bft.Nodes.{NodeIndex}
use aleph_bft.Units.{Round, UnitCoord, UnitHasher, new_coord}
use aleph_bft.Units.Store.{
  SignedUnit, UnitStore, coord_eq, full, coord_of, unit_by_coord, units_from,
}
use aleph_bft.Units.Store.Valid.{IsValid}

coord_path :
    (c : UnitCoord) (r : Round) (node_id : NodeIndex)
    → r < 2 ^ 16
    → c.creator ≡ node_id
    → c.round ≡ r
    → c ≡ new_coord r node_id
unfolding new_coord
coord_path c r node_id small of_node of_round =
    let fits : c.round ≡ u16 r = omega arith in λ i. record { round = fits i; creator = of_node i }

coord_round : (r : Round) (node_id : NodeIndex) → r < 2 ^ 16 → (new_coord r node_id).round ≡ r
unfolding new_coord
coord_round r node_id small = omega arith

coord_creator : (r : Round) (node_id : NodeIndex) → (new_coord r node_id).creator ≡ node_id
unfolding new_coord
coord_creator r node_id = refl

module _ {H D S : Type 0} where
  abbrev pub round_of : SignedUnit H D S → Round
  round_of su = (coord_of (full su)).round

  -- The rounds rise, from `r` on.
  abbrev pub RisesFrom : Round → List (SignedUnit H D S) → Type 0
  RisesFrom r [] = Unit
  RisesFrom r (su ∷ sus) = (r ≤ round_of su) × RisesFrom (suc (round_of su)) sus

  -- A unit that the store has under its coordinate, of the node, and of a round below `r`.
  abbrev pub IsListed : UnitStore H D S → NodeIndex → Round → SignedUnit H D S → Type 0
  IsListed s node_id r su =
      ((coord_of (full su)).creator ≡ node_id)
      × (round_of su < r)
      × (HashMap.get (coord_of (full su)) s.by_coord ≡ some su)

  -- The stored units of the node of the rounds up to the maximum, each and all, as their rounds
  -- rise.
  pub record IsComplete (s : UnitStore H D S) (node_id : NodeIndex) (sus : List (SignedUnit H D S))
      : Type 0 where
    pub rising : RisesFrom 0 sus
    pub stored : All (IsListed s node_id (suc s.max_round)) sus
    pub whole :
        (c : UnitCoord) (su : SignedUnit H D S)
        → c.creator ≡ node_id
        → c.round ≤ s.max_round
        → HashMap.get c s.by_coord ≡ some su
        → (i : ℕ) × (get_elem? sus i ≡ some su)

  rises_sooner :
      (r : Round) (sus : List (SignedUnit H D S)) → RisesFrom (suc r) sus → RisesFrom r sus
  rises_sooner r [] h = tt
  rises_sooner r (su ∷ sus) (first, rest) = (omega arith, rest)

module _ {H D S : Type 0} ⦃e : Eq H⦄ ⦃h : UnitHasher H D⦄ (s : UnitStore H D S) (v : IsValid s)
    (node_id : NodeIndex) where
  found_at :
      (r : Round) (su : SignedUnit H D S)
      → r < 2 ^ 16
      → unit_by_coord s (new_coord r node_id) ≡ some su
      → (round_of su ≡ r)
        × ((coord_of (full su)).creator ≡ node_id)
        × (HashMap.get (coord_of (full su)) s.by_coord ≡ some su)
  unfolding unit_by_coord
  found_at r su small found =
      let (at_c, known) = v.placed (new_coord r node_id) su found in
      (
        ap (λ c. c.round) at_c ∙ coord_round r node_id small,
        ap (λ c. c.creator) at_c ∙ coord_creator r node_id,
        ap (λ c. HashMap.get c s.by_coord) at_c ∙ found,
      )

  units_from-RisesFrom : (n r : ℕ) → r + n ≤ 2 ^ 16 → RisesFrom r (units_from s node_id n r)
  unfolding units_from
  units_from-RisesFrom zero r small = tt
  units_from-RisesFrom (suc n) r small =
      let rest = units_from-RisesFrom n (suc r) (omega arith) in
      elim (Option-cases (unit_by_coord s (new_coord r node_id))) [
        | inl missing ↦
            rw (units_from, missing) (rises_sooner r (units_from s node_id n (suc r)) rest)
        | inr (su, found) ↦
            let (at_r, _, _) = found_at r su (omega arith) found in
            rw (units_from, found)
              (
                omega arith,
                subst (λ k. RisesFrom (suc k) (units_from s node_id n (suc r))) (sym at_r) rest,
              )
      ]

  units_from-IsListed :
      (n r top : ℕ)
      → r + n ≤ top
      → top ≤ 2 ^ 16
      → All (IsListed s node_id top) (units_from s node_id n r)
  unfolding units_from
  units_from-IsListed zero r top below small = tt
  units_from-IsListed (suc n) r top below small =
      let rest = units_from-IsListed n (suc r) top (omega arith) small in
      elim (Option-cases (unit_by_coord s (new_coord r node_id))) [
        | inl missing ↦ rw (units_from, missing) rest
        | inr (su, found) ↦
            let (at_r, of_node, known) = found_at r su (omega arith) found in
            rw (units_from, found) ((of_node, omega arith, known), rest)
      ]

  units_from_whole :
      (n r : ℕ) (c : UnitCoord) (su : SignedUnit H D S)
      → r + n ≤ 2 ^ 16
      → c.creator ≡ node_id
      → r ≤ c.round
      → c.round < r + n
      → HashMap.get c s.by_coord ≡ some su
      → (i : ℕ) × (get_elem? (units_from s node_id n r) i ≡ some su)
  unfolding units_from unit_by_coord
  units_from_whole zero r c su small of_node above below found = absurd (omega arith)
  units_from_whole (suc n) r c su small of_node above below found = elim (ℕ_discrete c.round r) [
    | yes here ↦
        let at_c : unit_by_coord s (new_coord r node_id) ≡ some su =
          ap (λ k. HashMap.get k s.by_coord)
            (sym (coord_path c r node_id (omega arith) of_node here))
          ∙ found in
        rw (units_from, at_c) (0, refl)
    | no other ↦
        let (i, at_i) =
          units_from_whole n (suc r) c su (omega arith) of_node (omega arith) (omega arith) found in
        elim (Option-cases (unit_by_coord s (new_coord r node_id))) [
          | inl missing ↦ rw (units_from, missing) (i, at_i)
          | inr (sv, taken) ↦ rw (units_from, taken) (suc i, at_i)
        ]
  ]

  pub units_from-IsComplete :
      s.max_round < 2 ^ 16 → IsComplete s node_id (units_from s node_id (suc s.max_round) 0)
  units_from-IsComplete small = record {
    rising = units_from-RisesFrom (suc s.max_round) 0 (omega arith);
    stored = units_from-IsListed (suc s.max_round) 0 (suc s.max_round) (omega arith) (omega arith);
    whole = λ c su of_node below found.
        units_from_whole (suc s.max_round) 0 c su (omega arith) of_node (omega arith) (omega arith)
          found;
  }
