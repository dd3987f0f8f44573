-- ===== src/Creation/Creator/Candidates.antt =====
-- src/creation/creator.rs, `add_unit`: which unit is the candidate of a node for a round.
use aleph_bft.Prelude.{
  ℕ, zero, suc, ◌+◌, ◌^◌, ◌≤◌, ◌<◌, ◌≡◌, refl, ap, ◌∙◌, ◌&&◌, Option, none, some, List, [], ◌∷◌,
  arith, inl, inr, Option-cases, ◌==◌, if◌then◌else◌, ok, length, resize, get_elem?, set, replicate,
  ℕ_discrete, length-set, get_elem?-set_self, get_elem?-set_ne, get_elem?-lt, get_elem?-some,
}
use aleph_bft.Nodes.{NodeIndex}
use aleph_bft.Nodes.NodeMap
use aleph_bft.Nodes.NodeMap.{NodeMap, is_some, count-set_vacant}
use aleph_bft.Units.{Round, ConsensusUnit}
use aleph_bft.Creation.Creator.{Creator, init_round, add_candidate, add_unit}
use aleph_bft.Creation.Creator.Rows.{
  IsValid, init_round-IsValid, init_round-cases, replaced, replaced-IsValid,
}

abbrev pub flat {ℓ} : {A : Type ℓ} → Option (Option A) → Option A
flat none = none
flat (some x) = x

abbrev pub or_else {ℓ} : {A : Type ℓ} → Option A → A → A
or_else none a = a
or_else (some b) a = b

module _ {H : Type 0} where
  abbrev row_candidate : Option (NodeMap H) → NodeIndex → Option H
  row_candidate none i = none
  row_candidate (some row) i = flat (get_elem? row i)

  -- The candidate of node `i` for round `r`.
  abbrev pub candidate : Creator H → Round → NodeIndex → Option H
  candidate c r i = row_candidate (get_elem? c.candidates_by_round r) i

  flat-empty : (n i : ℕ) → flat (get_elem? (replicate {A = Option H} n none) i) ≡ none
  flat-empty zero i = refl
  flat-empty (suc n) zero = refl
  flat-empty (suc n) (suc i) = flat-empty n i

  row_candidate-resize :
      (w : ℕ) (xs : List (NodeMap H)) (n r : ℕ) (i : NodeIndex)
      → length xs ≤ n
      → row_candidate (get_elem? (resize n (replicate w none) xs) r) i
        ≡ row_candidate (get_elem? xs r) i
  row_candidate-resize w [] zero r i h = refl
  row_candidate-resize w (x ∷ xs) zero r i h = absurd (omega arith)
  row_candidate-resize w [] (suc n) zero i h = flat-empty w i
  row_candidate-resize w [] (suc n) (suc r) i h = row_candidate-resize w [] n r i (omega arith)
  row_candidate-resize w (x ∷ xs) (suc n) zero i h = refl
  row_candidate-resize w (x ∷ xs) (suc n) (suc r) i h =
      row_candidate-resize w xs n r i (omega arith)

module _ {H : Type 0} (c : Creator H) (v : IsValid c) (round : Round)
    (fits : round + 1 < 2 ^ 16) where
  n_members-init_round : (init_round c round).n_members ≡ c.n_members
  n_members-init_round = elim (init_round-cases c v round fits) [
    | inl (same, known) ↦ rw same refl
    | inr (later, new) ↦ rw new refl
  ]

  candidate-init_round :
      (r : Round) (i : NodeIndex) → candidate (init_round c round) r i ≡ candidate c r i
  unfolding NodeMap.with_size
  candidate-init_round r i = elim (init_round-cases c v round fits) [
    | inl (same, known) ↦ rw same refl
    | inr (later, new) ↦ rw new (
        row_candidate-resize c.n_members c.candidates_by_round (round + 1) r i
          (omega (arith, v.same_length)))
  ]

module _ {H : Type 0} (c : Creator H) (v : IsValid c) (round : Round) (pid : NodeIndex) (hash : H)
    (member : pid < c.n_members) (row : NodeMap H)
    (at_round : get_elem? c.candidates_by_round round ≡ some row) where
  -- The first candidate of a node stays.
  add_candidate_taken :
      (old : H) → get_elem? row pid ≡ some (some old) → add_candidate c round pid hash ≡ ok c
  unfolding add_candidate
  add_candidate_taken old h = ground arith

  -- A free slot takes the unit, and the count goes up.
  add_candidate_free :
      get_elem? row pid ≡ some none
      → add_candidate c round pid hash ≡ ok (replaced c round (set row pid (some hash)))
  unfolding add_candidate replaced
  add_candidate_free h = ground (
    arith,
    v.counted round row,
    v.width round row,
    v.same_length,
    count-set_vacant row pid hash,
    get_elem?-lt {0} c.candidates_by_round round row,
  )

  -- The candidate after a free slot was taken.
  candidate-replaced :
      get_elem? row pid ≡ some none
      → (r : Round) (i : NodeIndex)
      → candidate (replaced c round (set row pid (some hash))) r i
        ≡ (if r == round && i == pid then some hash else candidate c r i)
  unfolding replaced
  candidate-replaced h r i = elim (ℕ_discrete round r) [
    | yes here ↦ rw (← here) (
        ground (
          arith,
          get_elem?-set_self c.candidates_by_round round (set row pid (some hash)),
          get_elem?-lt {0} c.candidates_by_round round row,
          get_elem?-set_self row pid (some hash),
          get_elem?-set_ne row pid i (some hash),
          v.width round row,
        ))
    | no other ↦
        rw (get_elem?-set_ne c.candidates_by_round round r (set row pid (some hash)) other)
          (ground arith)
  ]

  -- In a valid creator the candidate is recorded unless the node has one for the round.
  add_candidate_lem :
      (c' : Creator H) × (add_candidate c round pid hash ≡ ok c')
      × IsValid c'
      × ((r : Round) (i : NodeIndex)
          → candidate c' r i ≡ (
              if r == round && i == pid
              then some (or_else (candidate c r i) hash)
              else candidate c r i))
  add_candidate_lem =
      let (slot, at_pid) = get_elem?-some row pid (omega (arith, v.width round row at_round)) in
      elim (Option-cases slot) [
        | inl vacant ↦
            let free : get_elem? row pid ≡ some none = at_pid ∙ ap some vacant in
            (
              replaced c round (set row pid (some hash)),
              add_candidate_free free,
              replaced-IsValid c v round row (set row pid (some hash)) at_round
                  (length-set row pid (some hash)),
              λ r i. candidate-replaced free r i ∙ ground arith,
            )
        | inr (old, full) ↦
            let taken : get_elem? row pid ≡ some (some old) = at_pid ∙ ap some full in
            (c, add_candidate_taken old taken, v, λ r i. ground arith)
      ]

-- In a valid creator, `add_unit` of a unit of a member, of a round below the last, does not panic;
-- it keeps the rows and their counts in step; and the unit becomes the candidate of its creator for
-- its round, unless there is one already. All other candidates stay.
pub add_unit_first :
    {H : Type 0} (c : Creator H) (u : ConsensusUnit H)
    → IsValid c
    → u.pre_unit.coord.round + 1 < 2 ^ 16
    → u.pre_unit.coord.creator < c.n_members
    → (c' : Creator H) × (add_unit c u ≡ ok c')
      × IsValid c'
      × ((r : Round) (i : NodeIndex)
          → candidate c' r i ≡ (
              if r == u.pre_unit.coord.round && i == u.pre_unit.coord.creator
              then some (or_else (candidate c r i) u.hash)
              else candidate c r i))
unfolding add_unit
add_unit_first c u v fits member =
    let round = u.pre_unit.coord.round in
    let (v', made) = init_round-IsValid c v round fits in
    let (row, at_round) =
      get_elem?-some (init_round c round).candidates_by_round round
        (omega (arith, v'.same_length)) in
    let (c', done, valid, same) =
      add_candidate_lem (init_round c round) v' round u.pre_unit.coord.creator u.hash
        (rw (n_members-init_round c v round fits) member) row at_round in
    (c', done, valid, λ r i. same r i ∙ rw (candidate-init_round c v round fits r i) refl)
