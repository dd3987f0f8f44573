-- ===== src/Creation/Creator/Created.antt =====
-- src/creation/creator.rs, `create_unit`: what a created unit looks like, and when one is created.
use aleph_bft.Prelude.{
  zero, suc, ◌-◌, ◌^◌, ◌≤◌, ◌<◌, ◌≡◌, refl, sym, ap, ◌∙◌, Bool, true, false, ◌&&◌, Option, none,
  some, List, [], arith, ◌⊎◌, inl, inr, ◌↔◌, Option-cases, Bool-cases, leb, if◌then◌else◌, ok,
  length, get_elem?, count, get_elem?-lt, get_elem?-some, get_elem?-none, length-replicate, subst,
  ok_injective, some_injective,
}
use aleph_bft.Nodes.{quorum}
use aleph_bft.Nodes.NodeMap
use aleph_bft.Nodes.NodeMap.{
  NodeMap, is_some, is_some-elim, occupied, values-occupied, length-occupied, occupied-empty,
}
use aleph_bft.Nodes.NodeSubset
use aleph_bft.Units.{
  Round, PreUnit, ParentHasher, n_parents, n_members, new_control_hash, new_pre_unit,
  combine_hashes,
}
use aleph_bft.Creation.Creator.{Creator, can_create, create_unit}
use aleph_bft.Creation.Creator.Rows.{IsValid}
use aleph_bft.Creation.Creator.Candidates.{candidate}

module _ {H : Type 0} where
  -- The candidates of a round, none where there is no row.
  abbrev pub candidates : Creator H → Round → NodeMap H
  candidates c r = elim (get_elem? c.candidates_by_round r) [ none ↦ [] | some row ↦ row ]

  -- Enough candidates of the round, this node's own among them.
  abbrev pub is_ready : Creator H → Round → Bool
  is_ready c r =
      leb (quorum c.n_members) (count is_some (candidates c r)) && is_some (candidate c r c.node_id)

  -- The parents of a unit of the round.
  abbrev pub parents_for : Creator H → Round → NodeMap H
  parents_for c zero = NodeMap.with_size c.n_members
  parents_for c (suc r) = candidates c r

  abbrev pub can_have : Creator H → Round → Bool
  can_have c zero = true
  can_have c (suc r) = is_ready c r

is_some_if : {A : Type 0} (a : A) (b : Bool) → is_some (if b then some a else none) ≡ b
is_some_if a true = refl
is_some_if a false = refl

module _ {H : Type 0} (c : Creator H) (v : IsValid c) (member : c.node_id < c.n_members) where
  can_create_lem : (round : Round) → can_create c round ≡ ok (can_have c round)
  unfolding can_create
  can_create_lem zero = refl
  can_create_lem (suc r) = elim (Option-cases (get_elem? c.candidates_by_round r)) [
    | inl missing ↦
        ground (arith, v.same_length, get_elem?-none {0} c.candidates_by_round r missing)
    | inr (row, found) ↦
        let w = v.width r row found in
        let k = v.counted r row found in
        let (slot, at_own) = get_elem?-some row c.node_id (omega arith) in
        ground (arith, v.same_length, get_elem?-lt {0} c.candidates_by_round r row)
  ]

  create_unit_lem :
      ⦃p : ParentHasher H⦄ (round : Round)
      → create_unit c round
        ≡ ok (
            if can_have c round
            then some (
              new_pre_unit c.node_id round (new_control_hash (parents_for c round)),
              NodeMap.values (parents_for c round),
            )
            else none)
  unfolding create_unit
  create_unit_lem zero = rw (can_create_lem zero, create_unit) refl
  create_unit_lem (suc r) =
      rw (can_create_lem (suc r), create_unit)
        (elim (Bool-cases (is_ready c r)) [
          | inl ready ↦ elim (Option-cases (get_elem? c.candidates_by_round r)) [
            | inl missing ↦ ground arith
            | inr (row, found) ↦ rw (ready, create_unit) (ground arith)
          ]
          | inr idle ↦ rw idle refl
        ])

  allowed_iff :
      (round : Round)
      → (can_have c round ≡ true) ↔ (
          (round ≡ 0)
          ⊎ (quorum c.n_members ≤ count is_some (candidates c (round - 1)))
            × (h : H) × (candidate c (round - 1) c.node_id ≡ some h))
  allowed_iff zero = (λ _. inl refl, λ _. refl)
  allowed_iff (suc r) =
      let e : suc r - 1 ≡ r = omega arith in
      rw e (
        λ ready.
            let (h, own) = is_some-elim (candidate c r c.node_id) (ground arith) in
            inr (ground arith, h, own),
        λ x. elim x [ inl bad ↦ absurd (omega arith) | inr (enough, h, own) ↦ ground arith ],
      )

  -- In a valid creator of a member, a unit of round 0 can always be created, and a unit of a later
  -- round exactly when at least floor(2n/3) + 1 units of the round before are candidates, this
  -- node's own among them. The code never panics.
  pub create_unit_iff :
      ⦃p : ParentHasher H⦄ (round : Round)
      → (r : Option (PreUnit H × List H)) × (create_unit c round ≡ ok r)
        × ((is_some r ≡ true) ↔ (
            (round ≡ 0)
            ⊎ (quorum c.n_members ≤ count is_some (candidates c (round - 1)))
              × (h : H) × (candidate c (round - 1) c.node_id ≡ some h)))
  create_unit_iff round =
      (_, create_unit_lem round, rw (is_some_if _ (can_have c round)) (allowed_iff round))

-- What is stated of a unit and its parents that were created for a round.
pub record Created {H : Type 0} ⦃p : ParentHasher H⦄ (c : Creator H) (round : Round)
    (unit : PreUnit H) (parents : List H) : Type 0 where
  pub coord : (unit.coord.round ≡ round) × (unit.coord.creator ≡ c.node_id)
  pub members : n_members unit.control_hash ≡ c.n_members
  pub n_parents_of : n_parents unit.control_hash ≡ length parents
  pub combined : unit.control_hash.combined_hash ≡ combine_hashes (parents_for c round)
  pub parents_of : parents ≡ occupied (parents_for c round)
  pub initial : round ≡ 0 → parents ≡ []
  pub enough : 0 < round → quorum c.n_members ≤ length parents
  pub own : 0 < round → (h : H) × (candidate c (round - 1) c.node_id ≡ some h)

module _ {H : Type 0} ⦃p : ParentHasher H⦄ (c : Creator H) (v : IsValid c)
    (member : c.node_id < c.n_members) where
  length-parents_for :
      (round : Round) → can_have c round ≡ true → length (parents_for c round) ≡ c.n_members
  unfolding NodeMap.with_size
  length-parents_for zero h = length-replicate {A = Option H} c.n_members none
  length-parents_for (suc r) h = elim (Option-cases (get_elem? c.candidates_by_round r)) [
    | inl missing ↦ ground arith
    | inr (row, found) ↦ ground (arith, v.width r row found)
  ]

  initial_parents : (round : Round) → round ≡ 0 → occupied (parents_for c round) ≡ []
  unfolding NodeMap.with_size
  initial_parents zero z = occupied-empty c.n_members
  initial_parents (suc r) z = absurd (omega arith)

  later_parents :
      (round : Round)
      → 0 < round
      → can_have c round ≡ true
      → (quorum c.n_members ≤ count is_some (parents_for c round))
        × (h : H) × (candidate c (round - 1) c.node_id ≡ some h)
  later_parents zero pos allowed = absurd (omega arith)
  later_parents (suc r) pos allowed = elim ((allowed_iff c v member (suc r)).0 allowed) [
    | inl bad ↦ absurd (omega arith)
    | inr (enough, h, mine) ↦
        let e : suc r - 1 ≡ r = omega arith in
        (omega (arith, enough, ap (λ k. count is_some (candidates c k)) e), h, mine)
  ]

  makes_unit :
      (round : Round)
      → round < 2 ^ 16
      → can_have c round ≡ true
      → Created c round
          (new_pre_unit c.node_id round (new_control_hash (parents_for c round)))
          (NodeMap.values (parents_for c round))
  unfolding new_pre_unit new_control_hash n_members n_parents
  makes_unit round fits allowed =
      let ps = parents_for c round in
      let vals = values-occupied ps in
      let counted = ap length vals ∙ length-occupied ps in
      record {
        coord = (omega arith, refl);
        members = NodeSubset.size-to_subset ps ∙ length-parents_for round allowed;
        n_parents_of = NodeSubset.length-elements-to_subset ps ∙ sym counted;
        combined = refl;
        parents_of = vals;
        initial = λ z. vals ∙ initial_parents round z;
        enough = λ pos. omega (arith, (later_parents round pos allowed).0, counted);
        own = λ pos. let (q, h, mine) = later_parents round pos allowed in (h, mine);
      }

  -- Of a valid creator of a member and a 16-bit round, a unit that is created has this node's
  -- coordinate for the round and a mask over all members, which marks as many parents as there are;
  -- its combined hash and its parents are those of the candidates of the round before, of which
  -- there is at least a quorum, with this node's own; in round 0 it has none.
  pub create_unit-Created :
      (round : Round) (unit : PreUnit H) (parents : List H)
      → round < 2 ^ 16
      → create_unit c round ≡ ok (some (unit, parents))
      → Created c round unit parents
  create_unit-Created round unit parents fits done =
      let made = ok_injective (sym (create_unit_lem c v member round) ∙ done) in
      elim (Bool-cases (can_have c round)) [
        | inl allowed ↦
            subst (λ (x : PreUnit H × List H). Created c round x.0 x.1)
              (some_injective (rw allowed at made)) (makes_unit round fits allowed)
        | inr idle ↦ let bad = (rw idle at made) in cc
      ]
