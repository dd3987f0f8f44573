-- ===== src/Runway/Accepted.antt =====
-- src/runway.rs: which units pass the validation.
use aleph_bft.Prelude.{
  ◌≤◌, ◌<◌, ◌≡◌, refl, ap, ◌∙◌, ◌↔◌, ◌⊎◌, inl, inr, Bool, true, false, Option, none, some, arith,
  ltb, leb, ◌==◌, ok, Bool-cases, get_elem?, get_elem?-some,
}
use aleph_bft.Nodes.NodeSubset
use aleph_bft.Signed.{check}
use aleph_bft.Units.{PreUnit, UnitHasher, n_parents, n_members}
use aleph_bft.Units.Store.{SignedUnit, full}
use aleph_bft.Alerts.{UncheckedSignedUnit, unit_signable}
use aleph_bft.Alerts.Claims.{verifies}
use aleph_bft.Runway.Message.{Keys}
use aleph_bft.Runway.State.{Runway}
use aleph_bft.Runway.Validate.{
  validate_pre_unit, validate_unit_parents, validate_signed, validate_unit,
}

module _ {H D S : Type 0} where
  -- A mask over all members; in round 0 no parents, later at least the threshold, with the creator's
  -- own unit.
  abbrev pub ParentsFit : Runway H D S → PreUnit H → Type 0
  ParentsFit s pre_unit =
      (n_members pre_unit.control_hash ≡ s.n_members)
      × ((pre_unit.coord.round ≡ 0) × (n_parents pre_unit.control_hash ≡ 0)
          ⊎ (0 < pre_unit.coord.round)
            × (s.threshold ≤ n_parents pre_unit.control_hash)
            × (get_elem? pre_unit.control_hash.parents_mask pre_unit.coord.creator ≡ some true))

  validate_pre_unit-fits :
      (s : Runway H D S) (pre_unit : PreUnit H)
      → pre_unit.coord.creator < s.n_members
      → (b : Bool) × (validate_pre_unit s pre_unit ≡ ok b) × ((b ≡ true) ↔ ParentsFit s pre_unit)
  unfolding validate_pre_unit n_members NodeSubset.size NodeSubset.contains
  validate_pre_unit-fits s pre_unit member =
      elim (Bool-cases (n_members pre_unit.control_hash == s.n_members)) [
        | inr other ↦ (false, ground arith, (λ h. cc, λ (fit, _). ground arith))
        | inl same ↦
            let (bit, at_bit) =
              get_elem?-some pre_unit.control_hash.parents_mask pre_unit.coord.creator
                (ground arith) in
            elim (Bool-cases (pre_unit.coord.round == 0)) [
              | inl zero ↦ elim (Bool-cases (ltb 0 (n_parents pre_unit.control_hash))) [
                | inl some_parents ↦ (false, ground arith, (λ h. cc, λ (_, fit). ground arith))
                | inr no_parents ↦ (
                  true,
                  ground arith,
                  (λ _. (ground arith, inl (ground arith, ground arith)), λ _. refl),
                )
              ]
              | inr later ↦ elim (Bool-cases (ltb (n_parents pre_unit.control_hash) s.threshold)) [
                | inl few ↦ (false, ground arith, (λ h. cc, λ (_, fit). ground arith))
                | inr enough ↦ (
                  bit,
                  ground arith,
                  (
                    λ own. (ground arith, inr (ground arith, ground arith, at_bit ∙ ap some own)),
                    λ (_, fit). ground arith,
                  ),
                )
              ]
            ]
      ]

  -- A unit of this session, of a round that is not too high, by a member, with fitting parents.
  abbrev pub IsAcceptable : Runway H D S → SignedUnit H D S → Type 0
  IsAcceptable s su =
      ((full su).session_id ≡ s.session_id)
      × ((full su).pre_unit.coord.round ≤ s.store.max_round)
      × ((full su).pre_unit.coord.creator < s.n_members)
      × ParentsFit s (full su).pre_unit

  validate_signed-accepts :
      (s : Runway H D S) (su : SignedUnit H D S)
      → (r : Option (SignedUnit H D S)) × (validate_signed s su ≡ ok r)
        × ((r ≡ some su) × IsAcceptable s su ⊎ (r ≡ none) × ¬ IsAcceptable s su)
  unfolding validate_signed validate_unit_parents
  validate_signed-accepts s su = elim (Bool-cases ((full su).session_id == s.session_id)) [
    | inr other ↦ (none, ground arith, inr (refl, λ (same, _, _, _). ground arith))
    | inl same ↦ elim (Bool-cases (ltb s.store.max_round (full su).pre_unit.coord.round)) [
      | inl high ↦ (none, ground arith, inr (refl, λ (_, low, _, _). ground arith))
      | inr low ↦ elim (Bool-cases (leb s.n_members (full su).pre_unit.coord.creator)) [
        | inl alien ↦ (none, ground arith, inr (refl, λ (_, _, member, _). ground arith))
        | inr member ↦
            let (b, done, fits) = validate_pre_unit-fits s (full su).pre_unit (ground arith) in
            elim (Bool-cases b) [
              | inl good ↦ (
                some su,
                ground arith,
                inl (refl, (ground arith, ground arith, ground arith, fits.0 good)),
              )
              | inr bad ↦
                  (none, ground arith, inr (refl, λ (_, _, _, fit). let no_fit = fits.1 fit in cc))
            ]
      ]
    ]
  ]

  -- The validation always returns; it accepts a unit exactly if its signature verifies under its
  -- creator's key and it is of this session, of a round up to the maximum, by a member, with a mask
  -- over all members that marks no parent in round 0, and later at least the threshold, the
  -- creator's own unit among them.
  pub validate_unit_accepts :
      ⦃h : UnitHasher H D⦄ (s : Runway H D S) (keys : Keys H D S) (uu : UncheckedSignedUnit H D S)
      → (r : Option (SignedUnit H D S)) × (validate_unit s keys uu ≡ ok r)
        × ((r ≡ some (record { unchecked = uu }))
              × (verifies keys.units uu ≡ true)
              × IsAcceptable s (record { unchecked = uu })
            ⊎ (r ≡ none)
              × ¬ ((verifies keys.units uu ≡ true) × IsAcceptable s (record { unchecked = uu })))
  unfolding validate_unit check
  validate_unit_accepts s keys uu = elim (Bool-cases (verifies keys.units uu)) [
    | inr bad ↦ (none, rw (validate_unit, check, bad) refl, inr (refl, λ (good, _). cc))
    | inl good ↦
        let (r, done, judged) = validate_signed-accepts s (record { unchecked = uu }) in
        (
          r,
          rw (validate_unit, check, good) done,
          elim judged [
            | inl (taken, fine) ↦ inl (taken, good, fine)
            | inr (left, not_fine) ↦ inr (left, λ (_, fine). not_fine fine)
          ],
        )
  ]
