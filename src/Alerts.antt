-- ===== src/Alerts.antt =====
-- src/alerts.rs: alerts, fork proofs, and the two checks of what an alert claims.
pub mod Alerter
pub mod Claims
pub mod Confirmed
pub mod Known
use aleph_bft.Prelude.{
  ℕ, ℕ_discrete, Bool, true, false, not, ◌||◌, ◌&&◌, Option, none, some, List, [], ◌∷◌, Eq, ite,
  if◌then◌else◌, ◌==◌,
}
use aleph_bft.Nodes.{NodeIndex}
use aleph_bft.Signed.{
  KeyBox, Signable, UncheckedSigned, Checked, valid, signature_error, check, as_signable,
}
use aleph_bft.Units.{
  Round, SessionId, UnitCoord, ControlHash, PreUnit, FullUnit, UnitHasher, hash_of,
}

abbrev pub UncheckedSignedUnit : Type 0 → Type 0 → Type 0 → Type 0
UncheckedSignedUnit H D S = UncheckedSigned (FullUnit H D) S

abbrev pub ForkProof : Type 0 → Type 0 → Type 0 → Type 0
ForkProof H D S = UncheckedSignedUnit H D S × UncheckedSignedUnit H D S

-- What is signed of a unit is its hash, by its creator.
instance abbrev pub unit_signable : {H D : Type 0} ⦃h : UnitHasher H D⦄ → Signable (FullUnit H D) H
unit_signable = record { signed_hash = hash_of; index_of = λ u. u.pre_unit.coord.creator }

abbrev pub same : {A : Type 0} ⦃e : Eq A⦄ → A → A → Bool
same ⦃e⦄ a b = ite (e.eq? a b) true false

abbrev pub same_mask : List Bool → List Bool → Bool
same_mask [] [] = true
same_mask (true ∷ a) (true ∷ b) = same_mask a b
same_mask (false ∷ a) (false ∷ b) = same_mask a b
same_mask _ _ = false

module _ {H D : Type 0} ⦃e : Eq H⦄ ⦃d : Eq D⦄ where
  -- The equality of units; the cached hash does not count.
  unfoldable pub same_unit : FullUnit H D → FullUnit H D → Bool
  same_unit u v =
      u.pre_unit.coord.round == v.pre_unit.coord.round
      && u.pre_unit.coord.creator == v.pre_unit.coord.creator
      && same_mask u.pre_unit.control_hash.parents_mask v.pre_unit.control_hash.parents_mask
      && same u.pre_unit.control_hash.combined_hash v.pre_unit.control_hash.combined_hash
      && same u.unit_data v.unit_data
      && u.session_id == v.session_id

-- `HashSet::contains` for the rounds that were seen.
abbrev pub seen : Round → List Round → Bool
seen r [] = false
seen r (q ∷ qs) = r == q || seen r qs

module _ {H D S : Type 0} ⦃h : UnitHasher H D⦄ where
  -- The loop of `correct_commitment`, with the rounds that were seen.
  unfoldable pub commitment_from :
      KeyBox H S → NodeIndex → List Round → List (UncheckedSignedUnit H D S) → Bool
  unfolding check as_signable
  commitment_from key_box forker rounds [] = true
  commitment_from key_box forker rounds (u ∷ us) = elim (check key_box u) [
    | signature_error _ ↦ false
    | valid su ↦
        let full_unit = as_signable su in
        let round = full_unit.pre_unit.coord.round in
        if not (full_unit.pre_unit.coord.creator == forker)
        then false
        else (if seen round rounds
            then false
            else commitment_from key_box forker (round ∷ rounds) us)
  ]

  unfoldable pub correct_commitment :
      KeyBox H S → NodeIndex → List (UncheckedSignedUnit H D S) → Bool
  unfolding commitment_from
  correct_commitment key_box forker units = commitment_from key_box forker [] units

module _ {H D : Type 0} ⦃e : Eq H⦄ ⦃d : Eq D⦄ where
  -- `who_is_forking` after the signatures.
  unfoldable pub forking_units : SessionId → FullUnit H D → FullUnit H D → Option NodeIndex
  forking_units session_id u1 u2 =
      if not (u1.session_id == session_id) || not (u2.session_id == session_id)
      then none
      else (if same_unit u1 u2
          then none
          else (if not (u1.pre_unit.coord.creator == u2.pre_unit.coord.creator)
              then none
              else (if not (u1.pre_unit.coord.round == u2.pre_unit.coord.round)
                  then none
                  else some u1.pre_unit.coord.creator)))

module _ {H D S : Type 0} ⦃e : Eq H⦄ ⦃d : Eq D⦄ ⦃h : UnitHasher H D⦄ where
  unfoldable pub who_is_forking : KeyBox H S → SessionId → ForkProof H D S → Option NodeIndex
  unfolding check as_signable forking_units
  who_is_forking key_box session_id (u1, u2) = elim (check key_box u1) [
    | signature_error _ ↦ none
    | valid s1 ↦ elim (check key_box u2) [
      | signature_error _ ↦ none
      | valid s2 ↦ forking_units session_id (as_signable s1) (as_signable s2)
    ]
  ]
