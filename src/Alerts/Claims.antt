-- ===== src/Alerts/Claims.antt =====
-- src/alerts.rs: which proofs of a fork, and which commitments to units, the two checks accept.
use aleph_bft.Prelude.{
  ◌≡◌, refl, sym, ap, ◌∙◌, ◌↔◌, inl, inr, Bool, true, false, some, List, [], ◌∷◌, Eq, arith,
  Bool-cases,
}
use aleph_bft.Nodes.{NodeIndex}
use aleph_bft.Signed.{KeyBox, check, as_signable}
use aleph_bft.Units.{PreUnit, Round, SessionId, FullUnit, UnitHasher, hash_of}
use aleph_bft.Alerts.{
  UncheckedSignedUnit, ForkProof, unit_signable, same_unit, same, same_mask, seen, commitment_from,
  correct_commitment, forking_units, who_is_forking,
}

pub same_iff : {A : Type 0} ⦃e : Eq A⦄ (a b : A) → (same a b ≡ true) ↔ (a ≡ b)
same_iff a b = (λ h. ground arith, λ h. ground arith)

same_mask_iff : (a b : List Bool) → (same_mask a b ≡ true) ↔ (a ≡ b)
same_mask_iff [] [] = (λ _. refl, λ _. refl)
same_mask_iff [] (x ∷ b) = (λ h. cc, λ h. cc)
same_mask_iff (true ∷ a) [] = (λ h. cc, λ h. cc)
same_mask_iff (false ∷ a) [] = (λ h. cc, λ h. cc)
same_mask_iff (true ∷ a) (true ∷ b) =
    let (f, g) = same_mask_iff a b in (λ h. ap (◌∷◌ true) (f h), λ h. g (tails h))
  where
    tails : true ∷ a ≡ true ∷ b → a ≡ b
    tails h = cc
same_mask_iff (false ∷ a) (false ∷ b) =
    let (f, g) = same_mask_iff a b in (λ h. ap (◌∷◌ false) (f h), λ h. g (tails h))
  where
    tails : false ∷ a ≡ false ∷ b → a ≡ b
    tails h = cc
same_mask_iff (true ∷ a) (false ∷ b) = (λ h. cc, λ h. cc)
same_mask_iff (false ∷ a) (true ∷ b) = (λ h. cc, λ h. cc)

module _ {H D : Type 0} ⦃e : Eq H⦄ ⦃d : Eq D⦄ where
  -- Equal units have the same contents; only the cached hash may differ.
  same_unit_iff :
      (u v : FullUnit H D)
      → (same_unit u v ≡ true)
        ↔ (u.pre_unit ≡ v.pre_unit) × (u.unit_data ≡ v.unit_data) × (u.session_id ≡ v.session_id)
  unfolding same_unit
  same_unit_iff u v =
      let mask =
        same_mask_iff u.pre_unit.control_hash.parents_mask v.pre_unit.control_hash.parents_mask in
      let combined =
        same_iff u.pre_unit.control_hash.combined_hash v.pre_unit.control_hash.combined_hash in
      let content = same_iff u.unit_data v.unit_data in
      (
        λ h. (
          ext u.pre_unit v.pre_unit (ground arith) (ground arith) (mask.0 (ground arith))
              (combined.0 (ground arith)),
          content.0 (ground arith),
          ground arith,
        ),
        λ (p, q, r). rw p (
            rw q (
              rw r
                (ground (arith, (same_mask_iff v.pre_unit.control_hash.parents_mask _).1 refl)))),
      )
    where
      ext :
          (p q : PreUnit H)
          → p.coord.round ≡ q.coord.round
          → p.coord.creator ≡ q.coord.creator
          → p.control_hash.parents_mask ≡ q.control_hash.parents_mask
          → p.control_hash.combined_hash ≡ q.control_hash.combined_hash
          → p ≡ q
      ext p q a b c d = cc

module _ {H D S : Type 0} ⦃h : UnitHasher H D⦄ where
  -- The unit's signature verifies under its creator's key.
  abbrev pub verifies : KeyBox H S → UncheckedSignedUnit H D S → Bool
  verifies key_box u =
      key_box.verify (hash_of u.signable) u.signature u.signable.pre_unit.coord.creator

  -- Units of the forker that verify, each of a round that is neither in `rounds` nor of another.
  abbrev pub IsCommitment :
      KeyBox H S → NodeIndex → List Round → List (UncheckedSignedUnit H D S) → Type 0
  IsCommitment key_box forker rounds [] = Unit
  IsCommitment key_box forker rounds (u ∷ us) =
      (verifies key_box u ≡ true)
      × (u.signable.pre_unit.coord.creator ≡ forker)
      × (seen u.signable.pre_unit.coord.round rounds ≡ false)
      × IsCommitment key_box forker (u.signable.pre_unit.coord.round ∷ rounds) us

  commitment_from_iff :
      (key_box : KeyBox H S) (forker : NodeIndex) (rounds : List Round)
      (us : List (UncheckedSignedUnit H D S))
      → (commitment_from key_box forker rounds us ≡ true) ↔ IsCommitment key_box forker rounds us
  unfolding commitment_from check as_signable
  commitment_from_iff key_box forker rounds [] = (λ _. tt, λ _. refl)
  commitment_from_iff key_box forker rounds (u ∷ us) =
      let rest = commitment_from_iff key_box forker (u.signable.pre_unit.coord.round ∷ rounds) us in
      (λ good. ground (arith, rest.0), λ (v, c, r, rs). ground (arith, rest.1 rs))

  -- A commitment is accepted exactly when each of its units verifies and is of the forker, and no
  -- two are of one round; nothing bounds how many they are.
  pub correct_commitment_iff :
      (key_box : KeyBox H S) (forker : NodeIndex) (units : List (UncheckedSignedUnit H D S))
      → (correct_commitment key_box forker units ≡ true) ↔ IsCommitment key_box forker [] units
  unfolding correct_commitment
  correct_commitment_iff key_box forker units = commitment_from_iff key_box forker [] units

module _ {H D S : Type 0} ⦃e : Eq H⦄ ⦃d : Eq D⦄ ⦃h : UnitHasher H D⦄ where
  forking_iff :
      (key_box : KeyBox H S) (session_id : SessionId) (u1 u2 : UncheckedSignedUnit H D S)
      (forker : NodeIndex)
      → (who_is_forking key_box session_id (u1, u2) ≡ some forker)
        ↔ (verifies key_box u1 ≡ true)
          × (verifies key_box u2 ≡ true)
          × (u1.signable.session_id ≡ session_id)
          × (u2.signable.session_id ≡ session_id)
          × (u1.signable.pre_unit.coord.creator ≡ forker)
          × (u2.signable.pre_unit.coord.creator ≡ forker)
          × (u1.signable.pre_unit.coord.round ≡ u2.signable.pre_unit.coord.round)
          × (same_unit u1.signable u2.signable ≡ false)
  unfolding who_is_forking forking_units check as_signable
  forking_iff key_box session_id u1 u2 forker =
      (λ found. ground arith, λ (v1, v2, s1, s2, c1, c2, r, ne). ground arith)

  -- What a proof of a fork by `forker` is: two units of it, of the session and of one round, that
  -- verify and differ.
  abbrev pub IsFork : KeyBox H S → SessionId → NodeIndex → ForkProof H D S → Type 0
  IsFork key_box session_id forker (u1, u2) =
      (verifies key_box u1 ≡ true)
      × (verifies key_box u2 ≡ true)
      × (u1.signable.session_id ≡ session_id)
      × (u2.signable.session_id ≡ session_id)
      × (u1.signable.pre_unit.coord.creator ≡ forker)
      × (u2.signable.pre_unit.coord.creator ≡ forker)
      × (u1.signable.pre_unit.coord.round ≡ u2.signable.pre_unit.coord.round)
      × ¬ (
          (u1.signable.pre_unit ≡ u2.signable.pre_unit)
          × (u1.signable.unit_data ≡ u2.signable.unit_data))

  -- A node is found to fork exactly on a proof of a fork by it: two units of it, of this session and
  -- of one round, that verify and differ.
  pub who_is_forking_iff :
      (key_box : KeyBox H S) (session_id : SessionId) (proof : ForkProof H D S) (forker : NodeIndex)
      → (who_is_forking key_box session_id proof ≡ some forker)
        ↔ IsFork key_box session_id forker proof
  who_is_forking_iff key_box session_id (u1, u2) forker =
      let (there, back) = forking_iff key_box session_id u1 u2 forker in
      let equal = same_unit_iff u1.signable u2.signable in
      (
        λ found.
            let (v1, v2, s1, s2, c1, c2, r, ne) = there found in
            (v1, v2, s1, s2, c1, c2, r, λ (p, q). let bad = equal.1 (p, q, s1 ∙ sym s2) in cc),
        λ (v1, v2, s1, s2, c1, c2, r, differ). back (
          v1,
          v2,
          s1,
          s2,
          c1,
          c2,
          r,
          elim (Bool-cases (same_unit u1.signable u2.signable)) [
            | inl eq ↦ let (p, q, _) = equal.0 eq in absurd (differ (p, q))
            | inr ne ↦ ne
          ],
        ),
      )
