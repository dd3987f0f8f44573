-- ===== src/Runway/Validate.antt =====
-- src/runway.rs: the validation of a unit that arrives.
use aleph_bft.Prelude.{
  Bool, true, false, not, ◌&&◌, Option, none, some, if◌then◌else◌, ltb, leb, ◌==◌, Exec, ok, ◌>>=◌,
}
use aleph_bft.Nodes.NodeSubset
use aleph_bft.Signed.{valid, signature_error, check}
use aleph_bft.Units.{PreUnit, UnitHasher, n_parents, n_members}
use aleph_bft.Units.Store.{SignedUnit, limit_per_node, full}
use aleph_bft.Alerts.{UncheckedSignedUnit, unit_signable}
use aleph_bft.Runway.Message.{Keys}
use aleph_bft.Runway.State.{Runway}

module _ {H D S : Type 0} where
  unfoldable pub validate_pre_unit : Runway H D S → PreUnit H → Exec Bool
  unfolding n_members n_parents NodeSubset.contains
  validate_pre_unit s pre_unit =
      let round = pre_unit.coord.round in
      if not (n_members pre_unit.control_hash == s.n_members)
      then ok false
      else (if round == 0 && ltb 0 (n_parents pre_unit.control_hash)
          then ok false
          else (if ltb 0 round && ltb (n_parents pre_unit.control_hash) s.threshold
              then ok false
              else (if ltb 0 round
                  then NodeSubset.contains pre_unit.control_hash.parents_mask pre_unit.coord.creator
                  else ok true)))

  unfoldable pub validate_unit_parents : Runway H D S → SignedUnit H D S → Exec Bool
  unfolding validate_pre_unit
  validate_unit_parents s su = validate_pre_unit s (full su).pre_unit

  -- `validate_unit` after the signature.
  unfoldable pub validate_signed :
      Runway H D S → SignedUnit H D S → Exec (Option (SignedUnit H D S))
  unfolding validate_unit_parents limit_per_node
  validate_signed s su =
      let full_unit = full su in
      if not (full_unit.session_id == s.session_id)
      then ok none
      else (if ltb (limit_per_node s.store) full_unit.pre_unit.coord.round
          then ok none
          else (if leb s.n_members full_unit.pre_unit.coord.creator
              then ok none
              else (do good ← validate_unit_parents s su; ok (if good then some su else none))))

  unfoldable pub validate_unit :
      ⦃h : UnitHasher H D⦄
      → Runway H D S
      → Keys H D S
      → UncheckedSignedUnit H D S
      → Exec (Option (SignedUnit H D S))
  unfolding check validate_signed
  validate_unit s keys uu = elim (check keys.units uu) [
    | signature_error _ ↦ ok none
    | valid su ↦ validate_signed s su
  ]
