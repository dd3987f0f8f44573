-- ===== src/Runway/Receive.antt =====
-- src/runway.rs: units that arrive, and the forks that they reveal.
use aleph_bft.Prelude.{
  Bool, true, false, none, some, List, [], ◌∷◌, map, Eq, if◌then◌else◌, Exec, ok, ◌>>=◌, send,
  exiting_after,
}
use aleph_bft.Nodes.{NodeIndex}
use aleph_bft.Units.{UnitHasher}
use aleph_bft.Units.Store
use aleph_bft.Units.Store.{SignedUnit, full, coord_of}
use aleph_bft.Alerts.{UncheckedSignedUnit, ForkProof, unit_signable}
use aleph_bft.Alerts.Alerter.{Alert, ForkingNotification, forker, units}
use aleph_bft.Runway.Message.{Keys}
use aleph_bft.Runway.State.{Runway, resolve_missing_coord}
use aleph_bft.Runway.Validate.{validate_unit}

module _ {H D S : Type 0} where
  unfoldable pub form_alert : Runway H D S → ForkProof H D S → List (SignedUnit H D S) → Alert H D S
  form_alert s proof sus = record {
    sender = s.node_ix;
    proof = proof;
    legit_units = map (λ su. su.unchecked) sus;
    hash = none;
  }

  unfoldable pub on_new_forker_detected :
      Runway H D S → NodeIndex → ForkProof H D S → Exec (Runway H D S)
  unfolding Store.mark_forker form_alert
  on_new_forker_detected s node_id proof = do
    (alerted_units, store) ← Store.mark_forker s.store node_id
    ok (record s {
      store = store;
      alerts_for_alerter = send s.alerts_for_alerter (form_alert s proof alerted_units);
      exiting = exiting_after s.alerts_for_alerter s.exiting;
    })

module _ {H D S : Type 0} ⦃e : Eq H⦄ ⦃h : UnitHasher H D⦄ where
  -- A fork: the node is not marked yet, as the code asks again.
  unfoldable pub on_fork : Runway H D S → SignedUnit H D S → SignedUnit H D S → Exec (Runway H D S)
  unfolding Store.is_forker on_new_forker_detected
  on_fork s su sv = do
    marked ← Store.is_forker s.store (coord_of (full su)).creator
    (if marked
        then ok s
        else on_new_forker_detected s (coord_of (full su)).creator (su.unchecked, sv.unchecked))

  unfoldable pub store_unit : Runway H D S → SignedUnit H D S → Bool → Exec (Runway H D S)
  unfolding Store.add_unit
  store_unit s su alert = do
    store ← Store.add_unit s.store su alert
    ok (record s { store = store })

  unfoldable pub add_unit_to_store_unless_fork :
      Runway H D S → SignedUnit H D S → Exec (Runway H D S)
  unfolding Store.is_forker Store.is_new_fork on_fork store_unit
  add_unit_to_store_unless_fork s su = do
    marked ← Store.is_forker s.store (coord_of (full su)).creator
    (if marked then ok s else elim (Store.is_new_fork s.store (full su)) [
      | some sv ↦ on_fork s su sv
      | none ↦ store_unit s su false
    ])

  unfoldable pub on_unit_received :
      Runway H D S → Keys H D S → UncheckedSignedUnit H D S → Bool → Exec (Runway H D S)
  unfolding validate_unit resolve_missing_coord store_unit add_unit_to_store_unless_fork
  on_unit_received s keys uu alert = do
    validated ← validate_unit s keys uu
    elim validated [
      | none ↦ ok s
      | some su ↦
          let resolved = resolve_missing_coord s (coord_of (full su)) in
          if alert then store_unit resolved su true else add_unit_to_store_unless_fork resolved su
    ]

  -- The loop over the units of an alert.
  unfoldable pub on_alerted_units :
      Runway H D S → Keys H D S → List (UncheckedSignedUnit H D S) → Exec (Runway H D S)
  unfolding on_unit_received
  on_alerted_units s keys [] = ok s
  on_alerted_units s keys (uu ∷ uus) = do
    s' ← on_unit_received s keys uu true
    on_alerted_units s' keys uus

  unfoldable pub on_alert_notification :
      Runway H D S → Keys H D S → ForkingNotification H D S → Exec (Runway H D S)
  unfolding Store.is_forker on_new_forker_detected on_alerted_units
  on_alert_notification s keys (forker proof) = do
    let node_id = proof.0.signable.pre_unit.coord.creator
    marked ← Store.is_forker s.store node_id
    (if marked then ok s else on_new_forker_detected s node_id proof)
  on_alert_notification s keys (units uus) = on_alerted_units s keys uus
