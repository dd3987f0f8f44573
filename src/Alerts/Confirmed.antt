-- ===== src/Alerts/Confirmed.antt =====
-- src/alerts.rs: the end of the multicast of an alert.
use aleph_bft.Prelude.{
  ◌≡◌, sym, ap, ◌∙◌, ◌⊎◌, inl, inr, true, false, some, ◌≢◌, [], ◌∷◌, ◌++◌, Eq, arith, Bool-cases,
  nat_eq,
}
use aleph_bft.Prelude.HashMap
use aleph_bft.Nodes.{NodeIndex}
use aleph_bft.Signed.{KeyBox, Signed, as_signable}
use aleph_bft.Units.{UnitHasher}
use aleph_bft.Rmc
use aleph_bft.Rmc.{Message}
use aleph_bft.Alerts.{correct_commitment}
use aleph_bft.Alerts.Claims.{IsCommitment, correct_commitment_iff}
use aleph_bft.Alerts.Alerter.{
  Alert, AlertHasher, units, Alerter, alert_hash, AlertId, alert_id_eq, is_known_rmc,
  send_notification_for_units, on_rmc_message, alert_confirmed, forker_of,
}

-- Under what the multicast of an alert is registered: its sender, and the creator of the first unit
-- of its proof.
abbrev pub alert_id : {H D S : Type 0} → Signed (Alert H D S) S → AlertId
alert_id alert = (
  alert.unchecked.signable.sender, alert.unchecked.signable.proof.0.signable.pre_unit.coord.creator,
)

module _ {H D S M : Type 0} ⦃e : Eq H⦄ ⦃d : Eq D⦄ ⦃u : UnitHasher H D⦄ ⦃a : AlertHasher H D S⦄
    (key_box : KeyBox H S) where
  on_rmc_message-forwards :
      (s : Alerter H D S M) (alert : Signed (Alert H D S) S) (sender : NodeIndex)
      (message : Message H S M)
      → HashMap.get (Rmc.hash message) s.known_alerts ≡ some alert
      → HashMap.get (alert_id alert) s.known_rmcs ≡ some (Rmc.hash message)
      → s.rmc_open ≡ true
      → (on_rmc_message s key_box sender message).for_rmc ≡ s.for_rmc ++ message ∷ []
  unfolding on_rmc_message is_known_rmc forker_of as_signable
  on_rmc_message-forwards s alert sender message found known open_ch = ground arith

  -- What the end of the multicast of `multisigned` makes of `s`, where the alert of this hash is
  -- known.
  pub record IsConfirmed (s : Alerter H D S M) (multisigned : H) (alert : Signed (Alert H D S) S)
      (s' : Alerter H D S M) : Type 0 where
    pub registered :
        HashMap.get (alert_id alert) s'.known_rmcs ≡ some (alert_hash alert.unchecked.signable)
    pub others_kept :
        (id : AlertId)
        → alert_id alert ≢ id
        → HashMap.get id s'.known_rmcs ≡ HashMap.get id s.known_rmcs
    pub same_forkers : s'.known_forkers ≡ s.known_forkers
    pub same_alerts : s'.known_alerts ≡ s.known_alerts
    pub passed :
        IsCommitment key_box (alert_id alert).1 [] alert.unchecked.signable.legit_units
          × ((s.units_open ≡ true)
                × (s'.for_units ≡ s.for_units ++ units alert.unchecked.signable.legit_units ∷ [])
                × (s'.exiting ≡ s.exiting)
              ⊎ (s.units_open ≡ false) × (s'.for_units ≡ s.for_units) × (s'.exiting ≡ true))
        ⊎ ¬ IsCommitment key_box (alert_id alert).1 [] alert.unchecked.signable.legit_units
          × (s'.for_units ≡ s.for_units)
          × (s'.exiting ≡ s.exiting)
    pub forwards :
        (sender : NodeIndex) (message : Message H S M)
        → Rmc.hash message ≡ multisigned
        → alert_hash alert.unchecked.signable ≡ multisigned
        → s.rmc_open ≡ true
        → (on_rmc_message s' key_box sender message).for_rmc ≡ s.for_rmc ++ message ∷ []

  pub confirmed :
      (s : Alerter H D S M) (multisigned : H) (alert : Signed (Alert H D S) S)
      → HashMap.get multisigned s.known_alerts ≡ some alert
      → IsConfirmed s multisigned alert (alert_confirmed s key_box multisigned)
  unfolding alert_confirmed send_notification_for_units as_signable forker_of
  confirmed s multisigned alert known =
      let contents = alert.unchecked.signable in
      let node_id = contents.proof.0.signable.pre_unit.coord.creator in
      let (there, back) = correct_commitment_iff key_box node_id contents.legit_units in
      let s' = alert_confirmed s key_box multisigned in
      let grown : s'.known_rmcs
          ≡ HashMap.insert (alert_id alert) (alert_hash contents) s.known_rmcs =
        ground arith in
      let registered : HashMap.get (alert_id alert) s'.known_rmcs ≡ some (alert_hash contents) =
        ap (HashMap.get (alert_id alert)) grown
        ∙ HashMap.get-insert_self (alert_id alert) (alert_hash contents) s.known_rmcs in
      let same_alerts : s'.known_alerts ≡ s.known_alerts = ground arith in
      let same_rmc : (s'.for_rmc ≡ s.for_rmc) × (s'.rmc_open ≡ s.rmc_open) =
        (ground arith, ground arith) in
      record {
        registered = registered;
        others_kept = λ id other.
            ap (HashMap.get id) grown
            ∙ HashMap.get-insert_ne (alert_id alert) id (alert_hash contents) s.known_rmcs other;
        same_forkers = ground arith;
        same_alerts = same_alerts;
        passed = elim (Bool-cases (correct_commitment key_box node_id contents.legit_units)) [
          | inl accepted ↦ inl (
            there accepted,
            elim (Bool-cases s.units_open) [
              | inl listens ↦ inl (listens, ground arith, ground arith)
              | inr gone ↦ inr (gone, ground arith, ground arith)
            ],
          )
          | inr refused ↦ inr (λ good. let bad = back good in cc, ground arith, ground arith)
        ];
        forwards = λ sender message is_hash own_hash open_rmc.
            on_rmc_message-forwards s' alert sender message
              (ap (λ q. HashMap.get q s'.known_alerts) is_hash
                ∙ ap (HashMap.get multisigned) same_alerts
                ∙ known)
              (registered ∙ ap some (own_hash ∙ sym is_hash)) (same_rmc.1 ∙ open_rmc)
            ∙ ap (λ l. l ++ message ∷ []) same_rmc.0;
      }
