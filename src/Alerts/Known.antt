-- ===== src/Alerts/Known.antt =====
-- src/alerts.rs: the forkers that the alerter knows, and what its handlers report.
use aleph_bft.Prelude.{
  ◌≡◌, refl, sym, ap, ◌∙◌, ◌⊎◌, inl, inr, false, some, [], ◌∷◌, ◌++◌, Eq, arith, Bool-cases,
  Option-cases, if◌then◌else◌, nat_eq, ℕ_discrete, some_injective,
}
use aleph_bft.Prelude.HashMap
use aleph_bft.Nodes.{NodeIndex}
use aleph_bft.Signed.{KeyBox, UncheckedSigned, Signed, check, as_signable}
use aleph_bft.Units.{UnitHasher}
use aleph_bft.Rmc.{Message}
use aleph_bft.Alerts.{ForkProof, who_is_forking}
use aleph_bft.Alerts.Claims.{IsFork, who_is_forking_iff}
use aleph_bft.Alerts.Alerter.{
  Alert, AlertHasher, AlertMessage, fork_alert, rmc_message, alert_request, forker, Alerter,
  Recipient, node, alert_hash, alert_id_eq, is_forker, on_new_forker_detected,
  send_notification_for_units, send_message_for_network, rmc_alert, send_alert_to, on_rmc_message,
  on_proven_alert, on_network_alert, on_message,
}

module _ {H D S M : Type 0} ⦃e : Eq H⦄ ⦃d : Eq D⦄ ⦃u : UnitHasher H D⦄ ⦃a : AlertHasher H D S⦄
    (key_box : KeyBox H S) where
  -- The proof that is kept for a known forker proves a fork by it.
  pub record IsProven (s : Alerter H D S M) : Type 0 where
    pub proven :
        (node_id : NodeIndex) (proof : ForkProof H D S)
        → HashMap.get node_id s.known_forkers ≡ some proof
        → IsFork key_box s.session_id node_id proof

  -- What a message does to the forkers that are known and to what is reported: nothing, or one node,
  -- not known before, becomes known and is reported by a proof.
  abbrev pub Change : Alerter H D S M → Alerter H D S M → Type 0
  Change s s' =
      (s'.known_forkers ≡ s.known_forkers) × (s'.for_units ≡ s.for_units)
      ⊎ (node_id : NodeIndex) × (proof : ForkProof H D S) × IsFork key_box s.session_id node_id
          proof
        × (is_forker s node_id ≡ false)
        × (s'.known_forkers ≡ HashMap.insert node_id proof s.known_forkers)
        × (s'.for_units ≡ (if s.units_open then s.for_units ++ forker proof ∷ [] else s.for_units))

  -- The session stays, with such a change.
  abbrev pub Reports : Alerter H D S M → Alerter H D S M → Type 0
  Reports s s' = (s'.session_id ≡ s.session_id) × Change s s'

  -- Nothing happens to the forkers that are known, nor to what is reported.
  abbrev Quiet : Alerter H D S M → Alerter H D S M → Type 0
  Quiet s s' =
      (s'.session_id ≡ s.session_id)
      × (s'.known_forkers ≡ s.known_forkers)
      × (s'.for_units ≡ s.for_units)

  send_message_for_network-Quiet :
      (s : Alerter H D S M) (message : AlertMessage H D S M) (to : Recipient)
      → Quiet s (send_message_for_network s message to)
  unfolding send_message_for_network
  send_message_for_network-Quiet s message to = (ground arith, ground arith, ground arith)

  send_alert_to-Quiet :
      (s : Alerter H D S M) (hash : H) (node_id : NodeIndex)
      → Quiet s (send_alert_to s hash node_id)
  unfolding send_alert_to
  send_alert_to-Quiet s hash node_id = elim (Option-cases (HashMap.get hash s.known_alerts)) [
    | inl missing ↦ rw (send_alert_to, missing) (refl, refl, refl)
    | inr (alert, found) ↦
        rw (send_alert_to, found)
          (send_message_for_network-Quiet s (fork_alert alert.unchecked) (node node_id))
  ]

  on_rmc_message-Quiet :
      (s : Alerter H D S M) (sender : NodeIndex) (message : Message H S M)
      → Quiet s (on_rmc_message s key_box sender message)
  unfolding on_rmc_message send_message_for_network
  on_rmc_message-Quiet s sender message = (ground arith, ground arith, ground arith)

  Quiet-Reports : (s s' : Alerter H D S M) → Quiet s s' → Reports s s'
  Quiet-Reports s s' (same_session, same_known, same_units) =
      (same_session, inl (same_known, same_units))

  on_proven_alert-Reports :
      (s : Alerter H D S M) (node_id : NodeIndex) (alert : Signed (Alert H D S) S)
      → IsFork key_box s.session_id node_id alert.unchecked.signable.proof
      → Reports s (on_proven_alert s node_id alert)
  unfolding on_proven_alert on_new_forker_detected send_notification_for_units rmc_alert as_signable
  on_proven_alert-Reports s node_id alert fork =
      elim (Bool-cases
        (HashMap.contains_key (alert.unchecked.signable.sender, node_id) s.known_rmcs)) [
          | inl known ↦ (ground arith, inl (ground arith, ground arith))
          | inr new ↦ elim (Bool-cases (is_forker s node_id)) [
            | inl old ↦ (ground arith, inl (ground arith, ground arith))
            | inr fresh ↦ (
              ground arith,
              inr (
                node_id,
                alert.unchecked.signable.proof,
                fork,
                fresh,
                ground arith,
                ground arith,
              ),
            )
          ]
        ]

  on_network_alert-Reports :
      (s : Alerter H D S M) (unchecked : UncheckedSigned (Alert H D S) S)
      → Reports s (on_network_alert s key_box unchecked)
  unfolding on_network_alert check as_signable
  on_network_alert-Reports s unchecked =
      elim (Bool-cases (
        key_box.verify (alert_hash unchecked.signable) unchecked.signature
          unchecked.signable.sender)) [
            | inl good ↦
                elim (Option-cases (who_is_forking key_box s.session_id unchecked.signable.proof)) [
                  | inl none_forks ↦ (ground arith, inl (ground arith, ground arith))
                  | inr (node_id, forks) ↦
                      let reports =
                        on_proven_alert-Reports s node_id (record { unchecked = unchecked })
                          ((who_is_forking_iff key_box s.session_id unchecked.signable.proof
                              node_id).0
                            forks) in
                      rw (on_network_alert, check, good, forks) reports
                ]
            | inr bad ↦ (ground arith, inl (ground arith, ground arith))
          ]

  -- A message makes at most one node a known forker: one that was not known, on two differing units
  -- of it of this session and of one round that verify; the proof, and nothing else, is then
  -- reported if the receiver listens.
  pub on_message-Reports :
      (s : Alerter H D S M) (message : AlertMessage H D S M)
      → Reports s (on_message s key_box message)
  unfolding on_message
  on_message-Reports s (fork_alert alert) = on_network_alert-Reports s alert
  on_message-Reports s (rmc_message sender message) =
      Quiet-Reports s (on_rmc_message s key_box sender message)
        (on_rmc_message-Quiet s sender message)
  on_message-Reports s (alert_request node_id hash) =
      Quiet-Reports s (send_alert_to s hash node_id) (send_alert_to-Quiet s hash node_id)

  forkers_proven_after :
      (s : Alerter H D S M)
      → IsProven s
      → (s' : Alerter H D S M) (node_id : NodeIndex) (proof : ForkProof H D S)
      → HashMap.get node_id s'.known_forkers ≡ some proof
      → Change s s'
      → IsFork key_box s.session_id node_id proof
  forkers_proven_after s v s' node_id proof found (inl (same_known, _)) =
      v.proven node_id proof (ap (HashMap.get node_id) (sym same_known) ∙ found)
  forkers_proven_after s v s' node_id proof found (inr (known_id, known_proof, fork, _, grown, _)) =
      elim (ℕ_discrete known_id node_id) [
        | yes is_id ↦
            let kept = HashMap.get-insert_self known_id known_proof s.known_forkers in
            let moved =
              ap (λ k. HashMap.get k (HashMap.insert known_id known_proof s.known_forkers)) is_id in
            let is_proof : known_proof ≡ proof =
              some_injective (sym kept ∙ moved ∙ ap (HashMap.get node_id) (sym grown) ∙ found) in
            rw (← is_id, ← is_proof) fork
        | no other ↦ v.proven node_id proof (
            sym (HashMap.get-insert_ne known_id node_id known_proof s.known_forkers other)
            ∙ ap (HashMap.get node_id) (sym grown)
            ∙ found)
      ]

  -- Every message keeps it so that each known forker is kept with a proof of a fork by it.
  pub on_message-IsProven :
      (s : Alerter H D S M) (message : AlertMessage H D S M)
      → IsProven s
      → IsProven (on_message s key_box message)
  on_message-IsProven s message v = record { proven = kept_proof }
    where
      kept_proof :
          (node_id : NodeIndex) (proof : ForkProof H D S)
          → HashMap.get node_id (on_message s key_box message).known_forkers ≡ some proof
          → IsFork key_box (on_message s key_box message).session_id node_id proof
      kept_proof node_id proof found =
          let (same_session, what) = on_message-Reports s message in
          rw same_session
            (forkers_proven_after s v (on_message s key_box message) node_id proof found what)
