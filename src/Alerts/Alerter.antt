-- ===== src/Alerts/Alerter.antt =====
-- src/alerts.rs, `Alerter`: what the process keeps, and its handlers.
use aleph_bft.Prelude.{
  ℕ_discrete, Bool, true, false, ◌||◌, Option, none, some, List, [], ◌∷◌, ◌++◌, Eq, nat_eq, ite,
  if◌then◌else◌, Exec, ok, ◌>>=◌,
}
use aleph_bft.Prelude.HashMap
use aleph_bft.Prelude.HashMap.{HashMap}
use aleph_bft.Nodes.{NodeIndex}
use aleph_bft.Signed.{
  KeyBox, Signable, UncheckedSigned, Signed, valid, signature_error, check, sign, as_signable,
}
use aleph_bft.Units.{SessionId, UnitHasher}
use aleph_bft.Rmc
use aleph_bft.Rmc.{Message}
use aleph_bft.Alerts.{
  UncheckedSignedUnit, ForkProof, unit_signable, correct_commitment, who_is_forking,
}

-- `hash` is the cache behind the lock.
pub record Alert (H D S : Type 0) : Type 0 where
  pub sender : NodeIndex
  pub proof : ForkProof H D S
  pub legit_units : List (UncheckedSignedUnit H D S)
  pub hash : Option H

-- `H::hash` of what the codec makes of an alert; it skips the cached hash.
pub record AlertHasher (H D S : Type 0) : Type 0 where
  pub hash_alert : NodeIndex → ForkProof H D S → List (UncheckedSignedUnit H D S) → H

unfoldable pub alert_hash : {H D S : Type 0} ⦃a : AlertHasher H D S⦄ → Alert H D S → H
alert_hash ⦃a⦄ alert = elim alert.hash [
  | some hash ↦ hash
  | none ↦ a.hash_alert alert.sender alert.proof alert.legit_units
]

instance abbrev pub alert_signable :
    {H D S : Type 0} ⦃a : AlertHasher H D S⦄ → Signable (Alert H D S) H
alert_signable = record { signed_hash = alert_hash; index_of = λ alert. alert.sender }

-- The creator of the proof's first unit.
unfoldable pub forker_of : {H D S : Type 0} → Alert H D S → NodeIndex
forker_of alert = alert.proof.0.signable.pre_unit.coord.creator

pub data AlertMessage (H D S M : Type 0) : Type 0 where
  fork_alert : UncheckedSigned (Alert H D S) S → AlertMessage H D S M
  rmc_message : NodeIndex → Message H S M → AlertMessage H D S M
  alert_request : NodeIndex → H → AlertMessage H D S M

pub data Recipient : Type 0 where
  everyone : Recipient
  node : NodeIndex → Recipient

pub data ForkingNotification (H D S : Type 0) : Type 0 where
  forker : ForkProof H D S → ForkingNotification H D S
  units : List (UncheckedSignedUnit H D S) → ForkingNotification H D S

abbrev pub AlertId : Type 0
AlertId = NodeIndex × NodeIndex

unfoldable pub AlertId-discrete : Discrete AlertId
AlertId-discrete = hlevel ℕ_discrete

instance abbrev pub alert_id_eq : Eq AlertId
alert_id_eq = record { eq? = AlertId-discrete }

-- Of each channel the state keeps what was sent, oldest first, and whether the receiver listens;
-- `started` are the hashes for which a multicast was started.
pub record Alerter (H D S M : Type 0) : Type 0 where
  pub session_id : SessionId
  pub known_forkers : HashMap NodeIndex (ForkProof H D S)
  pub known_alerts : HashMap H (Signed (Alert H D S) S)
  pub known_rmcs : HashMap AlertId H
  pub started : List H
  pub for_network : List (AlertMessage H D S M × Recipient)
  pub network_open : Bool
  pub for_units : List (ForkingNotification H D S)
  pub units_open : Bool
  pub for_rmc : List (Message H S M)
  pub rmc_open : Bool
  pub exiting : Bool

module _ {H D S M : Type 0} where
  unfoldable pub send_notification_for_units :
      Alerter H D S M → ForkingNotification H D S → Alerter H D S M
  send_notification_for_units s notification =
      if s.units_open
      then record s { for_units = s.for_units ++ notification ∷ [] }
      else record s { exiting = true }

  unfoldable pub send_message_for_network :
      Alerter H D S M → AlertMessage H D S M → Recipient → Alerter H D S M
  send_message_for_network s message recipient =
      if s.network_open
      then record s { for_network = s.for_network ++ (message, recipient) ∷ [] }
      else record s { exiting = true }

  unfoldable pub is_forker : Alerter H D S M → NodeIndex → Bool
  unfolding HashMap.contains_key
  is_forker s node_id = HashMap.contains_key node_id s.known_forkers

  unfoldable pub on_new_forker_detected :
      Alerter H D S M → NodeIndex → ForkProof H D S → Alerter H D S M
  unfolding send_notification_for_units HashMap.insert
  on_new_forker_detected s node_id proof =
      send_notification_for_units
        (record s { known_forkers = HashMap.insert node_id proof s.known_forkers }) (forker proof)

  unfoldable pub rmc_message_to_network :
      Alerter H D S M → KeyBox H S → Message H S M → Alerter H D S M
  unfolding send_message_for_network
  rmc_message_to_network s key_box message =
      send_message_for_network s (rmc_message key_box.index message) everyone

module _ {H D S M : Type 0} ⦃e : Eq H⦄ ⦃a : AlertHasher H D S⦄ where
  unfoldable pub rmc_alert : Alerter H D S M → NodeIndex → Signed (Alert H D S) S → Alerter H D S M
  unfolding alert_hash as_signable HashMap.insert
  rmc_alert s node_id alert =
      let hash = alert_hash (as_signable alert) in
      record s {
        known_rmcs = HashMap.insert ((as_signable alert).sender, node_id) hash s.known_rmcs;
        known_alerts = HashMap.insert hash alert s.known_alerts;
        started = s.started ++ hash ∷ [];
      }

  unfoldable pub on_own_alert : Alerter H D S M → KeyBox H S → Alert H D S → Exec (Alerter H D S M)
  unfolding forker_of sign send_message_for_network rmc_alert HashMap.insert
  on_own_alert s key_box alert =
      let node_id = forker_of alert in
      let known = record s { known_forkers = HashMap.insert node_id alert.proof s.known_forkers } in
      do
        signed ← sign key_box alert
        ok (
            rmc_alert (send_message_for_network known (fork_alert signed.unchecked) everyone)
              node_id signed)

  unfoldable pub send_alert_to : Alerter H D S M → H → NodeIndex → Alerter H D S M
  unfolding send_message_for_network HashMap.get
  send_alert_to s hash node_id = elim (HashMap.get hash s.known_alerts) [
    | none ↦ s
    | some alert ↦ send_message_for_network s (fork_alert alert.unchecked) (node node_id)
  ]

  -- `known_rmcs.get(&alert_id) == Some(hash)`.
  unfoldable pub is_known_rmc : Alerter H D S M → AlertId → H → Bool
  unfolding HashMap.get
  is_known_rmc s alert_id hash = elim (HashMap.get alert_id s.known_rmcs) [
    | none ↦ false
    | some other ↦ ite (e.eq? other hash) true false
  ]

  unfoldable pub on_rmc_message :
      Alerter H D S M → KeyBox H S → NodeIndex → Message H S M → Alerter H D S M
  unfolding Rmc.hash Rmc.is_complete is_known_rmc forker_of as_signable send_message_for_network
      HashMap.get
  on_rmc_message s key_box sender message = elim (HashMap.get (Rmc.hash message) s.known_alerts) [
    | none ↦
        send_message_for_network s (alert_request key_box.index (Rmc.hash message)) (node sender)
    | some alert ↦
        let contents = as_signable alert in
        let forwarded =
          (if s.rmc_open
            then record s { for_rmc = s.for_rmc ++ message ∷ [] }
            else record s { exiting = true }) in
        if is_known_rmc s (contents.sender, forker_of contents) (Rmc.hash message)
          || Rmc.is_complete message
        then forwarded
        else s
  ]

module _ {H D S M : Type 0} ⦃e : Eq H⦄ ⦃d : Eq D⦄ ⦃u : UnitHasher H D⦄ ⦃a : AlertHasher H D S⦄ where
  -- `on_network_alert` after the check of the signature and the proof.
  unfoldable pub on_proven_alert :
      Alerter H D S M → NodeIndex → Signed (Alert H D S) S → Alerter H D S M
  unfolding is_forker on_new_forker_detected rmc_alert alert_hash as_signable HashMap.insert
      HashMap.contains_key
  on_proven_alert s node_id alert =
      let contents = as_signable alert in
      if HashMap.contains_key (contents.sender, node_id) s.known_rmcs
      then record s { known_alerts = HashMap.insert (alert_hash contents) alert s.known_alerts }
      else rmc_alert
          (if is_forker s node_id then s else on_new_forker_detected s node_id contents.proof)
          node_id alert

  unfoldable pub on_network_alert :
      Alerter H D S M → KeyBox H S → UncheckedSigned (Alert H D S) S → Alerter H D S M
  unfolding check who_is_forking as_signable on_proven_alert
  on_network_alert s key_box unchecked = elim (check key_box unchecked) [
    | signature_error _ ↦ s
    | valid alert ↦ elim (who_is_forking key_box s.session_id (as_signable alert).proof) [
      | none ↦ s
      | some node_id ↦ on_proven_alert s node_id alert
    ]
  ]

  unfoldable pub on_message : Alerter H D S M → KeyBox H S → AlertMessage H D S M → Alerter H D S M
  unfolding on_network_alert on_rmc_message send_alert_to
  on_message s key_box (fork_alert alert) = on_network_alert s key_box alert
  on_message s key_box (rmc_message sender message) = on_rmc_message s key_box sender message
  on_message s key_box (alert_request node_id hash) = send_alert_to s hash node_id

  -- `multisigned` is the hash whose multicast is complete.
  unfoldable pub alert_confirmed : Alerter H D S M → KeyBox H S → H → Alerter H D S M
  unfolding as_signable alert_hash forker_of correct_commitment send_notification_for_units
      HashMap.get HashMap.insert
  alert_confirmed s key_box multisigned = elim (HashMap.get multisigned s.known_alerts) [
    | none ↦ s
    | some signed ↦
        let alert = as_signable signed in
        let known = record s {
          known_rmcs =
              HashMap.insert (alert.sender, forker_of alert) (alert_hash alert) s.known_rmcs;
        } in
        if correct_commitment key_box (forker_of alert) alert.legit_units
        then send_notification_for_units known (units alert.legit_units)
        else known
  ]
