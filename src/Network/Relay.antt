-- ===== src/Network/Relay.antt =====
-- src/network.rs: what a run of the hub passes on.
use mathlib.Core.List.{append_assoc, append-nil}
use aleph_bft.Prelude.{
  inl, inr, ◌≡◌, refl, sym, ap, ◌∙◌, Bool, Bool-cases, true, false, Option, none, some, List, [],
  ◌∷◌, ◌++◌, if◌then◌else◌, Channel, send,
}
use aleph_bft.Alerts.Alerter.{AlertMessage, Recipient}
use aleph_bft.Runway.Message.{UnitMessage}
use aleph_bft.Network.{
  NetworkData, units, alert, NetworkHub, HubEvent, unit_to_send, alert_to_send, incoming,
  exit_signal, run,
}

module _ {A B : Type 0} where
  abbrev pub filter_map : (A → Option B) → List A → List B
  filter_map f [] = []
  filter_map f (a ∷ rest) = elim (f a) [ none ↦ filter_map f rest | some b ↦ b ∷ filter_map f rest ]

module _ {H D S M : Type 0} where
  abbrev pub is_last : HubEvent H D S M → Bool
  is_last (unit_to_send (some m)) = false
  is_last (unit_to_send none) = true
  is_last (alert_to_send (some m)) = false
  is_last (alert_to_send none) = true
  is_last (incoming (some m)) = false
  is_last (incoming none) = true
  is_last exit_signal = true

  -- The events before the one that ends the loop.
  abbrev pub before_end : List (HubEvent H D S M) → List (HubEvent H D S M)
  before_end [] = []
  before_end (event ∷ events) =
      let rest = before_end events in if is_last event then [] else event ∷ rest

  abbrev pub outgoing : HubEvent H D S M → Option (NetworkData H D S M × Recipient)
  outgoing (unit_to_send (some (message, recipient))) = some (units message, recipient)
  outgoing (unit_to_send none) = none
  outgoing (alert_to_send (some (message, recipient))) = some (alert message, recipient)
  outgoing (alert_to_send none) = none
  outgoing (incoming message) = none
  outgoing exit_signal = none

  abbrev pub unit_received : HubEvent H D S M → Option (UnitMessage H D S)
  unit_received (incoming (some (units message))) = some message
  unit_received (incoming (some (alert message))) = none
  unit_received (incoming none) = none
  unit_received (unit_to_send message) = none
  unit_received (alert_to_send message) = none
  unit_received exit_signal = none

  abbrev pub alert_received : HubEvent H D S M → Option (AlertMessage H D S M)
  alert_received (incoming (some (alert message))) = some message
  alert_received (incoming (some (units message))) = none
  alert_received (incoming none) = none
  alert_received (unit_to_send message) = none
  alert_received (alert_to_send message) = none
  alert_received exit_signal = none

-- A channel with more messages, if its receiver listens.
abbrev pub extended : {A : Type 0} → Channel A → List A → Channel A
extended ch more = record ch { sent = if ch.is_open then ch.sent ++ more else ch.sent }

extended-nil : {A : Type 0} (ch : Channel A) → extended ch [] ≡ ch
extended-nil ch = elim (Bool-cases ch.is_open) [
  | inl open_ch ↦ rw open_ch (ap (λ l. record { sent = l; is_open = true }) (append-nil ch.sent))
  | inr closed ↦ rw closed refl
]

extended-send :
    {A : Type 0} (ch : Channel A) (a : A) (more : List A)
    → extended (send ch a) more ≡ extended ch (a ∷ more)
extended-send ch a more = elim (Bool-cases ch.is_open) [
  | inl open_ch ↦
      rw open_ch
        (ap (λ l. record { sent = l; is_open = true }) (append_assoc ch.sent (a ∷ []) more))
  | inr closed ↦ rw closed refl
]

module _ {H D S M : Type 0} where
  abbrev relayed :
      NetworkHub H D S M
      → List (NetworkData H D S M × Recipient)
      → List (UnitMessage H D S)
      → List (AlertMessage H D S M)
      → NetworkHub H D S M
  relayed hub out us alerts = record {
    sent = hub.sent ++ out;
    units_received = extended hub.units_received us;
    alerts_received = extended hub.alerts_received alerts;
  }

  relayed-nil : (hub : NetworkHub H D S M) → hub ≡ relayed hub [] [] []
  relayed-nil hub = λ i. record {
    sent = sym (append-nil hub.sent) i;
    units_received = sym (extended-nil hub.units_received) i;
    alerts_received = sym (extended-nil hub.alerts_received) i;
  }

-- The hub that a run leaves, for all events and any hub: the network was given exactly the messages
-- to send, and the channels of the units and of the alerts exactly what came in for them while their
-- receivers listen, each in the order of the events before the one that ends the loop.
pub run-extended :
    {H D S M : Type 0} (hub : NetworkHub H D S M) (events : List (HubEvent H D S M))
    → run hub events ≡ record {
      sent = hub.sent ++ filter_map outgoing (before_end events);
      units_received = extended hub.units_received (filter_map unit_received (before_end events));
      alerts_received =
          extended hub.alerts_received (filter_map alert_received (before_end events));
    }
unfolding run
run-extended hub [] = relayed-nil hub
run-extended hub (unit_to_send (some (message, recipient)) ∷ events) =
    run-extended (record hub { sent = hub.sent ++ (units message, recipient) ∷ [] }) events
    ∙ ap
        (λ out.
          record (relayed hub [] (filter_map unit_received (before_end events))
            (filter_map alert_received (before_end events))) { sent = out })
        (append_assoc hub.sent ((units message, recipient) ∷ [])
          (filter_map outgoing (before_end events)))
run-extended hub (unit_to_send none ∷ events) = relayed-nil hub
run-extended hub (alert_to_send (some (message, recipient)) ∷ events) =
    run-extended (record hub { sent = hub.sent ++ (alert message, recipient) ∷ [] }) events
    ∙ ap
        (λ out.
          record (relayed hub [] (filter_map unit_received (before_end events))
            (filter_map alert_received (before_end events))) { sent = out })
        (append_assoc hub.sent ((alert message, recipient) ∷ [])
          (filter_map outgoing (before_end events)))
run-extended hub (alert_to_send none ∷ events) = relayed-nil hub
run-extended hub (incoming (some (units message)) ∷ events) =
    run-extended (record hub { units_received = send hub.units_received message }) events
    ∙ ap
        (λ ch.
          record (relayed hub (filter_map outgoing (before_end events)) []
            (filter_map alert_received (before_end events))) { units_received = ch })
        (extended-send hub.units_received message (filter_map unit_received (before_end events)))
run-extended hub (incoming (some (alert message)) ∷ events) =
    run-extended (record hub { alerts_received = send hub.alerts_received message }) events
    ∙ ap
        (λ ch.
          record (relayed hub (filter_map outgoing (before_end events))
            (filter_map unit_received (before_end events)) []) { alerts_received = ch })
        (extended-send hub.alerts_received message (filter_map alert_received (before_end events)))
run-extended hub (incoming none ∷ events) = relayed-nil hub
run-extended hub (exit_signal ∷ events) = relayed-nil hub
