-- ===== src/Network.antt =====
-- src/network.rs, and the messages' data of src/member.rs and src/alerts.rs: the hub between the
-- user's network and the channels of the runway and the alerter.
pub mod Relay
pub mod Included
pub mod Taken
pub mod Ordering
use aleph_bft.Prelude.{Bool, Option, none, some, List, [], ◌∷◌, ◌++◌, map, Channel, send}
use aleph_bft.Alerts.{UncheckedSignedUnit}
use aleph_bft.Alerts.Alerter.{
  Alert, AlertMessage, fork_alert, rmc_message, alert_request, Recipient,
}
use aleph_bft.Runway.Message.{
  UnitMessage, new_unit, request_coord, response_coord, request_parents, response_parents,
  request_newest, response_newest,
}

module _ {H D S : Type 0} where
  abbrev pub data_of : UncheckedSignedUnit H D S → D
  data_of u = u.signable.unit_data

  -- An optional unit as the list that `iter` gives.
  abbrev iter : Option (UncheckedSignedUnit H D S) → List (UncheckedSignedUnit H D S)
  iter none = []
  iter (some u) = u ∷ []

  unfoldable pub unit_included_data : UnitMessage H D S → List D
  unit_included_data (new_unit u) = data_of u ∷ []
  unit_included_data (request_coord node_id c) = []
  unit_included_data (response_coord u) = data_of u ∷ []
  unit_included_data (request_parents node_id h) = []
  unit_included_data (response_parents h us) = map data_of us
  unit_included_data (request_newest node_id salt) = []
  unit_included_data (response_newest response) = map data_of (iter response.signable.unit)

  unfoldable pub legit_included_data : Alert H D S → List D
  legit_included_data alert = map data_of alert.legit_units

  unfoldable pub alert_included_data : {M : Type 0} → AlertMessage H D S M → List D
  unfolding legit_included_data
  alert_included_data (fork_alert alert) = legit_included_data alert.signable
  alert_included_data (rmc_message sender m) = []
  alert_included_data (alert_request node_id h) = []

pub data NetworkData (H D S M : Type 0) : Type 0 where
  units : UnitMessage H D S → NetworkData H D S M
  alert : AlertMessage H D S M → NetworkData H D S M

-- `sent` is what `network.send` was given, oldest first.
pub record NetworkHub (H D S M : Type 0) : Type 0 where
  pub sent : List (NetworkData H D S M × Recipient)
  pub units_received : Channel (UnitMessage H D S)
  pub alerts_received : Channel (AlertMessage H D S M)

-- What `select!` gives: `none` from a stream that is closed.
pub data HubEvent (H D S M : Type 0) : Type 0 where
  unit_to_send : Option (UnitMessage H D S × Recipient) → HubEvent H D S M
  alert_to_send : Option (AlertMessage H D S M × Recipient) → HubEvent H D S M
  incoming : Option (NetworkData H D S M) → HubEvent H D S M
  exit_signal : HubEvent H D S M

module _ {H D S M : Type 0} where
  unfoldable pub included_data : NetworkData H D S M → List D
  unfolding unit_included_data alert_included_data
  included_data (units message) = unit_included_data message
  included_data (alert message) = alert_included_data message

  unfoldable pub new :
      Channel (UnitMessage H D S) → Channel (AlertMessage H D S M) → NetworkHub H D S M
  new units_received alerts_received = record {
    sent = [];
    units_received = units_received;
    alerts_received = alerts_received;
  }

  unfoldable pub send_to_network :
      NetworkHub H D S M → NetworkData H D S M → Recipient → NetworkHub H D S M
  send_to_network hub message_data recipient = record hub {
    sent = hub.sent ++ (message_data, recipient) ∷ [];
  }

  unfoldable pub handle_incoming : NetworkHub H D S M → NetworkData H D S M → NetworkHub H D S M
  handle_incoming hub (units message) = record hub {
    units_received = send hub.units_received message;
  }
  handle_incoming hub (alert message) = record hub {
    alerts_received = send hub.alerts_received message;
  }

  -- A turn of the loop: `none` when it breaks.
  unfoldable pub on_event : NetworkHub H D S M → HubEvent H D S M → Option (NetworkHub H D S M)
  unfolding send_to_network handle_incoming
  on_event hub (unit_to_send (some (message, recipient))) =
      some (send_to_network hub (units message) recipient)
  on_event hub (unit_to_send none) = none
  on_event hub (alert_to_send (some (message, recipient))) =
      some (send_to_network hub (alert message) recipient)
  on_event hub (alert_to_send none) = none
  on_event hub (incoming (some message_data)) = some (handle_incoming hub message_data)
  on_event hub (incoming none) = none
  on_event hub exit_signal = none

  unfoldable pub run : NetworkHub H D S M → List (HubEvent H D S M) → NetworkHub H D S M
  unfolding on_event
  run hub [] = hub
  run hub (event ∷ events) = elim (on_event hub event) [ none ↦ hub | some hub' ↦ run hub' events ]
