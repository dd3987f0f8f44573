-- ===== src/Tests/Network.antt =====
-- The hub sends and takes in messages until a stream is closed.
use aleph_bft.Prelude.{ℕ, ◌≡◌, refl, true, false, none, some, List, [], ◌∷◌, ◌++◌, Channel}
use aleph_bft.Alerts.{UncheckedSignedUnit}
use aleph_bft.Alerts.Alerter.{AlertMessage, alert_request, everyone, node}
use aleph_bft.Runway.Message.{UnitMessage, new_unit, request_newest, response_parents}
use aleph_bft.Network.{
  units, alert, HubEvent, unit_to_send, alert_to_send, incoming, new, run, included_data,
}
use aleph_bft.Network.Relay.{
  filter_map, before_end, outgoing, unit_received, alert_received, extended, run-extended,
}

abbrev unit_of : ℕ → ℕ → UncheckedSignedUnit ℕ ℕ ℕ
unit_of round d = record {
  signable = record {
    pre_unit = record {
      coord = record { round = round; creator = 1 };
      control_hash = record { parents_mask = []; combined_hash = 0 };
    };
    unit_data = d;
    session_id = 0;
    hash = none;
  };
  signature = 3;
}

abbrev unit_channel : Channel (UnitMessage ℕ ℕ ℕ)
unit_channel = record { sent = []; is_open = true }

abbrev alert_channel : Channel (AlertMessage ℕ ℕ ℕ ℕ)
alert_channel = record { sent = []; is_open = false }

abbrev events : List (HubEvent ℕ ℕ ℕ ℕ)
events =
    unit_to_send (some (request_newest 1 7, everyone))
    ∷ incoming (some (units (new_unit (unit_of 0 5))))
    ∷ incoming (some (alert (alert_request 1 9)))
    ∷ alert_to_send (some (alert_request 0 9, node 1))
    ∷ incoming (some (units (request_newest 2 8)))
    ∷ unit_to_send none
    ∷ incoming (some (units (request_newest 3 8)))
    ∷ []

relays : run (new unit_channel alert_channel) events ≡ record {
  sent = (units (request_newest 1 7), everyone) ∷ (alert (alert_request 0 9), node 1) ∷ [];
  units_received = record {
    sent = new_unit (unit_of 0 5) ∷ request_newest 2 8 ∷ [];
    is_open = true;
  };
  alerts_received = record { sent = []; is_open = false };
}
unfolding run new
relays = refl

includes :
    (included_data {M = ℕ} (units (new_unit (unit_of 0 5))) ≡ 5 ∷ [])
    × (included_data {M = ℕ} (units (response_parents 4 (unit_of 0 5 ∷ unit_of 0 6 ∷ [])))
        ≡ 5 ∷ 6 ∷ [])
    × (included_data {H = ℕ} {D = ℕ} {S = ℕ} {M = ℕ} (units (request_newest 2 8)) ≡ [])
unfolding included_data
includes = (refl, refl, refl)

run-extended_example : run (new unit_channel alert_channel) events ≡ record {
  sent = [] ++ filter_map outgoing (before_end events);
  units_received = extended unit_channel (filter_map unit_received (before_end events));
  alerts_received = extended alert_channel (filter_map alert_received (before_end events));
}
unfolding new
run-extended_example = run-extended (new unit_channel alert_channel) events
