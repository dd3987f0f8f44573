-- ===== src/Runway/State.antt =====
-- src/runway.rs: the state of the runway, and its messages to the other processes.
use aleph_bft.Prelude.{
  ℕ, ◌+◌, Bool, true, false, List, [], map, if◌then◌else◌, leb, Channel, send, exiting_after,
  length,
}
use aleph_bft.Prelude.HashSet
use aleph_bft.Prelude.HashSet.{HashSet}
use aleph_bft.Nodes.{NodeIndex, NodeCount, quorum}
use aleph_bft.Units.{Round, SessionId, UnitCoord, UnitHasher, unit}
use aleph_bft.Units.Store
use aleph_bft.Units.Store.{UnitStore, SignedUnit, coord_eq, full}
use aleph_bft.Alerts.Alerter.{Alert}
use aleph_bft.Runway.Message.{
  NotificationIn, new_units, Request, newest_unit, RunwayNotificationOut,
}

-- The sending ends of the channels are fields; what comes in is an argument of the handlers.
-- `starting_round` is the channel to the creator, which takes one value; `starting_round_sender`
-- says whether the sender is still there. `batches` is what the user's `DataIO` was given.
pub record Runway (H D S : Type 0) : Type 0 where
  pub missing_coords : HashSet UnitCoord
  pub missing_parents : HashSet H
  pub node_ix : NodeIndex
  pub session_id : SessionId
  pub n_members : NodeCount
  pub threshold : NodeCount
  pub store : UnitStore H D S
  pub alerts_for_alerter : Channel (Alert H D S)
  pub unit_messages_for_network : Channel (RunwayNotificationOut H D S)
  pub resolved_requests : Channel (Request H)
  pub tx_consensus : Channel (NotificationIn H)
  pub batches : Channel (List D)
  pub after_catch_up_delay : Bool
  pub starting_round_sender : Bool
  pub starting_round : Channel Round
  pub starting_round_value : Round
  pub newest_unit_responders : HashSet NodeIndex
  pub salt : ℕ
  pub exiting : Bool

abbrev pub open_channel : {A : Type 0} → Channel A
open_channel = record { sent = []; is_open = true }

module _ {H D S : Type 0} where
  unfoldable pub new : NodeIndex → SessionId → NodeCount → Round → ℕ → Runway H D S
  unfolding Store.new
  new node_ix session_id n_members max_round salt = record {
    missing_coords = [];
    missing_parents = [];
    node_ix = node_ix;
    session_id = session_id;
    n_members = n_members;
    threshold = quorum n_members;
    store = Store.new n_members max_round;
    alerts_for_alerter = open_channel;
    unit_messages_for_network = open_channel;
    resolved_requests = open_channel;
    tx_consensus = open_channel;
    batches = open_channel;
    after_catch_up_delay = false;
    starting_round_sender = true;
    starting_round = open_channel;
    starting_round_value = 0;
    newest_unit_responders = [];
    salt = salt;
    exiting = false;
  }

  unfoldable pub send_message_for_network :
      Runway H D S → RunwayNotificationOut H D S → Runway H D S
  send_message_for_network s notification = record s {
    unit_messages_for_network = send s.unit_messages_for_network notification;
    exiting = exiting_after s.unit_messages_for_network s.exiting;
  }

  unfoldable pub send_resolved_request_notification : Runway H D S → Request H → Runway H D S
  send_resolved_request_notification s notification = record s {
    resolved_requests = send s.resolved_requests notification;
    exiting = exiting_after s.resolved_requests s.exiting;
  }

  unfoldable pub send_consensus_notification : Runway H D S → NotificationIn H → Runway H D S
  send_consensus_notification s notification = record s {
    tx_consensus = send s.tx_consensus notification;
    exiting = exiting_after s.tx_consensus s.exiting;
  }

  unfoldable pub resolve_missing_coord : Runway H D S → UnitCoord → Runway H D S
  unfolding send_resolved_request_notification HashSet.contains HashSet.remove
  resolve_missing_coord s c =
      if HashSet.contains c s.missing_coords
      then send_resolved_request_notification
          (record s { missing_coords = HashSet.remove c s.missing_coords }) (Request.coord c)
      else s

  unfoldable pub is_starting_round_ready : Runway H D S → Bool
  is_starting_round_ready s =
      if s.after_catch_up_delay
      then leb s.threshold (length s.newest_unit_responders + 1)
      else false

  -- With the sender taken; a lost resolved request is only logged.
  unfoldable pub resolve_starting_round : Runway H D S → Runway H D S
  resolve_starting_round s =
      if s.starting_round_sender
      then (if s.starting_round.is_open
          then record s {
            starting_round_sender = false;
            starting_round = send s.starting_round s.starting_round_value;
            resolved_requests = send s.resolved_requests (newest_unit s.salt);
          }
          else record s { starting_round_sender = false; exiting = true })
      else s

  -- The branch of `run` after the delay to catch up.
  unfoldable pub on_catch_up_delay : Runway H D S → Runway H D S
  unfolding is_starting_round_ready resolve_starting_round
  on_catch_up_delay s =
      let caught_up = record s { after_catch_up_delay = true } in
      if is_starting_round_ready caught_up then resolve_starting_round caught_up else caught_up

module _ {H D S : Type 0} ⦃h : UnitHasher H D⦄ where
  unfoldable pub move_units_to_consensus : Runway H D S → Runway H D S
  unfolding Store.yield_buffer_units send_consensus_notification unit
  move_units_to_consensus s =
      let (units_to_move, store) = Store.yield_buffer_units s.store in
      send_consensus_notification (record s { store = store })
        (new_units (map (λ su. unit (full su)) units_to_move))
