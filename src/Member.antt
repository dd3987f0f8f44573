-- ===== src/Member.antt =====
-- src/member.rs: requests and units that are sent again and again, until they are resolved.
pub mod Run
pub mod Pending
pub mod Turns
pub mod Active
use aleph_bft.Prelude.{
  ℕ, suc, ◌+◌, Bool, true, false, Option, none, some, List, [], ◌∷◌, Eq, if◌then◌else◌, ltb, leb,
  ◌==◌, Exec, ok, out_of_fuel, ◌>>=◌, Channel, send, exiting_after,
}
use aleph_bft.Prelude.HashSet
use aleph_bft.Prelude.HashSet.{HashSet}
use aleph_bft.Nodes.{NodeIndex, NodeCount}
use aleph_bft.Units.{UnitCoord}
use aleph_bft.Units.Store.{coord_eq}
use aleph_bft.Alerts.{UncheckedSignedUnit}
use aleph_bft.Alerts.Alerter.{Recipient, everyone, node}
use aleph_bft.Runway.Message.{
  UnitMessage, request_coord, response_coord, request_parents, response_parents, request_newest,
  response_newest, Request, Response, RunwayNotificationOut, RunwayNotificationIn, try_from,
}

-- `time::Instant` and `time::Duration` are numbers.
abbrev pub Instant : Type 0
Instant = ℕ

pub data Task (H D S : Type 0) : Type 0 where
  coord_request : UnitCoord → Task H D S
  parents_request : H → Recipient → Task H D S
  unit_multicast : UncheckedSignedUnit H D S → Task H D S
  newest_request : ℕ → Task H D S

pub record ScheduledTask (H D S : Type 0) : Type 0 where
  pub task : Task H D S
  pub scheduled_time : Instant
  pub counter : ℕ

-- The two delays are those of the configuration. The heap of tasks is a list.
pub record Member (H D S : Type 0) : Type 0 where
  pub node_ix : NodeIndex
  pub unit_broadcast_delay : ℕ → ℕ
  pub requests_interval : ℕ
  pub task_queue : List (ScheduledTask H D S)
  pub not_resolved_parents : HashSet H
  pub not_resolved_coords : HashSet UnitCoord
  pub newest_unit_resolved : Bool
  pub n_members : NodeCount
  pub unit_messages_for_network : Channel (UnitMessage H D S × Recipient)
  pub notifications_for_runway : Channel (RunwayNotificationIn H D S)
  pub exiting : Bool

-- What a turn reads of the world: the clock, and the peer that `random_peer` would give.
pub record Reading : Type 0 where
  pub now : Instant
  pub peer : NodeIndex

module _ {H D S : Type 0} where
  unfoldable pub new_task : Task H D S → Instant → ScheduledTask H D S
  new_task task scheduled_time = record {
    task = task;
    scheduled_time = scheduled_time;
    counter = 0;
  }

  unfoldable pub new : NodeIndex → NodeCount → (ℕ → ℕ) → ℕ → Member H D S
  new node_ix n_members unit_broadcast_delay requests_interval = record {
    node_ix = node_ix;
    unit_broadcast_delay = unit_broadcast_delay;
    requests_interval = requests_interval;
    task_queue = [];
    not_resolved_parents = [];
    not_resolved_coords = [];
    newest_unit_resolved = false;
    n_members = n_members;
    unit_messages_for_network = record { sent = []; is_open = true };
    notifications_for_runway = record { sent = []; is_open = true };
    exiting = false;
  }

  -- `peek` and `pop` of the heap: a task of the earliest time, and the others. Of tasks of one time,
  -- the heap's order is not specified; the list gives the first.
  unfoldable pub earliest :
      List (ScheduledTask H D S) → Option (ScheduledTask H D S × List (ScheduledTask H D S))
  earliest [] = none
  earliest (t ∷ ts) = elim (earliest ts) [
    | none ↦ some (t, [])
    | some (u, rest) ↦
        if leb t.scheduled_time u.scheduled_time then some (t, ts) else some (u, t ∷ rest)
  ]

  unfoldable pub push_task : Member H D S → Task H D S → Instant → Member H D S
  unfolding new_task
  push_task s task now = record s { task_queue = new_task task now ∷ s.task_queue }

  unfoldable pub send_unit_message : Member H D S → UnitMessage H D S → Recipient → Member H D S
  send_unit_message s m recipient = record s {
    unit_messages_for_network = send s.unit_messages_for_network (m, recipient);
    exiting = exiting_after s.unit_messages_for_network s.exiting;
  }

  unfoldable pub send_notification_to_runway :
      Member H D S → RunwayNotificationIn H D S → Member H D S
  send_notification_to_runway s notification = record s {
    notifications_for_runway = send s.notifications_for_runway notification;
    exiting = exiting_after s.notifications_for_runway s.exiting;
  }

  unfoldable pub on_create : Member H D S → UncheckedSignedUnit H D S → Instant → Member H D S
  unfolding push_task
  on_create s u now = push_task s (unit_multicast u) now

  -- The end of `task_details`: to whom, and after which delay again.
  unfoldable pub recipient_and_delay : Member H D S → Recipient → ℕ → NodeIndex → Recipient × ℕ
  recipient_and_delay s everyone counter peer = (everyone, s.unit_broadcast_delay counter)
  recipient_and_delay s (node preferred_id) counter peer =
      (node (if counter == 0 then preferred_id else peer), s.requests_interval)

module _ {H D S : Type 0} ⦃e : Eq H⦄ where
  -- The message of a task that is still active, and its preferred recipient.
  unfoldable pub message_of : Member H D S → Task H D S → Option (UnitMessage H D S × Recipient)
  unfolding HashSet.contains
  message_of s (coord_request c) =
      if HashSet.contains c s.not_resolved_coords
      then some (request_coord s.node_ix c, node c.creator)
      else none
  message_of s (parents_request q recipient) =
      if HashSet.contains q s.not_resolved_parents
      then some (request_parents s.node_ix q, recipient)
      else none
  message_of s (unit_multicast u) = some (UnitMessage.new_unit u, everyone)
  message_of s (newest_request salt) =
      if s.newest_unit_resolved then none else some (request_newest s.node_ix salt, everyone)

  unfoldable pub task_details :
      Member H D S → Task H D S → ℕ → NodeIndex → Option (UnitMessage H D S × Recipient × ℕ)
  unfolding message_of recipient_and_delay
  task_details s task counter peer = elim (message_of s task) [
    | none ↦ none
    | some (m, preferred) ↦
        let (recipient, delay) = recipient_and_delay s preferred counter peer in
        some (m, recipient, delay)
  ]

  -- A turn of the loop for a task that is due; `rest` are the other tasks.
  unfoldable pub perform :
      Member H D S → ScheduledTask H D S → List (ScheduledTask H D S) → NodeIndex → Member H D S
  unfolding task_details send_unit_message
  perform s request rest peer = elim (task_details s request.task request.counter peer) [
    | none ↦ record s { task_queue = rest }
    | some (m, recipient, delay) ↦ record (send_unit_message s m recipient) {
      task_queue =
          record request {
            scheduled_time = request.scheduled_time + delay;
            counter = request.counter + 1;
          }
          ∷ rest;
    }
  ]

  -- The loop, a reading for each turn; with no reading left it is cut off.
  unfoldable pub trigger_tasks : Member H D S → List Reading → Exec (Member H D S)
  unfolding earliest perform
  trigger_tasks s [] = elim (earliest s.task_queue) [ none ↦ ok s | some _ ↦ out_of_fuel ]
  trigger_tasks s (r ∷ readings) = elim (earliest s.task_queue) [
    | none ↦ ok s
    | some (request, rest) ↦
        if ltb r.now request.scheduled_time
        then ok s
        else trigger_tasks (perform s request rest r.peer) readings
  ]

  unfoldable pub on_request_coord :
      Member H D S → UnitCoord → Instant → List Reading → Exec (Member H D S)
  unfolding HashSet.contains HashSet.insert push_task trigger_tasks
  on_request_coord s c now readings =
      if HashSet.contains c s.not_resolved_coords
      then ok s
      else trigger_tasks
          (push_task (record s { not_resolved_coords = HashSet.insert c s.not_resolved_coords })
            (coord_request c) now)
          readings

  unfoldable pub on_request_parents :
      Member H D S → H → Recipient → Instant → List Reading → Exec (Member H D S)
  unfolding HashSet.contains HashSet.insert push_task trigger_tasks
  on_request_parents s u_hash recipient now readings =
      if HashSet.contains u_hash s.not_resolved_parents
      then ok s
      else trigger_tasks
          (push_task
            (record s { not_resolved_parents = HashSet.insert u_hash s.not_resolved_parents })
            (parents_request u_hash recipient) now)
          readings

  unfoldable pub on_request_newest : Member H D S → ℕ → Instant → List Reading → Exec (Member H D S)
  unfolding push_task trigger_tasks
  on_request_newest s salt now readings =
      trigger_tasks (push_task s (newest_request salt) now) readings

  unfoldable pub on_unit_message_from_units :
      Member H D S → RunwayNotificationOut H D S → Instant → List Reading → Exec (Member H D S)
  unfolding on_create on_request_coord on_request_parents on_request_newest send_unit_message
  on_unit_message_from_units s (RunwayNotificationOut.new_unit u) now readings =
      ok (on_create s u now)
  on_unit_message_from_units s (RunwayNotificationOut.request (Request.coord c) r) now readings =
      on_request_coord s c now readings
  on_unit_message_from_units s (RunwayNotificationOut.request (Request.parents q) r) now readings =
      on_request_parents s q r now readings
  on_unit_message_from_units s (RunwayNotificationOut.request (Request.newest_unit z) r) now
        readings =
      on_request_newest s z now readings
  on_unit_message_from_units s (RunwayNotificationOut.response (Response.coord u) i) now readings =
      ok (send_unit_message s (response_coord u) (node i))
  on_unit_message_from_units s (RunwayNotificationOut.response (Response.parents q ps) i) now
        readings =
      ok (send_unit_message s (response_parents q ps) (node i))
  on_unit_message_from_units s (RunwayNotificationOut.response (Response.newest_unit r) i) now
        readings =
      ok (send_unit_message s (response_newest r) (node r.signable.requester))

  -- The branch of `run` for resolved requests.
  unfoldable pub on_resolved : Member H D S → Request H → Member H D S
  unfolding HashSet.remove
  on_resolved s (Request.coord c) = record s {
    not_resolved_coords = HashSet.remove c s.not_resolved_coords;
  }
  on_resolved s (Request.parents u_hash) = record s {
    not_resolved_parents = HashSet.remove u_hash s.not_resolved_parents;
  }
  on_resolved s (Request.newest_unit _) = record s { newest_unit_resolved = true }
