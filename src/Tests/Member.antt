-- ===== src/Tests/Member.antt =====
-- Node 0 of three asks for a unit of node 1.
use aleph_bft.Prelude.{ℕ, suc, ◌≡◌, refl, true, false, [], ◌∷◌, arith, nat_eq, ok, ℕ_discrete}
use aleph_bft.Prelude.HashSet
use aleph_bft.Units.{UnitCoord}
use aleph_bft.Units.Store.{UnitCoord-discrete}
use aleph_bft.Alerts.Alerter.{everyone, node}
use aleph_bft.Runway.Message.{request_coord, Request, RunwayNotificationOut}
use aleph_bft.Member.{Member, Reading, coord_request, trigger_tasks}
use aleph_bft.Member.Run.{from_runway, tick, handle}
use aleph_bft.Member.Pending.{IsPending, handle-IsPending}
use aleph_bft.Member.Active.{view, SentSince, trigger_tasks-SentSince}
use aleph_bft.Member.Turns.{AllAfter, trigger_tasks_returns}

abbrev idle : Member ℕ ℕ ℕ
idle = record {
  node_ix = 0;
  unit_broadcast_delay = suc;
  requests_interval = 3;
  task_queue = [];
  not_resolved_parents = [];
  not_resolved_coords = [];
  newest_unit_resolved = false;
  n_members = 3;
  unit_messages_for_network = record { sent = []; is_open = true };
  notifications_for_runway = record { sent = []; is_open = true };
  exiting = false;
}

abbrev wanted : UnitCoord
wanted = record { round = 4; creator = 1 }

abbrev at : ℕ → Reading
at now = record { now = now; peer = 2 }

abbrev asking : Member ℕ ℕ ℕ
asking = record idle {
  task_queue = (record { task = coord_request wanted; scheduled_time = 13; counter = 1 }) ∷ [];
  not_resolved_coords = wanted ∷ [];
  unit_messages_for_network = record {
    sent = (request_coord 0 wanted, node 1) ∷ [];
    is_open = true;
  };
}

-- The second request goes to the random peer.
abbrev asking_again : Member ℕ ℕ ℕ
asking_again = record asking {
  task_queue = (record { task = coord_request wanted; scheduled_time = 16; counter = 2 }) ∷ [];
  unit_messages_for_network = record {
    sent = (request_coord 0 wanted, node 1) ∷ (request_coord 0 wanted, node 2) ∷ [];
    is_open = true;
  };
}

asks :
    handle idle (
      from_runway
        (RunwayNotificationOut.request (Request.coord wanted) everyone)
        10
        (at 10 ∷ at 10 ∷ []))
    ≡ ok asking
unfolding handle UnitCoord-discrete ℕ_discrete
asks = refl

repeats : handle asking (tick (at 13 ∷ at 13 ∷ [])) ≡ ok asking_again
unfolding handle UnitCoord-discrete ℕ_discrete
repeats = refl

idle-IsPending : IsPending idle
unfolding HashSet.contains
idle-IsPending = record { coords = λ c there. cc; parents = λ q there. cc }

handle-IsPending_example : IsPending asking
handle-IsPending_example =
    handle-IsPending idle asking
      (from_runway (RunwayNotificationOut.request (Request.coord wanted) everyone) 10
        (at 10 ∷ at 10 ∷ []))
      asks idle-IsPending

trigger_tasks_returns_example :
    (s' : Member ℕ ℕ ℕ) × (trigger_tasks asking (at 13 ∷ at 13 ∷ []) ≡ ok s')
    × AllAfter 13 s'.task_queue
trigger_tasks_returns_example =
    trigger_tasks_returns asking (at 13 ∷ at 13 ∷ []) 13 13 (omega arith, λ k. omega arith)
      ((omega arith, omega arith), ((omega arith, omega arith), tt)) (omega arith)

again : trigger_tasks asking (at 13 ∷ at 13 ∷ []) ≡ ok asking_again
unfolding trigger_tasks UnitCoord-discrete ℕ_discrete
again = refl

trigger_tasks-SentSince_example : (view asking_again ≡ view asking) × SentSince asking asking_again
trigger_tasks-SentSince_example =
    trigger_tasks-SentSince asking asking_again (at 13 ∷ at 13 ∷ []) again
