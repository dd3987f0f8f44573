-- ===== src/Runway/Run.antt =====
-- src/runway.rs, `run`: a turn of the loop for each event that `select!` picks.
use aleph_bft.Prelude.{true, List, Eq, Exec, ok, ◌>>=◌}
use aleph_bft.Units.{UnitHasher, ParentHasher}
use aleph_bft.Alerts.Alerter.{everyone, ForkingNotification}
use aleph_bft.Runway.Message.{
  Keys, NotificationOut, Request, RunwayNotificationOut, RunwayNotificationIn,
}
use aleph_bft.Runway.State.{
  Runway, on_catch_up_delay, move_units_to_consensus, send_message_for_network,
}
use aleph_bft.Runway.Receive.{on_alert_notification}
use aleph_bft.Runway.Requests.{on_unit_message}
use aleph_bft.Runway.Process.{on_consensus_notification, on_ordered_batch}

-- The branches of `select!` that handle something. The data is what `DataIO` would give.
pub data Event (H D S : Type 0) : Type 0 where
  consensus : D → NotificationOut H → Event H D S
  alert : ForkingNotification H D S → Event H D S
  message : RunwayNotificationIn H D S → Event H D S
  batch : List H → Event H D S
  caught_up : Event H D S
  exit : Event H D S

-- The request for the newest unit, before the loop.
unfoldable pub start : {H D S : Type 0} → Runway H D S → Runway H D S
unfolding send_message_for_network
start s =
    send_message_for_network s (RunwayNotificationOut.request (Request.newest_unit s.salt) everyone)

module _ {H D S : Type 0} ⦃e : Eq H⦄ ⦃h : UnitHasher H D⦄ ⦃p : ParentHasher H⦄ where
  unfoldable pub handle : Runway H D S → Keys H D S → Event H D S → Exec (Runway H D S)
  unfolding on_consensus_notification on_alert_notification on_unit_message on_ordered_batch
      on_catch_up_delay
  handle s keys (consensus unit_data notification) =
      on_consensus_notification s keys unit_data notification
  handle s keys (alert notification) = on_alert_notification s keys notification
  handle s keys (message m) = on_unit_message s keys m
  handle s keys (batch hashes) = on_ordered_batch s hashes
  handle s keys caught_up = ok (on_catch_up_delay s)
  handle s keys exit = ok (record s { exiting = true })

  unfoldable pub turn : Runway H D S → Keys H D S → Event H D S → Exec (Runway H D S)
  unfolding handle move_units_to_consensus
  turn s keys event = do s' ← handle s keys event; ok (move_units_to_consensus s')
