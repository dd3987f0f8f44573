-- ===== src/Member/Run.antt =====
-- src/member.rs, `run`: what is done for each event that `select!` picks; and the data of a message.
use aleph_bft.Prelude.{true, none, some, List, [], ◌∷◌, map, Eq, Exec, ok}
use aleph_bft.Alerts.{UncheckedSignedUnit}
use aleph_bft.Runway.Message.{
  UnitMessage, request_coord, response_coord, request_parents, response_parents, request_newest,
  response_newest, Request, RunwayNotificationOut, try_from,
}
use aleph_bft.Member.{
  Member, Instant, Reading, send_notification_to_runway, trigger_tasks, on_unit_message_from_units,
  on_resolved,
}

pub data Event (H D S : Type 0) : Type 0 where
  from_runway : RunwayNotificationOut H D S → Instant → List Reading → Event H D S
  resolved : Request H → Event H D S
  from_network : UnitMessage H D S → Event H D S
  tick : List Reading → Event H D S
  exit : Event H D S

unfoldable pub handle :
    {H D S : Type 0} ⦃e : Eq H⦄ → Member H D S → Event H D S → Exec (Member H D S)
unfolding on_unit_message_from_units on_resolved send_notification_to_runway try_from trigger_tasks
handle s (from_runway m now readings) = on_unit_message_from_units s m now readings
handle s (resolved request) = ok (on_resolved s request)
handle s (from_network m) = ok (send_notification_to_runway s (try_from m))
handle s (tick readings) = trigger_tasks s readings
handle s exit = ok (record s { exiting = true })

module _ {H D S : Type 0} where
  abbrev pub data_of : UncheckedSignedUnit H D S → D
  data_of uu = uu.signable.unit_data

  unfoldable pub included_data : UnitMessage H D S → List D
  included_data (UnitMessage.new_unit uu) = data_of uu ∷ []
  included_data (request_coord _ _) = []
  included_data (response_coord uu) = data_of uu ∷ []
  included_data (request_parents _ _) = []
  included_data (response_parents _ units) = map data_of units
  included_data (request_newest _ _) = []
  included_data (response_newest response) = elim response.signable.unit [
    | none ↦ []
    | some uu ↦ data_of uu ∷ []
  ]
