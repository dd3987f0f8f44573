-- ===== src/Runway/Process.antt =====
-- src/runway.rs: what the consensus reports and asks for, and the batches that it orders.
use aleph_bft.Prelude.{
  false, none, some, List, [], ◌∷◌, Eq, if◌then◌else◌, ◌==◌, Exec, ok, ◌>>=◌, unwrap, send,
}
use aleph_bft.Prelude.HashSet
use aleph_bft.Signed.{sign}
use aleph_bft.Units.{UnitCoord, PreUnit, UnitHasher, new_full_unit}
use aleph_bft.Units.Store
use aleph_bft.Units.Store.{UnitStore, coord_eq, full, coord_of}
use aleph_bft.Alerts.{unit_signable}
use aleph_bft.Alerts.Alerter.{Recipient, everyone, node}
use aleph_bft.Runway.Message.{
  Keys, unit_parents, NotificationOut, created_pre_unit, missing_units, wrong_control_hash,
  added_to_dag, Request, RunwayNotificationOut,
}
use aleph_bft.Runway.State.{
  Runway, send_message_for_network, send_consensus_notification, send_resolved_request_notification,
}

module _ {H D S : Type 0} where
  -- The loop over the coordinates, and the `retain` before it, which reads the same store.
  unfoldable pub on_missing_coords : Runway H D S → List UnitCoord → Runway H D S
  unfolding Store.contains_coord HashSet.contains HashSet.insert send_message_for_network
  on_missing_coords s [] = s
  on_missing_coords s (c ∷ coords) =
      on_missing_coords
        (if Store.contains_coord s.store c
          then s
          else (if HashSet.contains c s.missing_coords
              then s
              else send_message_for_network
                  (record s { missing_coords = HashSet.insert c s.missing_coords })
                  (RunwayNotificationOut.request (Request.coord c) (node c.creator))))
        coords

module _ {H D S : Type 0} ⦃e : Eq H⦄ ⦃h : UnitHasher H D⦄ where
  unfoldable pub resolve_missing_parents : Runway H D S → H → Runway H D S
  unfolding HashSet.contains HashSet.remove send_resolved_request_notification
  resolve_missing_parents s u_hash =
      if HashSet.contains u_hash s.missing_parents
      then send_resolved_request_notification
          (record s { missing_parents = HashSet.remove u_hash s.missing_parents })
          (Request.parents u_hash)
      else s

  unfoldable pub on_wrong_control_hash : Runway H D S → H → Runway H D S
  unfolding Store.get_parents Store.unit_by_hash HashSet.contains HashSet.insert
      send_consensus_notification send_message_for_network
  on_wrong_control_hash s u_hash = elim (Store.get_parents s.store u_hash) [
    | some p_hashes ↦ send_consensus_notification s (unit_parents u_hash p_hashes)
    | none ↦
        let recipient : Recipient = elim (Store.unit_by_hash s.store u_hash) [
          | some u ↦ node (coord_of (full u)).creator
          | none ↦ everyone
        ] in
        if HashSet.contains u_hash s.missing_parents
        then s
        else send_message_for_network
            (record s { missing_parents = HashSet.insert u_hash s.missing_parents })
            (RunwayNotificationOut.request (Request.parents u_hash) recipient)
  ]

  -- `unit_data` is what the user's `DataIO` gives.
  unfoldable pub on_create : Runway H D S → Keys H D S → D → PreUnit H → Exec (Runway H D S)
  unfolding new_full_unit sign Store.add_unit
  on_create s keys unit_data u = do
    signed_unit ← sign keys.units (new_full_unit u unit_data s.session_id)
    store ← Store.add_unit s.store signed_unit false
    ok (record s { store = store })

  unfoldable pub on_added_to_dag : Runway H D S → H → List H → Runway H D S
  unfolding Store.add_parents Store.unit_by_hash resolve_missing_parents send_message_for_network
  on_added_to_dag s q p_hashes =
      let known = record s { store = Store.add_parents s.store q p_hashes } in
      let resolved = resolve_missing_parents known q in
      elim (Store.unit_by_hash resolved.store q) [
        | none ↦ resolved
        | some su ↦
            if (coord_of (full su)).creator == resolved.node_ix
            then send_message_for_network resolved (RunwayNotificationOut.new_unit su.unchecked)
            else resolved
      ]

  unfoldable pub on_consensus_notification :
      Runway H D S → Keys H D S → D → NotificationOut H → Exec (Runway H D S)
  unfolding on_create on_missing_coords on_wrong_control_hash on_added_to_dag
  on_consensus_notification s keys unit_data (created_pre_unit pu _) = on_create s keys unit_data pu
  on_consensus_notification s keys unit_data (missing_units coords) =
      ok (on_missing_coords s coords)
  on_consensus_notification s keys unit_data (wrong_control_hash q) = ok (on_wrong_control_hash s q)
  on_consensus_notification s keys unit_data (added_to_dag q p_hashes) =
      ok (on_added_to_dag s q p_hashes)

  -- The data of the units of a batch.
  unfoldable pub batch_data : UnitStore H D S → List H → Exec (List D)
  unfolding Store.unit_by_hash
  batch_data store [] = ok []
  batch_data store (q ∷ qs) = do
    su ← unwrap (Store.unit_by_hash store q)
    rest ← batch_data store qs
    ok ((full su).unit_data ∷ rest)

  unfoldable pub on_ordered_batch : Runway H D S → List H → Exec (Runway H D S)
  unfolding batch_data
  on_ordered_batch s hashes = do
    batch ← batch_data s.store hashes
    ok (record s { batches = send s.batches batch })
