-- ===== src/Runway/Forks.antt =====
-- src/runway.rs: the alert on a new fork.
use aleph_bft.Prelude.{
  suc, ◌<◌, ◌^◌, ◌≡◌, refl, false, none, some, List, map, Eq, ok, length, get_elem?, get_elem?-lt,
  send, exiting_after, arith,
}
use aleph_bft.Prelude.HashMap
use aleph_bft.Nodes.NodeSubset
use aleph_bft.Nodes.{NodeIndex}
use aleph_bft.Units.{UnitHasher, hash_of}
use aleph_bft.Units.Store
use aleph_bft.Units.Store.{SignedUnit, full, coord_of, coord_eq, units_from}
use aleph_bft.Units.Store.Valid
use aleph_bft.Units.Store.Commitment.{IsComplete, units_from-IsComplete}
use aleph_bft.Units.Store.Marks.{with_mark, mark_forker_lem, is_forker-with_mark}
use aleph_bft.Alerts.{ForkProof}
use aleph_bft.Alerts.Alerter.{Alert, forker}
use aleph_bft.Runway.Message.{Keys}
use aleph_bft.Runway.State.{Runway}
use aleph_bft.Runway.Receive.{
  form_alert, on_new_forker_detected, add_unit_to_store_unless_fork, on_alert_notification,
}
use aleph_bft.Runway.Total.{on_fork_new}

module _ {H D S : Type 0} ⦃e : Eq H⦄ ⦃h : UnitHasher H D⦄ where
  -- The runway after the alert on a fork: the creator is marked and the store is else as before; one
  -- alert is sent. It is of this node, its proof are the new unit and the stored one, and it commits
  -- to the stored units of the creator. In this state, other units of the creator and reports of its
  -- forks change nothing.
  pub record IsAlerted (s : Runway H D S) (su sv : SignedUnit H D S) (s' : Runway H D S)
      : Type 0 where
    pub marked : s'.store ≡ with_mark s.store (coord_of (full su)).creator
    pub alert : Alert H D S
    pub alert_sent : s'.alerts_for_alerter ≡ send s.alerts_for_alerter alert
    pub by_this_node : alert.sender ≡ s.node_ix
    pub by_both_units : alert.proof ≡ (su.unchecked, sv.unchecked)
    pub not_hashed : alert.hash ≡ none
    pub committed : List (SignedUnit H D S)
    pub commits : alert.legit_units ≡ map (λ sw. sw.unchecked) committed
    pub complete : IsComplete s.store (coord_of (full su)).creator committed
    pub ignored :
        (sw : SignedUnit H D S)
        → (coord_of (full sw)).creator ≡ (coord_of (full su)).creator
        → add_unit_to_store_unless_fork s' sw ≡ ok s'
    pub told_again :
        (keys : Keys H D S) (again : ForkProof H D S)
        → again.0.signable.pre_unit.coord.creator ≡ (coord_of (full su)).creator
        → on_alert_notification s' keys (forker again) ≡ ok s'

  on_new_forker_detected-IsAlerted :
      (s : Runway H D S) (su sv : SignedUnit H D S)
      → Valid.IsValid s.store
      → s.store.max_round < 2 ^ 16
      → (coord_of (full su)).creator < length s.store.forkers
      → (s' : Runway H D S) × (on_new_forker_detected s
            (coord_of (full su)).creator
            (su.unchecked, sv.unchecked)
          ≡ ok s')
        × IsAlerted s su sv s'
  unfolding on_new_forker_detected add_unit_to_store_unless_fork on_alert_notification form_alert
  on_new_forker_detected-IsAlerted s su sv v small member =
      let node_id = (coord_of (full su)).creator in
      let proof : ForkProof H D S = (su.unchecked, sv.unchecked) in
      let committed = units_from s.store node_id (suc s.store.max_round) 0 in
      let s' : Runway H D S = record s {
        store = with_mark s.store node_id;
        alerts_for_alerter = send s.alerts_for_alerter (form_alert s proof committed);
        exiting = exiting_after s.alerts_for_alerter s.exiting;
      } in
      let known = is_forker-with_mark s.store node_id member in
      (
        s',
        simp (on_new_forker_detected, mark_forker_lem s.store node_id member) refl,
        record {
          marked = refl;
          alert = form_alert s proof committed;
          alert_sent = refl;
          by_this_node = refl;
          by_both_units = refl;
          not_hashed = refl;
          committed = committed;
          commits = refl;
          complete = units_from-IsComplete s.store v node_id small;
          ignored = λ sw c. simp (add_unit_to_store_unless_fork, c, known) refl;
          told_again = λ keys again c. simp (on_alert_notification, c, known) refl;
        },
      )

  unmarked_member :
      (s : Runway H D S) (node_id : NodeIndex)
      → get_elem? s.store.forkers node_id ≡ some false
      → Store.is_forker s.store node_id ≡ ok false
  unfolding Store.is_forker NodeSubset.contains
  unmarked_member s node_id unmarked = ground arith

  forks_with :
      (s : Runway H D S) (su sv : SignedUnit H D S)
      → HashMap.get (hash_of (full su)) s.store.by_hash ≡ none
      → HashMap.get (coord_of (full su)) s.store.by_coord ≡ some sv
      → Store.is_new_fork s.store (full su) ≡ some sv
  unfolding Store.is_new_fork Store.contains_hash Store.unit_by_coord HashMap.contains_key
  forks_with s su sv new other = ground arith

  -- In a runway whose store is valid and whose maximal round is a u16, a unit of a member that is
  -- not marked, with a new hash and the coordinate of a stored unit: the runway returns, marks the
  -- creator and, if the alerter listens, sends it one alert, in its own name, with the new and the
  -- stored unit as the proof, and with all units of the creator that the store has under their
  -- coordinates, of rounds up to the maximum, in rising order of the rounds. The unit is not
  -- stored. In the state that this leaves, a further unit of the creator and a further report of
  -- its forks change nothing.
  pub add_unit_to_store_unless_fork-IsAlerted :
      (s : Runway H D S) (su sv : SignedUnit H D S)
      → Valid.IsValid s.store
      → s.store.max_round < 2 ^ 16
      → get_elem? s.store.forkers (coord_of (full su)).creator ≡ some false
      → HashMap.get (hash_of (full su)) s.store.by_hash ≡ none
      → HashMap.get (coord_of (full su)) s.store.by_coord ≡ some sv
      → (s' : Runway H D S) × (add_unit_to_store_unless_fork s su ≡ ok s') × IsAlerted s su sv s'
  unfolding add_unit_to_store_unless_fork
  add_unit_to_store_unless_fork-IsAlerted s su sv v small free new other =
      let unmarked = unmarked_member s (coord_of (full su)).creator free in
      let forked = forks_with s su sv new other in
      let (s', done, alerted) =
        on_new_forker_detected-IsAlerted s su sv v small
          (get_elem?-lt s.store.forkers (coord_of (full su)).creator false free) in
      (
        s',
        rw (add_unit_to_store_unless_fork, unmarked, forked, on_fork_new s su sv unmarked) done,
        alerted,
      )
