-- ===== src/Terminal.antt =====
-- src/terminal.rs: units wait here for their parents, and enter the DAG after them.
pub mod Events
pub mod Stages
pub mod Update
pub mod Decode
pub mod Arrive
pub mod Added
pub mod Enter
pub mod Work
pub mod Tell
pub mod Entered
pub mod Hang
pub mod Inspect
pub mod Wrong
pub mod Handled
pub mod Order
use aleph_bft.Prelude.{
  ℕ, zero, suc, ◌+◌, ◌-◌, Bool, true, false, not, Option, none, some, List, [], ◌∷◌, ◌++◌, Eq,
  if◌then◌else◌, ◌==◌, u16, Exec, ok, panic, ◌>>=◌, unwrap, index, Channel, send, exiting_after,
  ℕ_discrete, leb,
}
use aleph_bft.Prelude.HashMap
use aleph_bft.Prelude.HashMap.{HashMap}
use aleph_bft.Nodes.{NodeIndex, NodeCount}
use aleph_bft.Nodes.NodeMap
use aleph_bft.Nodes.NodeMap.{NodeMap}
use aleph_bft.Units
use aleph_bft.Units.{
  Round, UnitCoord, ConsensusUnit, ParentHasher, combine_hashes, n_members, n_parents, new_coord,
}
use aleph_bft.Alerts.{same}
use aleph_bft.Extender.State.{ExtenderUnit, new_unit}
use aleph_bft.Runway.Message.{NotificationOut, missing_units, wrong_control_hash, added_to_dag}

pub data UnitStatus : Type 0 where
  reconstructing_parents : UnitStatus
  wrong_hash : UnitStatus
  waiting_parents_in_dag : UnitStatus
  in_dag : UnitStatus

pub record TerminalUnit (H : Type 0) : Type 0 where
  pub unit : ConsensusUnit H
  pub parents : NodeMap H
  pub n_miss_par_decoded : NodeCount
  pub n_miss_par_dag : NodeCount
  pub status : UnitStatus

pub data TerminalEvent (H : Type 0) : Type 0 where
  parents_reconstructed : H → TerminalEvent H
  parents_in_dag : H → TerminalEvent H

abbrev pub Coord : Type 0
Coord = Round × NodeIndex

unfoldable pub Coord-discrete : Discrete Coord
Coord-discrete = hlevel ℕ_discrete

instance abbrev pub round_creator_eq : Eq Coord
round_creator_eq = record { eq? = Coord-discrete }

-- `inserted` lists the units that the hooks of `post_insert` were given, oldest first. The queue
-- takes new events at its end.
pub record Terminal (H : Type 0) : Type 0 where
  pub node_id : NodeIndex
  pub ntfct_tx : Channel (NotificationOut H)
  pub event_queue : List (TerminalEvent H)
  pub inserted : List (TerminalUnit H)
  pub unit_store : HashMap H (TerminalUnit H)
  pub unit_by_coord : HashMap Coord H
  pub children_coord : HashMap Coord (List H)
  pub children_hash : HashMap H (List H)
  pub exiting : Bool

abbrev pub round_of : {H : Type 0} → ConsensusUnit H → Round
round_of u = u.pre_unit.coord.round

abbrev pub creator_of : {H : Type 0} → ConsensusUnit H → NodeIndex
creator_of u = u.pre_unit.coord.creator

-- `-=` on a count, under overflow checks.
abbrev pub checked_sub : ℕ → ℕ → Exec ℕ
checked_sub a b = if leb b a then ok (a - b) else panic

module _ {H : Type 0} where
  -- What the hook of the consensus sends to the extender.
  unfoldable pub extender_unit : TerminalUnit H → ExtenderUnit H
  unfolding new_unit
  extender_unit u = new_unit (creator_of u.unit) (round_of u.unit) u.unit.hash u.parents

  unfoldable pub blank_from_unit : ConsensusUnit H → TerminalUnit H
  unfolding n_members n_parents NodeMap.with_size
  blank_from_unit unit = record {
    unit = unit;
    parents = NodeMap.with_size (n_members unit.pre_unit.control_hash);
    n_miss_par_decoded = n_parents unit.pre_unit.control_hash;
    n_miss_par_dag = n_parents unit.pre_unit.control_hash;
    status = reconstructing_parents;
  }

  unfoldable pub verify_control_hash : ⦃e : Eq H⦄ ⦃p : ParentHasher H⦄ → TerminalUnit H → Bool
  unfolding combine_hashes
  verify_control_hash u = same u.unit.pre_unit.control_hash.combined_hash (combine_hashes u.parents)

  unfoldable pub new : NodeIndex → Terminal H
  new node_id = record {
    node_id = node_id;
    ntfct_tx = record { sent = []; is_open = true };
    event_queue = [];
    inserted = [];
    unit_store = [];
    unit_by_coord = [];
    children_coord = [];
    children_hash = [];
    exiting = false;
  }

  unfoldable pub send_notification : Terminal H → NotificationOut H → Terminal H
  send_notification s notification = record s {
    ntfct_tx = send s.ntfct_tx notification;
    exiting = exiting_after s.ntfct_tx s.exiting;
  }

  abbrev pub push_event : Terminal H → TerminalEvent H → Terminal H
  push_event s event = record s { event_queue = s.event_queue ++ event ∷ [] }

  unfoldable pub add_coord_trigger : Terminal H → Round → NodeIndex → H → Terminal H
  unfolding HashMap.get HashMap.insert
  add_coord_trigger s round pid u_hash =
      let wait_list : List H = elim (HashMap.get (round, pid) s.children_coord) [
        | none ↦ []
        | some waiting ↦ waiting
      ] in
      record s {
        children_coord = HashMap.insert (round, pid) (wait_list ++ u_hash ∷ []) s.children_coord;
      }

module _ {H : Type 0} ⦃e : Eq H⦄ where
  unfoldable pub reconstruct_parent : Terminal H → H → NodeIndex → H → Exec (Terminal H)
  unfolding HashMap.get HashMap.insert NodeMap.insert
  reconstruct_parent s u_hash pid p_hash = do
    u ← unwrap (HashMap.get u_hash s.unit_store)
    parents ← NodeMap.insert u.parents pid p_hash
    n ← checked_sub u.n_miss_par_decoded 1
    let s' = record s {
      unit_store =
          HashMap.insert u_hash (record u { parents = parents; n_miss_par_decoded = n })
            s.unit_store;
    }
    ok (if n == 0 then push_event s' (parents_reconstructed u_hash) else s')

  unfoldable pub new_parent_in_dag : Terminal H → H → Exec (Terminal H)
  unfolding HashMap.get HashMap.insert
  new_parent_in_dag s u_hash = do
    u ← unwrap (HashMap.get u_hash s.unit_store)
    n ← checked_sub u.n_miss_par_dag 1
    let s' = record s {
      unit_store = HashMap.insert u_hash (record u { n_miss_par_dag = n }) s.unit_store;
    }
    ok (if n == 0 then push_event s' (parents_in_dag u_hash) else s')

  unfoldable pub add_hash_trigger : Terminal H → H → H → Terminal H
  unfolding HashMap.get HashMap.insert
  add_hash_trigger s p_hash u_hash =
      let wait_list : List H = elim (HashMap.get p_hash s.children_hash) [
        | none ↦ []
        | some waiting ↦ waiting
      ] in
      record s { children_hash = HashMap.insert p_hash (wait_list ++ u_hash ∷ []) s.children_hash }

  -- The loop over the units that wait for a coordinate.
  unfoldable pub reconstruct_children : Terminal H → List H → NodeIndex → H → Exec (Terminal H)
  unfolding reconstruct_parent
  reconstruct_children s [] pid u_hash = ok s
  reconstruct_children s (v_hash ∷ children) pid u_hash = do
    s' ← reconstruct_parent s v_hash pid u_hash
    reconstruct_children s' children pid u_hash

  -- The loop over the parents of a new unit, and the coordinates that it requests.
  unfoldable pub find_parents :
      Terminal H → H → Round → List NodeIndex → Exec (Terminal H × List UnitCoord)
  unfolding HashMap.get reconstruct_parent add_coord_trigger new_coord
  find_parents s u_hash round [] = ok (s, [])
  find_parents s u_hash round (i ∷ ids) = elim (HashMap.get (round, i) s.unit_by_coord) [
    | some v_hash ↦ do s' ← reconstruct_parent s u_hash i v_hash; find_parents s' u_hash round ids
    | none ↦ do
      (s', coords) ← find_parents (add_coord_trigger s round i u_hash) u_hash round ids
      ok (s', new_coord round i ∷ coords)
  ]

  unfoldable pub request_parents : Terminal H → List UnitCoord → Terminal H
  unfolding send_notification
  request_parents s [] = s
  request_parents s (c ∷ coords) = send_notification s (missing_units (c ∷ coords))

  -- The unit takes its coordinate, if it is the first there.
  unfoldable pub place_unit : Terminal H → ConsensusUnit H → Terminal H
  unfolding HashMap.get HashMap.insert
  place_unit s u = elim (HashMap.get (round_of u, creator_of u) s.unit_by_coord) [
    | some _ ↦ s
    | none ↦ record s {
      unit_by_coord = HashMap.insert (round_of u, creator_of u) u.hash s.unit_by_coord;
    }
  ]

  -- The units that wait for the coordinate leave the list.
  unfoldable pub wake_children : Terminal H → ConsensusUnit H → Exec (Terminal H)
  unfolding HashMap.get HashMap.remove reconstruct_children
  wake_children s u = elim (HashMap.get (round_of u, creator_of u) s.children_coord) [
    | none ↦ ok s
    | some children ↦
        reconstruct_children
          (record s { children_coord = HashMap.remove (round_of u, creator_of u) s.children_coord })
          children (creator_of u) u.hash
  ]

  unfoldable pub update_on_store_add : Terminal H → ConsensusUnit H → Exec (Terminal H)
  unfolding place_unit wake_children find_parents request_parents Units.parents
  update_on_store_add s u = do
    s' ← wake_children (place_unit s u) u
    (if round_of u == 0 then ok (push_event s' (parents_reconstructed u.hash)) else (do
      (s'', coords) ←
          find_parents s' u.hash (round_of u - 1) (Units.parents u.pre_unit.control_hash)
      ok (request_parents s'' coords)))

  unfoldable pub add_to_store : Terminal H → ConsensusUnit H → Exec (Terminal H)
  unfolding HashMap.get HashMap.insert blank_from_unit update_on_store_add
  add_to_store s u = elim (HashMap.get u.hash s.unit_store) [
    | some _ ↦ ok s
    | none ↦
        update_on_store_add
          (record s { unit_store = HashMap.insert u.hash (blank_from_unit u) s.unit_store }) u
  ]
