-- ===== src/Terminal/Events.antt =====
-- src/terminal.rs: the events of the queue, and the responses to a wrong control hash.
use aleph_bft.Prelude.{
  ℕ, zero, suc, ◌+◌, Bool, true, false, none, some, List, [], ◌∷◌, ◌++◌, Eq, if◌then◌else◌, ◌==◌,
  Exec, ok, out_of_fuel, ◌>>=◌, unwrap, index,
}
use aleph_bft.Prelude.HashMap
use aleph_bft.Nodes.{NodeIndex, NodeCount}
use aleph_bft.Nodes.NodeMap
use aleph_bft.Nodes.NodeMap.{NodeMap}
use aleph_bft.Units
use aleph_bft.Units.{ConsensusUnit, ParentHasher}
use aleph_bft.Runway.Message.{
  NotificationIn, new_units, unit_parents, wrong_control_hash, added_to_dag,
}
use aleph_bft.Terminal.{
  UnitStatus, reconstructing_parents, wrong_hash, waiting_parents_in_dag, in_dag, TerminalUnit,
  TerminalEvent, parents_reconstructed, parents_in_dag, Terminal, checked_sub, verify_control_hash,
  send_notification, push_event, new_parent_in_dag, add_hash_trigger, add_to_store,
}

abbrev pub is_in_dag : UnitStatus → Bool
is_in_dag in_dag = true
is_in_dag reconstructing_parents = false
is_in_dag wrong_hash = false
is_in_dag waiting_parents_in_dag = false

abbrev pub is_wrong_hash : UnitStatus → Bool
is_wrong_hash wrong_hash = true
is_wrong_hash reconstructing_parents = false
is_wrong_hash waiting_parents_in_dag = false
is_wrong_hash in_dag = false

-- What the `select!` of `run` gives: `channel_closed` when no sender is left.
pub data TerminalInput (H : Type 0) : Type 0 where
  received : NotificationIn H → TerminalInput H
  channel_closed : TerminalInput H
  exit_signal : TerminalInput H

module _ {H : Type 0} ⦃e : Eq H⦄ where
  -- Is the parent stored, and in the DAG?
  unfoldable pub parent_in_dag : Terminal H → H → Bool
  unfolding HashMap.get
  parent_in_dag s p_hash = elim (HashMap.get p_hash s.unit_store) [
    | none ↦ false
    | some p ↦ is_in_dag p.status
  ]

  -- The loop over the parents: how many are in the DAG, and triggers for the others.
  unfoldable pub count_parents : Terminal H → H → List H → NodeCount → Terminal H × NodeCount
  unfolding parent_in_dag add_hash_trigger
  count_parents s u_hash [] n = (s, n)
  count_parents s u_hash (p_hash ∷ ps) n =
      count_parents (if parent_in_dag s p_hash then s else add_hash_trigger s p_hash u_hash) u_hash
        ps (if parent_in_dag s p_hash then n + 1 else n)

  unfoldable pub inspect_parents_in_dag : Terminal H → H → Exec (Terminal H)
  unfolding HashMap.get HashMap.insert NodeMap.values count_parents
  inspect_parents_in_dag s u_hash = do
    u ← unwrap (HashMap.get u_hash s.unit_store)
    let (s', n_parents_in_dag) = count_parents s u_hash (NodeMap.values u.parents) 0
    n ← checked_sub u.n_miss_par_dag n_parents_in_dag
    ok (
        if n == 0
        then push_event
            (record s' {
              unit_store = HashMap.insert u_hash (record u { n_miss_par_dag = n }) s'.unit_store;
            })
            (parents_in_dag u_hash)
        else record s' {
          unit_store =
              HashMap.insert u_hash
                (record u { n_miss_par_dag = n; status = waiting_parents_in_dag }) s'.unit_store;
        })

  -- The loop over the units that wait for a unit of the DAG.
  unfoldable pub parents_arrived : Terminal H → List H → Exec (Terminal H)
  unfolding new_parent_in_dag
  parents_arrived s [] = ok s
  parents_arrived s (v_hash ∷ children) = do
    s' ← new_parent_in_dag s v_hash
    parents_arrived s' children

  unfoldable pub tell_children : Terminal H → H → Exec (Terminal H)
  unfolding HashMap.get HashMap.remove parents_arrived
  tell_children s u_hash = elim (HashMap.get u_hash s.children_hash) [
    | none ↦ ok s
    | some children ↦
        parents_arrived (record s { children_hash = HashMap.remove u_hash s.children_hash })
          children
  ]

  unfoldable pub update_on_dag_add : Terminal H → H → Exec (Terminal H)
  unfolding HashMap.get tell_children NodeMap.values send_notification
  update_on_dag_add s u_hash = do
    u ← unwrap (HashMap.get u_hash s.unit_store)
    s' ← tell_children (record s { inserted = s.inserted ++ u ∷ [] }) u_hash
    ok (send_notification s' (added_to_dag u_hash (NodeMap.values u.parents)))

  -- The loop over the parents of a response, which is indexed by a counter.
  unfoldable pub set_parents : NodeMap H → List NodeIndex → ℕ → List H → Exec (NodeMap H)
  unfolding NodeMap.insert
  set_parents parents [] counter p_hashes = ok parents
  set_parents parents (i ∷ ids) counter p_hashes = do
    p_hash ← index p_hashes counter
    parents' ← NodeMap.insert parents i p_hash
    set_parents parents' ids (suc counter) p_hashes

  unfoldable pub update_on_wrong_hash_response : Terminal H → H → List H → Exec (Terminal H)
  unfolding HashMap.get HashMap.insert set_parents inspect_parents_in_dag Units.parents
  update_on_wrong_hash_response s u_hash p_hashes = do
    u ← unwrap (HashMap.get u_hash s.unit_store)
    (if is_wrong_hash u.status
        then (do
          parents ← set_parents u.parents (Units.parents u.unit.pre_unit.control_hash) 0 p_hashes
          inspect_parents_in_dag
              (record s {
                unit_store =
                    HashMap.insert u_hash (record u { parents = parents; n_miss_par_decoded = 0 })
                      s.unit_store;
              })
              u_hash)
        else ok s)

  unfoldable pub set_status : Terminal H → H → TerminalUnit H → UnitStatus → Terminal H
  unfolding HashMap.insert
  set_status s u_hash u status = record s {
    unit_store = HashMap.insert u_hash (record u { status = status }) s.unit_store;
  }

module _ {H : Type 0} ⦃e : Eq H⦄ ⦃p : ParentHasher H⦄ where
  unfoldable pub handle_event : Terminal H → TerminalEvent H → Exec (Terminal H)
  unfolding HashMap.get verify_control_hash inspect_parents_in_dag set_status send_notification
      update_on_dag_add
  handle_event s (parents_reconstructed u_hash) = do
    u ← unwrap (HashMap.get u_hash s.unit_store)
    (if verify_control_hash u
        then inspect_parents_in_dag s u_hash
        else ok (send_notification (set_status s u_hash u wrong_hash) (wrong_control_hash u_hash)))
  handle_event s (parents_in_dag u_hash) = do
    u ← unwrap (HashMap.get u_hash s.unit_store)
    update_on_dag_add (set_status s u_hash u in_dag) u_hash

  -- The loop, an event for each unit of fuel.
  unfoldable pub handle_queue : ℕ → List (TerminalEvent H) → Terminal H → Exec (Terminal H)
  unfolding handle_event
  handle_queue fuel [] s = ok s
  handle_queue zero (event ∷ queue) s = out_of_fuel
  handle_queue (suc fuel) (event ∷ queue) s = do
    s' ← handle_event (record s { event_queue = queue }) event
    handle_queue fuel s'.event_queue s'

  unfoldable pub handle_events : ℕ → Terminal H → Exec (Terminal H)
  unfolding handle_queue
  handle_events fuel s = handle_queue fuel s.event_queue s

  -- The loop over new units.
  unfoldable pub on_new_units : ℕ → Terminal H → List (ConsensusUnit H) → Exec (Terminal H)
  unfolding add_to_store handle_events
  on_new_units fuel s [] = ok s
  on_new_units fuel s (u ∷ us) = do
    s' ← add_to_store s u
    s'' ← handle_events fuel s'
    on_new_units fuel s'' us

  -- The branch of `run` for a notification.
  unfoldable pub on_notification : ℕ → Terminal H → NotificationIn H → Exec (Terminal H)
  unfolding on_new_units update_on_wrong_hash_response handle_events
  on_notification fuel s (new_units us) = on_new_units fuel s us
  on_notification fuel s (unit_parents u_hash p_hashes) = do
    s' ← update_on_wrong_hash_response s u_hash p_hashes
    handle_events fuel s'

  unfoldable pub on_input : ℕ → Terminal H → TerminalInput H → Exec (Terminal H)
  unfolding on_notification
  on_input fuel s (received notification) = on_notification fuel s notification
  on_input fuel s channel_closed = ok s
  on_input fuel s exit_signal = ok (record s { exiting = true })

  -- The loop, an input at a time: it stops after the input that makes the terminal exit.
  unfoldable pub run : ℕ → Terminal H → List (TerminalInput H) → Exec (Terminal H)
  unfolding on_input
  run fuel s [] = ok s
  run fuel s (input ∷ inputs) = do
    s' ← on_input fuel s input
    let rest = run fuel s' inputs
    (if s'.exiting then ok s' else rest)
