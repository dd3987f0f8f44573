-- ===== src/Terminal/Order.antt =====
-- src/terminal.rs: whole notifications, and the order in which units enter the DAG.
use aleph_bft.Prelude.{
  ℕ, zero, suc, ◌+◌, ◌≤◌, ◌≡◌, refl, sym, ap, subst, ◌∙◌, inl, inr, List, [], ◌∷◌, Eq, count, arith,
  ok, Bool-cases, ok_injective, bind_returns,
}
use aleph_bft.Prelude.HashMap
use aleph_bft.Prelude.HashMap.{HashMap}
use aleph_bft.Nodes.{NodeIndex}
use aleph_bft.Units.{ConsensusUnit, ParentHasher}
use aleph_bft.Runway.Message.{NotificationIn, new_units, unit_parents}
use aleph_bft.Terminal.{TerminalEvent, Terminal, new, round_creator_eq, add_to_store}
use aleph_bft.Terminal.Events.{
  update_on_wrong_hash_response, handle_event, handle_queue, handle_events, on_new_units,
  on_notification, TerminalInput, received, channel_closed, exit_signal, on_input, run,
}
use aleph_bft.Terminal.Stages.{in_dag_of, nothing, after, InOrder, Consistent}
use aleph_bft.Terminal.Decode.{IsConsistent}
use aleph_bft.Terminal.Added.{add_to_store-IsConsistent}
use aleph_bft.Terminal.Work.{is_decode, outside, work, Returns}
use aleph_bft.Terminal.Handled.{handle_event-returns}
use aleph_bft.Terminal.Wrong.{wrong_response-IsConsistent}

module _ {H : Type 0} ⦃e : Eq H⦄ ⦃p : ParentHasher H⦄ where
  -- Enough fuel for the queue, with nothing assumed of the terminal but that it is consistent.
  handle_queue-returns :
      (fuel : ℕ) (queue : List (TerminalEvent H)) (s : Terminal H)
      → IsConsistent s []
      → s.event_queue ≡ queue
      → work s ≤ fuel
      → Returns (handle_queue fuel queue s) (λ s'. IsConsistent s' [] × (s'.event_queue ≡ []))
  unfolding handle_queue
  handle_queue-returns fuel [] s c same_queue enough = (s, refl, (c, same_queue))
  handle_queue-returns zero (event ∷ queue) s c same_queue enough =
      let (t, handled, (c', less)) =
        handle_event-returns (record s { event_queue = queue }) event
          (subst (λ q. Consistent s.unit_store q s.children_hash s.children_coord s.inserted [])
            same_queue c) in
      absurd (omega (arith, ap (λ q. outside s.unit_store + count is_decode q) same_queue))
  handle_queue-returns (suc fuel) (event ∷ queue) s c same_queue enough =
      let s0 = record s { event_queue = queue } in
      let (t, handled, (c', less)) = handle_event-returns s0 event (
        subst (λ q. Consistent s.unit_store q s.children_hash s.children_coord s.inserted [])
          same_queue c) in
      let work_eq : work (record s { event_queue = event ∷ queue }) ≡ work s =
        ap (λ q. outside s.unit_store + count is_decode q) (sym same_queue) in
      let (r, rest, after_it) = handle_queue-returns fuel t.event_queue t c' refl (omega arith) in
      (r, rw handled rest, after_it)

  handle_queue-IsConsistent :
      (fuel : ℕ) (queue : List (TerminalEvent H)) (s s' : Terminal H)
      → IsConsistent s []
      → s.event_queue ≡ queue
      → handle_queue fuel queue s ≡ ok s'
      → IsConsistent s' [] × (s'.event_queue ≡ [])
  unfolding handle_queue
  handle_queue-IsConsistent fuel [] s s' c same_queue done =
      subst (λ (t : Terminal H). IsConsistent t [] × (t.event_queue ≡ [])) (ok_injective done)
        (c, same_queue)
  handle_queue-IsConsistent zero (event ∷ queue) s s' c same_queue done = cc
  handle_queue-IsConsistent (suc fuel) (event ∷ queue) s s' c same_queue done =
      let s0 = record s { event_queue = queue } in
      let (t, handled, rest) = bind_returns (handle_event s0 event) _ done in
      let (r, returns, (c', _)) = handle_event-returns s0 event (
        subst (λ q. Consistent s.unit_store q s.children_hash s.children_coord s.inserted [])
          same_queue c) in
      handle_queue-IsConsistent fuel t.event_queue t s'
        (subst (λ (q : Terminal H). IsConsistent q []) (ok_injective (sym returns ∙ handled)) c')
        refl rest

  on_new_units-IsConsistent :
      (fuel : ℕ) (s s' : Terminal H) (us : List (ConsensusUnit H))
      → IsConsistent s []
      → s.event_queue ≡ []
      → on_new_units fuel s us ≡ ok s'
      → IsConsistent s' [] × (s'.event_queue ≡ [])
  unfolding on_new_units handle_events
  on_new_units-IsConsistent fuel s s' [] c idle done =
      subst (λ (t : Terminal H). IsConsistent t [] × (t.event_queue ≡ [])) (ok_injective done)
        (c, idle)
  on_new_units-IsConsistent fuel s s' (u ∷ us) c idle done =
      let (t, added, rest) = bind_returns (add_to_store s u) _ done in
      let (r, handled, rest') = bind_returns (handle_events fuel t) _ rest in
      let (c', idle') =
        handle_queue-IsConsistent fuel t.event_queue t r (add_to_store-IsConsistent s t u c added)
          refl handled in
      on_new_units-IsConsistent fuel r s' us c' idle' rest'

  -- Between two notifications the queue is empty.
  abbrev pub IsOrderly : Terminal H → Type 0
  IsOrderly s = IsConsistent s [] × (s.event_queue ≡ [])

  -- Whatever notification a terminal handles to the end, with any fuel: if its parts were consistent
  -- and its queue was empty before, then they are after.
  pub on_notification-IsOrderly :
      (fuel : ℕ) (s s' : Terminal H) (notification : NotificationIn H)
      → IsOrderly s
      → on_notification fuel s notification ≡ ok s'
      → IsOrderly s'
  unfolding on_notification handle_events
  on_notification-IsOrderly fuel s s' (new_units us) (c, idle) done =
      on_new_units-IsConsistent fuel s s' us c idle done
  on_notification-IsOrderly fuel s s' (unit_parents h p_hashes) (c, idle) done =
      let (t, answered, rest) = bind_returns (update_on_wrong_hash_response s h p_hashes) _ done in
      handle_queue-IsConsistent fuel t.event_queue t s'
        (wrong_response-IsConsistent s t h p_hashes c idle answered) refl rest

  new-IsOrderly : (node_id : NodeIndex) → IsOrderly (new node_id)
  unfolding new HashMap.get
  new-IsOrderly node_id = (
    record {
      dag_is = λ q. refl;
      ordered = tt;
      units = λ h u found. cc;
      strangers = λ h missing. (λ q. refl, refl, refl, refl);
      coords = λ k. tt;
    },
    refl,
  )

  on_input-IsOrderly :
      (fuel : ℕ) (s s' : Terminal H) (input : TerminalInput H)
      → IsOrderly s
      → on_input fuel s input ≡ ok s'
      → IsOrderly s'
  unfolding on_input
  on_input-IsOrderly fuel s s' (received notification) c done =
      on_notification-IsOrderly fuel s s' notification c done
  on_input-IsOrderly fuel s s' channel_closed c done = subst IsOrderly (ok_injective done) c
  on_input-IsOrderly fuel s s' exit_signal c done = subst IsOrderly (ok_injective done) c

  run-IsOrderly :
      (fuel : ℕ) (s s' : Terminal H) (inputs : List (TerminalInput H))
      → IsOrderly s
      → run fuel s inputs ≡ ok s'
      → IsOrderly s'
  unfolding run
  run-IsOrderly fuel s s' [] c done = subst IsOrderly (ok_injective done) c
  run-IsOrderly fuel s s' (input ∷ inputs) c done =
      let (t, handled, rest) = bind_returns (on_input fuel s input) _ done in
      let c' = on_input-IsOrderly fuel s t input c handled in
      elim (Bool-cases t.exiting) [
        | inl stop ↦ let over : t ≡ s' = ok_injective (ground arith) in subst IsOrderly over c'
        | inr go_on ↦ run-IsOrderly fuel t s' inputs c' (ground arith)
      ]

  -- Whatever a new terminal receives, if the run returns, with any fuel: the hooks of `post_insert`
  -- are given the units in such an order that each is given once and after all the parents in its
  -- slots, and a unit has the status of the DAG exactly when it was given.
  pub run-InOrder :
      (fuel : ℕ) (node_id : NodeIndex) (inputs : List (TerminalInput H)) (s : Terminal H)
      → run fuel (new node_id) inputs ≡ ok s
      → InOrder s.inserted nothing
        × ((h : H) → in_dag_of s.unit_store h ≡ after s.inserted nothing h)
  run-InOrder fuel node_id inputs s done =
      let (c, idle) = run-IsOrderly fuel (new node_id) s inputs (new-IsOrderly node_id) done in
      (c.ordered, c.dag_is)

  -- Whatever a new terminal has received, if its run returns, with any fuel, and `add_to_store`
  -- returns then: the events that are left are handled without a panic, with fuel for the units
  -- outside the DAG and for the queued events of decoded parents, and the queue is empty then.
  pub added-handle_events :
      (fuel fuel' : ℕ) (node_id : NodeIndex) (inputs : List (TerminalInput H)) (s t : Terminal H)
      (u : ConsensusUnit H)
      → run fuel (new node_id) inputs ≡ ok s
      → add_to_store s u ≡ ok t
      → work t ≤ fuel'
      → (s' : Terminal H) × (handle_events fuel' t ≡ ok s') × (s'.event_queue ≡ [])
  unfolding handle_events
  added-handle_events fuel fuel' node_id inputs s t u ran added enough =
      let (c, idle) = run-IsOrderly fuel (new node_id) s inputs (new-IsOrderly node_id) ran in
      let (s', done, (_, idle')) =
        handle_queue-returns fuel' t.event_queue t (add_to_store-IsConsistent s t u c added) refl
          enough in
      (s', done, idle')
