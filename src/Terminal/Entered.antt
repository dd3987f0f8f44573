-- ===== src/Terminal/Entered.antt =====
-- src/terminal.rs: the step in which a unit enters the DAG and tells those that wait for it.
use aleph_bft.Prelude.{
  suc, ◌≤◌, ◌≡◌, sym, ap, subst, ◌∙◌, inl, inr, ite, true, none, some, List, [], ◌∷◌, ◌++◌, Eq,
  count, arith, Option-cases,
}
use aleph_bft.Prelude.HashMap
use aleph_bft.Prelude.HashMap.{HashMap}
use aleph_bft.Nodes.NodeMap
use aleph_bft.Alerts.{same}
use aleph_bft.Terminal.{
  in_dag, TerminalUnit, parents_in_dag, Terminal, round_creator_eq, send_notification,
}
use aleph_bft.Terminal.Events.{tell_children, update_on_dag_add, set_status}
use aleph_bft.Runway.Message.{added_to_dag}
use aleph_bft.Terminal.Stages.{
  in_dag_of, list_from, list_at, waits, decode_event, dag_event, Stage, Consistent,
}
use aleph_bft.Terminal.Decode.{IsConsistent}
use aleph_bft.Terminal.Enter.{enter, Stage-ready}
use aleph_bft.Terminal.Work.{is_outside, held-insert, work, Returns}
use aleph_bft.Terminal.Tell.{parents_arrived-returns}

module _ {H : Type 0} ⦃e : Eq H⦄ where
  none_at :
      (ch : HashMap H (List H)) (h p : H)
      → HashMap.get h ch ≡ none
      → list_at p ch ≡ ite (e.eq? h p) [] (list_at p ch)
  none_at ch h p nobody = elim (e.eq? h p) [
    | yes is ↦
        let empty : list_at p ch ≡ [] = ap (λ q. list_at q ch) (sym is) ∙ ap list_from nobody in
        ground arith
    | no other ↦ ground arith
  ]

  -- The unit `h`, with its new status, is in the DAG, and those that wait for it are being told.
  entered :
      (s : Terminal H) (h : H) (u : TerminalUnit H)
      → Consistent s.unit_store
          (parents_in_dag h ∷ s.event_queue)
          s.children_hash
          s.children_coord
          s.inserted
          []
      → HashMap.get h s.unit_store ≡ some u
      → (let t = record s {
        unit_store = HashMap.insert h (record u { status = in_dag }) s.unit_store;
        inserted = s.inserted ++ record u { status = in_dag } ∷ [];
      } in
          Returns (tell_children t h) (λ r. IsConsistent r [] × (work r ≤ work t)))
  unfolding tell_children
  entered s h u c found =
      let u' = record u { status = in_dag } in
      let t = record s {
        unit_store = HashMap.insert h u' s.unit_store;
        inserted = s.inserted ++ u' ∷ [];
      } in
      let into =
        λ (ch : HashMap H (List H))
            (lists : (p : H) → list_at p ch ≡ ite (e.eq? h p) [] (list_at p s.children_hash)).
          enter s.unit_store s.event_queue s.children_hash ch s.children_coord s.inserted h u c
            found lists in
      elim (Option-cases (HashMap.get h s.children_hash)) [
        | inl nobody ↦ (
          t,
          ground arith,
          (
            subst (IsConsistent t) (ap list_from nobody)
                (into s.children_hash (λ p. none_at s.children_hash h p nobody)),
            omega arith,
          ),
        )
        | inr (children, waits_for) ↦
            let unheard = record t { children_hash = HashMap.remove h s.children_hash } in
            let (r, done, (c', less)) = parents_arrived-returns unheard children (
              subst (IsConsistent unheard) (ap list_from waits_for) (
                into (HashMap.remove h s.children_hash)
                  (λ p. ground (arith, HashMap.get-remove h p s.children_hash)))) in
            (r, ground arith, (c', less))
      ]

  pub update_on_dag_add-returns :
      (s : Terminal H) (h : H) (u : TerminalUnit H)
      → Consistent s.unit_store
          (parents_in_dag h ∷ s.event_queue)
          s.children_hash
          s.children_coord
          s.inserted
          []
      → HashMap.get h s.unit_store ≡ some u
      → Returns
          (update_on_dag_add (set_status s h u in_dag) h)
          (λ s'. IsConsistent s' [] × (suc (work s') ≤ work s))
  unfolding update_on_dag_add set_status send_notification
  update_on_dag_add-returns s h u c found =
      let u' = record u { status = in_dag } in
      let store' = HashMap.insert h u' s.unit_store in
      let there : HashMap.get h store' ≡ some u' = HashMap.get-insert_self h u' s.unit_store in
      let one : same h h ≡ true = ground arith in
      let (r, told, (c', less)) = entered s h u c found in
      let (_, out, _, _, _, _, _) =
        Stage-ready (in_dag_of s.unit_store) u (waits s.children_hash h) 0
          (count (decode_event h) s.event_queue) (count (dag_event h) s.event_queue)
          (subst
            (Stage (in_dag_of s.unit_store) u (waits s.children_hash h) 0
              (count (decode_event h) s.event_queue))
            (ground arith) (c.units h u found).2) in
      (
        send_notification r (added_to_dag h (NodeMap.values u.parents)),
        ground arith,
        (c', ground (arith, held-insert is_outside h u u' s.unit_store found)),
      )
