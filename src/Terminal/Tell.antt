-- ===== src/Terminal/Tell.antt =====
-- src/terminal.rs: the units that are told that a parent entered the DAG.
use aleph_bft.Prelude.{
  ℕ, suc, ◌+◌, ◌-◌, ◌≤◌, ◌≡◌, ◌≢◌, refl, sym, subst, inl, inr, Bool, true, false, some, List, [],
  ◌∷◌, ◌++◌, Eq, count, count-append, arith, if◌then◌else◌, ◌==◌, ok, Bool-cases, Option-cases,
  ok_injective,
}
use aleph_bft.Prelude.HashMap
use aleph_bft.Prelude.HashMap.{HashMap}
use aleph_bft.Alerts.{same}
use aleph_bft.Terminal.{
  TerminalUnit, TerminalEvent, parents_in_dag, Terminal, round_creator_eq, push_event,
  new_parent_in_dag,
}
use aleph_bft.Terminal.Events.{is_in_dag, is_wrong_hash, parents_arrived}
use aleph_bft.Terminal.Stages.{
  known_parents, in_dag_of, waits, decode_event, dag_event, missing, IsSettled, all_inside-Unasked,
  Stage, fresh, decoded, wrong, waiting, ready, placed,
}
use aleph_bft.Terminal.Update.{Untouched, update}
use aleph_bft.Terminal.Decode.{IsConsistent}
use aleph_bft.Terminal.Work.{is_outside, is_decode, held-insert, work, Returns}

module _ {H : Type 0} ⦃e : Eq H⦄ where
  -- A unit that is told and has parents to come is waiting.
  Stage-told :
      (dag : H → Bool) (u : TerminalUnit H) (w : H → ℕ) (x a b : ℕ)
      → Stage dag u w (suc x) a b
      → (1 ≤ u.n_miss_par_dag)
        × IsSettled u
        × (is_wrong_hash u.status ≡ false)
        × (is_in_dag u.status ≡ false)
        × (a ≡ 0)
        × (b ≡ 0)
        × (missing dag u + suc x ≤ u.n_miss_par_dag)
        × ((p : H) → w p ≤ count (same p) (known_parents u))
  Stage-told dag u w x a b (fresh _ _ _ (_, _, _, untold)) = absurd (omega arith)
  Stage-told dag u w x a b (decoded _ _ _ _ (_, _, _, untold)) = absurd (omega arith)
  Stage-told dag u w x a b (wrong _ _ _ _ (_, _, _, untold)) = absurd (omega arith)
  Stage-told dag u w x a b (waiting settled good out no_a no_b more enough asked) =
      (more, settled, good, out, no_a, no_b, enough, asked)
  Stage-told dag u w x a b (ready _ _ _ _ _ _ (untold, _)) = absurd (omega arith)
  Stage-told dag u w x a b (placed _ _ _ _ _ (untold, _)) = absurd (omega arith)

  pub pushed_dag :
      (queue : List (TerminalEvent H)) (ch : HashMap H (List H)) (v : H) (told : List H) (h : H)
      → v ≢ h
      → Untouched queue (queue ++ parents_in_dag v ∷ []) ch ch (v ∷ told) told h
  pushed_dag queue ch v told h other = record {
    waits_eq = λ p. refl;
    told_eq = ground (arith, λ (is : h ≡ v). other (sym is));
    decode_eq = ground (arith, count-append (decode_event h) queue (parents_in_dag v ∷ []));
    dag_eq = ground (
      arith,
      count-append (dag_event h) queue (parents_in_dag v ∷ []),
      λ (is : h ≡ v). other (sym is),
    );
  }

  told_only :
      (queue : List (TerminalEvent H)) (ch : HashMap H (List H)) (v : H) (told : List H) (h : H)
      → v ≢ h
      → Untouched queue queue ch ch (v ∷ told) told h
  told_only queue ch v told h other = record {
    waits_eq = λ p. refl;
    told_eq = ground (arith, λ (is : h ≡ v). other (sym is));
    decode_eq = refl;
    dag_eq = refl;
  }

  new_parent_in_dag_lem :
      (s s' : Terminal H) (v : H)
      → new_parent_in_dag s v ≡ ok s'
      → (u : TerminalUnit H) × (HashMap.get v s.unit_store ≡ some u)
        × (1 ≤ u.n_miss_par_dag)
        × (s' ≡ (
            let t = record s {
              unit_store =
                  HashMap.insert v
                    (record u { n_miss_par_dag = u.n_miss_par_dag - 1 })
                    s.unit_store;
            } in
            if u.n_miss_par_dag - 1 == 0 then push_event t (parents_in_dag v) else t))
  unfolding new_parent_in_dag
  new_parent_in_dag_lem s s' v done = elim (Option-cases (HashMap.get v s.unit_store)) [
    | inl missing_v ↦ absurd (ground arith)
    | inr (u, found) ↦ (u, found, ground arith, ok_injective (ground arith))
  ]

  new_parent_in_dag-IsConsistent :
      (s s' : Terminal H) (v : H) (told : List H)
      → IsConsistent s (v ∷ told)
      → new_parent_in_dag s v ≡ ok s'
      → IsConsistent s' told
  new_parent_in_dag-IsConsistent s s' v told c done =
      let (u, found, more, result) = new_parent_in_dag_lem s s' v done in
      let (hash_eq, covered, stage) = c.units v u found in
      let dag = in_dag_of s.unit_store in
      let one : same v v ≡ true = ground arith in
      let (_, settled, good, out, no_a, no_b, enough, asked) =
        Stage-told dag u (waits s.children_hash v) (count (same v) told) _ _ (
          subst
            (λ x.
              Stage dag u (waits s.children_hash v) x (count (decode_event v) s.event_queue)
                (count (dag_event v) s.event_queue))
            (ground arith) stage) in
      let u' = record u { n_miss_par_dag = u.n_miss_par_dag - 1 } in
      elim (Bool-cases (u.n_miss_par_dag - 1 == 0)) [
        | inl last ↦
            rw (result, last)
              (update s.unit_store s.event_queue (s.event_queue ++ parents_in_dag v ∷ [])
                s.children_hash s.children_hash s.children_coord s.inserted (v ∷ told) told c v u u'
                found refl refl covered
                (ready settled out
                  (ground
                    (arith, count-append (decode_event v) s.event_queue (parents_in_dag v ∷ [])))
                  (ground (arith, count-append (dag_event v) s.event_queue (parents_in_dag v ∷ [])))
                  (ground arith) (ground arith)
                  (
                    ground arith,
                    (all_inside-Unasked dag u (waits s.children_hash v) (ground arith) asked).1,
                  ))
                (λ h other. pushed_dag s.event_queue s.children_hash v told h other))
        | inr not_last ↦
            rw (result, not_last)
              (update s.unit_store s.event_queue s.event_queue s.children_hash s.children_hash
                s.children_coord s.inserted (v ∷ told) told c v u u' found refl refl covered
                (waiting settled good out no_a no_b (ground arith) (omega arith) asked)
                (λ h other. told_only s.event_queue s.children_hash v told h other))
      ]

  new_parent_in_dag-returns :
      (s : Terminal H) (v : H) (told : List H)
      → IsConsistent s (v ∷ told)
      → Returns (new_parent_in_dag s v) (λ s'. IsConsistent s' told × (work s' ≤ work s))
  unfolding new_parent_in_dag
  new_parent_in_dag-returns s v told c =
      let one : same v v ≡ true = ground arith in
      elim (Option-cases (HashMap.get v s.unit_store)) [
        | inl unknown ↦ let (_, untold, _, _) = c.strangers v unknown in absurd (ground arith)
        | inr (u, found) ↦
            let dag = in_dag_of s.unit_store in
            let (_, _, stage) = c.units v u found in
            let (more, _, _, _, _, _, _, _) =
              Stage-told dag u (waits s.children_hash v) (count (same v) told) _ _ (
                subst
                  (λ x.
                    Stage dag u (waits s.children_hash v) x (count (decode_event v) s.event_queue)
                      (count (dag_event v) s.event_queue))
                  (ground arith) stage) in
            let u' = record u { n_miss_par_dag = u.n_miss_par_dag - 1 } in
            let t = record s { unit_store = HashMap.insert v u' s.unit_store } in
            let s' = if u.n_miss_par_dag - 1 == 0 then push_event t (parents_in_dag v) else t in
            let done : new_parent_in_dag s v ≡ ok s' = ground arith in
            (
              s',
              done,
              (
                new_parent_in_dag-IsConsistent s s' v told c done,
                elim (Bool-cases (u.n_miss_par_dag - 1 == 0)) [
                  | inl last ↦ rw last (
                      ground (
                        arith,
                        held-insert is_outside v u u' s.unit_store found,
                        count-append is_decode s.event_queue (parents_in_dag v ∷ []),
                      ))
                  | inr not_last ↦
                      rw not_last (ground (arith, held-insert is_outside v u u' s.unit_store found))
                ],
              ),
            )
      ]

  pub parents_arrived-returns :
      (s : Terminal H) (children : List H)
      → IsConsistent s children
      → Returns (parents_arrived s children) (λ s'. IsConsistent s' [] × (work s' ≤ work s))
  unfolding parents_arrived
  parents_arrived-returns s [] c = (s, refl, (c, omega arith))
  parents_arrived-returns s (v ∷ children) c =
      let (t, told, (c', less)) = new_parent_in_dag-returns s v children c in
      let (r, rest, (c'', less')) = parents_arrived-returns t children c' in
      (r, rw told rest, (c'', omega arith))
