-- ===== src/Terminal/Inspect.antt =====
-- src/terminal.rs: the parents of a decoded unit are inspected.
use aleph_bft.Prelude.{
  ℕ, ◌-◌, ◌≤◌, ◌≡◌, ◌≢◌, refl, sym, ap, ◌∙◌, inl, inr, Bool, some, List, [], ◌∷◌, ◌++◌, Eq, count,
  count-append, arith, if◌then◌else◌, leb, ◌==◌, ok, ◌>>=◌, Bool-cases,
}
use aleph_bft.Prelude.HashMap
use aleph_bft.Prelude.HashMap.{HashMap}
use aleph_bft.Nodes.NodeMap
use aleph_bft.Nodes.NodeMap.{NodeMap}
use aleph_bft.Nodes.NodeSubset
use aleph_bft.Units
use aleph_bft.Alerts.{same}
use aleph_bft.Terminal.{
  waiting_parents_in_dag, TerminalUnit, TerminalEvent, parents_in_dag, Terminal, round_creator_eq,
  checked_sub, push_event,
}
use aleph_bft.Terminal.Events.{count_parents, inspect_parents_in_dag}
use aleph_bft.Terminal.Stages.{
  Covers, mask_of, known_parents, in_dag_of, waits, decode_event, dag_event, missing, IsSettled,
  Untold, all_inside-Unasked, waiting, ready, Consistent,
}
use aleph_bft.Terminal.Update.{update}
use aleph_bft.Terminal.Decode.{IsConsistent}
use aleph_bft.Terminal.Tell.{pushed_dag}
use aleph_bft.Terminal.Work.{is_outside, is_decode, held-insert, work, Returns}
use aleph_bft.Terminal.Hang.{
  occupied-Covers, count-not, hung, count_parents_lem, waits-hung, waits-hung_ne,
}

module _ {H : Type 0} ⦃e : Eq H⦄ where
  -- What the code makes of the terminal, with `n` parents to come.
  abbrev inspected : Terminal H → H → TerminalUnit H → ℕ → Terminal H
  inspected s v u n =
      let t = record s {
        children_hash = hung (in_dag_of s.unit_store) v (known_parents u) s.children_hash;
      } in
      if n == 0
      then push_event
          (record t {
            unit_store = HashMap.insert v (record u { n_miss_par_dag = n }) s.unit_store;
          })
          (parents_in_dag v)
      else record t {
        unit_store =
            HashMap.insert v (record u { n_miss_par_dag = n; status = waiting_parents_in_dag })
              s.unit_store;
      }

  inspect_parents_in_dag_lem :
      (s : Terminal H) (v : H) (u : TerminalUnit H)
      → HashMap.get v s.unit_store ≡ some u
      → inspect_parents_in_dag s v ≡ (
          checked_sub u.n_miss_par_dag (count (in_dag_of s.unit_store) (known_parents u)) >>= λ n.
          ok (inspected s v u n))
  unfolding inspect_parents_in_dag
  inspect_parents_in_dag_lem s v u found =
      let counted : count_parents s v (NodeMap.values u.parents) 0 ≡ (
        record s {
          children_hash = hung (in_dag_of s.unit_store) v (known_parents u) s.children_hash;
        },
        count (in_dag_of s.unit_store) (known_parents u),
      ) =
        rw (NodeMap.values-occupied u.parents) (
          count_parents_lem s v (known_parents u) 0
          ∙ ap
              (λ k. (
                record s {
                  children_hash = hung (in_dag_of s.unit_store) v (known_parents u) s.children_hash;
                },
                k,
              ))
              (omega arith)) in
      elim (Bool-cases (leb (count (in_dag_of s.unit_store) (known_parents u)) u.n_miss_par_dag)) [
        | inl enough ↦ ground (arith, counted)
        | inr short ↦ ground (arith, counted)
      ]

  enough_parents :
      (dag : H → Bool) (u : TerminalUnit H)
      → Covers u.parents (mask_of u)
      → u.n_miss_par_dag ≡ Units.n_parents u.unit.pre_unit.control_hash
      → (count dag (known_parents u) ≤ u.n_miss_par_dag)
        × (missing dag u ≤ u.n_miss_par_dag - count dag (known_parents u))
  unfolding Units.n_parents Units.parents NodeSubset.elements
  enough_parents dag u covered all =
      let known = occupied-Covers u.parents (mask_of u) 0 covered in
      (
        omega (arith, count-not dag (known_parents u)),
        omega (arith, count-not dag (known_parents u)),
      )

  -- A unit that has no event and waits for nobody: `queue` is the queue with the event that is
  -- handled.
  pub inspect_parents_in_dag-returns :
      (s : Terminal H) (queue : List (TerminalEvent H)) (v : H) (u : TerminalUnit H)
      → Consistent s.unit_store queue s.children_hash s.children_coord s.inserted []
      → HashMap.get v s.unit_store ≡ some u
      → IsSettled u
      → Untold u (waits s.children_hash v) 0
      → count (decode_event v) s.event_queue ≡ 0
      → count (dag_event v) s.event_queue ≡ 0
      → ((h : H)
          → v ≢ h
          → (count (decode_event h) queue ≡ count (decode_event h) s.event_queue)
            × (count (dag_event h) queue ≡ count (dag_event h) s.event_queue))
      → Returns (inspect_parents_in_dag s v) (λ s'. IsConsistent s' [] × (work s' ≤ work s))
  inspect_parents_in_dag-returns s queue v u c found settled (out, all, unasked, _) no_a no_b
        others =
      let (hash_eq, covered, _) = c.units v u found in
      let dag = in_dag_of s.unit_store in
      let n = u.n_miss_par_dag - count dag (known_parents u) in
      let ch' = hung dag v (known_parents u) s.children_hash in
      let (enough, left) = enough_parents dag u covered all in
      let asked : (p : H) → waits ch' v p ≤ count (same p) (known_parents u) =
        λ p. omega (arith, waits-hung dag v (known_parents u) s.children_hash p, unasked p) in
      let queue' = s.event_queue ++ parents_in_dag v ∷ [] in
      let done : inspect_parents_in_dag s v ≡ ok (inspected s v u n) =
        inspect_parents_in_dag_lem s v u found ∙ ground arith in
      (
        inspected s v u n,
        done,
        elim (Bool-cases (n == 0)) [
          | inl last ↦ rw last (
            update s.unit_store queue queue' s.children_hash ch' s.children_coord s.inserted [] [] c
                v u (record u { n_miss_par_dag = n }) found refl refl covered
                (ready settled out
                  (ground
                    (arith, count-append (decode_event v) s.event_queue (parents_in_dag v ∷ [])))
                  (ground (arith, count-append (dag_event v) s.event_queue (parents_in_dag v ∷ [])))
                  (ground arith) (ground arith)
                  (all_inside-Unasked dag u (waits ch' v) (ground arith) asked))
                (λ h other.
                  let t = pushed_dag s.event_queue s.children_hash v [] h other in
                  record {
                    waits_eq = λ p. waits-hung_ne dag v (known_parents u) s.children_hash h p other;
                    told_eq = refl;
                    decode_eq = (others h other).0 ∙ t.decode_eq;
                    dag_eq = (others h other).1 ∙ t.dag_eq;
                  }),
            ground (
              arith,
              held-insert is_outside v u (record u { n_miss_par_dag = n }) s.unit_store found,
              count-append is_decode s.event_queue (parents_in_dag v ∷ []),
            ),
          )
          | inr not_last ↦ rw not_last (
            update s.unit_store queue s.event_queue s.children_hash ch' s.children_coord s.inserted
                [] [] c v u (record u { n_miss_par_dag = n; status = waiting_parents_in_dag }) found
                refl (sym out) covered
                (waiting settled refl refl no_a no_b (ground arith) (omega arith) asked)
                (λ h other. record {
                  waits_eq = λ p. waits-hung_ne dag v (known_parents u) s.children_hash h p other;
                  told_eq = refl;
                  decode_eq = (others h other).0;
                  dag_eq = (others h other).1;
                }),
            ground (
              arith,
              held-insert is_outside v u
                  (record u { n_miss_par_dag = n; status = waiting_parents_in_dag }) s.unit_store
                  found,
            ),
          )
        ],
      )
