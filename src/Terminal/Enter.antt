-- ===== src/Terminal/Enter.antt =====
-- src/terminal.rs: a unit that enters the DAG.
use aleph_bft.Prelude.{
  ℕ, suc, ◌+◌, ◌≤◌, ◌≡◌, refl, sym, ap, subst, ◌∙◌, inl, inr, ite, Bool, true, false, not, some,
  List, [], ◌∷◌, ◌++◌, Eq, All, All-map, count, arith, Bool-cases,
}
use aleph_bft.Prelude.HashMap
use aleph_bft.Prelude.HashMap.{HashMap}
use aleph_bft.Nodes.NodeMap
use aleph_bft.Alerts.{same}
use aleph_bft.Terminal.{
  in_dag, TerminalUnit, TerminalEvent, parents_in_dag, Coord, round_creator_eq,
}
use aleph_bft.Terminal.Events.{is_in_dag}
use aleph_bft.Terminal.Stages.{
  known_parents, in_dag_of, list_at, waits, decode_event, dag_event, missing, IsSettled, Unasked,
  Stage, fresh, decoded, wrong, waiting, ready, placed, UnitOk, MayWait, after, InOrder, nothing,
  Consistent,
}
use aleph_bft.Terminal.Update.{MayWait-insert}

module _ {H : Type 0} ⦃e : Eq H⦄ where
  after-snoc :
      (us : List (TerminalUnit H)) (u : TerminalUnit H) (dag : H → Bool) (p : H)
      → after (us ++ u ∷ []) dag p ≡ ite (e.eq? u.unit.hash p) true (after us dag p)
  after-snoc [] u dag p = refl
  after-snoc (v ∷ us) u dag p = after-snoc us u (λ q. ite (e.eq? v.unit.hash q) true (dag q)) p

  InOrder-snoc :
      (us : List (TerminalUnit H)) (u : TerminalUnit H) (dag : H → Bool)
      → InOrder us dag
      → after us dag u.unit.hash ≡ false
      → All (λ p. after us dag p ≡ true) (NodeMap.values u.parents)
      → InOrder (us ++ u ∷ []) dag
  InOrder-snoc [] u dag ordered new known = (new, known, tt)
  InOrder-snoc (v ∷ us) u dag (new_v, known_v, ordered) new known = (
    new_v,
    known_v,
    InOrder-snoc us u (λ q. ite (e.eq? v.unit.hash q) true (dag q)) ordered new known,
  )

  none_missing :
      (dag : H → Bool) (ps : List H) → count (λ p. not (dag p)) ps ≡ 0 → All (λ p. dag p ≡ true) ps
  none_missing dag [] h = tt
  none_missing dag (p ∷ ps) h = elim (Bool-cases (dag p)) [
    | inl there ↦ (there, none_missing dag ps (ground arith))
    | inr absent ↦ absurd (ground arith)
  ]

  -- The DAG with one more unit.
  module _ (dag dag' : H → Bool) (h : H) (new : dag h ≡ false)
      (grown : (p : H) → dag' p ≡ ite (e.eq? h p) true (dag p)) where
    missing-grown :
        (ps : List H)
        → count (λ p. not (dag p)) ps ≡ count (λ p. not (dag' p)) ps + count (same h) ps
    missing-grown [] = refl
    missing-grown (p ∷ ps) = elim (e.eq? h p) [
      | yes is ↦ ground (arith, grown p, missing-grown ps, ap dag is)
      | no other ↦ ground (arith, grown p, missing-grown ps)
    ]

    pub was_out : (p : H) → dag' p ≡ false → dag p ≡ false
    was_out p out = ground (arith, grown p)

    -- The unit tells those that wait for it: the list that is told is theirs no more.
    Stage-grown :
        (u : TerminalUnit H) (w w' : H → ℕ) (a b : ℕ)
        → ((p : H) → w' p ≤ w p)
        → Stage dag u w 0 a b
        → Stage dag' u w' (w h) a b
    Stage-grown u w w' a b fewer (fresh good no_a no_b (out, n, unasked, _)) =
        fresh good no_a no_b (out, n, (λ p. omega (arith, fewer p, unasked p)), unasked h)
    Stage-grown u w w' a b fewer (decoded settled good one_a no_b (out, n, unasked, _)) =
        decoded settled good one_a no_b
          (out, n, (λ p. omega (arith, fewer p, unasked p)), unasked h)
    Stage-grown u w w' a b fewer (wrong settled bad no_a no_b (out, n, unasked, _)) =
        wrong settled bad no_a no_b (out, n, (λ p. omega (arith, fewer p, unasked p)), unasked h)
    Stage-grown u w w' a b fewer (waiting settled good out no_a no_b more enough asked) =
        waiting settled good out no_a no_b more
          (omega (arith, missing-grown (known_parents u), asked h, enough))
          (λ p. omega (arith, fewer p, asked p))
    Stage-grown u w w' a b fewer (ready settled out no_a one_b zero_left none_out (_, unasked)) =
        ready settled out no_a one_b zero_left
          (omega (arith, missing-grown (known_parents u), none_out))
          (unasked h new, λ p out. omega (arith, fewer p, unasked p (was_out p out)))
    Stage-grown u w w' a b fewer (placed settled inside no_a no_b zero_left (_, unasked)) =
        placed settled inside no_a no_b zero_left
          (unasked h new, λ p out. omega (arith, fewer p, unasked p (was_out p out)))

  pub Stage-ready :
      (dag : H → Bool) (u : TerminalUnit H) (w : H → ℕ) (x a b : ℕ)
      → Stage dag u w x a (suc b)
      → IsSettled u
        × (is_in_dag u.status ≡ false)
        × (a ≡ 0)
        × (b ≡ 0)
        × (u.n_miss_par_dag ≡ 0)
        × (missing dag u ≡ 0)
        × Unasked dag w x
  Stage-ready dag u w x a b (fresh _ _ no_b _) = absurd (omega arith)
  Stage-ready dag u w x a b (decoded _ _ _ no_b _) = absurd (omega arith)
  Stage-ready dag u w x a b (wrong _ _ _ no_b _) = absurd (omega arith)
  Stage-ready dag u w x a b (waiting _ _ _ _ no_b _ _ _) = absurd (omega arith)
  Stage-ready dag u w x a b (ready settled out no_a one_b zero_left none_out free) =
      (settled, out, no_a, omega arith, zero_left, none_out, free)
  Stage-ready dag u w x a b (placed _ _ _ no_b _ _) = absurd (omega arith)

module _ {H : Type 0} ⦃e : Eq H⦄ (store : HashMap H (TerminalUnit H))
    (queue : List (TerminalEvent H)) (ch ch' : HashMap H (List H)) (cc : HashMap Coord (List H))
    (inserted : List (TerminalUnit H)) (h : H) (u : TerminalUnit H) where
  -- A unit whose event is handled enters the DAG; `ch'` are the waiting lists without its own.
  pub enter :
      Consistent store (parents_in_dag h ∷ queue) ch cc inserted []
      → HashMap.get h store ≡ some u
      → ((p : H) → list_at p ch' ≡ ite (e.eq? h p) [] (list_at p ch))
      → Consistent
          (HashMap.insert h (record u { status = in_dag }) store)
          queue
          ch'
          cc
          (inserted ++ record u { status = in_dag } ∷ [])
          (list_at h ch)
  enter c found lists =
      let u' = record u { status = in_dag } in
      let store' = HashMap.insert h u' store in
      let one : same h h ≡ true = ground arith in
      let (hash_eq, covered, stage) = c.units h u found in
      let (settled, out, no_a, no_b, zero_left, none_out, free) =
        Stage-ready (in_dag_of store) u (waits ch h) 0 (count (decode_event h) queue)
          (count (dag_event h) queue)
          (subst (Stage (in_dag_of store) u (waits ch h) 0 (count (decode_event h) queue))
            (ground arith) stage) in
      let new : in_dag_of store h ≡ false = ground arith in
      let grown : (p : H) → in_dag_of store' p ≡ ite (e.eq? h p) true (in_dag_of store p) =
        λ p. ground (arith, HashMap.get-insert h p u' store) in
      let fewer : (k p : H) → waits ch' k p ≤ waits ch k p = λ k p. ground (arith, lists p) in
      record {
        dag_is = λ p.
            grown p
            ∙ ap (λ b. ite (e.eq? h p) true b) (c.dag_is p)
            ∙ ap (λ q. ite (e.eq? q p) true (after inserted nothing p)) (sym hash_eq)
            ∙ sym (after-snoc inserted u' nothing p);
        ordered =
            InOrder-snoc inserted u' nothing c.ordered
              (sym (c.dag_is u.unit.hash) ∙ ap (in_dag_of store) hash_eq ∙ new)
              (subst (All (λ p. after inserted nothing p ≡ true))
                (sym (NodeMap.values-occupied u.parents))
                (All-map (λ p. in_dag_of store p ≡ true) (λ p. after inserted nothing p ≡ true)
                  (known_parents u) (λ p there. sym (c.dag_is p) ∙ there)
                  (none_missing (in_dag_of store) (known_parents u) none_out)));
        units = λ k w there. elim (HashMap.get-insert_cases h k u' w store there) [
          | inl (is_k, is_u) ↦
              subst (λ q. UnitOk store' queue ch' (list_at h ch) q w) is_k
                (subst (λ t. UnitOk store' queue ch' (list_at h ch) h t) is_u
                  (
                    hash_eq,
                    covered,
                    placed settled refl no_a no_b zero_left (
                      free.1 h new,
                      λ p out. omega (
                        arith,
                        fewer h p,
                        free.1 p (was_out (in_dag_of store) (in_dag_of store') h new grown p out),
                      ),
                    ),
                  ))
          | inr (other, old) ↦
              let (hash_k, covered_k, stage_k) = c.units k w old in
              (
                hash_k,
                covered_k,
                Stage-grown (in_dag_of store) (in_dag_of store') h new grown w (waits ch k)
                    (waits ch' k) _ _ (fewer k)
                    (subst (Stage (in_dag_of store) w (waits ch k) 0 (count (decode_event k) queue))
                      (ground arith) stage_k),
              )
        ];
        strangers = λ k absent.
            let (no_waits, no_told, no_a', no_b') =
              c.strangers k (ground (arith, HashMap.get-insert h k u' store)) in
            (λ p. omega (arith, fewer k p, no_waits p), no_waits h, no_a', ground arith);
        coords = λ k.
            All-map (MayWait store k.1) (MayWait store' k.1) (list_at k cc)
              (MayWait-insert store h u u' k.1 found refl) (c.coords k);
      }
