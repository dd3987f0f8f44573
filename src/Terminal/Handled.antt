-- ===== src/Terminal/Handled.antt =====
-- src/terminal.rs: an event of the queue.
use aleph_bft.Prelude.{
  ℕ, suc, ◌≤◌, ◌≡◌, ◌≢◌, refl, sym, subst, inl, inr, Bool, true, false, [], ◌∷◌, Eq, count, arith,
  Bool-cases, Option-cases,
}
use aleph_bft.Prelude.HashMap
use aleph_bft.Prelude.HashMap.{HashMap}
use aleph_bft.Units.{ParentHasher}
use aleph_bft.Runway.Message.{wrong_control_hash}
use aleph_bft.Alerts.{same}
use aleph_bft.Terminal.{
  wrong_hash, TerminalUnit, TerminalEvent, parents_reconstructed, parents_in_dag, Terminal,
  round_creator_eq, send_notification, verify_control_hash,
}
use aleph_bft.Terminal.Events.{is_wrong_hash, set_status, handle_event}
use aleph_bft.Terminal.Stages.{
  in_dag_of, waits, decode_event, dag_event, IsSettled, Untold, Stage, fresh, decoded, wrong,
  waiting, ready, placed, Consistent,
}
use aleph_bft.Terminal.Update.{update}
use aleph_bft.Terminal.Decode.{IsConsistent}
use aleph_bft.Terminal.Entered.{update_on_dag_add-returns}
use aleph_bft.Terminal.Inspect.{inspect_parents_in_dag-returns}
use aleph_bft.Terminal.Work.{is_outside, held-insert, work, Returns}

module _ {H : Type 0} ⦃e : Eq H⦄ where
  Stage-decoded :
      (dag : H → Bool) (u : TerminalUnit H) (w : H → ℕ) (x a b : ℕ)
      → Stage dag u w x (suc a) b
      → IsSettled u × (is_wrong_hash u.status ≡ false) × (a ≡ 0) × (b ≡ 0) × Untold u w x
  Stage-decoded dag u w x a b (fresh _ no_a _ _) = absurd (omega arith)
  Stage-decoded dag u w x a b (decoded settled good one_a no_b untold) =
      (settled, good, omega arith, no_b, untold)
  Stage-decoded dag u w x a b (wrong _ _ no_a _ _) = absurd (omega arith)
  Stage-decoded dag u w x a b (waiting _ _ _ no_a _ _ _ _) = absurd (omega arith)
  Stage-decoded dag u w x a b (ready _ _ no_a _ _ _ _) = absurd (omega arith)
  Stage-decoded dag u w x a b (placed _ _ no_a _ _ _) = absurd (omega arith)

module _ {H : Type 0} ⦃e : Eq H⦄ ⦃p : ParentHasher H⦄ where
  handled_decode :
      (s : Terminal H) (k h : H)
      → h ≢ k
      → (count (decode_event k) (parents_reconstructed h ∷ s.event_queue)
          ≡ count (decode_event k) s.event_queue)
        × (count (dag_event k) (parents_reconstructed h ∷ s.event_queue)
            ≡ count (dag_event k) s.event_queue)
  handled_decode s k h other = (ground (arith, λ (is : k ≡ h). other (sym is)), refl)

  -- An event that was in the queue is handled without a panic, and leaves less to do.
  pub handle_event-returns :
      (s : Terminal H) (event : TerminalEvent H)
      → Consistent s.unit_store
          (event ∷ s.event_queue)
          s.children_hash
          s.children_coord
          s.inserted
          []
      → Returns (handle_event s event) (λ s'.
        IsConsistent s' []
        × (suc (work s') ≤ work (record s { event_queue = event ∷ s.event_queue })))
  unfolding handle_event set_status send_notification
  handle_event-returns s (parents_reconstructed h) c =
      let one : same h h ≡ true = ground arith in
      elim (Option-cases (HashMap.get h s.unit_store)) [
        | inl unknown ↦ let (_, _, no_event, _) = c.strangers h unknown in absurd (ground arith)
        | inr (u, found) ↦
            let (hash_eq, covered, stage) = c.units h u found in
            let queue = parents_reconstructed h ∷ s.event_queue in
            let (settled, good, no_a, no_b, untold) =
              Stage-decoded (in_dag_of s.unit_store) u (waits s.children_hash h) 0
                (count (decode_event h) s.event_queue) (count (dag_event h) s.event_queue)
                (subst
                  (λ a.
                    Stage (in_dag_of s.unit_store) u (waits s.children_hash h) 0 a
                      (count (dag_event h) s.event_queue))
                  (ground arith) stage) in
            elim (Bool-cases (verify_control_hash u)) [
              | inl right ↦
                  let (s', done, (c', less)) =
                    inspect_parents_in_dag-returns s queue h u c found settled untold no_a no_b
                      (λ k other. handled_decode s k h other) in
                  (s', ground arith, (c', omega arith))
              | inr bad ↦
                  let u' = record u { status = wrong_hash } in
                  let t = record s { unit_store = HashMap.insert h u' s.unit_store } in
                  (
                    send_notification t (wrong_control_hash h),
                    ground arith,
                    (
                      update s.unit_store queue s.event_queue s.children_hash s.children_hash
                          s.children_coord s.inserted [] [] c h u u' found refl (sym untold.0)
                          covered
                          (wrong settled refl no_a no_b (refl, untold.1, untold.2, untold.3))
                          (λ k other. record {
                            waits_eq = λ q. refl;
                            told_eq = refl;
                            decode_eq = (handled_decode s k h other).0;
                            dag_eq = (handled_decode s k h other).1;
                          }),
                      ground (arith, held-insert is_outside h u u' s.unit_store found, untold.0),
                    ),
                  )
            ]
      ]
  handle_event-returns s (parents_in_dag h) c =
      let one : same h h ≡ true = ground arith in
      elim (Option-cases (HashMap.get h s.unit_store)) [
        | inl unknown ↦ let (_, _, _, no_event) = c.strangers h unknown in absurd (ground arith)
        | inr (u, found) ↦
            let (s', done, (c', less)) = update_on_dag_add-returns s h u c found in
            (s', ground arith, (c', omega arith))
      ]
