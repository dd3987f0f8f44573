-- ===== src/Terminal/Decode.antt =====
-- src/terminal.rs: parents that are decoded.
use aleph_bft.Prelude.{
  ℕ, zero, suc, ◌-◌, ◌≤◌, ◌<◌, ◌≡◌, ◌≢◌, refl, sym, ap, ◌∙◌, inl, inr, Bool, true, false, none,
  some, List, [], ◌∷◌, ◌++◌, Eq, count, count-append, get_elem?, set, length, arith, if◌then◌else◌,
  ◌==◌, ok, Bool-cases, ok_injective, some_injective,
}
use aleph_bft.Prelude.HashMap
use aleph_bft.Prelude.HashMap.{HashMap}
use aleph_bft.Nodes.{NodeIndex}
use aleph_bft.Nodes.NodeMap
use aleph_bft.Nodes.NodeMap.{NodeMap}
use aleph_bft.Alerts.{same}
use aleph_bft.Terminal.{
  TerminalUnit, TerminalEvent, parents_reconstructed, Terminal, round_creator_eq, round_of,
  push_event, reconstruct_parent,
}
use aleph_bft.Terminal.Events.{is_wrong_hash}
use aleph_bft.Terminal.Stages.{
  Covers, mask_of, decode_event, dag_event, IsSettled, Untold, Stage, fresh, decoded, wrong,
  waiting, ready, placed, MayWait, Consistent,
}
use aleph_bft.Terminal.Update.{Untouched, MayWait-insert, update}

pub Covers-set :
    {H : Type 0} (m : NodeMap H) (bs : List Bool) (i : ℕ) (p : H)
    → Covers m bs
    → get_elem? bs i ≡ some true
    → Covers (set m i (some p)) bs × (i < length m)
Covers-set [] [] i p c h = cc
Covers-set [] (b ∷ bs) i p c h = absurd c
Covers-set (o ∷ m) [] i p c h = absurd c
Covers-set (none ∷ m) (b ∷ bs) zero p c h = ((some_injective h, c), omega arith)
Covers-set (some q ∷ m) (b ∷ bs) zero p c h = (c, omega arith)
Covers-set (none ∷ m) (b ∷ bs) (suc i) p c h =
    let (rest, l) = Covers-set m bs i p c h in (rest, omega arith)
Covers-set (some q ∷ m) (b ∷ bs) (suc i) p (b_set, c) h =
    let (rest, l) = Covers-set m bs i p c h in ((b_set, rest), omega arith)

module _ {H : Type 0} ⦃e : Eq H⦄ where
  abbrev pub IsConsistent : Terminal H → List H → Type 0
  IsConsistent s told =
      Consistent s.unit_store s.event_queue s.children_hash s.children_coord s.inserted told

  pub Stage-fresh :
      (dag : H → Bool) (u : TerminalUnit H) (w : H → ℕ) (x a b : ℕ)
      → Stage dag u w x a b
      → ¬ IsSettled u
      → (is_wrong_hash u.status ≡ false) × (a ≡ 0) × (b ≡ 0) × Untold u w x
  Stage-fresh dag u w x a b (fresh good no_a no_b t) open_u = (good, no_a, no_b, t)
  Stage-fresh dag u w x a b (decoded settled _ _ _ _) open_u = absurd (open_u settled)
  Stage-fresh dag u w x a b (wrong settled _ _ _ _) open_u = absurd (open_u settled)
  Stage-fresh dag u w x a b (waiting settled _ _ _ _ _ _ _) open_u = absurd (open_u settled)
  Stage-fresh dag u w x a b (ready settled _ _ _ _ _ _) open_u = absurd (open_u settled)
  Stage-fresh dag u w x a b (placed settled _ _ _ _ _) open_u = absurd (open_u settled)

  same-ne : (v h : H) → v ≢ h → same h v ≡ false
  same-ne v h other = ground (arith, λ (is : h ≡ v). other (sym is))

  -- An event about a unit does not count for the others.
  pub pushed_decode :
      (queue : List (TerminalEvent H)) (ch : HashMap H (List H)) (told : List H) (v h : H)
      → v ≢ h
      → Untouched queue (queue ++ parents_reconstructed v ∷ []) ch ch told told h
  pushed_decode queue ch told v h other =
      let differs = same-ne v h other in
      record {
        waits_eq = λ p. refl;
        told_eq = refl;
        decode_eq =
            ground (arith, count-append (decode_event h) queue (parents_reconstructed v ∷ []));
        dag_eq = ground (arith, count-append (dag_event h) queue (parents_reconstructed v ∷ []));
      }

  pub unchanged :
      (queue : List (TerminalEvent H)) (ch : HashMap H (List H)) (told : List H) (h : H)
      → Untouched queue queue ch ch told told h
  unchanged queue ch told h = record {
    waits_eq = λ p. refl;
    told_eq = refl;
    decode_eq = refl;
    dag_eq = refl;
  }

  -- Units of round 0 and who may wait stay as they are.
  pub record Progress (s s' : Terminal H) : Type 0 where
    pub kept : (i : NodeIndex) (h : H) → MayWait s.unit_store i h → MayWait s'.unit_store i h
    pub steady :
        (h : H) (u : TerminalUnit H)
        → HashMap.get h s.unit_store ≡ some u
        → round_of u.unit ≡ 0
        → (HashMap.get h s'.unit_store ≡ some u)
          × (count (decode_event h) s'.event_queue ≡ count (decode_event h) s.event_queue)
          × (count (dag_event h) s'.event_queue ≡ count (dag_event h) s.event_queue)
    pub same_hash_list : s'.children_hash ≡ s.children_hash

  decoded_unit : TerminalUnit H → NodeIndex → H → TerminalUnit H
  decoded_unit u pid p_hash = record u {
    parents = set u.parents pid (some p_hash);
    n_miss_par_decoded = u.n_miss_par_decoded - 1;
  }

  reconstruct_parent_lem :
      (s s' : Terminal H) (v : H) (u : TerminalUnit H) (pid : NodeIndex) (p_hash : H)
      → HashMap.get v s.unit_store ≡ some u
      → pid < length u.parents
      → reconstruct_parent s v pid p_hash ≡ ok s'
      → (1 ≤ u.n_miss_par_decoded)
        × (s' ≡ (
            let t = record s {
              unit_store = HashMap.insert v (decoded_unit u pid p_hash) s.unit_store;
            } in
            if u.n_miss_par_decoded - 1 == 0 then push_event t (parents_reconstructed v) else t))
  unfolding reconstruct_parent NodeMap.insert decoded_unit
  reconstruct_parent_lem s s' v u pid p_hash found slot done =
      (ground arith, ok_injective (ground arith))

  not_first :
      (store : HashMap H (TerminalUnit H)) (v : H) (i : NodeIndex)
      → MayWait store i v
      → (h : H) (w : TerminalUnit H) → HashMap.get h store ≡ some w
      → round_of w.unit ≡ 0
      → v ≢ h
  not_first store v i (u, found, later, bit) h w there first is_h =
      let is_u : u ≡ w = some_injective (sym found ∙ ap (λ q. HashMap.get q store) is_h ∙ there) in
      omega (arith, ap (λ t. round_of t.unit) is_u)

  abbrev pub Decoded : Terminal H → Terminal H → Type 0
  Decoded s s' = IsConsistent s' [] × Progress s s'

  -- The unit whose parent is decoded was fresh, and has its event when all parents are decoded.
  pub reconstruct_parent-Decoded :
      (s s' : Terminal H) (v : H) (pid : NodeIndex) (p_hash : H)
      → IsConsistent s []
      → MayWait s.unit_store pid v
      → reconstruct_parent s v pid p_hash ≡ ok s'
      → Decoded s s'
  unfolding decoded_unit
  reconstruct_parent-Decoded s s' v pid p_hash c (u, found, later, bit) done =
      let (hash_eq, covered, stage) = c.units v u found in
      let (covers, slot) = Covers-set u.parents (mask_of u) pid p_hash covered bit in
      let (more, result) = reconstruct_parent_lem s s' v u pid p_hash found slot done in
      let open_u : ¬ IsSettled u =
        λ settled. elim settled [ inl none_left ↦ omega arith | inr first ↦ omega arith ] in
      let (good, no_a, no_b, untold) = Stage-fresh _ u _ _ _ _ stage open_u in
      let u' = decoded_unit u pid p_hash in
      let slots = update s.unit_store s.event_queue in
      elim (Bool-cases (u.n_miss_par_decoded - 1 == 0)) [
        | inl last ↦
            rw (result, last)
              (
                slots (s.event_queue ++ parents_reconstructed v ∷ []) s.children_hash
                    s.children_hash s.children_coord s.inserted [] [] c v u u' found refl refl
                    covers
                    (decoded (inl (ground arith)) good
                      (ground (
                        arith,
                        count-append (decode_event v) s.event_queue (parents_reconstructed v ∷ []),
                      ))
                      (ground (
                        arith,
                        count-append (dag_event v) s.event_queue (parents_reconstructed v ∷ []),
                      ))
                      untold)
                    (λ h other. pushed_decode s.event_queue s.children_hash [] v h other),
                record {
                  kept = λ i. MayWait-insert s.unit_store v u u' i found refl;
                  steady = λ h w there first.
                      let other =
                        not_first s.unit_store v pid (u, found, later, bit) h w there first in
                      let t = pushed_decode s.event_queue s.children_hash [] v h other in
                      (
                        HashMap.get-insert_ne v h u' s.unit_store other ∙ there,
                        sym t.decode_eq,
                        sym t.dag_eq,
                      );
                  same_hash_list = refl;
                },
              )
        | inr not_last ↦
            rw (result, not_last)
              (
                slots s.event_queue s.children_hash s.children_hash s.children_coord s.inserted []
                    [] c v u u' found refl refl covers (fresh good no_a no_b untold)
                    (λ h other. unchanged s.event_queue s.children_hash [] h),
                record {
                  kept = λ i. MayWait-insert s.unit_store v u u' i found refl;
                  steady = λ h w there first.
                      let other =
                        not_first s.unit_store v pid (u, found, later, bit) h w there first in
                      (HashMap.get-insert_ne v h u' s.unit_store other ∙ there, refl, refl);
                  same_hash_list = refl;
                },
              )
      ]
