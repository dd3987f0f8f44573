-- ===== src/Terminal/Update.antt =====
-- src/terminal.rs: a change of one unit of the store, which does not enter the DAG by it.
use mathlib.Core.Path.{fun_ext}
use aleph_bft.Prelude.{
  ℕ, ◌<◌, ◌≡◌, ◌≢◌, refl, sym, ap, subst, ◌∙◌, inl, inr, Bool, true, none, some, List, Eq, All-map,
  count, get_elem?, arith, some_injective,
}
use aleph_bft.Prelude.HashMap
use aleph_bft.Prelude.HashMap.{HashMap}
use aleph_bft.Nodes.{NodeIndex}
use aleph_bft.Alerts.{same}
use aleph_bft.Terminal.{TerminalUnit, TerminalEvent, Coord, round_creator_eq}
use aleph_bft.Terminal.Events.{is_in_dag}
use aleph_bft.Terminal.Stages.{
  Covers, mask_of, in_dag_of, list_at, waits, decode_event, dag_event, Stage, UnitOk, Unknown,
  MayWait, Consistent,
}

module _ {H : Type 0} ⦃e : Eq H⦄ where
  pub Stage-cong :
      (dag dag' : H → Bool) (u : TerminalUnit H) (w w' : H → ℕ) (x x' a a' b b' : ℕ)
      → ((p : H) → dag p ≡ dag' p)
      → ((p : H) → w p ≡ w' p)
      → x ≡ x'
      → a ≡ a'
      → b ≡ b'
      → Stage dag u w x a b
      → Stage dag' u w' x' a' b'
  Stage-cong dag dag' u w w' x x' a a' b b' d v x_eq a_eq b_eq st =
      subst (λ (T : Type 0). T)
        (λ i. Stage (fun_ext d i) u (fun_ext v i) (x_eq i) (a_eq i) (b_eq i)) st

  -- What a unit has to do with the queue and the waiting lists does not change.
  pub record Untouched (queue queue' : List (TerminalEvent H)) (ch ch' : HashMap H (List H))
      (told told' : List H) (h : H) : Type 0 where
    pub waits_eq : (p : H) → waits ch h p ≡ waits ch' h p
    pub told_eq : count (same h) told ≡ count (same h) told'
    pub decode_eq : count (decode_event h) queue ≡ count (decode_event h) queue'
    pub dag_eq : count (dag_event h) queue ≡ count (dag_event h) queue'

  pub Unknown-Untouched :
      (queue queue' : List (TerminalEvent H)) (ch ch' : HashMap H (List H)) (told told' : List H)
      (h : H)
      → Untouched queue queue' ch ch' told told' h
      → Unknown queue ch told h
      → Unknown queue' ch' told' h
  Unknown-Untouched queue queue' ch ch' told told' h t (w, x, a, b) =
      (λ p. sym (t.waits_eq p) ∙ w p, sym t.told_eq ∙ x, sym t.decode_eq ∙ a, sym t.dag_eq ∙ b)

  pub MayWait-insert :
      (store : HashMap H (TerminalUnit H)) (v : H) (u u' : TerminalUnit H) (i : NodeIndex)
      → HashMap.get v store ≡ some u
      → u'.unit ≡ u.unit
      → (h : H) → MayWait store i h
      → MayWait (HashMap.insert v u' store) i h
  MayWait-insert store v u u' i there same_unit h (w, found, later, bit) = elim (e.eq? v h) [
    | yes is_v ↦
        let is_u : w ≡ u =
          some_injective (sym found ∙ ap (λ q. HashMap.get q store) (sym is_v) ∙ there) in
        let unit_eq : w.unit ≡ u'.unit = ap (λ t. t.unit) is_u ∙ sym same_unit in
        (
          u',
          subst (λ q. HashMap.get q (HashMap.insert v u' store) ≡ some u') is_v
              (HashMap.get-insert_self v u' store),
          subst (λ t. 0 < t.pre_unit.coord.round) unit_eq later,
          subst (λ t. get_elem? t.pre_unit.control_hash.parents_mask i ≡ some true) unit_eq bit,
        )
    | no other ↦ (w, HashMap.get-insert_ne v h u' store other ∙ found, later, bit)
  ]

  known :
      (v : H) (u : TerminalUnit H) (store : HashMap H (TerminalUnit H)) {h : H}
      → v ≡ h
      → HashMap.get h (HashMap.insert v u store) ≢ none
  known v u store is_h missing =
      let found = HashMap.get-insert_self v u store in
      let lost = ap (λ q. HashMap.get q (HashMap.insert v u store)) is_h ∙ missing in cc

module _ {H : Type 0} ⦃e : Eq H⦄ (store : HashMap H (TerminalUnit H))
    (queue queue' : List (TerminalEvent H)) (ch ch' : HashMap H (List H))
    (cc : HashMap Coord (List H)) (inserted : List (TerminalUnit H)) (told told' : List H) where
  in_dag_of-insert :
      (v : H) (u u' : TerminalUnit H)
      → HashMap.get v store ≡ some u
      → is_in_dag u'.status ≡ is_in_dag u.status
      → (p : H) → in_dag_of store p ≡ in_dag_of (HashMap.insert v u' store) p
  in_dag_of-insert v u u' there status p = ground (arith, HashMap.get-insert v p u' store)

  pub update :
      Consistent store queue ch cc inserted told
      → (v : H) (u u' : TerminalUnit H) → HashMap.get v store ≡ some u
      → u'.unit ≡ u.unit
      → is_in_dag u'.status ≡ is_in_dag u.status
      → Covers u'.parents (mask_of u')
      → Stage
          (in_dag_of store)
          u'
          (waits ch' v)
          (count (same v) told')
          (count (decode_event v) queue')
          (count (dag_event v) queue')
      → ((h : H) → v ≢ h → Untouched queue queue' ch ch' told told' h)
      → Consistent (HashMap.insert v u' store) queue' ch' cc inserted told'
  update c v u u' there unit_eq status covers stage others =
      let dag_eq = in_dag_of-insert v u u' there status in
      record {
        dag_is = λ p. sym (dag_eq p) ∙ c.dag_is p;
        ordered = c.ordered;
        units = λ h w found. elim (HashMap.get-insert_cases v h u' w store found) [
          | inl (is_h, is_u) ↦
              subst (λ q. UnitOk (HashMap.insert v u' store) queue' ch' told' q w) is_h
                (subst (λ t. UnitOk (HashMap.insert v u' store) queue' ch' told' v t) is_u
                  (
                    ap (λ t. t.hash) unit_eq ∙ (c.units v u there).0,
                    covers,
                    Stage-cong _ _ u' (waits ch' v) (waits ch' v) _ _ _ _ _ _ dag_eq (λ p. refl)
                        refl refl refl stage,
                  ))
          | inr (other, old) ↦
              let (hash_eq, covered, old_stage) = c.units h w old in
              let t = others h other in
              (
                hash_eq,
                covered,
                Stage-cong (in_dag_of store) _ w (waits ch h) (waits ch' h) _ _ _ _ _ _ dag_eq
                    t.waits_eq t.told_eq t.decode_eq t.dag_eq old_stage,
              )
        ];
        strangers = λ h missing.
            let other : v ≢ h = λ is_h. known v u' store is_h missing in
            Unknown-Untouched queue queue' ch ch' told told' h (others h other)
              (c.strangers h (sym (HashMap.get-insert_ne v h u' store other) ∙ missing));
        coords = λ k.
            All-map (MayWait store k.1) (MayWait (HashMap.insert v u' store) k.1) (list_at k cc)
              (MayWait-insert store v u u' k.1 there unit_eq) (c.coords k);
      }

module _ {H : Type 0} ⦃e : Eq H⦄ where
  -- Only what is found in the store matters.
  pub same_store :
      (store store' : HashMap H (TerminalUnit H)) (queue : List (TerminalEvent H))
      (ch : HashMap H (List H)) (cc : HashMap Coord (List H)) (inserted : List (TerminalUnit H))
      (told : List H)
      → ((h : H) → HashMap.get h store ≡ HashMap.get h store')
      → Consistent store queue ch cc inserted told
      → Consistent store' queue ch cc inserted told
  same_store store store' queue ch cc inserted told found_eq c =
      let dag_eq : (p : H) → in_dag_of store p ≡ in_dag_of store' p =
        λ p. ground (arith, found_eq p) in
      record {
        dag_is = λ p. sym (dag_eq p) ∙ c.dag_is p;
        ordered = c.ordered;
        units = λ h w found.
            let (hash_eq, covered, stage) = c.units h w (found_eq h ∙ found) in
            (
              hash_eq,
              covered,
              Stage-cong (in_dag_of store) (in_dag_of store') w (waits ch h) (waits ch h) _ _ _ _ _
                  _ dag_eq (λ p. refl) refl refl refl stage,
            );
        strangers = λ h missing. c.strangers h (found_eq h ∙ missing);
        coords = λ k.
            All-map (MayWait store k.1) (MayWait store' k.1) (list_at k cc)
              (λ h (w, found, later, bit). (w, sym (found_eq h) ∙ found, later, bit)) (c.coords k);
      }
