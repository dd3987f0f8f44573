-- ===== src/Terminal/Wrong.antt =====
-- src/terminal.rs: the response to a wrong control hash.
use aleph_bft.Prelude.{
  ℕ, suc, ◌≡◌, refl, sym, ap, subst, ◌∙◌, inl, inr, Bool, true, false, some, List, [], ◌∷◌, Eq, All,
  count, get_elem?, set, arith, index, ok, ◌>>=◌, Bool-cases, Option-cases, ok_injective,
  bind_returns,
}
use aleph_bft.Prelude.HashMap
use aleph_bft.Prelude.HashMap.{HashMap}
use aleph_bft.Nodes.{NodeIndex}
use aleph_bft.Nodes.NodeMap
use aleph_bft.Nodes.NodeMap.{NodeMap}
use aleph_bft.Nodes.NodeSubset
use aleph_bft.Units
use aleph_bft.Units.{ConsensusUnit, ParentHasher}
use aleph_bft.Terminal.{
  UnitStatus, reconstructing_parents, wrong_hash, waiting_parents_in_dag, in_dag, TerminalUnit,
  Terminal, round_creator_eq,
}
use aleph_bft.Terminal.Events.{
  is_in_dag, is_wrong_hash, inspect_parents_in_dag, set_parents, update_on_wrong_hash_response,
}
use aleph_bft.Terminal.Stages.{
  Covers, mask_of, in_dag_of, waits, decode_event, dag_event, IsSettled, Untold, Stage, fresh,
  decoded, wrong, waiting, ready, placed,
}
use aleph_bft.Terminal.Update.{update}
use aleph_bft.Terminal.Decode.{IsConsistent, Covers-set, unchanged}
use aleph_bft.Terminal.Added.{elements-marked}
use aleph_bft.Terminal.Inspect.{inspect_parents_in_dag-returns}

not_both : (st : UnitStatus) → is_in_dag st ≡ true → is_wrong_hash st ≡ false
not_both in_dag h = refl
not_both reconstructing_parents h = refl
not_both wrong_hash h = cc
not_both waiting_parents_in_dag h = refl

module _ {H : Type 0} ⦃e : Eq H⦄ where
  Stage-wrong :
      (dag : H → Bool) (u : TerminalUnit H) (w : H → ℕ) (x : ℕ)
      → Stage dag u w x 0 0
      → is_wrong_hash u.status ≡ true
      → IsSettled u × Untold u w x
  Stage-wrong dag u w x (fresh good _ _ _) bad = cc
  Stage-wrong dag u w x (decoded _ good _ _ _) bad = cc
  Stage-wrong dag u w x (wrong settled _ _ _ untold) bad = (settled, untold)
  Stage-wrong dag u w x (waiting _ good _ _ _ _ _ _) bad = cc
  Stage-wrong dag u w x (ready _ _ _ one_b _ _ _) bad = absurd (omega arith)
  Stage-wrong dag u w x (placed _ inside _ _ _ _) bad = let good = not_both u.status inside in cc

  -- A slot of the mask is filled.
  set_parents-Covers :
      (parents parents' : NodeMap H) (bs : List Bool) (ids : List NodeIndex) (counter : ℕ)
      (p_hashes : List H)
      → Covers parents bs
      → All (λ i. get_elem? bs i ≡ some true) ids
      → set_parents parents ids counter p_hashes ≡ ok parents'
      → Covers parents' bs
  unfolding set_parents NodeMap.insert
  set_parents-Covers parents parents' bs [] counter p_hashes covered marked done =
      subst (λ m. Covers m bs) (ok_injective done) covered
  set_parents-Covers parents parents' bs (i ∷ ids) counter p_hashes covered (bit, marked) done =
      let (p_hash, at, rest) = bind_returns (index p_hashes counter) _ done in
      let (covers, slot) = Covers-set parents bs i p_hash covered bit in
      set_parents-Covers (set parents i (some p_hash)) parents' bs ids (suc counter) p_hashes covers
        marked (ground arith)

  abbrev answered : Terminal H → H → TerminalUnit H → NodeMap H → Terminal H
  answered s h u parents = record s {
    unit_store =
        HashMap.insert h (record u { parents = parents; n_miss_par_decoded = 0 }) s.unit_store;
  }

  wrong_answer-IsConsistent :
      (s s' : Terminal H) (h : H) (u : TerminalUnit H) (parents : NodeMap H)
      → IsConsistent s []
      → s.event_queue ≡ []
      → HashMap.get h s.unit_store ≡ some u
      → is_wrong_hash u.status ≡ true
      → Covers parents (mask_of u)
      → inspect_parents_in_dag (answered s h u parents) h ≡ ok s'
      → IsConsistent s' []
  wrong_answer-IsConsistent s s' h u parents c idle found bad covers done =
      let u' = record u { parents = parents; n_miss_par_decoded = 0 } in
      let no_a : count (decode_event h) s.event_queue ≡ 0 = ground arith in
      let no_b : count (dag_event h) s.event_queue ≡ 0 = ground arith in
      let dag = in_dag_of s.unit_store in
      let w = waits s.children_hash h in
      let (settled, untold) =
        Stage-wrong dag u w 0
          (subst (λ b. Stage dag u w 0 0 b) no_b
            (subst (λ a. Stage dag u w 0 a (count (dag_event h) s.event_queue)) no_a
              (c.units h u found).2))
          bad in
      let (t, inspects, (c', _)) =
        inspect_parents_in_dag-returns (answered s h u parents) s.event_queue h u'
          (update s.unit_store s.event_queue s.event_queue s.children_hash s.children_hash
            s.children_coord s.inserted [] [] c h u u' found refl refl covers
            (wrong (inl refl) bad no_a no_b untold)
            (λ k other. unchanged s.event_queue s.children_hash [] k))
          (HashMap.get-insert_self h u' s.unit_store) (inl refl) untold no_a no_b
          (λ k other. (refl, refl)) in
      subst (λ (r : Terminal H). IsConsistent r []) (ok_injective (sym inspects ∙ done)) c'

  pub wrong_response-IsConsistent :
      (s s' : Terminal H) (h : H) (p_hashes : List H)
      → IsConsistent s []
      → s.event_queue ≡ []
      → update_on_wrong_hash_response s h p_hashes ≡ ok s'
      → IsConsistent s' []
  unfolding update_on_wrong_hash_response Units.parents NodeSubset.elements
  wrong_response-IsConsistent s s' h p_hashes c idle done =
      elim (Option-cases (HashMap.get h s.unit_store)) [
        | inl unknown ↦ absurd (ground arith)
        | inr (u, found) ↦ elim (Bool-cases (is_wrong_hash u.status)) [
          | inr good ↦
              let over : s ≡ s' = ok_injective (ground arith) in
              subst (λ (t : Terminal H). IsConsistent t []) over c
          | inl bad ↦
              let mask = mask_of u in
              let onward : (set_parents u.parents (Units.parents u.unit.pre_unit.control_hash) 0
                      p_hashes
                    >>= λ parents. inspect_parents_in_dag (answered s h u parents) h)
                  ≡ ok s' =
                ground arith in
              let (parents, filled, rest) =
                bind_returns (set_parents u.parents _ 0 p_hashes) _ onward in
              wrong_answer-IsConsistent s s' h u parents c idle found bad
                (set_parents-Covers u.parents parents mask _ 0 p_hashes (c.units h u found).1
                  (elements-marked mask mask 0 (λ j. ap (get_elem? mask) (omega arith))) filled)
                rest
        ]
      ]
