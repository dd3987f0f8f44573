-- ===== src/Terminal/Hang.antt =====
-- src/terminal.rs: the loop over the parents of a unit, and the waiting lists that it leaves.
use aleph_bft.Prelude.{
  ℕ, suc, ◌+◌, ◌≤◌, ◌≡◌, ◌≢◌, refl, sym, ap, ◌∙◌, inl, inr, ite, Bool, true, false, not, none, some,
  List, [], ◌∷◌, ◌++◌, Eq, count, count-append, arith, if◌then◌else◌, length, Bool-cases,
  Option-cases,
}
use aleph_bft.Prelude.HashMap
use aleph_bft.Prelude.HashMap.{HashMap}
use aleph_bft.Nodes.{NodeCount}
use aleph_bft.Nodes.NodeMap
use aleph_bft.Nodes.NodeMap.{NodeMap}
use aleph_bft.Nodes.NodeSubset
use aleph_bft.Alerts.{same}
use aleph_bft.Terminal.{Terminal, round_creator_eq, add_hash_trigger}
use aleph_bft.Terminal.Events.{parent_in_dag, count_parents}
use aleph_bft.Terminal.Stages.{Covers, in_dag_of, list_from, list_at, waits}

pub occupied-Covers :
    {H : Type 0} (m : NodeMap H) (bs : List Bool) (n : ℕ)
    → Covers m bs
    → length (NodeMap.occupied m) ≤ length (NodeSubset.elements_from n bs)
unfolding NodeSubset.elements_from
occupied-Covers [] [] n c = omega arith
occupied-Covers [] (b ∷ bs) n c = absurd c
occupied-Covers (o ∷ m) [] n c = absurd c
occupied-Covers (none ∷ m) (true ∷ bs) n c = omega (arith, occupied-Covers m bs (suc n) c)
occupied-Covers (none ∷ m) (false ∷ bs) n c = occupied-Covers m bs (suc n) c
occupied-Covers (some p ∷ m) (true ∷ bs) n (b, c) = omega (arith, occupied-Covers m bs (suc n) c)
occupied-Covers (some p ∷ m) (false ∷ bs) n (b, c) = cc

pub count-not :
    {A : Type 0} (p : A → Bool) (xs : List A) → count p xs + count (λ x. not (p x)) xs ≡ length xs
count-not p [] = refl
count-not p (x ∷ xs) = ground (arith, count-not p xs)

module _ {H : Type 0} ⦃e : Eq H⦄ where
  abbrev hang : H → H → HashMap H (List H) → HashMap H (List H)
  hang p v ch = HashMap.insert p (list_at p ch ++ v ∷ []) ch

  -- The waiting lists when `v` waits for those that are not in the DAG.
  abbrev pub hung : (H → Bool) → H → List H → HashMap H (List H) → HashMap H (List H)
  hung dag v [] ch = ch
  hung dag v (p ∷ ps) ch = hung dag v ps (if dag p then ch else hang p v ch)

  add_hash_trigger_lem :
      (s : Terminal H) (p v : H)
      → add_hash_trigger s p v ≡ record s { children_hash = hang p v s.children_hash }
  unfolding add_hash_trigger
  add_hash_trigger_lem s p v = elim (Option-cases (HashMap.get p s.children_hash)) [
    | inl nobody ↦ rw (add_hash_trigger, nobody) refl
    | inr (list, there) ↦ rw (add_hash_trigger, there) refl
  ]

  pub count_parents_lem :
      (s : Terminal H) (v : H) (ps : List H) (n : NodeCount)
      → count_parents s v ps n ≡ (
        record s { children_hash = hung (in_dag_of s.unit_store) v ps s.children_hash },
        n + count (in_dag_of s.unit_store) ps,
      )
  unfolding count_parents parent_in_dag
  count_parents_lem s v [] n = ap (λ k. (s, k)) (omega arith)
  count_parents_lem s v (p ∷ ps) n = elim (Bool-cases (in_dag_of s.unit_store p)) [
    | inl there ↦ rw there (
        count_parents_lem s v ps (n + 1)
        ∙ ap
            (λ k.
              (record s { children_hash = hung (in_dag_of s.unit_store) v ps s.children_hash }, k))
            (ground arith))
    | inr absent ↦
        rw (absent, add_hash_trigger_lem s p v)
          (count_parents_lem (record s { children_hash = hang p v s.children_hash }) v ps n
            ∙ ap
                (λ k. (
                  record s {
                    children_hash = hung (in_dag_of s.unit_store) v ps (hang p v s.children_hash);
                  },
                  k,
                ))
                (ground arith))
  ]

  waits-hang :
      (ch : HashMap H (List H)) (q v h p : H)
      → waits (hang q v ch) h p ≡ waits ch h p + ite (e.eq? q p) (count (same h) (v ∷ [])) 0
  waits-hang ch q v h p = elim (e.eq? q p) [
    | yes is ↦
        ap (λ o. count (same h) (list_from o))
          (ap (λ r. HashMap.get r (hang q v ch)) (sym is) ∙ HashMap.get-insert_self q _ ch)
        ∙ count-append (same h) (list_at q ch) (v ∷ [])
        ∙ ground (arith, ap (λ r. list_at r ch) is)
    | no other ↦ ground (arith, HashMap.get-insert_ne q p (list_at q ch ++ v ∷ []) ch)
  ]

  pub waits-hung :
      (dag : H → Bool) (v : H) (ps : List H) (ch : HashMap H (List H)) (p : H)
      → waits (hung dag v ps ch) v p ≤ waits ch v p + count (same p) ps
  waits-hung dag v [] ch p = omega arith
  waits-hung dag v (q ∷ ps) ch p = elim (Bool-cases (dag q)) [
    | inl there ↦ rw there (ground (arith, waits-hung dag v ps ch p))
    | inr absent ↦
        rw absent (ground (arith, waits-hung dag v ps (hang q v ch) p, waits-hang ch q v v p))
  ]

  pub waits-hung_ne :
      (dag : H → Bool) (v : H) (ps : List H) (ch : HashMap H (List H)) (h p : H)
      → v ≢ h
      → waits ch h p ≡ waits (hung dag v ps ch) h p
  waits-hung_ne dag v [] ch h p other = refl
  waits-hung_ne dag v (q ∷ ps) ch h p other = elim (Bool-cases (dag q)) [
    | inl there ↦ rw there (waits-hung_ne dag v ps ch h p other)
    | inr absent ↦ rw absent (
        let same_waits : waits ch h p ≡ waits (hang q v ch) h p =
          ground (arith, waits-hang ch q v h p, λ (is : h ≡ v). other (sym is)) in
        same_waits ∙ waits-hung_ne dag v ps (hang q v ch) h p other)
  ]
