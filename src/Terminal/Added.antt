-- ===== src/Terminal/Added.antt =====
-- src/terminal.rs: the store with a new unit.
use aleph_bft.Prelude.{
  ℕ, suc, ◌+◌, ◌-◌, ◌<◌, ◌≡◌, refl, sym, ap, subst, ◌∙◌, inl, inr, Bool, true, false, none, some,
  List, [], ◌∷◌, ◌++◌, Eq, All, All-map, count-append, get_elem?, length, arith, ◌==◌, ok, ◌>>=◌,
  Bool-cases, Option-cases, ok_injective, bind_returns, replicate,
}
use aleph_bft.Prelude.HashMap
use aleph_bft.Prelude.HashMap.{HashMap}
use aleph_bft.Nodes.{NodeIndex}
use aleph_bft.Nodes.NodeMap
use aleph_bft.Nodes.NodeMap.{NodeMap}
use aleph_bft.Nodes.NodeSubset
use aleph_bft.Units
use aleph_bft.Units.{Round, UnitCoord, ConsensusUnit}
use aleph_bft.Terminal.{
  parents_reconstructed, Terminal, round_creator_eq, round_of, creator_of, push_event, find_parents,
  request_parents, send_notification, place_unit, wake_children, update_on_store_add,
  blank_from_unit, add_to_store,
}
use aleph_bft.Terminal.Stages.{
  Covers, in_dag_of, list_at, waits, decode_event, dag_event, fresh, decoded, UnitOk, Unknown,
  MayWait, Consistent,
}
use aleph_bft.Terminal.Update.{Stage-cong, update, same_store}
use aleph_bft.Terminal.Decode.{IsConsistent, Decoded, pushed_decode}
use aleph_bft.Terminal.Arrive.{
  Progress-refl, Progress-trans, wake_children-Decoded, find_parents-Decoded,
}

-- All indices of a mask's elements are marked in it.
pub elements-marked :
    (mask bs : List Bool) (n : ℕ)
    → ((j : ℕ) → get_elem? bs j ≡ get_elem? mask (n + j))
    → All (λ i. get_elem? mask i ≡ some true) (NodeSubset.elements_from n bs)
unfolding NodeSubset.elements_from
elements-marked mask [] n same_bits = tt
elements-marked mask (true ∷ bs) n same_bits = (
  subst (λ k. get_elem? mask k ≡ some true) (omega arith) (sym (same_bits 0)),
  elements-marked mask bs (suc n) (λ j. same_bits (suc j) ∙ ap (get_elem? mask) (omega arith)),
)
elements-marked mask (false ∷ bs) n same_bits =
    elements-marked mask bs (suc n) (λ j. same_bits (suc j) ∙ ap (get_elem? mask) (omega arith))

Covers-blank : (H : Type 0) (bs : List Bool) → Covers {H = H} (replicate (length bs) none) bs
Covers-blank H [] = tt
Covers-blank H (true ∷ bs) = Covers-blank H bs
Covers-blank H (false ∷ bs) = Covers-blank H bs

module _ {H : Type 0} ⦃e : Eq H⦄ where
  enlist :
      (s : Terminal H) (u : ConsensusUnit H)
      → IsConsistent s []
      → HashMap.get u.hash s.unit_store ≡ none
      → IsConsistent
          (record s { unit_store = HashMap.insert u.hash (blank_from_unit u) s.unit_store })
          []
  unfolding blank_from_unit NodeMap.with_size NodeSubset.size
  enlist s u c missing =
      let store' = HashMap.insert u.hash (blank_from_unit u) s.unit_store in
      let (no_waits, no_told, no_a, no_b) = c.strangers u.hash missing in
      let dag_eq : (p : H) → in_dag_of s.unit_store p ≡ in_dag_of store' p =
        λ p. ground (arith, HashMap.get-insert u.hash p (blank_from_unit u) s.unit_store) in
      record {
        dag_is = λ p. sym (dag_eq p) ∙ c.dag_is p;
        ordered = c.ordered;
        units = λ h w found.
            elim (HashMap.get-insert_cases u.hash h (blank_from_unit u) w s.unit_store found) [
              | inl (is_h, is_u) ↦
                  let blank_ok : UnitOk store' s.event_queue s.children_hash [] u.hash
                      (blank_from_unit u) =
                    (
                      refl,
                      Covers-blank H u.pre_unit.control_hash.parents_mask,
                      fresh refl no_a no_b (refl, refl, no_waits, refl),
                    ) in
                  subst (λ q. UnitOk store' s.event_queue s.children_hash [] q w) is_h
                    (subst (λ t. UnitOk store' s.event_queue s.children_hash [] u.hash t) is_u
                      blank_ok)
              | inr (other, old) ↦
                  let (hash_eq, covered, stage) = c.units h w old in
                  (
                    hash_eq,
                    covered,
                    Stage-cong (in_dag_of s.unit_store) (in_dag_of store') w
                        (waits s.children_hash h) (waits s.children_hash h) _ _ _ _ _ _ dag_eq
                        (λ p. refl) refl refl refl stage,
                  )
            ];
        strangers = λ h absent.
            c.strangers h
              (ground (arith, HashMap.get-insert u.hash h (blank_from_unit u) s.unit_store));
        coords = λ k.
            All-map (MayWait s.unit_store k.1) (MayWait store' k.1) (list_at k s.children_coord)
              (λ h (w, found, later, bit). (
                w,
                ground (arith, HashMap.get-insert u.hash h (blank_from_unit u) s.unit_store),
                later,
                bit,
              ))
              (c.coords k);
      }

  -- The event of a unit of round 0, which is new.
  decoded_first :
      (s : Terminal H) (u : ConsensusUnit H)
      → IsConsistent s []
      → HashMap.get u.hash s.unit_store ≡ some (blank_from_unit u)
      → round_of u ≡ 0
      → Unknown s.event_queue s.children_hash [] u.hash
      → IsConsistent (push_event s (parents_reconstructed u.hash)) []
  unfolding blank_from_unit
  decoded_first s u c found first (no_waits, no_told, no_a, no_b) =
      let queue' = s.event_queue ++ parents_reconstructed u.hash ∷ [] in
      let b = blank_from_unit u in
      let (hash_eq, covered, stage) = c.units u.hash b found in
      let more : Consistent (HashMap.insert u.hash b s.unit_store) queue' s.children_hash
          s.children_coord s.inserted [] =
        update s.unit_store s.event_queue queue' s.children_hash s.children_hash s.children_coord
          s.inserted [] [] c u.hash b b found refl refl covered
          (decoded (inr first) refl
            (ground (
              arith,
              count-append (decode_event u.hash) s.event_queue (parents_reconstructed u.hash ∷ []),
            ))
            (ground (
              arith,
              count-append (dag_event u.hash) s.event_queue (parents_reconstructed u.hash ∷ []),
            ))
            (refl, refl, no_waits, refl))
          (λ h other. pushed_decode s.event_queue s.children_hash [] u.hash h other) in
      same_store (HashMap.insert u.hash b s.unit_store) s.unit_store queue' s.children_hash
        s.children_coord s.inserted []
        (λ h. ground (arith, HashMap.get-insert u.hash h b s.unit_store)) more

  place_unit-Decoded :
      (s : Terminal H) (u : ConsensusUnit H) → IsConsistent s [] → Decoded s (place_unit s u)
  unfolding place_unit
  place_unit-Decoded s u c =
      elim (Option-cases (HashMap.get (round_of u, creator_of u) s.unit_by_coord)) [
        | inl free ↦
            rw (place_unit, free)
              (
                c,
                record {
                  kept = λ i h m. m;
                  steady = λ h w there first. (there, refl, refl);
                  same_hash_list = refl;
                },
              )
        | inr (other, taken) ↦ rw (place_unit, taken) (c, Progress-refl s)
      ]

  may_wait :
      (s : Terminal H) (u : ConsensusUnit H) (i : NodeIndex)
      → HashMap.get u.hash s.unit_store ≡ some (blank_from_unit u)
      → 0 < round_of u
      → get_elem? u.pre_unit.control_hash.parents_mask i ≡ some true
      → MayWait s.unit_store i u.hash
  unfolding blank_from_unit
  may_wait s u i found later bit = (blank_from_unit u, found, later, bit)

  request_parents-IsConsistent :
      (s : Terminal H) (coords : List UnitCoord)
      → IsConsistent s []
      → IsConsistent (request_parents s coords) []
  unfolding request_parents send_notification
  request_parents-IsConsistent s [] c = c
  request_parents-IsConsistent s (x ∷ coords) c = c

  update_on_store_add-IsConsistent :
      (s s' : Terminal H) (u : ConsensusUnit H)
      → IsConsistent s []
      → HashMap.get u.hash s.unit_store ≡ some (blank_from_unit u)
      → Unknown s.event_queue s.children_hash [] u.hash
      → update_on_store_add s u ≡ ok s'
      → IsConsistent s' []
  unfolding update_on_store_add Units.parents NodeSubset.elements blank_from_unit
  update_on_store_add-IsConsistent s s' u c found new done =
      let (c1, p1) = place_unit-Decoded s u c in
      let (t, woken, rest) = bind_returns (wake_children (place_unit s u) u) _ done in
      let (c2, p2) = wake_children-Decoded (place_unit s u) t u c1 woken in
      let p = Progress-trans s (place_unit s u) t p1 p2 in
      elim (Bool-cases (round_of u == 0)) [
        | inl first ↦
            let first_of : round_of u ≡ 0 = ground arith in
            let (there, same_a, same_b) = p.steady u.hash (blank_from_unit u) found first_of in
            let (no_waits, no_told, no_a, no_b) = new in
            let over : push_event t (parents_reconstructed u.hash) ≡ s' =
              ok_injective (ground arith) in
            subst (λ (r : Terminal H). IsConsistent r []) over
              (decoded_first t u c2 there first_of (
                λ q. ap (λ ch. waits ch u.hash q) p.same_hash_list ∙ no_waits q,
                refl,
                same_a ∙ no_a,
                same_b ∙ no_b,
              ))
        | inr later ↦
            let ids = Units.parents u.pre_unit.control_hash in
            let mask = u.pre_unit.control_hash.parents_mask in
            let onward : ◌>>=◌ {A = Terminal H × List UnitCoord}
                  (find_parents t u.hash (round_of u - 1) ids) (λ r. ok (request_parents r.0 r.1))
                ≡ ok s' =
              ground arith in
            let (r, searched, end) =
              bind_returns (find_parents t u.hash (round_of u - 1) ids) _ onward in
            let (c3, p3) =
              find_parents-Decoded t r.0 u.hash (round_of u - 1) ids r.1 c2
                (All-map (λ i. get_elem? mask i ≡ some true) (λ i. MayWait t.unit_store i u.hash)
                  ids (λ i bit. p.kept i u.hash (may_wait s u i found (ground arith) bit))
                  (elements-marked mask mask 0 (λ j. ap (get_elem? mask) (omega arith))))
                searched in
            subst (λ (q : Terminal H). IsConsistent q []) (ok_injective end)
              (request_parents-IsConsistent r.0 r.1 c3)
      ]

  pub add_to_store-IsConsistent :
      (s s' : Terminal H) (u : ConsensusUnit H)
      → IsConsistent s []
      → add_to_store s u ≡ ok s'
      → IsConsistent s' []
  unfolding add_to_store
  add_to_store-IsConsistent s s' u c done = elim (Option-cases (HashMap.get u.hash s.unit_store)) [
    | inr (known, there) ↦
        let over : s ≡ s' = ok_injective (ground arith) in
        subst (λ (t : Terminal H). IsConsistent t []) over c
    | inl missing ↦
        update_on_store_add-IsConsistent
          (record s { unit_store = HashMap.insert u.hash (blank_from_unit u) s.unit_store }) s' u
          (enlist s u c missing) (HashMap.get-insert_self u.hash (blank_from_unit u) s.unit_store)
          (c.strangers u.hash missing) (ground arith)
  ]
