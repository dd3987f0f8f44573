-- ===== src/Terminal/Arrive.antt =====
-- src/terminal.rs: a new unit, the units that wait for it, and its parents.
use aleph_bft.Prelude.{
  ◌≡◌, refl, sym, ap, subst, ◌∙◌, inl, inr, List, [], ◌∷◌, ◌++◌, Eq, All, All-map, All-append,
  arith, ok, ◌>>=◌, Option-cases, ok_injective, bind_returns,
}
use aleph_bft.Prelude.HashMap
use aleph_bft.Prelude.HashMap.{HashMap}
use aleph_bft.Nodes.{NodeIndex}
use aleph_bft.Units.{Round, UnitCoord, ConsensusUnit, new_coord}
use aleph_bft.Terminal.{
  TerminalUnit, TerminalEvent, Terminal, Coord, round_creator_eq, round_of, creator_of,
  reconstruct_parent, reconstruct_children, add_coord_trigger, find_parents, wake_children,
}
use aleph_bft.Terminal.Stages.{list_from, list_at, MayWait, Consistent}
use aleph_bft.Terminal.Decode.{IsConsistent, Progress, Decoded, reconstruct_parent-Decoded}

module _ {H : Type 0} ⦃e : Eq H⦄ where
  pub Progress-refl : (s : Terminal H) → Progress s s
  Progress-refl s = record {
    kept = λ i h m. m;
    steady = λ h u there first. (there, refl, refl);
    same_hash_list = refl;
  }

  pub Progress-trans : (s t r : Terminal H) → Progress s t → Progress t r → Progress s r
  Progress-trans s t r p q = record {
    kept = λ i h m. q.kept i h (p.kept i h m);
    steady = λ h u there first.
        let (there', a, b) = p.steady h u there first in
        let (there'', a', b') = q.steady h u there' first in (there'', a' ∙ a, b' ∙ b);
    same_hash_list = q.same_hash_list ∙ p.same_hash_list;
  }

  with_coords :
      (store : HashMap H (TerminalUnit H)) (queue : List (TerminalEvent H))
      (ch : HashMap H (List H)) (cc cc' : HashMap Coord (List H)) (inserted : List (TerminalUnit H))
      (told : List H)
      → Consistent store queue ch cc inserted told
      → ((k : Coord) → All (MayWait store k.1) (list_at k cc'))
      → Consistent store queue ch cc' inserted told
  with_coords store queue ch cc cc' inserted told c coords = record {
    dag_is = c.dag_is;
    ordered = c.ordered;
    units = c.units;
    strangers = c.strangers;
    coords = coords;
  }

  reconstruct_children-Decoded :
      (s s' : Terminal H) (children : List H) (pid : NodeIndex) (u_hash : H)
      → IsConsistent s []
      → All (MayWait s.unit_store pid) children
      → reconstruct_children s children pid u_hash ≡ ok s'
      → Decoded s s'
  unfolding reconstruct_children
  reconstruct_children-Decoded s s' [] pid u_hash c waiting done =
      subst (Decoded s) (ok_injective done) (c, Progress-refl s)
  reconstruct_children-Decoded s s' (v ∷ children) pid u_hash c (first, waiting) done =
      let (t, woken, rest) = bind_returns (reconstruct_parent s v pid u_hash) _ done in
      let (c', p) = reconstruct_parent-Decoded s t v pid u_hash c first woken in
      let (c'', q) =
        reconstruct_children-Decoded t s' children pid u_hash c'
          (All-map (MayWait s.unit_store pid) (MayWait t.unit_store pid) children (p.kept pid)
            waiting)
          rest in
      (c'', Progress-trans s t s' p q)

  coords-remove :
      (store : HashMap H (TerminalUnit H)) (cc : HashMap Coord (List H)) (j : Coord)
      → ((k : Coord) → All (MayWait store k.1) (list_at k cc))
      → (k : Coord) → All (MayWait store k.1) (list_at k (HashMap.remove j cc))
  coords-remove store cc j coords k = elim (round_creator_eq.eq? j k) [
    | yes is_k ↦
        let gone =
          sym (ap (λ q. HashMap.get q (HashMap.remove j cc)) is_k) ∙ HashMap.get-remove_self j cc in
        subst (λ o. All (MayWait store k.1) (list_from o)) (sym gone) tt
    | no other ↦
        subst (λ o. All (MayWait store k.1) (list_from o))
          (sym (HashMap.get-remove_ne j k cc other)) (coords k)
  ]

  pub wake_children-Decoded :
      (s s' : Terminal H) (u : ConsensusUnit H)
      → IsConsistent s []
      → wake_children s u ≡ ok s'
      → Decoded s s'
  unfolding wake_children
  wake_children-Decoded s s' u c done =
      elim (Option-cases (HashMap.get (round_of u, creator_of u) s.children_coord)) [
        | inl nobody ↦ subst (Decoded s) (ok_injective (ground arith)) (c, Progress-refl s)
        | inr (children, waiting) ↦
            let key : Coord = (round_of u, creator_of u) in
            let all : All (MayWait s.unit_store (creator_of u)) children =
              subst (λ o. All (MayWait s.unit_store (creator_of u)) (list_from o)) waiting
                (c.coords key) in
            let t = record s { children_coord = HashMap.remove key s.children_coord } in
            let (c', p) =
              reconstruct_children-Decoded t s' children (creator_of u) u.hash
                (with_coords _ _ _ _ (HashMap.remove key s.children_coord) _ _ c
                  (coords-remove s.unit_store s.children_coord key c.coords))
                all (ground arith) in
            (c', record { kept = p.kept; steady = p.steady; same_hash_list = p.same_hash_list })
      ]

  add_coord_trigger-Decoded :
      (s : Terminal H) (round : Round) (pid : NodeIndex) (u_hash : H)
      → IsConsistent s []
      → MayWait s.unit_store pid u_hash
      → Decoded s (add_coord_trigger s round pid u_hash)
  unfolding add_coord_trigger
  add_coord_trigger-Decoded s round pid u_hash c waiting =
      let longer = list_at (round, pid) s.children_coord ++ u_hash ∷ [] in
      (
        with_coords s.unit_store s.event_queue s.children_hash s.children_coord _ s.inserted [] c
            (λ k. elim (round_creator_eq.eq? (round, pid) k) [
              | yes is_k ↦
                  subst
                    (λ j.
                      All (MayWait s.unit_store j.1)
                        (list_at j (HashMap.insert (round, pid) longer s.children_coord)))
                    is_k
                    (subst (λ o. All (MayWait s.unit_store pid) (list_from o))
                      (sym (HashMap.get-insert_self (round, pid) longer s.children_coord))
                      (All-append (MayWait s.unit_store pid) (list_at (round, pid) s.children_coord)
                        (u_hash ∷ []) (c.coords (round, pid)) (waiting, tt)))
              | no other ↦
                  subst (λ o. All (MayWait s.unit_store k.1) (list_from o))
                    (sym (HashMap.get-insert_ne (round, pid) k _ s.children_coord other))
                    (c.coords k)
            ]),
        record {
          kept = λ i h m. m;
          steady = λ h u there first. (there, refl, refl);
          same_hash_list = refl;
        },
      )

  -- The loop over the parents, of indices that the mask of the unit marks.
  pub find_parents-Decoded :
      (s s' : Terminal H) (u_hash : H) (round : Round) (ids : List NodeIndex)
      (coords : List UnitCoord)
      → IsConsistent s []
      → All (λ i. MayWait s.unit_store i u_hash) ids
      → find_parents s u_hash round ids ≡ ok (s', coords)
      → Decoded s s'
  unfolding find_parents
  find_parents-Decoded s s' u_hash round [] coords c waiting done =
      subst (Decoded s) (ap (λ p. p.0) (ok_injective done)) (c, Progress-refl s)
  find_parents-Decoded s s' u_hash round (i ∷ ids) coords c (first, waiting) done =
      elim (Option-cases (HashMap.get (round, i) s.unit_by_coord)) [
        | inl missing ↦
            let t = add_coord_trigger s round i u_hash in
            let (c', p) = add_coord_trigger-Decoded s round i u_hash c first in
            let onward : ◌>>=◌ {B = Terminal H × List UnitCoord} (find_parents t u_hash round ids)
                  (λ r. ok (r.0, new_coord round i ∷ r.1))
                ≡ ok (s', coords) =
              ground arith in
            let (r, found, rest) = bind_returns (find_parents t u_hash round ids) _ onward in
            let (c'', q) =
              find_parents-Decoded t s' u_hash round ids r.1 c'
                (All-map (λ j. MayWait s.unit_store j u_hash) (λ j. MayWait t.unit_store j u_hash)
                  ids (λ j m. p.kept j u_hash m) waiting)
                (found ∙ ap (λ x. ok (x, r.1)) (ap (λ x. x.0) (ok_injective rest))) in
            (c'', Progress-trans s t s' p q)
        | inr (v_hash, known) ↦
            let onward : (reconstruct_parent s u_hash i v_hash >>= λ t.
            find_parents t u_hash round ids)
                ≡ ok (s', coords) =
              ground arith in
            let (t, woken, rest) = bind_returns (reconstruct_parent s u_hash i v_hash) _ onward in
            let (c', p) = reconstruct_parent-Decoded s t u_hash i v_hash c first woken in
            let (c'', q) =
              find_parents-Decoded t s' u_hash round ids coords c'
                (All-map (λ j. MayWait s.unit_store j u_hash) (λ j. MayWait t.unit_store j u_hash)
                  ids (λ j m. p.kept j u_hash m) waiting)
                rest in
            (c'', Progress-trans s t s' p q)
      ]
