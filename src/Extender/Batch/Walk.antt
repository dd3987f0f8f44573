-- ===== src/Extender/Batch/Walk.antt =====
-- src/extender.rs, `finalize_round`: which units the walk visits, and how often.
use aleph_bft.Prelude.{
  ℕ, zero, suc, ◌+◌, ◌≤◌, ◌≡◌, refl, none, some, List, [], ◌∷◌, ◌++◌, reverse, ◌⊎◌, inl, inr, arith,
  Eq, length, length-append,
}
use mathlib.Core.List.{map-append, reverse-cons}
use aleph_bft.Prelude.HashMap
use aleph_bft.Prelude.HashMap.{HashMap}
use aleph_bft.Nodes.NodeMap
use aleph_bft.Extender.State.{ExtenderUnit}
use aleph_bft.Extender.Finalize.{take_units}
use aleph_bft.Extender.Batch.Take.{
  Elem, times, stored, hashes, IsKeyed, Within, take_units-Within, length-take_units,
  take_units_conserves, take_units_gone, take_units_taken, Within-none,
}
use aleph_bft.Extender.Batch.Visit.{visit}

pub Elem-append : {A : Type 0} (a : A) (xs ys : List A) → Elem a (xs ++ ys) → Elem a xs ⊎ Elem a ys
Elem-append a [] ys m = inr m
Elem-append a (x ∷ xs) ys m = ground (arith, Elem-append a xs ys)

module _ {H : Type 0} ⦃e : Eq H⦄ where
  times-append : (q : H) (xs ys : List H) → times q (xs ++ ys) ≡ times q xs + times q ys
  times-append q [] ys = omega arith
  times-append q (x ∷ xs) ys = omega (arith, times-append q xs ys)

  pub times-reverse : (q : H) (xs : List H) → times q (reverse xs) ≡ times q xs
  times-reverse q [] = refl
  times-reverse q (x ∷ xs) =
      rw (reverse-cons x xs)
        (omega (arith, times-append q (reverse xs) (x ∷ []), times-reverse q xs))

  times-hashes-append :
      (q : H) (us vs : List (ExtenderUnit H))
      → times q (hashes (us ++ vs)) ≡ times q (hashes us) + times q (hashes vs)
  times-hashes-append q us vs = rw (map-append _ us vs) (times-append q (hashes us) (hashes vs))

  pub visit-Within :
      (fuel : ℕ) (units : HashMap H (ExtenderUnit H)) (queue : List (ExtenderUnit H))
      → Within (visit fuel units queue).0 units
  unfolding visit
  visit-Within zero units [] q u h = h
  visit-Within (suc fuel) units [] q u h = h
  visit-Within zero units (x ∷ queue) q u h = h
  visit-Within (suc fuel) units (x ∷ queue) q u h =
      take_units-Within units (NodeMap.values x.parents) q u
        (visit-Within fuel (take_units units (NodeMap.values x.parents)).0 _ q u h)

  -- The room that a walk needs, after one round.
  room :
      (fuel : ℕ) (units : HashMap H (ExtenderUnit H)) (u : ExtenderUnit H)
      (queue : List (ExtenderUnit H))
      → length units + length (u ∷ queue) ≤ suc fuel
      → length (take_units units (NodeMap.values u.parents)).0
          + length (queue ++ (take_units units (NodeMap.values u.parents)).1)
        ≤ fuel
  room fuel units u queue h = omega (
    arith,
    length-take_units units (NodeMap.values u.parents),
    length-append {0} queue (take_units units (NodeMap.values u.parents)).1,
  )

  -- The units leave the store for the queue and the queue for the batch, and none is lost or
  -- doubled.
  pub visit_conserves :
      (q : H) (fuel : ℕ) (units : HashMap H (ExtenderUnit H)) (queue : List (ExtenderUnit H))
      → length units + length queue ≤ fuel
      → IsKeyed units
      → times q (hashes (visit fuel units queue).1) + stored q (visit fuel units queue).0
        ≡ times q (hashes queue) + stored q units
  unfolding visit
  visit_conserves q zero units [] enough keyed = refl
  visit_conserves q (suc fuel) units [] enough keyed = refl
  visit_conserves q zero units (u ∷ queue) enough keyed = absurd (omega arith)
  visit_conserves q (suc fuel) units (u ∷ queue) enough keyed =
      let ps = NodeMap.values u.parents in
      omega (
        arith,
        visit_conserves q fuel (take_units units ps).0 (queue ++ (take_units units ps).1)
            (room fuel units u queue enough)
            (λ r v h. keyed r v (take_units-Within units ps r v h)),
        times-hashes-append q queue (take_units units ps).1,
        take_units_conserves q units ps keyed,
      )

  -- No parent of a visited unit stays in the store.
  pub visit_closed :
      (fuel : ℕ) (units : HashMap H (ExtenderUnit H)) (queue : List (ExtenderUnit H))
      → length units + length queue ≤ fuel
      → (u : ExtenderUnit H) (p : H) → Elem u (visit fuel units queue).1
      → Elem p (NodeMap.values u.parents)
      → HashMap.get p (visit fuel units queue).0 ≡ none
  unfolding visit
  visit_closed zero units [] enough u p m at_p = elim m [ ]
  visit_closed (suc fuel) units [] enough u p m at_p = elim m [ ]
  visit_closed zero units (x ∷ queue) enough u p m at_p = absurd (omega arith)
  visit_closed (suc fuel) units (x ∷ queue) enough u p m at_p =
      let ps = NodeMap.values x.parents in
      elim m [
        | inl u_is ↦
            Within-none _ (take_units units ps).0 (visit-Within fuel (take_units units ps).0 _) p
              (take_units_gone p units ps (rw u_is at at_p))
        | inr later ↦
            visit_closed fuel (take_units units ps).0 (queue ++ (take_units units ps).1)
              (room fuel units x queue enough) u p later at_p
      ]

  -- What holds of the queue and passes to stored parents holds of all that is visited.
  pub visit_rule :
      (P : ExtenderUnit H → Type 0) (fuel : ℕ) (units : HashMap H (ExtenderUnit H))
      (queue : List (ExtenderUnit H))
      → ((u v : ExtenderUnit H) (p : H)
          → P u
          → Elem p (NodeMap.values u.parents)
          → HashMap.get p units ≡ some v
          → P v)
      → ((u : ExtenderUnit H) → Elem u queue → P u)
      → (u : ExtenderUnit H) → Elem u (visit fuel units queue).1
      → P u
  unfolding visit
  visit_rule P zero units [] pass first u m = elim m [ ]
  visit_rule P (suc fuel) units [] pass first u m = elim m [ ]
  visit_rule P zero units (x ∷ queue) pass first u m = elim m [ ]
  visit_rule P (suc fuel) units (x ∷ queue) pass first u m =
      let ps = NodeMap.values x.parents in
      elim m [
        | inl u_is ↦ first u (inl u_is)
        | inr later ↦
            visit_rule P fuel (take_units units ps).0 (queue ++ (take_units units ps).1)
              (λ y v p py at_p found. pass y v p py at_p (take_units-Within units ps p v found))
              (λ y at_y. elim (Elem-append y queue (take_units units ps).1 at_y) [
                | inl old ↦ first y (inr old)
                | inr new ↦
                    let (p, at_p, found) = take_units_taken y units ps new in
                    pass x y p (first x (inl refl)) at_p found
              ])
              u later
      ]
