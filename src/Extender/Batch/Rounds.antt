-- ===== src/Extender/Batch/Rounds.antt =====
-- src/extender.rs, `finalize_round`: the rounds of the units that the walk visits.
use aleph_bft.Prelude.{ℕ, zero, suc, ◌≤◌, ◌≡◌, refl, some, List, [], ◌∷◌, ◌++◌, inl, inr, arith, Eq}
use aleph_bft.Prelude.HashMap
use aleph_bft.Prelude.HashMap.{HashMap}
use aleph_bft.Nodes.NodeMap
use aleph_bft.Extender.State.{ExtenderUnit}
use aleph_bft.Extender.Finalize.{take_units}
use aleph_bft.Extender.Batch.Take.{Elem, Within, take_units-Within, take_units_taken}
use aleph_bft.Extender.Batch.Visit.{visit}
use aleph_bft.Extender.Batch.Walk.{Elem-append}

module _ {H : Type 0} where
  -- The rounds never rise along the list, and start at `k` or below.
  abbrev pub Falls : ℕ → List (ExtenderUnit H) → Type 0
  Falls k [] = Unit
  Falls k (u ∷ us) = (u.round ≤ k) × Falls u.round us

  level :
      (k j : ℕ) (vs : List (ExtenderUnit H))
      → ((v : ExtenderUnit H) → Elem v vs → suc v.round ≡ k)
      → k ≤ suc j
      → Falls j vs
  level k j [] same h = tt
  level k j (v ∷ vs) same h =
      let e = same v (inl refl) in
      (omega arith, level k v.round vs (λ w m. same w (inr m)) (omega arith))

  Falls-append :
      (k j : ℕ) (us vs : List (ExtenderUnit H))
      → Falls j us
      → ((u : ExtenderUnit H) → Elem u us → k ≤ suc u.round)
      → ((v : ExtenderUnit H) → Elem v vs → suc v.round ≡ k)
      → k ≤ suc j
      → Falls j (us ++ vs)
  Falls-append k j [] vs falls low same h = level k j vs same h
  Falls-append k j (u ∷ us) vs falls low same h =
      (falls.0, Falls-append k u.round us vs falls.1 (λ w m. low w (inr m)) same (low u (inl refl)))

module _ {H : Type 0} ⦃e : Eq H⦄ where
  -- A parent that is stored belongs to the round before.
  abbrev pub IsLayered : ExtenderUnit H → HashMap H (ExtenderUnit H) → Type 0
  IsLayered u units =
      (p : H) (v : ExtenderUnit H)
      → Elem p (NodeMap.values u.parents)
      → HashMap.get p units ≡ some v
      → suc v.round ≡ u.round

  abbrev pub IsDown : HashMap H (ExtenderUnit H) → Type 0
  IsDown units = (h : H) (u : ExtenderUnit H) → HashMap.get h units ≡ some u → IsLayered u units

  abbrev AllStored : List (ExtenderUnit H) → HashMap H (ExtenderUnit H) → Type 0
  AllStored us units = (u : ExtenderUnit H) → Elem u us → (h : H) × (HashMap.get h units ≡ some u)

module _ {H : Type 0} ⦃e : Eq H⦄ (all : HashMap H (ExtenderUnit H)) (down : IsDown all) where
  -- The units are visited in order of falling rounds.
  pub visit-Falls :
      (k fuel : ℕ) (units : HashMap H (ExtenderUnit H)) (queue : List (ExtenderUnit H))
      → Within units all
      → AllStored queue all
      → Falls k queue
      → ((u : ExtenderUnit H) → Elem u queue → k ≤ suc u.round)
      → Falls k (visit fuel units queue).1
  unfolding visit
  visit-Falls k zero units [] within known falls low = tt
  visit-Falls k (suc fuel) units [] within known falls low = tt
  visit-Falls k zero units (x ∷ queue) within known falls low = tt
  visit-Falls k (suc fuel) units (x ∷ queue) within known falls low =
      let ps = NodeMap.values x.parents in
      let (rest, vs) = take_units units ps in
      let (hx, fx) = known x (inl refl) in
      let below = λ (v : ExtenderUnit H) (m : Elem v (take_units units ps).1).
        (let (p, at_p, found) = take_units_taken v units ps m in
          down hx x fx p v at_p (within p v found)) in
      (
        falls.0,
        visit-Falls x.round fuel (take_units units ps).0 (queue ++ (take_units units ps).1)
            (λ q u h. within q u (take_units-Within units ps q u h))
            (λ v m. elim (Elem-append v queue (take_units units ps).1 m) [
              | inl old ↦ known v (inr old)
              | inr new ↦
                  let (p, at_p, found) = take_units_taken v units ps new in (p, within p v found)
            ])
            (Falls-append x.round x.round queue (take_units units ps).1 falls.1
              (λ v m. omega (arith, low v (inr m), falls.0)) below (omega arith))
            (λ v m. elim (Elem-append v queue (take_units units ps).1 m) [
              | inl old ↦ omega (arith, low v (inr old), falls.0)
              | inr new ↦ omega (arith, below v new)
            ]),
      )
