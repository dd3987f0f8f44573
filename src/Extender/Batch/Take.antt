-- ===== src/Extender/Batch/Take.antt =====
-- What the inner loop of `finalize_round` takes out of the store.
use aleph_bft.Prelude.{
  ℕ, ◌+◌, ◌≤◌, ◌≡◌, refl, sym, ap, none, some, List, [], ◌∷◌, map, ◌⊎◌, inl, inr, arith, Eq, length,
  Option-cases, ite, ◌∙◌,
}
use aleph_bft.Prelude.HashMap
use aleph_bft.Prelude.HashMap.{HashMap}
use aleph_bft.Extender.State.{ExtenderUnit}
use aleph_bft.Extender.Finalize.{take_units}

-- `a` is an element.
abbrev pub Elem : {A : Type 0} → A → List A → Type 0
Elem a [] = ⊥
Elem a (x ∷ xs) = (a ≡ x) ⊎ Elem a xs

module _ {H : Type 0} ⦃e : Eq H⦄ where
  -- How often `q` stands in a list.
  abbrev pub times : H → List H → ℕ
  times q [] = 0
  times q (x ∷ xs) = ite (e.eq? x q) 1 0 + times q xs

  -- How often `q` is stored: once or not at all.
  abbrev pub stored : H → HashMap H (ExtenderUnit H) → ℕ
  stored q units = elim (HashMap.get q units) [ none ↦ 0 | some _ ↦ 1 ]

  abbrev pub hashes : List (ExtenderUnit H) → List H
  hashes = map (λ u. u.hash)

  -- Each unit is stored under its hash.
  abbrev pub IsKeyed : HashMap H (ExtenderUnit H) → Type 0
  IsKeyed units = (q : H) (u : ExtenderUnit H) → HashMap.get q units ≡ some u → u.hash ≡ q

  -- `rest` holds no more than `units`.
  abbrev pub Within : HashMap H (ExtenderUnit H) → HashMap H (ExtenderUnit H) → Type 0
  Within rest units =
      (q : H) (u : ExtenderUnit H) → HashMap.get q rest ≡ some u → HashMap.get q units ≡ some u

  pub remove-Within :
      (p : H) (units : HashMap H (ExtenderUnit H)) → Within (HashMap.remove p units) units
  remove-Within p units q u h = ground (arith, HashMap.get-remove p q units)

  pub Within-none :
      (rest units : HashMap H (ExtenderUnit H))
      → Within rest units
      → (q : H) → HashMap.get q units ≡ none
      → HashMap.get q rest ≡ none
  Within-none rest units within q h = elim (Option-cases (HashMap.get q rest)) [
    | inl missing ↦ missing
    | inr (u, found) ↦ let bad = within q u found in cc
  ]

  pub take_units-Within :
      (units : HashMap H (ExtenderUnit H)) (ps : List H) → Within (take_units units ps).0 units
  unfolding take_units
  take_units-Within units [] q u h = h
  take_units-Within units (p ∷ ps) q u h = elim (Option-cases (HashMap.get p units)) [
    | inl missing ↦ take_units-Within units ps q u (rw (missing, take_units) at h)
    | inr (v, found) ↦
        remove-Within p units q u
          (take_units-Within (HashMap.remove p units) ps q u (rw (found, take_units) at h))
  ]

  pub length-take_units :
      (units : HashMap H (ExtenderUnit H)) (ps : List H)
      → length (take_units units ps).0 + length (take_units units ps).1 ≤ length units
  unfolding take_units
  length-take_units units [] = omega arith
  length-take_units units (p ∷ ps) = elim (Option-cases (HashMap.get p units)) [
    | inl missing ↦ rw (missing, take_units) (length-take_units units ps)
    | inr (v, found) ↦
        rw (found, take_units)
          (omega (
            arith,
            length-take_units (HashMap.remove p units) ps,
            HashMap.length-remove_lt p v units found,
          ))
  ]

  -- Removing `p` takes one from `p` and nothing from others.
  pub stored-remove :
      (p q : H) (v : ExtenderUnit H) (units : HashMap H (ExtenderUnit H))
      → HashMap.get p units ≡ some v
      → ite (e.eq? p q) 1 0 + stored q (HashMap.remove p units) ≡ stored q units
  stored-remove p q v units found = ground (arith, HashMap.get-remove p q units)

  pub take_units_conserves :
      (q : H) (units : HashMap H (ExtenderUnit H)) (ps : List H)
      → IsKeyed units
      → times q (hashes (take_units units ps).1) + stored q (take_units units ps).0 ≡ stored q units
  unfolding take_units
  take_units_conserves q units [] keyed = omega arith
  take_units_conserves q units (p ∷ ps) keyed = elim (Option-cases (HashMap.get p units)) [
    | inl missing ↦ rw (missing, take_units) (take_units_conserves q units ps keyed)
    | inr (v, found) ↦
        rw (found, take_units, keyed p v found)
          (omega (
            arith,
            take_units_conserves q (HashMap.remove p units) ps
                (λ r u h. keyed r u (remove-Within p units r u h)),
            stored-remove p q v units found,
          ))
  ]

  pub take_units_gone :
      (q : H) (units : HashMap H (ExtenderUnit H)) (ps : List H)
      → Elem q ps
      → HashMap.get q (take_units units ps).0 ≡ none
  unfolding take_units
  take_units_gone q units [] m = elim m [ ]
  take_units_gone q units (p ∷ ps) m = elim (Option-cases (HashMap.get p units)) [
    | inl missing ↦
        rw (missing, take_units)
          (elim m [
            | inl q_is ↦
                Within-none _ units (take_units-Within units ps) q
                  (ap (λ r. HashMap.get r units) q_is ∙ missing)
            | inr later ↦ take_units_gone q units ps later
          ])
    | inr (v, found) ↦
        rw (found, take_units)
          (elim m [
            | inl q_is ↦
                Within-none _ (HashMap.remove p units)
                  (take_units-Within (HashMap.remove p units) ps) q
                  (ap (λ r. HashMap.get r (HashMap.remove p units)) q_is
                    ∙ HashMap.get-remove_self p units)
            | inr later ↦ take_units_gone q (HashMap.remove p units) ps later
          ])
  ]

  pub take_units_taken :
      (v : ExtenderUnit H) (units : HashMap H (ExtenderUnit H)) (ps : List H)
      → Elem v (take_units units ps).1
      → (p : H) × Elem p ps × (HashMap.get p units ≡ some v)
  unfolding take_units
  take_units_taken v units [] m = elim m [ ]
  take_units_taken v units (p ∷ ps) m = elim (Option-cases (HashMap.get p units)) [
    | inl missing ↦
        let (r, at_r, found) = take_units_taken v units ps (rw (missing, take_units) at m) in
        (r, inr at_r, found)
    | inr (w, found) ↦
        let m' : (v ≡ w) ⊎ Elem v (take_units (HashMap.remove p units) ps).1 =
          rw (found, take_units) at m in
        elim m' [
          | inl v_is ↦ (p, inl refl, found ∙ ap some (sym v_is))
          | inr later ↦
              let (r, at_r, got) = take_units_taken v (HashMap.remove p units) ps later in
              (r, inr at_r, remove-Within p units r v got)
        ]
  ]
