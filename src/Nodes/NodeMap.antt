-- ===== src/Nodes/NodeMap.antt =====
-- src/nodes.rs, `NodeMap`: a slot for each node of the committee.
use aleph_bft.Prelude.{
  ℕ, zero, suc, ◌≡◌, refl, ap, Bool, true, false, Option, none, some, List, [], ◌∷◌, map, Exec,
  index, store_at, length, replicate, get_elem?, set, count,
}

abbrev pub NodeMap : Type 0 → Type 0
NodeMap T = List (Option T)

abbrev pub is_some {ℓ} : {A : Type ℓ} → Option A → Bool
is_some none = false
is_some (some _) = true

pub is_some-elim {ℓ} : {A : Type ℓ} (o : Option A) → is_some o ≡ true → (a : A) × (o ≡ some a)
is_some-elim none h = cc
is_some-elim (some a) h = (a, refl)

module _ {T : Type 0} where
  unfoldable pub with_size : ℕ → NodeMap T
  with_size n = replicate n none

  unfoldable pub iter_from : ℕ → NodeMap T → List (ℕ × T)
  iter_from i [] = []
  iter_from i (none ∷ m) = iter_from (suc i) m
  iter_from i (some v ∷ m) = (i, v) ∷ iter_from (suc i) m

  -- The occupied slots with their indices.
  unfoldable pub iter : NodeMap T → List (ℕ × T)
  unfolding iter_from
  iter m = iter_from 0 m

  unfoldable pub values : NodeMap T → List T
  unfolding iter
  values m = map (λ p. p.1) (iter m)

  -- Out of range the code panics.
  unfoldable pub get : NodeMap T → ℕ → Exec (Option T)
  get m i = index m i

  unfoldable pub insert : NodeMap T → ℕ → T → Exec (NodeMap T)
  insert m i v = store_at m i (some v)

  unfoldable pub to_subset : NodeMap T → List Bool
  to_subset m = map is_some m

  -- The values without the detour through the indices.
  abbrev pub occupied : NodeMap T → List T
  occupied [] = []
  occupied (none ∷ m) = occupied m
  occupied (some v ∷ m) = v ∷ occupied m

  iter_from-occupied : (i : ℕ) (m : NodeMap T) → map (λ p. p.1) (iter_from i m) ≡ occupied m
  unfolding iter_from
  iter_from-occupied i [] = refl
  iter_from-occupied i (none ∷ m) = iter_from-occupied (suc i) m
  iter_from-occupied i (some v ∷ m) = ap (◌∷◌ v) (iter_from-occupied (suc i) m)

  pub values-occupied : (m : NodeMap T) → values m ≡ occupied m
  unfolding values
  values-occupied m = iter_from-occupied 0 m

  pub length-occupied : (m : NodeMap T) → length (occupied m) ≡ count is_some m
  length-occupied [] = refl
  length-occupied (none ∷ m) = length-occupied m
  length-occupied (some v ∷ m) = ap suc (length-occupied m)

  pub occupied-empty : (n : ℕ) → occupied (replicate n none) ≡ []
  occupied-empty zero = refl
  occupied-empty (suc n) = occupied-empty n

  pub count-set_vacant :
      (m : NodeMap T) (i : ℕ) (v : T)
      → get_elem? m i ≡ some none
      → count is_some (set m i (some v)) ≡ suc (count is_some m)
  count-set_vacant [] i v h = cc
  count-set_vacant (none ∷ m) zero v h = refl
  count-set_vacant (some w ∷ m) zero v h = cc
  count-set_vacant (none ∷ m) (suc i) v h = count-set_vacant m i v h
  count-set_vacant (some w ∷ m) (suc i) v h = ap suc (count-set_vacant m i v h)

pub count-empty : (T : Type 0) (n : ℕ) → count is_some (replicate {A = Option T} n none) ≡ 0
count-empty T zero = refl
count-empty T (suc n) = count-empty T n
