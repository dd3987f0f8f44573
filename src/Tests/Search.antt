-- ===== src/Tests/Search.antt =====
-- To check a property of every entry of a concrete map by evaluation.
use aleph_bft.Prelude.{
  ◌≡◌, Bool, true, ◌&&◌, some, List, [], ◌∷◌, Eq, arith, get_elem?, ℕ, zero, suc, ◌+◌, inl, inr,
}
use aleph_bft.Prelude.HashMap
use aleph_bft.Prelude.HashMap.{HashMap}
use aleph_bft.Extender.Batch.Take.{Elem}

abbrev pub every {ℓ} : {K V : Type ℓ} → (K → V → Bool) → HashMap K V → Bool
every p [] = true
every p ((k, v) ∷ m) = p k v && every p m

pub every-get {ℓ} :
    {K V : Type ℓ} ⦃e : Eq K⦄ (p : K → V → Bool) (m : HashMap K V) (k : K) (v : V)
    → every p m ≡ true
    → HashMap.get k m ≡ some v
    → p k v ≡ true
unfolding HashMap.get
every-get p [] k v h found = cc
every-get p ((j, w) ∷ m) k v h found = ground (arith, every-get p m k v)

-- The same for the elements of a list, with their positions.
abbrev pub every_at {ℓ} : {A : Type ℓ} → (ℕ → A → Bool) → ℕ → List A → Bool
every_at p i [] = true
every_at p i (x ∷ xs) = p i x && every_at p (suc i) xs

pub every_at-get {ℓ} :
    {A : Type ℓ} (p : ℕ → A → Bool) (i : ℕ) (xs : List A) (j k : ℕ) (a : A)
    → i + j ≡ k
    → every_at p i xs ≡ true
    → get_elem? xs j ≡ some a
    → p k a ≡ true
every_at-get p i [] j k a e h found = cc
every_at-get p i (x ∷ xs) zero k a e h found =
    let same : i ≡ k = omega arith in rw (← same) (ground arith)
every_at-get p i (x ∷ xs) (suc j) k a e h found =
    every_at-get p (suc i) xs j k a (omega arith) (ground arith) found

abbrev pub every_elem : {A : Type 0} → (A → Bool) → List A → Bool
every_elem f [] = true
every_elem f (x ∷ xs) = f x && every_elem f xs

pub every_elem-Elem :
    {A : Type 0} (f : A → Bool) (xs : List A) (a : A)
    → every_elem f xs ≡ true
    → Elem a xs
    → f a ≡ true
every_elem-Elem f [] a h m = elim m [ ]
every_elem-Elem f (x ∷ xs) a h m = elim m [
  | inl here ↦ rw here (ground arith)
  | inr later ↦ every_elem-Elem f xs a (ground arith) later
]
