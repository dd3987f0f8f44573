-- ===== src/Extender/Quorum.antt =====
-- Quorums of parents over a committee with fewer than a third of forkers.
use aleph_bft.Prelude.{
  ℕ, zero, suc, ◌+◌, ◌*◌, ◌≤◌, ◌<◌, ◌≡◌, refl, Bool, true, false, some, List, [], ◌∷◌, arith,
  length, get_elem?, count, Bool-cases, inl, inr,
}
use aleph_bft.Nodes.{quorum}

abbrev pub is_set : Bool → Bool
is_set b = b

-- Two families of marks and one of forkers, all over the same nodes.
module _ {A : Type 0} (p q : A → Bool) where
  abbrev pub Meet : List A → List A → List Bool → Type 0
  Meet xs ys forkers =
      (i : ℕ) × (x : A) × (y : A) × (get_elem? xs i ≡ some x)
      × (get_elem? ys i ≡ some y)
      × (get_elem? forkers i ≡ some false)
      × (p x ≡ true)
      × (q y ≡ true)

  shared_later :
      (x y : A) (b : Bool) (xs ys : List A) (forkers : List Bool)
      → Meet xs ys forkers
      → Meet (x ∷ xs) (y ∷ ys) (b ∷ forkers)
  shared_later x y b xs ys forkers (i, u, v, a, b', c, d, e) = (suc i, u, v, a, b', c, d, e)

  -- The first node is honest: both marks are there, or they fall together further on.
  shared_head :
      (x y : A) (xs ys : List A) (forkers : List Bool)
      → (length forkers + count is_set forkers < count p xs + count q ys → Meet xs ys forkers)
      → suc (length forkers) + count is_set forkers < count p (x ∷ xs) + count q (y ∷ ys)
      → Meet (x ∷ xs) (y ∷ ys) (false ∷ forkers)
  shared_head x y xs ys forkers rest h = elim (Bool-cases (p x)) [
    | inl px ↦ elim (Bool-cases (q y)) [
      | inl qy ↦ (zero, x, y, refl, refl, refl, px, qy)
      | inr qy ↦ shared_later x y false xs ys forkers (rest (ground arith))
    ]
    | inr px ↦ shared_later x y false xs ys forkers (rest (ground arith))
  ]

  -- Marks that outnumber the nodes and the forkers fall together on an honest node.
  pub meet :
      (xs ys : List A) (forkers : List Bool)
      → length xs ≡ length forkers
      → length ys ≡ length forkers
      → length forkers + count is_set forkers < count p xs + count q ys
      → Meet xs ys forkers
  meet [] [] forkers hx hy h = absurd (omega arith)
  meet [] (y ∷ ys) forkers hx hy h = absurd (omega arith)
  meet (x ∷ xs) [] forkers hx hy h = absurd (omega arith)
  meet (x ∷ xs) (y ∷ ys) [] hx hy h = absurd (omega arith)
  meet (x ∷ xs) (y ∷ ys) (true ∷ forkers) hx hy h =
      shared_later x y true xs ys forkers
        (meet xs ys forkers (omega arith) (omega arith) (ground arith))
  meet (x ∷ xs) (y ∷ ys) (false ∷ forkers) hx hy h =
      shared_head x y xs ys forkers (λ h'. meet xs ys forkers (omega arith) (omega arith) h') h

pub quorums_exceed : (n k a b : ℕ) → 3 * k < n → quorum n ≤ a → quorum n ≤ b → n + k < a + b
quorums_exceed n k a b few ha hb = omega arith
