-- ===== src/Prelude/HashSet.antt =====
-- `std::collections::HashSet` as a list without repetitions.
use mathlib.Core.Path.{◌≡◌}
use mathlib.Core.Logic.{ite}
use mathlib.Core.Bool.{Bool, true, false}
use mathlib.Core.List.{List, [], ◌∷◌}
use native.Mathlib.Omega.{arith}
use aleph_bft.Prelude.Tests.{Eq, if◌then◌else◌}

abbrev pub HashSet : Type 0 → Type 0
HashSet A = List A

module _ {A : Type 0} ⦃e : Eq A⦄ where
  unfoldable pub contains : A → HashSet A → Bool
  contains a [] = false
  contains a (x ∷ xs) = ite (e.eq? x a) true (contains a xs)

  unfoldable pub remove : A → HashSet A → HashSet A
  remove a [] = []
  remove a (x ∷ xs) = ite (e.eq? x a) (remove a xs) (x ∷ remove a xs)

  unfoldable pub insert : A → HashSet A → HashSet A
  unfolding contains
  insert a xs = if contains a xs then xs else a ∷ xs

  pub contains-insert :
      (a b : A) (xs : HashSet A) → contains b (insert a xs) ≡ ite (e.eq? a b) true (contains b xs)
  unfolding contains insert
  contains-insert a b xs = ground arith

  pub contains-remove :
      (a b : A) (xs : HashSet A) → contains b (remove a xs) ≡ ite (e.eq? a b) false (contains b xs)
  unfolding contains remove
  contains-remove a b [] = ground arith
  contains-remove a b (x ∷ xs) = ground (arith, contains-remove a b xs)
