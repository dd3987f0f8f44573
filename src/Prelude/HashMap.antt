-- ===== src/Prelude/HashMap.antt =====
-- `std::collections::HashMap` as an association list, newest entry first.
use Prim.Native.Nat.{◌≤◌, ◌<◌}
use mathlib.Core.Path.{◌≡◌, sym, ◌∙◌}
use mathlib.Core.Logic.{◌≢◌, ◌⊎◌, inl, inr, ite}
use mathlib.Core.Bool.{Bool, true, false}
use mathlib.Core.Option.{Option, none, some}
use mathlib.Core.List.{List, [], ◌∷◌}
use native.Mathlib.Omega.{arith}
use aleph_bft.Prelude.Tests.{Eq, Option-cases}
use aleph_bft.Prelude.Lists.{length}

abbrev pub HashMap {ℓ} : Type ℓ → Type ℓ → Type ℓ
HashMap K V = List (K × V)

module _ {ℓ} {K V : Type ℓ} ⦃e : Eq K⦄ where
  unfoldable pub get : K → HashMap K V → Option V
  get k [] = none
  get k ((j, v) ∷ m) = ite (e.eq? j k) (some v) (get k m)

  unfoldable pub contains_key : K → HashMap K V → Bool
  unfolding get
  contains_key k m = elim (get k m) [ none ↦ false | some _ ↦ true ]

  unfoldable pub remove : K → HashMap K V → HashMap K V
  remove k [] = []
  remove k ((j, v) ∷ m) = ite (e.eq? j k) (remove k m) ((j, v) ∷ remove k m)

  unfoldable pub insert : K → V → HashMap K V → HashMap K V
  unfolding remove
  insert k v m = (k, v) ∷ remove k m

  pub get-remove : (k j : K) (m : HashMap K V) → get j (remove k m) ≡ ite (e.eq? k j) none (get j m)
  unfolding get remove
  get-remove k j [] = ground arith
  get-remove k j ((i, v) ∷ m) = ground (arith, get-remove k j m)

  pub get-insert :
      (k j : K) (v : V) (m : HashMap K V)
      → get j (insert k v m) ≡ ite (e.eq? k j) (some v) (get j m)
  unfolding get insert
  get-insert k j v m = ground (arith, get-remove k j m)

  pub get-remove_self : (k : K) (m : HashMap K V) → get k (remove k m) ≡ none
  get-remove_self k m = ground (arith, get-remove k k m)

  pub get-remove_ne : (k j : K) (m : HashMap K V) → k ≢ j → get j (remove k m) ≡ get j m
  get-remove_ne k j m h = ground (arith, get-remove k j m)

  pub get-insert_self : (k : K) (v : V) (m : HashMap K V) → get k (insert k v m) ≡ some v
  get-insert_self k v m = ground (arith, get-insert k k v m)

  pub get-insert_ne : (k j : K) (v : V) (m : HashMap K V) → k ≢ j → get j (insert k v m) ≡ get j m
  get-insert_ne k j v m h = ground (arith, get-insert k j v m)

  pub length-remove_le : (k : K) (m : HashMap K V) → length (remove k m) ≤ length m
  unfolding remove
  length-remove_le k [] = omega arith
  length-remove_le k ((i, v) ∷ m) = ground (arith, length-remove_le k m)

  pub length-remove_lt :
      (k : K) (v : V) (m : HashMap K V) → get k m ≡ some v → length (remove k m) < length m
  unfolding get remove
  length-remove_lt k v [] h = cc
  length-remove_lt k v ((i, w) ∷ m) h = ground (arith, length-remove_lt k v m, length-remove_le k m)

  -- What is found after an insertion is the new value or an old one under another key.
  pub get-insert_cases :
      (k j : K) (v w : V) (m : HashMap K V)
      → get j (insert k v m) ≡ some w
      → (k ≡ j) × (v ≡ w) ⊎ (k ≢ j) × (get j m ≡ some w)
  get-insert_cases k j v w m h = elim (e.eq? k j) [
    | yes same ↦ inl (same, ground (arith, get-insert k j v m))
    | no other ↦ inr (other, sym (get-insert_ne k j v m other) ∙ h)
  ]

  -- No key is lost.
  pub get-insert_known :
      (k j : K) (v w : V) (m : HashMap K V)
      → get j m ≡ some w
      → (x : V) × (get j (insert k v m) ≡ some x)
  get-insert_known k j v w m h = elim (e.eq? k j) [
    | yes same ↦ (v, ground (arith, get-insert k j v m))
    | no other ↦ (w, get-insert_ne k j v m other ∙ h)
  ]

  pub contains_key-false : (k : K) (m : HashMap K V) → contains_key k m ≡ false → get k m ≡ none
  unfolding contains_key
  contains_key-false k m h = ground arith

  pub contains_key-true :
      (k : K) (m : HashMap K V) → contains_key k m ≡ true → (v : V) × (get k m ≡ some v)
  unfolding contains_key
  contains_key-true k m h = elim (Option-cases (get k m)) [
    | inl missing ↦ ground arith
    | inr (v, found) ↦ (v, found)
  ]

  pub contains_key-some :
      (k : K) (v : V) (m : HashMap K V) → get k m ≡ some v → contains_key k m ≡ true
  unfolding contains_key
  contains_key-some k v m h = ground arith
