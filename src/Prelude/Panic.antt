-- ===== src/Prelude/Panic.antt =====
-- The outcome of code that may panic: `Option::unwrap`, an index out of bounds, `assert!`.
use Prim.Native.Nat.{ℕ}
use mathlib.Core.Path.{◌≡◌, refl}
use mathlib.Core.Bool.{Bool, true, false}
use mathlib.Core.Option.{Option, none, some}
use mathlib.Core.List.{List}
use aleph_bft.Prelude.Tests.{ltb, if◌then◌else◌}
use aleph_bft.Prelude.Lists.{get_elem?, set, length}

-- `out_of_fuel` is the outcome of a loop whose rounds were cut off; no call of a model ends so.
pub data Exec {ℓ} (A : Type ℓ) : Type ℓ where
  ok : A → Exec A
  panic : Exec A
  out_of_fuel : Exec A

-- The first part that does not return ends the whole.
module _ {κ ℓ} {A : Type κ} {B : Type ℓ} where
  infixl 5 ◌>>=◌
  abbrev pub ◌>>=◌ : Exec A → (A → Exec B) → Exec B
  panic >>= rest = panic
  out_of_fuel >>= rest = out_of_fuel
  ok x >>= rest = rest x

  -- What returns went through its first part.
  pub bind_returns :
      (first : Exec A) (rest : A → Exec B) {y : B}
      → (first >>= rest) ≡ ok y
      → (x : A) × (first ≡ ok x) × (rest x ≡ ok y)
  bind_returns panic rest done = cc
  bind_returns out_of_fuel rest done = cc
  bind_returns (ok x) rest done = (x, refl, done)

infixl 5 ◌>>◌
abbrev pub ◌>>◌ {ℓ} : {B : Type ℓ} → Exec (Unit {0}) → Exec B → Exec B
first >> rest = first >>= λ _. rest

-- The code returns, with a result of which `P` holds.
abbrev pub Returns : {A : Type 0} → (A → Type 0) → Exec A → Type 0
Returns P (ok a) = P a
Returns P panic = ⊥
Returns P out_of_fuel = ⊥

pub Returns-ok :
    {A : Type 0} (P : A → Type 0) (m : Exec A) → Returns P m → (a : A) × (m ≡ ok a) × P a
Returns-ok P (ok a) r = (a, refl, r)
Returns-ok P panic r = absurd r
Returns-ok P out_of_fuel r = absurd r

-- `unwrap` and `expect`.
abbrev pub unwrap {ℓ} : {A : Type ℓ} → Option A → Exec A
unwrap none = panic
unwrap (some a) = ok a

-- `assert!`.
abbrev pub assert : Bool → Exec (Unit {0})
assert true = ok tt
assert false = panic

-- `v[i]`.
abbrev pub index {ℓ} : {A : Type ℓ} → List A → ℕ → Exec A
index xs i = unwrap (get_elem? xs i)

-- `v[i] = a`.
abbrev pub store_at {ℓ} : {A : Type ℓ} → List A → ℕ → A → Exec (List A)
store_at xs i a = if ltb i (length xs) then ok (set xs i a) else panic

pub ok_injective {ℓ} : {A : Type ℓ} {a b : A} → ok a ≡ ok b → a ≡ b
ok_injective h = cc
