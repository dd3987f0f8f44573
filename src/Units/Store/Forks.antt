-- ===== src/Units/Store/Forks.antt =====
-- src/units/store.rs: about `is_new_fork`.
use aleph_bft.Prelude.{◌≡◌, ◌≢◌, sym, ap, ◌∙◌, none, some, ◌↔◌, inl, inr, Eq, arith, Bool-cases}
use aleph_bft.Prelude.HashMap
use aleph_bft.Units.{FullUnit, UnitHasher, hash_of}
use aleph_bft.Units.Store.{
  SignedUnit, UnitStore, coord_eq, full, coord_of, contains_hash, is_new_fork,
}
use aleph_bft.Units.Store.Valid.{IsValid}

module _ {H D S : Type 0} ⦃e : Eq H⦄ ⦃h : UnitHasher H D⦄ (s : UnitStore H D S) (v : IsValid s)
    (u : FullUnit H D) where
  -- In a valid store, what is returned forms a fork with the unit: it is stored, has the same
  -- coordinate and another hash.
  pub is_new_fork_sound :
      (sv : SignedUnit H D S)
      → is_new_fork s u ≡ some sv
      → (coord_of (full sv) ≡ coord_of u)
        × (hash_of (full sv) ≢ hash_of u)
        × (HashMap.get (hash_of (full sv)) s.by_hash ≡ some sv)
  unfolding is_new_fork
  is_new_fork_sound sv found = elim (Bool-cases (contains_hash s (hash_of u))) [
    | inl known ↦ ground arith
    | inr fresh ↦
        let placed = v.placed (coord_of u) sv (ground arith) in
        (
          placed.0,
          λ clash. differs (HashMap.contains_key-false (hash_of u) s.by_hash fresh) clash placed.1,
          placed.1,
        )
  ]
    where
      differs :
          HashMap.get (hash_of u) s.by_hash ≡ none
          → hash_of (full sv) ≡ hash_of u
          → HashMap.get (hash_of (full sv)) s.by_hash ≡ some sv
          → ⊥
      differs missing clash known =
          let bad = sym missing ∙ ap (λ q. HashMap.get q s.by_hash) (sym clash) ∙ known in cc

  fork_is_fresh :
      (sv : SignedUnit H D S) → is_new_fork s u ≡ some sv → HashMap.get (hash_of u) s.by_hash ≡ none
  unfolding is_new_fork
  fork_is_fresh sv found = ground arith

  -- In a valid store, a fork is reported exactly when the unit is not stored and another unit with
  -- its coordinate is.
  pub is_new_fork_iff :
      ((sv : SignedUnit H D S) × (is_new_fork s u ≡ some sv))
      ↔ (HashMap.get (hash_of u) s.by_hash ≡ none)
        × (q : H) × (sw : SignedUnit H D S) × (HashMap.get q s.by_hash ≡ some sw)
        × (coord_of (full sw) ≡ coord_of u)
  unfolding is_new_fork
  is_new_fork_iff = (
    λ (sv, found).
        let (at_c, differs, known) = is_new_fork_sound sv found in
        (fork_is_fresh sv found, hash_of (full sv), sv, known, at_c),
    λ (missing, q, sw, known, at_c).
        let (sv, placed) = v.covered q sw known in
        let there = ap (λ c. HashMap.get c s.by_coord) (sym at_c) ∙ placed in (sv, ground arith),
  )
