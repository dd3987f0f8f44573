-- ===== src/Units/Store/Valid.antt =====
-- src/units/store.rs: the two indices of the store, and what `add_unit` does to them.
use aleph_bft.Prelude.{
  ◌≡◌, ◌≢◌, refl, sym, ap, ◌∙◌, Bool, true, false, none, some, List, [], ◌∷◌, ◌++◌, ◌⊎◌, ◌↔◌, inl,
  inr, Eq, if◌then◌else◌, arith, Bool-cases, Exec, ok, ◌>>=◌, ok_injective, bind_returns, subst,
  length, length-append, get_elem?, Option-cases,
}
use aleph_bft.Prelude.HashMap
use aleph_bft.Prelude.HashMap.{HashMap}
use aleph_bft.Nodes.{NodeCount}
use aleph_bft.Nodes.NodeSubset
use aleph_bft.Units.{Round, UnitCoord, UnitHasher, hash_of}
use aleph_bft.Units.Store.{
  SignedUnit, UnitStore, coord_eq, new, full, coord_of, contains_hash, is_forker, is_legit,
  alert_allowed, add_unit,
}

not_longer : {A : Type 0} (xs : List A) (x : A) → xs ≢ xs ++ x ∷ []
not_longer xs x h = absurd (omega (arith, ap length h, length-append {0} xs (x ∷ [])))

grows_iff :
    {A : Type 0} {b : Bool} {r : Exec Bool} (xs : List A) (x : A)
    → b ≡ false
    → (legit : Bool) → r ≡ ok legit
    → ((if legit then xs ++ x ∷ [] else xs) ≡ xs ++ x ∷ []) ↔ (b ≡ false) × (r ≡ ok true)
grows_iff xs x fresh true judged = (λ _. (fresh, judged), λ _. refl)
grows_iff xs x fresh false judged = (λ grown. absurd (not_longer xs x grown), λ (_, yes_legit). cc)

none≢some : {A : Type 0} {a : A} → none ≡ some a → ⊥
none≢some h = cc

module _ {H D S : Type 0} ⦃e : Eq H⦄ ⦃h : UnitHasher H D⦄ where
  -- What `add_unit` makes of a store that does not know the unit.
  abbrev pub stored_with : UnitStore H D S → SignedUnit H D S → Bool → UnitStore H D S
  stored_with s su legit = record s {
    by_hash = HashMap.insert (hash_of (full su)) su s.by_hash;
    by_coord = HashMap.insert (coord_of (full su)) su s.by_coord;
    legit_buffer = if legit then s.legit_buffer ++ su ∷ [] else s.legit_buffer;
  }

  pub add_unit-cases :
      (s s' : UnitStore H D S) (su : SignedUnit H D S) (alert : Bool)
      → add_unit s su alert ≡ ok s'
      → (contains_hash s (hash_of (full su)) ≡ true) × (s' ≡ s)
        ⊎ (contains_hash s (hash_of (full su)) ≡ false)
          × (legit : Bool) × (is_legit s (coord_of (full su)).creator alert ≡ ok legit)
          × (s' ≡ stored_with s su legit)
  unfolding add_unit
  add_unit-cases s s' su alert done =
      let (t, allowed, rest) =
        bind_returns (alert_allowed s (coord_of (full su)).creator alert) _ done in
      elim (Bool-cases (contains_hash s (hash_of (full su)))) [
        | inl known ↦ inl (known, ground arith)
        | inr fresh ↦
            let rest' : (do
              legit ← is_legit s (coord_of (full su)).creator alert
              ok (stored_with s su legit))
                ≡ ok s' =
              ground arith in
            let (legit, judged, made) =
              bind_returns (is_legit s (coord_of (full su)).creator alert) _ rest' in
            inr (fresh, legit, judged, sym (ok_injective made))
      ]

  -- Each unit is found under its hash and its coordinate; what a coordinate names is stored under
  -- its hash too, and each coordinate of a stored unit names one.
  pub record IsValid (s : UnitStore H D S) : Type 0 where
    pub keyed :
        (q : H) (su : SignedUnit H D S) → HashMap.get q s.by_hash ≡ some su → hash_of (full su) ≡ q
    pub placed :
        (c : UnitCoord) (su : SignedUnit H D S)
        → HashMap.get c s.by_coord ≡ some su
        → (coord_of (full su) ≡ c) × (HashMap.get (hash_of (full su)) s.by_hash ≡ some su)
    pub covered :
        (q : H) (su : SignedUnit H D S)
        → HashMap.get q s.by_hash ≡ some su
        → (sv : SignedUnit H D S) × (HashMap.get (coord_of (full su)) s.by_coord ≡ some sv)

  pub new-IsValid : (n : NodeCount) (max_round : Round) → IsValid (new n max_round)
  unfolding new HashMap.get
  new-IsValid n max_round = record {
    keyed = λ q su found. cc;
    placed = λ c su found. cc;
    covered = λ q su found. cc;
  }

  stored_with-IsValid :
      (s : UnitStore H D S) (su : SignedUnit H D S) (legit : Bool)
      → IsValid s
      → HashMap.get (hash_of (full su)) s.by_hash ≡ none
      → IsValid (stored_with s su legit)
  stored_with-IsValid s su legit v fresh = record {
    keyed = λ q sw found.
        elim (HashMap.get-insert_cases (hash_of (full su)) q su sw s.by_hash found) [
          | inl (here, same) ↦ ap (λ x. hash_of (full x)) (sym same) ∙ here
          | inr (other, old) ↦ v.keyed q sw old
        ];
    placed = λ c sw found.
        elim (HashMap.get-insert_cases (coord_of (full su)) c su sw s.by_coord found) [
          | inl (here, same) ↦ (
            ap (λ x. coord_of (full x)) (sym same) ∙ here,
            subst
                (λ x.
                  HashMap.get (hash_of (full x)) (HashMap.insert (hash_of (full su)) su s.by_hash)
                  ≡ some x)
                same (HashMap.get-insert_self (hash_of (full su)) su s.by_hash),
          )
          | inr (other, old) ↦
              let (at_c, known) = v.placed c sw old in
              (
                at_c,
                HashMap.get-insert_ne (hash_of (full su)) (hash_of (full sw)) su s.by_hash (λ clash.
                      none≢some (sym fresh ∙ ap (λ q. HashMap.get q s.by_hash) clash ∙ known))
                    ∙ known,
              )
        ];
    covered = λ q sw found.
        elim (HashMap.get-insert_cases (hash_of (full su)) q su sw s.by_hash found) [
          | inl (here, same) ↦ (
            su,
            ap
                  (λ x.
                    HashMap.get (coord_of (full x))
                      (HashMap.insert (coord_of (full su)) su s.by_coord))
                  (sym same)
                ∙ HashMap.get-insert_self (coord_of (full su)) su s.by_coord,
          )
          | inr (other, old) ↦
              let (sv, at_c) = v.covered q sw old in
              HashMap.get-insert_known (coord_of (full su)) (coord_of (full sw)) su sv s.by_coord
                at_c
        ];
  }

  -- If `add_unit` returns on a valid store, the two indices still agree.
  pub add_unit-IsValid :
      (s s' : UnitStore H D S) (su : SignedUnit H D S) (alert : Bool)
      → IsValid s
      → add_unit s su alert ≡ ok s'
      → IsValid s'
  unfolding contains_hash
  add_unit-IsValid s s' su alert v done = elim (add_unit-cases s s' su alert done) [
    | inl (known, same) ↦ rw same v
    | inr (fresh, legit, judged, made) ↦
        rw made (stored_with-IsValid s su legit v (HashMap.contains_key-false _ s.by_hash fresh))
  ]

  is_legit_iff :
      (s : UnitStore H D S) (su : SignedUnit H D S) (alert : Bool)
      → (is_legit s (coord_of (full su)).creator alert ≡ ok true)
        ↔ (alert ≡ true) ⊎ (get_elem? s.forkers (coord_of (full su)).creator ≡ some false)
  unfolding is_legit is_forker NodeSubset.contains
  is_legit_iff s su true = (λ _. inl refl, λ _. refl)
  is_legit_iff s su false = elim (Option-cases (get_elem? s.forkers (coord_of (full su)).creator)) [
    | inl alien ↦ (λ h. absurd (ground arith), λ h. absurd (ground arith))
    | inr (b, at_b) ↦ elim (Bool-cases b) [
      | inl marked ↦ (λ h. absurd (ground arith), λ h. absurd (ground arith))
      | inr unmarked ↦ (λ h. inr (at_b ∙ ap some unmarked), λ h. ground arith)
    ]
  ]

  -- What the index by hashes has after the unit was inserted under a new hash.
  insert_iff :
      (m : HashMap H (SignedUnit H D S)) (q r : H) (su sw : SignedUnit H D S)
      → HashMap.get q m ≡ none
      → (HashMap.get r (HashMap.insert q su m) ≡ some sw)
        ↔ (HashMap.get r m ≡ some sw) ⊎ ((HashMap.get q m ≡ none) × (q ≡ r) × (su ≡ sw))
  insert_iff m q r su sw missing = (
    λ found. elim (HashMap.get-insert_cases q r su sw m found) [
      | inl (here, same) ↦ inr (missing, here, same)
      | inr (other, old) ↦ inl old
    ],
    λ known. elim known [
      | inl old ↦
          HashMap.get-insert_ne q r su m
            (λ clash. none≢some (sym missing ∙ ap (λ k. HashMap.get k m) clash ∙ old))
          ∙ old
      | inr (_, here, same) ↦
          ap (λ k. HashMap.get k (HashMap.insert q su m)) (sym here)
          ∙ HashMap.get-insert_self q su m
          ∙ ap some same
    ],
  )

  -- After an `add_unit` that returns: the unit's hash is known; under each hash the store has what
  -- it had, and the unit under its own, if that was new, and nothing else; the buffer is as it was,
  -- or has the unit at its end, and this exactly if the hash was new and the unit comes by an alert
  -- or is of a node that is not marked as a forker.
  pub add_unit_keeps :
      (s s' : UnitStore H D S) (su : SignedUnit H D S) (alert : Bool)
      → add_unit s su alert ≡ ok s'
      → (contains_hash s' (hash_of (full su)) ≡ true)
        × ((q : H) (sw : SignedUnit H D S)
            → (HashMap.get q s'.by_hash ≡ some sw)
              ↔ (HashMap.get q s.by_hash ≡ some sw)
                ⊎ ((HashMap.get (hash_of (full su)) s.by_hash ≡ none)
                    × (hash_of (full su) ≡ q)
                    × (su ≡ sw)))
        × ((s'.legit_buffer ≡ s.legit_buffer) ⊎ (s'.legit_buffer ≡ s.legit_buffer ++ su ∷ []))
        × ((s'.legit_buffer ≡ s.legit_buffer ++ su ∷ [])
            ↔ (HashMap.get (hash_of (full su)) s.by_hash ≡ none)
              × ((alert ≡ true) ⊎ (get_elem? s.forkers (coord_of (full su)).creator ≡ some false)))
  unfolding contains_hash
  add_unit_keeps s s' su alert done = elim (add_unit-cases s s' su alert done) [
    | inl (known, same) ↦
        let (sv, there) = HashMap.contains_key-true (hash_of (full su)) s.by_hash known in
        rw same (
          known,
          λ q sw. (
            λ found. inl found,
            λ found. elim found [
              | inl old ↦ old
              | inr (missing, _, _) ↦ absurd (none≢some (sym missing ∙ there))
            ],
          ),
          inl refl,
          (
            λ grown. absurd (not_longer s.legit_buffer su grown),
            λ (missing, _). absurd (none≢some (sym missing ∙ there)),
          ),
        )
    | inr (fresh, legit, judged, made) ↦
        let missing = HashMap.contains_key-false (hash_of (full su)) s.by_hash fresh in
        let (to, from) = grows_iff s.legit_buffer su fresh legit judged in
        let (means, meant) = is_legit_iff s su alert in
        rw made (
          HashMap.contains_key-some _ su (HashMap.insert (hash_of (full su)) su s.by_hash)
              (HashMap.get-insert_self (hash_of (full su)) su s.by_hash),
          λ q sw. insert_iff s.by_hash (hash_of (full su)) q su sw missing,
          elim (Bool-cases legit) [ inl good ↦ rw good (inr refl) | inr bad ↦ rw bad (inl refl) ],
          (λ grown. (missing, means (to grown).1), λ (_, why). from (fresh, meant why)),
        )
  ]
