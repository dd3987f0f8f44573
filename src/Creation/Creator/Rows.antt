-- ===== src/Creation/Creator/Rows.antt =====
-- src/creation/creator.rs: the rows of candidates and their counts.
use aleph_bft.Prelude.{
  ℕ, zero, suc, ◌+◌, ◌-◌, ◌^◌, ◌≤◌, ◌<◌, ◌≡◌, refl, sym, ap, ◌∙◌, Option, none, some, List, [], ◌∷◌,
  arith, ◌⊎◌, inl, inr, ltb, length, resize, get_elem?, set, count, some_injective, replicate,
  ℕ_discrete, Bool-cases, ◌%◌, length-set, length-resize, length-replicate, get_elem?-set_self,
  get_elem?-set_ne, get_elem?-lt,
}
use aleph_bft.Nodes.{NodeIndex, NodeCount}
use aleph_bft.Nodes.NodeMap
use aleph_bft.Nodes.NodeMap.{NodeMap, is_some, count-empty, count-set_vacant}
use aleph_bft.Units.{Round}
use aleph_bft.Creation.Creator.{Creator, new, init_round}

module _ {H : Type 0} where
  -- A slot for each node in each row, and for each row the number of its candidates.
  pub record IsValid (c : Creator H) : Type 0 where
    pub same_length : length c.candidates_by_round ≡ length c.n_candidates_by_round
    pub started : 0 < length c.n_candidates_by_round
    pub bounded : length c.n_candidates_by_round < 2 ^ 16
    pub width :
        (r : ℕ) (row : NodeMap H)
        → get_elem? c.candidates_by_round r ≡ some row
        → length row ≡ c.n_members
    pub counted :
        (r : ℕ) (row : NodeMap H)
        → get_elem? c.candidates_by_round r ≡ some row
        → get_elem? c.n_candidates_by_round r ≡ some (count is_some row)

  -- A creator starts with the empty row of round 0.
  pub new-IsValid : (node_id : NodeIndex) (n_members : NodeCount) → IsValid (new node_id n_members)
  unfolding new NodeMap.with_size
  new-IsValid node_id n_members = record {
    same_length = refl;
    started = omega arith;
    bounded = omega arith;
    width = widths;
    counted = counts;
  }
    where
      widths :
          (r : ℕ) (row : NodeMap H)
          → get_elem? (replicate {A = Option H} n_members none ∷ []) r ≡ some row
          → length row ≡ n_members
      widths zero row h = ground (arith, length-replicate {A = Option H} n_members none)
      widths (suc r) row h = cc

      counts :
          (r : ℕ) (row : NodeMap H)
          → get_elem? (replicate {A = Option H} n_members none ∷ []) r ≡ some row
          → get_elem? {A = ℕ} (0 ∷ []) r ≡ some (count is_some row)
      counts zero row h = ground (arith, count-empty H n_members)
      counts (suc r) row h = cc

-- A row of a resized list is an old one or a new, empty one.
pub get_elem?-resize {ℓ} :
    {A : Type ℓ} (n : ℕ) (a : A) (xs : List A) (i : ℕ) (x : A)
    → get_elem? (resize n a xs) i ≡ some x
    → ((get_elem? xs i ≡ some x) ⊎ (length xs ≤ i) × (x ≡ a))
get_elem?-resize zero a xs i x h = cc
get_elem?-resize (suc n) a [] zero x h = inr (omega arith, ground arith)
get_elem?-resize (suc n) a [] (suc i) x h = elim (get_elem?-resize n a [] i x h) [
  | inl old ↦ inl old
  | inr (_, new) ↦ inr (omega arith, new)
]
get_elem?-resize (suc n) a (y ∷ xs) zero x h = inl h
get_elem?-resize (suc n) a (y ∷ xs) (suc i) x h = elim (get_elem?-resize n a xs i x h) [
  | inl old ↦ inl old
  | inr (past, new) ↦ inr (omega arith, new)
]

pub get_elem?-resize_old {ℓ} :
    {A : Type ℓ} (n : ℕ) (a : A) (xs : List A) (i : ℕ) (x : A)
    → length xs ≤ n
    → get_elem? xs i ≡ some x
    → get_elem? (resize n a xs) i ≡ some x
get_elem?-resize_old n a [] i x h e = cc
get_elem?-resize_old zero a (y ∷ xs) i x h e = absurd (omega arith)
get_elem?-resize_old (suc n) a (y ∷ xs) zero x h e = e
get_elem?-resize_old (suc n) a (y ∷ xs) (suc i) x h e =
    get_elem?-resize_old n a xs i x (omega arith) e

pub get_elem?-resize_new {ℓ} :
    {A : Type ℓ} (n : ℕ) (a : A) (xs : List A) (i : ℕ)
    → length xs ≤ i
    → i < n
    → get_elem? (resize n a xs) i ≡ some a
get_elem?-resize_new zero a xs i h lt = absurd (omega arith)
get_elem?-resize_new (suc n) a [] zero h lt = refl
get_elem?-resize_new (suc n) a [] (suc i) h lt =
    get_elem?-resize_new n a [] i (omega arith) (omega arith)
get_elem?-resize_new (suc n) a (y ∷ xs) zero h lt = absurd (omega arith)
get_elem?-resize_new (suc n) a (y ∷ xs) (suc i) h lt =
    get_elem?-resize_new n a xs i (omega arith) (omega arith)

module _ {H : Type 0} (c : Creator H) (v : IsValid c) (round : Round)
    (fits : round + 1 < 2 ^ 16) where
  -- What `init_round` leaves: the old rows, and empty ones up to the round.
  pub init_round-cases :
      (init_round c round ≡ c) × (round < length c.n_candidates_by_round)
      ⊎ (length c.n_candidates_by_round ≤ round)
        × (init_round c round ≡ record c {
          candidates_by_round =
              resize (round + 1) (NodeMap.with_size c.n_members) c.candidates_by_round;
          n_candidates_by_round = resize (round + 1) 0 c.n_candidates_by_round;
        })
  unfolding init_round
  init_round-cases =
      let n = length c.n_candidates_by_round in
      let cur : (n - 1) % 2 ^ 16 ≡ n - 1 = omega (arith, v.bounded, v.started) in
      let size : (round + 1) % 2 ^ 16 ≡ round + 1 = omega arith in
      rw (cur, init_round, size)
        (elim (Bool-cases (ltb (n - 1) round)) [
          | inl later ↦ inr (ground arith, rw later refl)
          | inr known ↦ inl (rw known refl, ground (arith, v.started))
        ])

  grown : Creator H
  grown = record c {
    candidates_by_round = resize (round + 1) (NodeMap.with_size c.n_members) c.candidates_by_round;
    n_candidates_by_round = resize (round + 1) 0 c.n_candidates_by_round;
  }

  grown-IsValid : length c.n_candidates_by_round ≤ round → IsValid grown
  unfolding grown NodeMap.with_size
  grown-IsValid later = record {
    same_length =
        length-resize (round + 1) (replicate c.n_members none) c.candidates_by_round
        ∙ sym (length-resize (round + 1) 0 c.n_candidates_by_round);
    started = omega (arith, length-resize {0} (round + 1) 0 c.n_candidates_by_round);
    bounded = omega (arith, length-resize {0} (round + 1) 0 c.n_candidates_by_round);
    width = λ r row at_r.
        elim (get_elem?-resize (round + 1) (replicate c.n_members none) c.candidates_by_round r row
          at_r) [
            | inl old ↦ v.width r row old
            | inr (_, new) ↦ rw new (length-replicate {A = Option H} c.n_members none)
          ];
    counted = λ r row at_r.
        elim (get_elem?-resize (round + 1) (replicate c.n_members none) c.candidates_by_round r row
          at_r) [
            | inl old ↦
                get_elem?-resize_old (round + 1) 0 c.n_candidates_by_round r _ (omega arith)
                  (v.counted r row old)
            | inr (past, new) ↦
                rw (new, count-empty H c.n_members)
                  (get_elem?-resize_new (round + 1) 0 c.n_candidates_by_round r
                    (omega (arith, v.same_length))
                    (omega (
                      arith,
                      get_elem?-lt {0} _ r row at_r,
                      length-resize {0} (round + 1) (replicate {A = Option H} c.n_members none)
                          c.candidates_by_round,
                    )))
          ];
  }

  -- `init_round` keeps the rows in order and makes the round's row.
  pub init_round-IsValid :
      IsValid (init_round c round) × (round < length (init_round c round).n_candidates_by_round)
  unfolding grown
  init_round-IsValid = elim init_round-cases [
    | inl (same, known) ↦ rw same (v, known)
    | inr (later, new) ↦ rw new (
      grown-IsValid later,
      omega (arith, length-resize {0} (round + 1) 0 c.n_candidates_by_round),
    )
  ]

-- Replacing a row and its count together.
unfoldable pub replaced : {H : Type 0} → Creator H → Round → NodeMap H → Creator H
replaced c round row' = record c {
  candidates_by_round = set c.candidates_by_round round row';
  n_candidates_by_round = set c.n_candidates_by_round round (count is_some row');
}

module _ {H : Type 0} (c : Creator H) (v : IsValid c) (round : Round) (row row' : NodeMap H)
    (at_round : get_elem? c.candidates_by_round round ≡ some row)
    (same_width : length row' ≡ length row) where
  row_is :
      (r : ℕ) (x : NodeMap H)
      → round ≡ r
      → get_elem? (set c.candidates_by_round round row') r ≡ some x
      → row' ≡ x
  row_is r x here at_r = some_injective (
      sym (
        get_elem?-set_self c.candidates_by_round round row'
          (get_elem?-lt c.candidates_by_round round row at_round))
      ∙ ap (get_elem? (set c.candidates_by_round round row')) here
      ∙ at_r)

  pub replaced-IsValid : IsValid (replaced c round row')
  unfolding replaced
  replaced-IsValid = record {
    same_length = omega (
      arith,
      v.same_length,
      length-set {0} c.candidates_by_round round row',
      length-set {0} c.n_candidates_by_round round (count is_some row'),
    );
    started =
        omega (arith, v.started, length-set {0} c.n_candidates_by_round round (count is_some row'));
    bounded =
        omega (arith, v.bounded, length-set {0} c.n_candidates_by_round round (count is_some row'));
    width = λ r x at_r. elim (ℕ_discrete round r) [
      | yes here ↦ ap length (sym (row_is r x here at_r)) ∙ same_width ∙ v.width round row at_round
      | no other ↦
          v.width r x (sym (get_elem?-set_ne c.candidates_by_round round r row' other) ∙ at_r)
    ];
    counted = λ r x at_r. elim (ℕ_discrete round r) [
      | yes here ↦
          ap (get_elem? (set c.n_candidates_by_round round (count is_some row'))) (sym here)
          ∙ get_elem?-set_self c.n_candidates_by_round round _
              (omega (arith, v.same_length, get_elem?-lt {0} _ round row at_round))
          ∙ ap (λ y. some (count is_some y)) (row_is r x here at_r)
      | no other ↦
          get_elem?-set_ne c.n_candidates_by_round round r _ other
          ∙ v.counted r x (sym (get_elem?-set_ne c.candidates_by_round round r row' other) ∙ at_r)
    ];
  }
