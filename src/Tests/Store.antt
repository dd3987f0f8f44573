-- ===== src/Tests/Store.antt =====
-- Node 1 sends two units of round 5.
use aleph_bft.Prelude.{
  ℕ, ◌≡◌, ◌≢◌, refl, ◌↔◌, ◌⊎◌, get_elem?, true, false, none, some, [], ◌∷◌, ◌++◌, nat_eq, ◌+◌, ◌*◌,
  ok, panic, ℕ_discrete,
}
use aleph_bft.Prelude.HashMap
use aleph_bft.Units.{FullUnit, UnitHasher, hash_of}
use aleph_bft.Units.Store.{
  SignedUnit, UnitStore, UnitCoord-discrete, coord_eq, full, coord_of, contains_hash, is_new_fork,
  add_unit, mark_forker,
}
use aleph_bft.Units.Store.Valid.{IsValid, add_unit-IsValid, add_unit_keeps}
use aleph_bft.Units.Store.Forks.{is_new_fork_sound, is_new_fork_iff}

instance abbrev toy_hasher : UnitHasher ℕ ℕ
toy_hasher = record { hash_unit = λ p d session. p.coord.round * 100 + p.coord.creator * 10 + d }

-- The unit of a round and a node with some data, unsigned.
abbrev unit_of : ℕ → ℕ → ℕ → FullUnit ℕ ℕ
unit_of round creator d = record {
  pre_unit = record {
    coord = record { round = round; creator = creator };
    control_hash = record { parents_mask = []; combined_hash = 0 };
  };
  unit_data = d;
  session_id = 0;
  hash = none;
}

abbrev signed : FullUnit ℕ ℕ → SignedUnit ℕ ℕ ℕ
signed u = record { unchecked = record { signable = u; signature = 0 } }

abbrev empty : UnitStore ℕ ℕ ℕ
empty = record {
  by_coord = [];
  by_hash = [];
  parents = [];
  forkers = false ∷ false ∷ [];
  legit_buffer = [];
  max_round = 7;
}

abbrev one : UnitStore ℕ ℕ ℕ
one = record empty {
  by_coord = ((record { round = 5; creator = 1 }), signed (unit_of 5 1 7)) ∷ [];
  by_hash = (517, signed (unit_of 5 1 7)) ∷ [];
  legit_buffer = signed (unit_of 5 1 7) ∷ [];
}

adds :
    (add_unit empty (signed (unit_of 5 1 7)) false ≡ ok one)
    × (add_unit one (signed (unit_of 5 1 7)) false ≡ ok one)
    × (add_unit empty (signed (unit_of 5 1 7)) true ≡ panic)
unfolding add_unit HashMap.remove UnitCoord-discrete ℕ_discrete
adds = (refl, refl, refl)

marks :
    mark_forker one 1 ≡ ok (signed (unit_of 5 1 7) ∷ [], record one { forkers = false ∷ true ∷ [] })
unfolding mark_forker UnitCoord-discrete ℕ_discrete
marks = refl

forks : is_new_fork one (unit_of 5 1 8) ≡ some (signed (unit_of 5 1 7))
unfolding is_new_fork UnitCoord-discrete ℕ_discrete
forks = refl

empty-IsValid : IsValid empty
unfolding HashMap.get
empty-IsValid = record {
  keyed = λ q su found. cc;
  placed = λ c su found. cc;
  covered = λ q su found. cc;
}

add_unit-IsValid_example : IsValid one
add_unit-IsValid_example =
    add_unit-IsValid empty one (signed (unit_of 5 1 7)) false empty-IsValid adds.0

one-IsValid : IsValid one
one-IsValid = add_unit-IsValid empty one (signed (unit_of 5 1 7)) false empty-IsValid adds.0

add_unit_keeps_example :
    (contains_hash one (hash_of (unit_of 5 1 7)) ≡ true)
    × ((q : ℕ) (sw : SignedUnit ℕ ℕ ℕ)
        → (HashMap.get q one.by_hash ≡ some sw)
          ↔ (HashMap.get q empty.by_hash ≡ some sw)
            ⊎ ((HashMap.get (hash_of (unit_of 5 1 7)) empty.by_hash ≡ none)
                × (hash_of (unit_of 5 1 7) ≡ q)
                × (signed (unit_of 5 1 7) ≡ sw)))
    × ((one.legit_buffer ≡ empty.legit_buffer)
        ⊎ (one.legit_buffer ≡ empty.legit_buffer ++ signed (unit_of 5 1 7) ∷ []))
    × ((one.legit_buffer ≡ empty.legit_buffer ++ signed (unit_of 5 1 7) ∷ [])
        ↔ (HashMap.get (hash_of (unit_of 5 1 7)) empty.by_hash ≡ none)
          × ((false ≡ true) ⊎ (get_elem? empty.forkers 1 ≡ some false)))
add_unit_keeps_example = add_unit_keeps empty one (signed (unit_of 5 1 7)) false adds.0

is_new_fork_sound_example :
    (coord_of (unit_of 5 1 7) ≡ coord_of (unit_of 5 1 8))
    × (hash_of (unit_of 5 1 7) ≢ hash_of (unit_of 5 1 8))
    × (HashMap.get (hash_of (unit_of 5 1 7)) one.by_hash ≡ some (signed (unit_of 5 1 7)))
is_new_fork_sound_example =
    is_new_fork_sound one one-IsValid (unit_of 5 1 8) (signed (unit_of 5 1 7)) forks

is_new_fork_iff_example :
    ((sv : SignedUnit ℕ ℕ ℕ) × (is_new_fork one (unit_of 5 1 8) ≡ some sv))
    ↔ (HashMap.get (hash_of (unit_of 5 1 8)) one.by_hash ≡ none)
      × (q : ℕ) × (sw : SignedUnit ℕ ℕ ℕ) × (HashMap.get q one.by_hash ≡ some sw)
      × (coord_of (full sw) ≡ coord_of (unit_of 5 1 8))
is_new_fork_iff_example = is_new_fork_iff one one-IsValid (unit_of 5 1 8)
