-- ===== src/Tests/Creation.antt =====
-- A committee of four; nodes 0, 1 and 2 have units of round 0, and node 0 creates one of round 1.
use aleph_bft.Prelude.{
  ℕ, zero, suc, ◌-◌, ◌≤◌, ◌≡◌, refl, ◌⊎◌, ◌↔◌, true, false, ◌&&◌, Option, none, some, List, [], ◌∷◌,
  arith, ◌==◌, if◌then◌else◌, length, get_elem?, count, ok,
}
use aleph_bft.Nodes.{quorum}
use aleph_bft.Nodes.NodeMap
use aleph_bft.Nodes.NodeMap.{NodeMap, is_some}
use aleph_bft.Units.{PreUnit, ConsensusUnit, ParentHasher}
use aleph_bft.Creation.Creator.{Creator, add_unit, can_create, create_unit}
use aleph_bft.Creation.Creator.Rows.{IsValid}
use aleph_bft.Creation.Creator.Candidates.{candidate, or_else, add_unit_first}
use aleph_bft.Creation.Creator.Created.{Created, candidates, create_unit-Created, create_unit_iff}

instance abbrev toy_hasher : ParentHasher ℕ
toy_hasher = record { hash_parents = λ m. length m }

abbrev unit_of : ℕ → ℕ → ℕ → ConsensusUnit ℕ
unit_of round creator hash = record {
  pre_unit = record {
    coord = record { round = round; creator = creator };
    control_hash = record { parents_mask = false ∷ false ∷ false ∷ false ∷ []; combined_hash = 0 };
  };
  hash = hash;
}

abbrev three : Creator ℕ
three = record {
  node_id = 0;
  n_members = 4;
  candidates_by_round = (some 10 ∷ some 11 ∷ some 12 ∷ none ∷ []) ∷ [];
  n_candidates_by_round = 3 ∷ [];
}

abbrev created : PreUnit ℕ
created = record {
  coord = record { round = 1; creator = 0 };
  control_hash = record { parents_mask = true ∷ true ∷ true ∷ false ∷ []; combined_hash = 4 };
}

creates :
    (create_unit three 1 ≡ ok (some (created, 10 ∷ 11 ∷ 12 ∷ []))) × (create_unit three 2 ≡ ok none)
unfolding create_unit can_create NodeMap.to_subset
creates = (refl, refl)

-- A unit of round 2 makes the rows of rounds 1 and 2; a second unit of node 0 changes nothing.
adds :
    (add_unit three (unit_of 2 1 21)
      ≡ ok (record three {
        candidates_by_round =
            (some 10 ∷ some 11 ∷ some 12 ∷ none ∷ [])
            ∷ (none ∷ none ∷ none ∷ none ∷ [])
            ∷ (none ∷ some 21 ∷ none ∷ none ∷ [])
            ∷ [];
        n_candidates_by_round = 3 ∷ 0 ∷ 1 ∷ [];
      }))
    × (add_unit three (unit_of 0 0 99) ≡ ok three)
unfolding add_unit NodeMap.with_size
adds = (refl, refl)

three-IsValid : IsValid three
three-IsValid = record {
  same_length = refl;
  started = omega arith;
  bounded = omega arith;
  width = widths;
  counted = counts;
}
  where
    widths :
        (r : ℕ) (row : NodeMap ℕ)
        → get_elem? three.candidates_by_round r ≡ some row
        → length row ≡ 4
    widths zero row h = ground arith
    widths (suc r) row h = cc

    counts :
        (r : ℕ) (row : NodeMap ℕ)
        → get_elem? three.candidates_by_round r ≡ some row
        → get_elem? three.n_candidates_by_round r ≡ some (count is_some row)
    counts zero row h = ground arith
    counts (suc r) row h = cc

create_unit-Created_example : Created three 1 created (10 ∷ 11 ∷ 12 ∷ [])
create_unit-Created_example =
    create_unit-Created three three-IsValid (omega arith) 1 created (10 ∷ 11 ∷ 12 ∷ [])
      (omega arith) creates.0

create_unit_iff_example :
    (r : Option (PreUnit ℕ × List ℕ)) × (create_unit three 1 ≡ ok r)
    × ((is_some r ≡ true) ↔ (
        ◌≡◌ {A = ℕ} 1 0
        ⊎ (quorum three.n_members ≤ count is_some (candidates three (1 - 1)))
          × (h : ℕ) × (candidate three (1 - 1) three.node_id ≡ some h)))
create_unit_iff_example = create_unit_iff three three-IsValid (omega arith) 1

add_unit_first_example :
    (c' : Creator ℕ) × (add_unit three (unit_of 0 3 13) ≡ ok c')
    × IsValid c'
    × ((r : ℕ) (i : ℕ)
        → candidate c' r i ≡ (
            if r == 0 && i == 3
            then some (or_else (candidate three r i) 13)
            else candidate three r i))
add_unit_first_example =
    add_unit_first three (unit_of 0 3 13) three-IsValid (omega arith) (omega arith)
