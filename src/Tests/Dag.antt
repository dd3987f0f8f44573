-- ===== src/Tests/Dag.antt =====
-- Four nodes and six rounds; node 3 forks in round 2.
use aleph_bft.Prelude.{
  ℕ, zero, suc, ◌+◌, ◌*◌, Bool, true, false, none, some, List, [], ◌∷◌, ◌++◌, map,
}
use aleph_bft.Prelude.HashMap.{HashMap}
use aleph_bft.Nodes.NodeMap.{NodeMap}
use aleph_bft.Extender.State.{ExtenderUnit, Extender}

-- The hash of the unit of a round and a node.
abbrev pub name : ℕ → ℕ → ℕ
name round node = 10 * round + node

abbrev all_of : ℕ → NodeMap ℕ
all_of round =
    some (name round 0) ∷ some (name round 1) ∷ some (name round 2) ∷ some (name round 3) ∷ []

abbrev parents_of : ℕ → NodeMap ℕ
parents_of zero = none ∷ none ∷ none ∷ none ∷ []
parents_of (suc r) = all_of r

abbrev pub plain : ℕ → ℕ → ExtenderUnit ℕ
plain round node = record {
  creator = node;
  round = round;
  parents = parents_of round;
  hash = name round node;
  vote = elim round [ zero ↦ false | suc _ ↦ true ];
}

-- The other unit of node 3 in round 2, without the parent of node 3; a unit of round 3 builds on it.
abbrev pub fork : ExtenderUnit ℕ
fork = record (plain 2 3) { parents = some 10 ∷ some 11 ∷ some 12 ∷ none ∷ []; hash = 99 }

abbrev pub on_fork : ExtenderUnit ℕ
on_fork = record (plain 3 2) { parents = some 20 ∷ some 21 ∷ some 22 ∷ some 99 ∷ [] }

abbrev row : ℕ → List (ExtenderUnit ℕ)
row r = plain r 0 ∷ plain r 1 ∷ plain r 2 ∷ plain r 3 ∷ []

abbrev pub entries : HashMap ℕ (ExtenderUnit ℕ)
entries =
    map (λ u. (u.hash, u))
      (row 0
        ++ row 1
        ++ row 2
        ++ (fork ∷ on_fork ∷ plain 3 0 ∷ plain 3 1 ∷ plain 3 3 ∷ [])
        ++ row 4
        ++ row 5)

abbrev pub sample : Extender ℕ
sample = record {
  node_id = 0;
  state = record {
    highest_round = 5;
    current_round = 0;
    round_initialized = true;
    pending_cand_id = 0;
    votes_up_to_date = true;
  };
  units = entries;
  units_by_round = [] ∷ [] ∷ [] ∷ [] ∷ [] ∷ [] ∷ [];
  n_members = 4;
  candidates = 0 ∷ [];
  finalized = [];
  finalizer_open = true;
  exiting = false;
}

abbrev pub forkers : List Bool
forkers = false ∷ false ∷ false ∷ true ∷ []
