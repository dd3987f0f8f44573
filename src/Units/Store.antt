-- ===== src/Units/Store.antt =====
-- src/units/store.rs: the units that were received, by coordinate and by hash, and who forks.
pub mod Valid
pub mod Forks
pub mod Marks
pub mod Commitment
use aleph_bft.Prelude.{
  ℕ, zero, suc, ◌+◌, ◌≡◌, Bool, true, false, not, ◌||◌, Option, none, some, List, [], ◌∷◌, ◌++◌, Eq,
  map, ltb, ◌==◌, if◌then◌else◌, ℕ_discrete, Exec, ok, panic, ◌>>=◌, ◌>>◌, assert,
}
use aleph_bft.Prelude.HashMap
use aleph_bft.Prelude.HashMap.{HashMap}
use aleph_bft.Nodes.{NodeIndex, NodeCount}
use aleph_bft.Nodes.NodeSubset
use aleph_bft.Nodes.NodeSubset.{NodeSubset}
use aleph_bft.Signed.{UncheckedSigned, Signed}
use aleph_bft.Units.{Round, UnitCoord, FullUnit, UnitHasher, new_coord, hash_of}

abbrev pub SignedUnit : Type 0 → Type 0 → Type 0 → Type 0
SignedUnit H D S = Signed (FullUnit H D) S

unfoldable pub UnitCoord-discrete : Discrete UnitCoord
UnitCoord-discrete = hlevel ℕ_discrete

instance abbrev pub coord_eq : Eq UnitCoord
coord_eq = record { eq? = UnitCoord-discrete }

pub record UnitStore (H D S : Type 0) : Type 0 where
  pub by_coord : HashMap UnitCoord (SignedUnit H D S)
  pub by_hash : HashMap H (SignedUnit H D S)
  pub parents : HashMap H (List H)
  pub forkers : NodeSubset
  pub legit_buffer : List (SignedUnit H D S)
  pub max_round : Round

abbrev pub coord_of : {H D : Type 0} → FullUnit H D → UnitCoord
coord_of u = u.pre_unit.coord

module _ {H D S : Type 0} where
  unfoldable pub new : NodeCount → Round → UnitStore H D S
  unfolding NodeSubset.with_size
  new n_nodes max_round = record {
    by_coord = [];
    by_hash = [];
    parents = [];
    forkers = NodeSubset.with_size n_nodes;
    legit_buffer = [];
    max_round = max_round;
  }

  abbrev pub full : SignedUnit H D S → FullUnit H D
  full su = su.unchecked.signable

  unfoldable pub unit_by_coord : UnitStore H D S → UnitCoord → Option (SignedUnit H D S)
  unfolding HashMap.get
  unit_by_coord s coord = HashMap.get coord s.by_coord

  unfoldable pub is_forker : UnitStore H D S → NodeIndex → Exec Bool
  unfolding NodeSubset.contains
  is_forker s node_id = NodeSubset.contains s.forkers node_id

  -- The units of the buffer, and the store with the buffer emptied.
  unfoldable pub yield_buffer_units : UnitStore H D S → List (SignedUnit H D S) × UnitStore H D S
  yield_buffer_units s = (s.legit_buffer, record s { legit_buffer = [] })

  -- The stored units of a node of the `n` rounds from `round` on.
  unfoldable pub units_from : UnitStore H D S → NodeIndex → ℕ → Round → List (SignedUnit H D S)
  unfolding unit_by_coord new_coord
  units_from s node zero round = []
  units_from s node (suc n) round = elim (unit_by_coord s (new_coord round node)) [
    | none ↦ units_from s node n (suc round)
    | some su ↦ su ∷ units_from s node n (suc round)
  ]

  unfoldable pub mark_forker :
      UnitStore H D S → NodeIndex → Exec (List (SignedUnit H D S) × UnitStore H D S)
  unfolding NodeSubset.contains NodeSubset.insert units_from
  mark_forker s forker = do
    known ← NodeSubset.contains s.forkers forker
    forkers ← NodeSubset.insert s.forkers forker
    ok (units_from s forker (suc s.max_round) 0, record s { forkers = forkers })

  unfoldable pub contains_coord : UnitStore H D S → UnitCoord → Bool
  unfolding HashMap.contains_key
  contains_coord s coord = HashMap.contains_key coord s.by_coord

  unfoldable pub limit_per_node : UnitStore H D S → Round
  limit_per_node s = s.max_round

module _ {H D S : Type 0} ⦃e : Eq H⦄ ⦃h : UnitHasher H D⦄ where
  unfoldable pub unit_by_hash : UnitStore H D S → H → Option (SignedUnit H D S)
  unfolding HashMap.get
  unit_by_hash s hash = HashMap.get hash s.by_hash

  unfoldable pub contains_hash : UnitStore H D S → H → Bool
  unfolding HashMap.contains_key
  contains_hash s hash = HashMap.contains_key hash s.by_hash

  unfoldable pub is_new_fork : UnitStore H D S → FullUnit H D → Option (SignedUnit H D S)
  unfolding contains_hash unit_by_coord hash_of
  is_new_fork s fu = if contains_hash s (hash_of fu) then none else unit_by_coord s (coord_of fu)

  -- Does the unit go to the buffer? `||` asks for the forker only without an alert.
  unfoldable pub is_legit : UnitStore H D S → NodeIndex → Bool → Exec Bool
  unfolding is_forker
  is_legit s creator true = ok true
  is_legit s creator false = do forker ← is_forker s creator; ok (not forker)

  unfoldable pub alert_allowed : UnitStore H D S → NodeIndex → Bool → Exec (Unit {0})
  unfolding is_forker
  alert_allowed s creator true = do forker ← is_forker s creator; assert forker
  alert_allowed s creator false = ok tt

  unfoldable pub add_unit : UnitStore H D S → SignedUnit H D S → Bool → Exec (UnitStore H D S)
  unfolding alert_allowed contains_hash is_legit HashMap.insert hash_of
  add_unit s su alert = do
    alert_allowed s (coord_of (full su)).creator alert
    (if contains_hash s (hash_of (full su)) then ok s else (do
      legit ← is_legit s (coord_of (full su)).creator alert
      ok (record s {
        by_hash = HashMap.insert (hash_of (full su)) su s.by_hash;
        by_coord = HashMap.insert (coord_of (full su)) su s.by_coord;
        legit_buffer = if legit then s.legit_buffer ++ su ∷ [] else s.legit_buffer;
      })))

  unfoldable pub add_parents : UnitStore H D S → H → List H → UnitStore H D S
  unfolding HashMap.insert
  add_parents s hash parents = record s { parents = HashMap.insert hash parents s.parents }

  unfoldable pub get_parents : UnitStore H D S → H → Option (List H)
  unfolding HashMap.get
  get_parents s hash = HashMap.get hash s.parents

-- `max_by_key` over the values; of equal rounds the later value is taken.
unfoldable pub newest_from :
    {H D S : Type 0} → NodeIndex → List (SignedUnit H D S) → Option (SignedUnit H D S)
newest_from index [] = none
newest_from index (su ∷ sus) =
    let rest = newest_from index sus in
    if not ((coord_of (full su)).creator == index) then rest else elim rest [
      | none ↦ some su
      | some sv ↦
          if ltb (coord_of (full sv)).round (coord_of (full su)).round then some su else some sv
    ]

unfoldable pub newest_unit :
    {H D S : Type 0} → UnitStore H D S → NodeIndex → Option (UncheckedSigned (FullUnit H D) S)
unfolding newest_from
newest_unit s index = elim (newest_from index (map (λ p. p.1) s.by_coord)) [
  | none ↦ none
  | some su ↦ some su.unchecked
]
