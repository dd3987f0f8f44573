-- ===== src/Extender/State.antt =====
-- src/extender.rs: the state of the extender, the arrival of a unit, and the start of a round.
use aleph_bft.Prelude.{
  ℕ, Bool, true, false, List, [], ◌∷◌, ◌++◌, Eq, Ord, ltb, leb, if◌then◌else◌, Exec, ok, ◌>>=◌,
  index, store_at, length,
}
use aleph_bft.Prelude.HashMap
use aleph_bft.Prelude.HashMap.{HashMap}
use aleph_bft.Nodes.{NodeIndex, NodeCount}
use aleph_bft.Nodes.NodeMap.{NodeMap}

pub record ExtenderUnit (H : Type 0) : Type 0 where
  pub creator : NodeIndex
  pub round : ℕ
  pub parents : NodeMap H
  pub hash : H
  pub vote : Bool

unfoldable pub new_unit : {H : Type 0} → NodeIndex → ℕ → H → NodeMap H → ExtenderUnit H
new_unit creator round hash parents = record {
  creator = creator;
  round = round;
  parents = parents;
  hash = hash;
  vote = false;
}

pub record CacheState : Type 0 where
  pub highest_round : ℕ
  pub current_round : ℕ
  pub round_initialized : Bool
  pub pending_cand_id : ℕ
  pub votes_up_to_date : Bool

unfoldable pub empty_dag_cache : CacheState
empty_dag_cache = record {
  highest_round = 0;
  current_round = 0;
  round_initialized = false;
  pending_cand_id = 0;
  votes_up_to_date = false;
}

-- `electors` is the argument of `extend`. Of `finalizer_tx` the state keeps what was sent, oldest
-- first, and whether the receiver still listens.
pub record Extender (H : Type 0) : Type 0 where
  pub node_id : NodeIndex
  pub state : CacheState
  pub units : HashMap H (ExtenderUnit H)
  pub units_by_round : List (List H)
  pub n_members : NodeCount
  pub candidates : List H
  pub finalized : List (List H)
  pub finalizer_open : Bool
  pub exiting : Bool

unfoldable pub new : {H : Type 0} → NodeIndex → NodeCount → Extender H
unfolding empty_dag_cache
new node_id n_members = record {
  node_id = node_id;
  state = empty_dag_cache;
  units = [];
  units_by_round = [] ∷ [];
  n_members = n_members;
  candidates = [];
  finalized = [];
  finalizer_open = true;
  exiting = false;
}

-- `candidates.sort()`; all sorting algorithms agree on a total order.
module _ {H : Type 0} ⦃o : Ord H⦄ where
  unfoldable pub sort_in : H → List H → List H
  sort_in x [] = x ∷ []
  sort_in x (y ∷ ys) = if o.at_most x y then x ∷ y ∷ ys else y ∷ sort_in x ys

  unfoldable pub sort : List H → List H
  unfolding sort_in
  sort [] = []
  sort (x ∷ xs) = sort_in x (sort xs)

  unfoldable pub initialize_round : Extender H → ℕ → Exec (Extender H)
  unfolding sort
  initialize_round s round = do
    hashes ← index s.units_by_round round
    ok (record s { candidates = sort hashes })

module _ {H : Type 0} ⦃e : Eq H⦄ where
  unfoldable pub add_unit : Extender H → ExtenderUnit H → Exec (Extender H)
  unfolding HashMap.insert
  add_unit s u =
      let highest = if ltb s.state.highest_round u.round then u.round else s.state.highest_round in
      let longer =
        if leb (length s.units_by_round) u.round
        then s.units_by_round ++ [] ∷ []
        else s.units_by_round in
      do
        by_round ←
            (if leb s.state.current_round u.round
              then (do
                hashes ← index longer u.round
                store_at longer u.round (hashes ++ u.hash ∷ []))
              else ok s.units_by_round)
        ok (record s {
          state = record s.state { highest_round = highest };
          units_by_round = by_round;
          units = HashMap.insert u.hash u s.units;
        })
