-- ===== src/Extender/Finalize.antt =====
-- src/extender.rs, `finalize_round`: the batch that a decided head gives.
use aleph_bft.Prelude.{
  ℕ, zero, suc, true, none, some, List, [], ◌∷◌, ◌++◌, reverse, Eq, if◌then◌else◌, Exec, ok,
  out_of_fuel, ◌>>=◌, unwrap, store_at, length,
}
use aleph_bft.Prelude.HashMap
use aleph_bft.Prelude.HashMap.{HashMap}
use aleph_bft.Nodes.NodeMap
use aleph_bft.Nodes.NodeMap.{NodeMap}
use aleph_bft.Extender.State.{ExtenderUnit, Extender}

module _ {H : Type 0} ⦃e : Eq H⦄ where
  -- The `for` loop of `finalize_round`: the parents that are stored leave the store for the queue.
  unfoldable pub take_units :
      HashMap H (ExtenderUnit H) → List H → HashMap H (ExtenderUnit H) × List (ExtenderUnit H)
  unfolding HashMap.get HashMap.remove
  take_units units [] = (units, [])
  take_units units (p ∷ ps) = elim (HashMap.get p units) [
    | none ↦ take_units units ps
    | some v ↦ let (rest, vs) = take_units (HashMap.remove p units) ps in (rest, v ∷ vs)
  ]

  -- The `while` loop of `finalize_round`, a round for each unit of fuel. `batch` grows at its end.
  unfoldable pub drain :
      ℕ
      → HashMap H (ExtenderUnit H)
      → List (ExtenderUnit H)
      → List H
      → Exec (HashMap H (ExtenderUnit H) × List H)
  unfolding take_units NodeMap.values
  drain fuel units [] batch = ok (units, batch)
  drain zero units (u ∷ queue) batch = out_of_fuel
  drain (suc fuel) units (u ∷ queue) batch =
      let (rest, vs) = take_units units (NodeMap.values u.parents) in
      drain fuel rest (queue ++ vs) (batch ++ u.hash ∷ [])

  unfoldable pub finalize_round : Extender H → ℕ → H → Exec (Extender H)
  unfolding drain
  finalize_round s round head = do
    u ← unwrap (HashMap.get head s.units)
    (units, batch) ← drain (length s.units) (HashMap.remove head s.units) (u ∷ []) []
    by_round ← store_at s.units_by_round round []
    ok (record s {
      units = units;
      finalized = if s.finalizer_open then s.finalized ++ reverse batch ∷ [] else s.finalized;
      exiting = if s.finalizer_open then s.exiting else true;
      units_by_round = by_round;
    })
