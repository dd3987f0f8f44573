-- ===== src/Extender/Batch/Visit.antt =====
-- The units that the outer loop of `finalize_round` visits, in order.
use aleph_bft.Prelude.{
  ℕ, zero, suc, ◌+◌, ◌≤◌, ◌≡◌, List, [], ◌∷◌, ◌++◌, arith, Eq, length, ◌∙◌, ok, length-append,
}
use mathlib.Core.List.{append_assoc, append-nil}
use aleph_bft.Prelude.HashMap.{HashMap}
use aleph_bft.Nodes.NodeMap
use aleph_bft.Extender.State.{ExtenderUnit}
use aleph_bft.Extender.Finalize.{take_units, drain}
use aleph_bft.Extender.Batch.Take.{hashes, length-take_units}

module _ {H : Type 0} ⦃e : Eq H⦄ where
  -- `drain` with the units themselves in place of their hashes.
  unfoldable pub visit :
      ℕ
      → HashMap H (ExtenderUnit H)
      → List (ExtenderUnit H)
      → HashMap H (ExtenderUnit H) × List (ExtenderUnit H)
  visit fuel units [] = (units, [])
  visit zero units (u ∷ queue) = (units, [])
  visit (suc fuel) units (u ∷ queue) =
      let (rest, vs) = take_units units (NodeMap.values u.parents) in
      let (left, visited) = visit fuel rest (queue ++ vs) in (left, u ∷ visited)

  -- With a round for each unit stored or queued the loop ends, and its batch is what was visited.
  pub drain-visit :
      (fuel : ℕ) (units : HashMap H (ExtenderUnit H)) (queue : List (ExtenderUnit H))
      (batch : List H)
      → length units + length queue ≤ fuel
      → drain fuel units queue batch
        ≡ ok ((visit fuel units queue).0, batch ++ hashes (visit fuel units queue).1)
  unfolding drain visit
  drain-visit zero units [] batch h = simp append-nil
  drain-visit (suc fuel) units [] batch h = simp append-nil
  drain-visit zero units (u ∷ queue) batch h = absurd (omega arith)
  drain-visit (suc fuel) units (u ∷ queue) batch h =
      let ps = NodeMap.values u.parents in
      drain-visit fuel (take_units units ps).0 (queue ++ (take_units units ps).1)
        (batch ++ u.hash ∷ [])
        (omega (arith, length-take_units units ps, length-append {0} queue (take_units units ps).1))
      ∙ simp append_assoc
