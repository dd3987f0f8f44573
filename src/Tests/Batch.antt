-- ===== src/Tests/Batch.antt =====
-- A round of the sample is finalized with a head of round 2.
use aleph_bft.Prelude.{
  ◌⊎◌, ℕ, suc, ◌+◌, ◌≡◌, refl, Bool, true, Option, none, some, List, [], ◌∷◌, ◌++◌, reverse, ◌↔◌,
  arith, nat_eq, ◌==◌, set, ok, ℕ_discrete,
}
use aleph_bft.Prelude.HashMap
use aleph_bft.Nodes.NodeMap.{values-occupied, occupied}
use aleph_bft.Extender.State.{ExtenderUnit, Extender}
use aleph_bft.Extender.Finalize.{finalize_round}
use aleph_bft.Extender.Batch.Take.{Elem, times, stored, hashes, IsKeyed}
use aleph_bft.Extender.Batch.Rounds.{IsDown, Falls}
use aleph_bft.Extender.Batch.Finality.{Ancestor}
use aleph_bft.Extender.Finality.{
  finalize_round_returns, finalize_round_conserves, finalize_round_ancestry, finalize_round_order,
}
use aleph_bft.Tests.Search.{every, every-get, every_elem, every_elem-Elem}
use aleph_bft.Tests.Dag.{plain, sample}

-- The batch of head 21: round 0 and round 1, the last found first, and then the head.
batch_of_21 :
    (s : Extender ℕ) × (finalize_round sample 0 21 ≡ ok s)
    × (s.finalized ≡ (3 ∷ 2 ∷ 1 ∷ 0 ∷ 13 ∷ 12 ∷ 11 ∷ 10 ∷ 21 ∷ []) ∷ [])
unfolding finalize_round ℕ_discrete
batch_of_21 = (_, refl, refl)

keyed : ℕ → ExtenderUnit ℕ → Bool
keyed h u = u.hash == h

every_keyed : every keyed sample.units ≡ true
unfolding keyed
every_keyed = refl

keyed_lem : (h : ℕ) (u : ExtenderUnit ℕ) → keyed h u ≡ true → u.hash ≡ h
unfolding keyed
keyed_lem h u t = ground arith

sample-IsKeyed : IsKeyed sample.units
sample-IsKeyed h u found = keyed_lem h u (every-get keyed sample.units h u every_keyed found)

found_21 : HashMap.get 21 sample.units ≡ some (plain 2 1)
unfolding HashMap.get ℕ_discrete
found_21 = refl

finalize_round_returns_example :
    (s' : Extender ℕ) × (finalize_round sample 0 21 ≡ ok s')
    × (s'.units_by_round ≡ set sample.units_by_round 0 [])
    × (s'.state ≡ sample.state)
    × ((sample.finalizer_open ≡ true) ⊎ (s'.finalized ≡ sample.finalized) × (s'.exiting ≡ true))
finalize_round_returns_example =
    finalize_round_returns sample 0 21 (plain 2 1) sample-IsKeyed found_21 (omega arith)

finalize_round_conserves_example :
    (s' : Extender ℕ) × (batch : List ℕ) × (finalize_round sample 0 21 ≡ ok s')
    × (s'.finalized ≡ sample.finalized ++ batch ∷ [])
    × ((q : ℕ) → times q batch + stored q s'.units ≡ stored q sample.units)
finalize_round_conserves_example =
    finalize_round_conserves sample 0 21 (plain 2 1) sample-IsKeyed found_21 (omega arith) refl

finalize_round_ancestry_example :
    (s' : Extender ℕ) × (finalize_round sample 0 21 ≡ ok s')
    × ((HashMap.get 21 s'.units ≡ none) ↔ Ancestor sample.units 21 (plain 2 1))
finalize_round_ancestry_example =
    finalize_round_ancestry sample 0 21 (plain 2 1) sample-IsKeyed found_21 (omega arith)
      (plain 2 1) found_21

-- Is the parent, if it is stored, of the round before?
parent_below : ℕ → Option (ExtenderUnit ℕ) → Bool
parent_below round none = true
parent_below round (some v) = suc v.round == round

is_below : ℕ → ℕ → Bool
unfolding parent_below HashMap.get ℕ_discrete
is_below round p = parent_below round (HashMap.get p sample.units)

goes_down : ℕ → ExtenderUnit ℕ → Bool
unfolding is_below
goes_down h u = every_elem (is_below u.round) (occupied u.parents)

every_down : every goes_down sample.units ≡ true
unfolding goes_down
every_down = refl

parent_below_lem :
    (round : ℕ) (o : Option (ExtenderUnit ℕ)) (v : ExtenderUnit ℕ)
    → parent_below round o ≡ true
    → o ≡ some v
    → suc v.round ≡ round
unfolding parent_below
parent_below_lem round none v h e = cc
parent_below_lem round (some w) v h e = ground arith

is_below_lem :
    (round p : ℕ) → is_below round p ≡ true → parent_below round (HashMap.get p sample.units) ≡ true
unfolding is_below
is_below_lem round p h = h

goes_down_lem :
    (h : ℕ) (u : ExtenderUnit ℕ)
    → goes_down h u ≡ true
    → every_elem (is_below u.round) (occupied u.parents) ≡ true
unfolding goes_down
goes_down_lem h u t = t

sample-IsDown : IsDown sample.units
sample-IsDown h u found p v at_p got =
    parent_below_lem u.round (HashMap.get p sample.units) v
      (is_below_lem u.round p (
        every_elem-Elem (is_below u.round) (occupied u.parents) p
          (goes_down_lem h u (every-get goes_down sample.units h u every_down found))
          (rw (values-occupied u.parents) at at_p)))
      got

finalize_round_order_example :
    (s' : Extender ℕ) × (us : List (ExtenderUnit ℕ)) × (finalize_round sample 0 21 ≡ ok s')
    × (s'.finalized ≡ sample.finalized ++ reverse (hashes us) ∷ [])
    × Falls 2 us
    × ((v : ExtenderUnit ℕ) → Elem v us → HashMap.get v.hash sample.units ≡ some v)
finalize_round_order_example =
    finalize_round_order sample 0 21 (plain 2 1) sample-IsKeyed found_21 (omega arith) refl
      sample-IsDown
