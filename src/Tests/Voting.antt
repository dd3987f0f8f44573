-- ===== src/Tests/Voting.antt =====
-- Votes on a candidate of round 0.
use aleph_bft.Prelude.{
  ℕ, suc, ◌≤◌, ◌<◌, ◌≡◌, refl, Bool, true, false, ◌&&◌, ◌||◌, not, Option, none, some, arith,
  nat_eq, leb, ltb, ◌==◌, length, get_elem?, Exec, ok, panic, out_of_fuel, ℕ_discrete,
}
use aleph_bft.Prelude.HashMap
use aleph_bft.Extender.State.{ExtenderUnit}
use aleph_bft.Extender.Voting.{vote_and_decision}
use aleph_bft.Extender.Tally.{same}
use aleph_bft.Extender.Agreement.{IsDag, IsVoted, decisions_agree, decision_binds}
use aleph_bft.Tests.Search.{every, every-get, every_at, every_at-get}
use aleph_bft.Tests.Dag.{plain, sample, forkers}

-- Relative round 3 decides nothing, and relative rounds 4 and 5 decide for the candidate.
decides :
    (vote_and_decision sample 0 30 0 0 ≡ ok (true, none))
    × (vote_and_decision sample 0 40 0 0 ≡ ok (true, some true))
    × (vote_and_decision sample 0 51 0 0 ≡ ok (true, some true))
unfolding vote_and_decision ℕ_discrete
decides = (refl, refl, refl)

four_slots : ℕ → ExtenderUnit ℕ → Bool
four_slots h u = length u.parents == 4

parent_fits : ℕ → ℕ → Option (ExtenderUnit ℕ) → Bool
parent_fits round i none = false
parent_fits round i (some v) = suc v.round == round && v.creator == i

parent_fits_lem :
    (round i : ℕ) (o : Option (ExtenderUnit ℕ))
    → parent_fits round i o ≡ true
    → (v : ExtenderUnit ℕ) × (o ≡ some v) × (suc v.round ≡ round) × (v.creator ≡ i)
unfolding parent_fits
parent_fits_lem round i none h = cc
parent_fits_lem round i (some v) h = (v, refl, ground arith, ground arith)

stored_parent : ℕ → ℕ → Option ℕ → Bool
unfolding HashMap.get ℕ_discrete parent_fits
stored_parent round i none = true
stored_parent round i (some p) = parent_fits round i (HashMap.get p sample.units)

stored_parents : ℕ → ExtenderUnit ℕ → Bool
unfolding stored_parent
stored_parents h u = ltb u.round 2 || every_at (stored_parent u.round) 0 u.parents

honest : ℕ → Bool
honest i = elim (get_elem? forkers i) [ none ↦ false | some f ↦ not f ]

one_unit : ℕ → ExtenderUnit ℕ → ℕ → ExtenderUnit ℕ → Bool
unfolding honest
one_unit h u g v = not (u.creator == v.creator && u.round == v.round && honest u.creator) || h == g

one_unit_each : ℕ → ExtenderUnit ℕ → Bool
unfolding one_unit
one_unit_each h u = every (one_unit h u) sample.units

stored_parent_lem :
    (round i p : ℕ)
    → stored_parent round i (some p) ≡ true
    → (v : ExtenderUnit ℕ) × (HashMap.get p sample.units ≡ some v)
      × (suc v.round ≡ round)
      × (v.creator ≡ i)
unfolding stored_parent
stored_parent_lem round i p h = parent_fits_lem round i (HashMap.get p sample.units) h

every_slots : every four_slots sample.units ≡ true
unfolding four_slots
every_slots = refl

every_parents : every stored_parents sample.units ≡ true
unfolding stored_parents
every_parents = refl

every_single : every one_unit_each sample.units ≡ true
unfolding one_unit_each
every_single = refl

width_of : (u : ExtenderUnit ℕ) (h : ℕ) → four_slots h u ≡ true → length u.parents ≡ 4
unfolding four_slots
width_of u h t = ground arith

parents_of :
    (h : ℕ) (u : ExtenderUnit ℕ)
    → stored_parents h u ≡ true
    → 2 ≤ u.round
    → every_at (stored_parent u.round) 0 u.parents ≡ true
unfolding stored_parents
parents_of h u t far = ground arith

single_of :
    (h g : ℕ) (u v : ExtenderUnit ℕ)
    → one_unit h u g v ≡ true
    → u.creator ≡ v.creator
    → u.round ≡ v.round
    → get_elem? forkers u.creator ≡ some false
    → h ≡ g
unfolding one_unit
single_of h g u v t c r f = ground arith

sample-IsDag : IsDag sample forkers 0
unfolding one_unit_each
sample-IsDag = record {
  committee = refl;
  few = omega arith;
  width = λ h u found. width_of u h (every-get four_slots sample.units h u every_slots found);
  parent = λ h u i p found far at_i. stored_parent_lem u.round i p (
      every_at-get (stored_parent u.round) 0 u.parents i i (some p) (omega arith)
        (parents_of h u (every-get stored_parents sample.units h u every_parents found)
          (omega arith))
        at_i);
  single = λ h g u v fu fv c r f.
      single_of h g u v
        (every-get (one_unit h u) sample.units g v
          (every-get one_unit_each sample.units h u every_single fu) fv)
        c r f;
}

agrees : Bool → Exec (Bool × Option Bool) → Bool
agrees vote (ok (b, d)) = same b vote
agrees vote panic = false
agrees vote out_of_fuel = false

agrees_lem :
    (vote : Bool) (r : Exec (Bool × Option Bool))
    → agrees vote r ≡ true
    → (d : Option Bool) × (r ≡ ok (vote, d))
unfolding agrees
agrees_lem vote (ok (b, d)) h = (d, ground arith)
agrees_lem vote panic h = cc
agrees_lem vote out_of_fuel h = cc

voted : ℕ → ExtenderUnit ℕ → Bool
unfolding agrees
voted h u = leb u.round 0 || agrees u.vote (vote_and_decision sample 0 h 0 0)

all_as_computed : every voted sample.units ≡ true
unfolding voted vote_and_decision ℕ_discrete
all_as_computed = refl

voted_lem :
    (h : ℕ) (u : ExtenderUnit ℕ)
    → voted h u ≡ true
    → 0 < u.round
    → agrees u.vote (vote_and_decision sample 0 h 0 0) ≡ true
unfolding voted
voted_lem h u t above = ground arith

sample-IsVoted : IsVoted sample 0 0 0
sample-IsVoted h u found above =
    agrees_lem u.vote _
      (voted_lem h u (every-get voted sample.units h u all_as_computed found) above)

decisions_agree_example : true ≡ true
decisions_agree_example =
    decisions_agree sample forkers 0 0 0 sample-IsDag sample-IsVoted 40 51 true true true true
      decides.1 decides.2

decision_binds_example : (plain 5 2).vote ≡ true
unfolding HashMap.get ℕ_discrete
decision_binds_example =
    decision_binds sample forkers 0 0 0 sample-IsDag sample-IsVoted 40 52 (plain 4 0) (plain 5 2)
      true true decides.1 refl refl (omega arith)
