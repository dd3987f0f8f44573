-- ===== src/Extender/Voting.antt =====
-- src/extender.rs, `common_vote`, `vote_and_decision`, `recompute_votes`: the votes of the units of
-- later rounds on a candidate for the head of a round.
use aleph_bft.Prelude.{
  ℕ, zero, suc, ◌+◌, ◌-◌, ◌%◌, ite, Bool, true, false, ◌&&◌, ◌||◌, not, Option, none, some, List,
  [], ◌∷◌, Eq, leb, ◌==◌, if◌then◌else◌, Exec, ok, ◌>>=◌, ◌>>◌, unwrap, assert, index,
}
use aleph_bft.Prelude.HashMap
use aleph_bft.Prelude.HashMap.{HashMap}
use aleph_bft.Nodes.{NodeIndex, NodeCount, quorum}
use aleph_bft.Nodes.NodeMap
use aleph_bft.Nodes.NodeMap.{NodeMap}
use aleph_bft.Extender.State.{ExtenderUnit, Extender}

unfoldable pub common_vote : ℕ → Bool
common_vote relative_round =
    if relative_round == 3
    then false
    else (if leb relative_round 4 then true else relative_round % 2 == 1)

-- The vote and the decision that follow from the tally.
unfoldable pub tally : ℕ → NodeCount → NodeCount → NodeCount → Bool × Option Bool
unfolding common_vote
tally relative_round threshold t f =
    let cv = common_vote relative_round in
    (
      (if f == 0 then true else (if t == 0 then false else cv)),
      (if leb 3 relative_round && ((cv && leb threshold t) || (not cv && leb threshold f))
          then some cv
          else none),
    )

module _ {H : Type 0} ⦃e : Eq H⦄ where
  -- The votes of the parents, `n_votes_true` and `n_votes_false`.
  unfoldable pub count_votes :
      HashMap H (ExtenderUnit H) → List H → NodeCount → NodeCount → Exec (NodeCount × NodeCount)
  unfolding HashMap.get
  count_votes units [] t f = ok (t, f)
  count_votes units (p_hash ∷ ps) t f = do
    p ← unwrap (HashMap.get p_hash units)
    count_votes units ps (if p.vote then t + 1 else t) (if p.vote then f else f + 1)

  -- Relative round 1: does the voter have the candidate among its parents?
  unfoldable pub first_vote : H → NodeIndex → ExtenderUnit H → Exec (Bool × Option Bool)
  unfolding NodeMap.get
  first_vote candidate_hash candidate_creator voter = do
    parent ← NodeMap.get voter.parents candidate_creator
    ok (elim parent [ none ↦ false | some p ↦ ite (e.eq? p candidate_hash) true false ], none)

  -- Later rounds: the tally of the parents' votes.
  unfoldable pub later_vote : Extender H → ℕ → ExtenderUnit H → Exec (Bool × Option Bool)
  unfolding count_votes tally NodeMap.values
  later_vote s relative_round voter = do
    (t, f) ← count_votes s.units (NodeMap.values voter.parents) 0 0
    assert (leb (quorum s.n_members) (t + f))
    ok (tally relative_round (quorum s.n_members) t f)

  unfoldable pub unit_vote :
      Extender H → H → NodeIndex → ℕ → ExtenderUnit H → Exec (Bool × Option Bool)
  unfolding first_vote later_vote
  unit_vote s candidate_hash candidate_creator candidate_round voter =
      if leb voter.round candidate_round
      then ok (false, none)
      else (if voter.round - candidate_round == 1
          then first_vote candidate_hash candidate_creator voter
          else later_vote s (voter.round - candidate_round) voter)

  unfoldable pub vote_and_decision : Extender H → H → H → NodeIndex → ℕ → Exec (Bool × Option Bool)
  unfolding unit_vote
  vote_and_decision s candidate_hash voter_hash candidate_creator candidate_round = do
    voter ← unwrap (HashMap.get voter_hash s.units)
    unit_vote s candidate_hash candidate_creator candidate_round voter

  unfoldable pub set_vote :
      HashMap H (ExtenderUnit H) → H → Bool → Exec (HashMap H (ExtenderUnit H))
  unfolding HashMap.insert
  set_vote units u_hash vote = do
    u ← unwrap (HashMap.get u_hash units)
    ok (HashMap.insert u_hash (record u { vote = vote }) units)

  -- The loop of `recompute_votes` over the voters of a round; it stops at the first decision.
  unfoldable pub recompute :
      H → NodeIndex → ℕ → Extender H → List H → Exec (Extender H × Option Bool)
  unfolding vote_and_decision set_vote
  recompute candidate_hash candidate_creator curr_round s [] = ok (s, none)
  recompute candidate_hash candidate_creator curr_round s (u_hash ∷ hashes) = do
    (vote, u_decision) ← vote_and_decision s candidate_hash u_hash candidate_creator curr_round
    units ← set_vote s.units u_hash vote
    let rest =
        recompute candidate_hash candidate_creator curr_round (record s { units = units }) hashes
    elim u_decision [ none ↦ rest | some d ↦ ok (record s { units = units }, some d) ]

  unfoldable pub recompute_votes :
      Extender H → H → NodeIndex → ℕ → ℕ → Exec (Extender H × Option Bool)
  unfolding recompute
  recompute_votes s candidate_hash candidate_creator curr_round voters_round = do
    hashes ← index s.units_by_round voters_round
    recompute candidate_hash candidate_creator curr_round s hashes

  -- The loop of `progress` over the `n` rounds from `voters_round` on.
  unfoldable pub recompute_rounds :
      H → NodeIndex → ℕ → ℕ → ℕ → Extender H → Exec (Extender H × Option Bool)
  unfolding recompute_votes
  recompute_rounds candidate_hash candidate_creator curr_round voters_round zero s = ok (s, none)
  recompute_rounds candidate_hash candidate_creator curr_round voters_round (suc n) s = do
    (s', decision) ← recompute_votes s candidate_hash candidate_creator curr_round voters_round
    let rest = recompute_rounds candidate_hash candidate_creator curr_round (suc voters_round) n s'
    elim decision [ none ↦ rest | some d ↦ ok (s', some d) ]
