-- ===== src/Extender/Progress.antt =====
-- src/extender.rs, `progress` and `extend`: the loop over candidates and rounds that runs after each
-- new unit.
use aleph_bft.Prelude.{
  ℕ, zero, suc, ◌+◌, ◌-◌, Bool, true, false, Option, none, some, Eq, Ord, leb, if◌then◌else◌, u16,
  Exec, ok, out_of_fuel, ◌>>=◌, unwrap, index,
}
use aleph_bft.Prelude.HashMap
use aleph_bft.Prelude.HashMap.{HashMap}
use aleph_bft.Nodes.{NodeIndex}
use aleph_bft.Extender.State.{Extender}
use aleph_bft.Extender.State.{initialize_round}
use aleph_bft.Extender.Finalize.{finalize_round}
use aleph_bft.Extender.Voting.{vote_and_decision, set_vote, recompute_rounds}

-- What an iteration of the loop does next.
pub data Turn (H : Type 0) : Type 0 where
  again : Extender H → Turn H
  stop : Extender H → Turn H

module _ {H : Type 0} ⦃e : Eq H⦄ ⦃o : Ord H⦄ where
  -- The branch on `!round_initialized`.
  unfoldable pub start_round : Extender H → Exec (Turn H)
  unfolding initialize_round
  start_round s =
      if leb (u16 (s.state.current_round + 3)) s.state.highest_round
      then (do
        s' ← initialize_round s s.state.current_round
        ok (
            again (record s' {
              state = record s'.state {
                round_initialized = true;
                pending_cand_id = 0;
                votes_up_to_date = false;
              };
            })))
      else ok (stop s)

  -- The decision on the pending candidate after the new unit `u_new_hash`.
  unfoldable pub decide_candidate : Extender H → H → NodeIndex → H → Exec (Extender H × Option Bool)
  unfolding vote_and_decision set_vote recompute_rounds
  decide_candidate s candidate_hash candidate_creator u_new_hash =
      let round = s.state.current_round in
      if s.state.votes_up_to_date
      then (do
        (vote, u_decision) ← vote_and_decision s candidate_hash u_new_hash candidate_creator round
        units ← set_vote s.units u_new_hash vote
        ok (record s { units = units }, u_decision))
      else recompute_rounds candidate_hash candidate_creator round (u16 (round + 1))
          (s.state.highest_round + 1 - u16 (round + 1)) s

  -- The `match decision`.
  unfoldable pub conclude : Extender H → H → Option Bool → Exec (Turn H)
  unfolding finalize_round
  conclude s candidate_hash (some true) = do
    s' ← finalize_round s s.state.current_round candidate_hash
    ok (
        again (record s' {
          state = record s'.state {
            current_round = u16 (s'.state.current_round + 1);
            round_initialized = false;
          };
        }))
  conclude s candidate_hash (some false) = ok (
      again (record s {
        state = record s.state {
          pending_cand_id = s.state.pending_cand_id + 1;
          votes_up_to_date = false;
        };
      }))
  conclude s candidate_hash none =
      ok (stop (record s { state = record s.state { votes_up_to_date = true } }))

  -- One iteration of the loop of `progress`.
  unfoldable pub turn : Extender H → H → Exec (Turn H)
  unfolding start_round decide_candidate conclude
  turn s u_new_hash =
      if s.state.round_initialized
      then (do
        candidate_hash ← index s.candidates s.state.pending_cand_id
        candidate ← unwrap (HashMap.get candidate_hash s.units)
        (s', decision) ← decide_candidate s candidate_hash candidate.creator u_new_hash
        conclude s' candidate_hash decision)
      else start_round s

  unfoldable pub progress : ℕ → Extender H → H → Exec (Extender H)
  unfolding turn
  progress zero s u_new_hash = out_of_fuel
  progress (suc fuel) s u_new_hash = do
    t ← turn s u_new_hash
    elim t [ again s' ↦ progress fuel s' u_new_hash | stop s' ↦ ok s' ]
