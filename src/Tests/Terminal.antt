-- ===== src/Tests/Terminal.antt =====
-- Units of nodes 0 and 1 of three, as the terminal of node 2 receives them: a unit of round 1 before
-- its parents, and then one whose control hash is wrong until the response names its parents.
use aleph_bft.Prelude.{
  ℕ, ◌+◌, ◌*◌, ◌≡◌, refl, Bool, true, false, none, some, List, [], ◌∷◌, map, Exec, ok, panic,
  out_of_fuel, ℕ_discrete, nat_eq, arith,
}
use aleph_bft.Nodes.NodeMap.{NodeMap}
use aleph_bft.Nodes.NodeSubset
use aleph_bft.Units.{ConsensusUnit, ParentHasher}
use aleph_bft.Runway.Message.{new_units, unit_parents}
use aleph_bft.Terminal.{Terminal, Coord-discrete, new, add_to_store}
use aleph_bft.Terminal.Events.{
  TerminalInput, received, channel_closed, exit_signal, run, handle_events,
}
use aleph_bft.Terminal.Stages.{InOrder, nothing, after, in_dag_of}
use aleph_bft.Terminal.Work.{work}
use aleph_bft.Terminal.Order.{run-InOrder, added-handle_events}

abbrev folded : NodeMap ℕ → ℕ
folded [] = 7
folded (none ∷ m) = 3 * folded m
folded (some h ∷ m) = h + 3 * folded m

instance abbrev toy_hasher : ParentHasher ℕ
toy_hasher = record { hash_parents = folded }

abbrev unit_of : ℕ → ℕ → ℕ → List Bool → ℕ → ConsensusUnit ℕ
unit_of hash round creator mask combined = record {
  pre_unit = record {
    coord = record { round = round; creator = creator };
    control_hash = record { parents_mask = mask; combined_hash = combined };
  };
  hash = hash;
}

abbrev first : ConsensusUnit ℕ
first = unit_of 10 0 0 (false ∷ false ∷ false ∷ []) 189

abbrev second : ConsensusUnit ℕ
second = unit_of 11 0 1 (false ∷ false ∷ false ∷ []) 189

abbrev child : ConsensusUnit ℕ
child = unit_of 20 1 0 (true ∷ true ∷ false ∷ []) 232

-- Its control hash is of the parents 12 and 11, where 12 is the other unit of node 0.
abbrev forking : ConsensusUnit ℕ
forking = unit_of 12 0 0 (false ∷ false ∷ false ∷ []) 189

abbrev misled : ConsensusUnit ℕ
misled = unit_of 21 1 1 (true ∷ true ∷ false ∷ []) 234

abbrev inputs : List (TerminalInput ℕ)
inputs =
    received (new_units (child ∷ first ∷ []))
    ∷ channel_closed
    ∷ received (new_units (second ∷ misled ∷ []))
    ∷ received (new_units (forking ∷ []))
    ∷ received (unit_parents 21 (12 ∷ 11 ∷ []))
    ∷ exit_signal
    ∷ received (new_units (first ∷ []))
    ∷ []

abbrev reached : Exec (Terminal ℕ) → Terminal ℕ
reached (ok s) = s
reached panic = new 5
reached out_of_fuel = new 6

abbrev ended : Terminal ℕ
ended = reached (run 8 (new 2) inputs)

runs :
    (run 8 (new 2) inputs ≡ ok ended)
    × (map (λ u. u.unit.hash) ended.inserted ≡ 10 ∷ 11 ∷ 20 ∷ 12 ∷ 21 ∷ [])
    × (ended.exiting ≡ true)
    × (run 0 (new 2) inputs ≡ out_of_fuel)
unfolding run new NodeSubset.elements Coord-discrete ℕ_discrete NodeSubset.size
runs = (refl, refl, refl, refl)

run-InOrder_example :
    InOrder ended.inserted nothing
    × ((h : ℕ) → in_dag_of ended.unit_store h ≡ after ended.inserted nothing h)
run-InOrder_example = run-InOrder 8 2 inputs ended runs.0

abbrev waiting_child : Terminal ℕ
waiting_child = reached (run 8 (new 2) (received (new_units (child ∷ first ∷ [])) ∷ []))

abbrev added_second : Terminal ℕ
added_second = reached (add_to_store waiting_child second)

adds :
    (run 8 (new 2) (received (new_units (child ∷ first ∷ [])) ∷ []) ≡ ok waiting_child)
    × (add_to_store waiting_child second ≡ ok added_second)
    × (work added_second ≡ 4)
unfolding run add_to_store new NodeSubset.elements Coord-discrete ℕ_discrete NodeSubset.size
adds = (refl, refl, refl)

added-handle_events_example :
    (s' : Terminal ℕ) × (handle_events 4 added_second ≡ ok s') × (s'.event_queue ≡ [])
added-handle_events_example =
    added-handle_events 8 4 2 (received (new_units (child ∷ first ∷ [])) ∷ []) waiting_child
      added_second second adds.0 adds.1 (omega (arith, adds.2))
