-- ===== src/Creation/Run.antt =====
-- src/creation/mod.rs: the loop that creates this node's unit of each round.
use aleph_bft.Prelude.{
  ℕ, zero, suc, ◌-◌, Bool, true, Option, none, some, List, [], ◌∷◌, if◌then◌else◌, ltb, Exec, ok,
  out_of_fuel, ◌>>=◌, Channel, send,
}
use aleph_bft.Nodes.{NodeIndex, NodeCount}
use aleph_bft.Units.{Round, PreUnit, ConsensusUnit, ParentHasher}
use aleph_bft.Creation.Creator
use aleph_bft.Creation.Creator.{Creator}
use aleph_bft.Runway.Message.{NotificationOut, created_pre_unit}

-- What `select!` picks: a unit of the DAG, the end of the delay, the exit, or a closed channel.
pub data Event (H : Type 0) : Type 0 where
  parent : ConsensusUnit H → Event H
  delay_passed : Event H
  exit : Event H
  closed : Event H

-- The end of the wait for a unit: it was created, with the creator and the events that are left, or
-- the process stops.
pub data Waited (H : Type 0) : Type 0 where
  created : PreUnit H → List H → Creator H → List (Event H) → Waited H
  stopped : Waited H

module _ {H : Type 0} ⦃p : ParentHasher H⦄ where
  unfoldable pub attempt : Creator H → Round → Bool → Exec (Option (PreUnit H × List H))
  unfolding Creator.create_unit
  attempt c round can_create = if can_create then Creator.create_unit c round else ok none

  -- The loop, an event for each turn; with no event left it is cut off.
  unfoldable pub create_unit : Creator H → Round → Bool → List (Event H) → Exec (Waited H)
  unfolding attempt Creator.add_unit
  create_unit c round can_create [] = do
    result ← attempt c round can_create
    elim result [ some (u, ps) ↦ ok (created u ps c []) | none ↦ out_of_fuel ]
  create_unit c round can_create (event ∷ events) = do
    result ← attempt c round can_create
    elim result [
      | some (u, ps) ↦ ok (created u ps c (event ∷ events))
      | none ↦ elim event [
        | parent u ↦ do c' ← Creator.add_unit c u; create_unit c' round can_create events
        | delay_passed ↦ create_unit c round true events
        | exit ↦ ok stopped
        | closed ↦ ok stopped
      ]
    ]

  -- The loop over the rounds, of which `n` are left.
  unfoldable pub create_units :
      ℕ
      → Round
      → Creator H
      → Channel (NotificationOut H)
      → List (Event H)
      → Exec (Channel (NotificationOut H))
  unfolding create_unit Creator.current_round
  create_units zero round c outgoing events = ok outgoing
  create_units (suc n) round c outgoing events = do
    waited ← create_unit c round (ltb round (Creator.current_round c)) events
    elim waited [
      | stopped ↦ ok outgoing
      | created u ps c' events' ↦
          if outgoing.is_open
          then create_units n (suc round) c' (send outgoing (created_pre_unit u ps)) events'
          else ok outgoing
    ]

  -- What was sent when the process ends.
  unfoldable pub run :
      NodeIndex
      → NodeCount
      → Round
      → Option Round
      → Channel (NotificationOut H)
      → List (Event H)
      → Exec (Channel (NotificationOut H))
  unfolding create_units Creator.new
  run node_id n_members max_round none outgoing events = ok outgoing
  run node_id n_members max_round (some starting_round) outgoing events =
      create_units (max_round - starting_round) starting_round (Creator.new node_id n_members)
        outgoing events
