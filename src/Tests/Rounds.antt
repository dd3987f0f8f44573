-- ===== src/Tests/Rounds.antt =====
-- Node 0 of four creates its units of two rounds, the second from units of nodes 0, 1 and 2.
use aleph_bft.Prelude.{
  ℕ, ◌-◌, ◌≡◌, refl, true, false, some, List, [], ◌∷◌, Channel, ok, length, ℕ_discrete,
}
use aleph_bft.Nodes.NodeMap
use aleph_bft.Nodes.NodeMap.{NodeMap}
use aleph_bft.Units.{ConsensusUnit, ParentHasher}
use aleph_bft.Creation.Creator.{can_create}
use aleph_bft.Creation.Run.{Event, parent, delay_passed, run}
use aleph_bft.Creation.Rounds.{Sent, run-Sent}
use aleph_bft.Runway.Message.{NotificationOut, created_pre_unit}

instance abbrev toy_hasher : ParentHasher ℕ
toy_hasher = record { hash_parents = λ m. length m }

abbrev first_of : ℕ → ConsensusUnit ℕ
first_of creator = record {
  pre_unit = record {
    coord = record { round = 0; creator = creator };
    control_hash = record { parents_mask = false ∷ false ∷ false ∷ false ∷ []; combined_hash = 4 };
  };
  hash = creator;
}

abbrev events : List (Event ℕ)
events =
    delay_passed
    ∷ parent (first_of 0)
    ∷ parent (first_of 1)
    ∷ delay_passed
    ∷ parent (first_of 2)
    ∷ []

abbrev quiet : Channel (NotificationOut ℕ)
quiet = record { sent = []; is_open = true }

abbrev both : Channel (NotificationOut ℕ)
both = record quiet {
  sent =
      created_pre_unit
        (record {
          coord = record { round = 0; creator = 0 };
          control_hash = record {
            parents_mask = false ∷ false ∷ false ∷ false ∷ [];
            combined_hash = 4;
          };
        })
        []
      ∷ created_pre_unit
          (record {
            coord = record { round = 1; creator = 0 };
            control_hash = record {
              parents_mask = true ∷ true ∷ true ∷ false ∷ [];
              combined_hash = 4;
            };
          })
          (0 ∷ 1 ∷ 2 ∷ [])
      ∷ [];
}

creates : run 0 4 2 (some 0) quiet events ≡ ok both
unfolding run NodeMap.with_size NodeMap.to_subset ℕ_discrete can_create
creates = refl

run-Sent_example : Sent 0 (2 - 0) 0 quiet both
run-Sent_example = run-Sent 0 4 2 0 quiet both events creates
