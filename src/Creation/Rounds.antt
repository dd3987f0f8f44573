-- ===== src/Creation/Rounds.antt =====
-- src/creation/mod.rs: the rounds of the units that are created.
use aleph_bft.Prelude.{
  ℕ, zero, suc, ◌-◌, ◌≤◌, ◌≡◌, refl, sym, ap, ◌∙◌, subst, ◌⊎◌, inl, inr, Bool, true, some, List, [],
  ◌∷◌, ◌++◌, arith, ltb, Exec, ok, ◌>>=◌, bind_returns, ok_injective, Bool-cases, Option-cases,
  length, Channel, send,
}
use mathlib.Core.List.{append_assoc, append-nil}
use aleph_bft.Nodes.{NodeIndex, NodeCount}
use aleph_bft.Units.{Round, PreUnit, ConsensusUnit, ParentHasher, new_coord, new_pre_unit}
use aleph_bft.Creation.Creator
use aleph_bft.Creation.Creator.{Creator}
use aleph_bft.Creation.Run.{
  Event, parent, delay_passed, exit, closed, Waited, created, stopped, attempt, create_unit,
  create_units, run,
}
use aleph_bft.Runway.Message.{
  NotificationOut, created_pre_unit, missing_units, wrong_control_hash, added_to_dag,
}

module _ {H : Type 0} ⦃p : ParentHasher H⦄ where
  -- A unit of the node for each round from `round` on.
  abbrev pub Consecutive : NodeIndex → Round → List (NotificationOut H) → Type 0
  Consecutive i round [] = Unit
  Consecutive i round (created_pre_unit u ps ∷ rest) =
      (u.coord ≡ new_coord round i) × Consecutive i (suc round) rest
  Consecutive i round (missing_units cs ∷ rest) = ⊥
  Consecutive i round (wrong_control_hash q ∷ rest) = ⊥
  Consecutive i round (added_to_dag q ps ∷ rest) = ⊥

  add_unit-node_id :
      (c c' : Creator H) (u : ConsensusUnit H)
      → Creator.add_unit c u ≡ ok c'
      → c'.node_id ≡ c.node_id
  unfolding Creator.add_unit Creator.add_candidate Creator.init_round
  add_unit-node_id c c' u done = ground arith

  attempt-coord :
      (c : Creator H) (round : Round) (can_create : Bool) (u : PreUnit H) (ps : List H)
      → attempt c round can_create ≡ ok (some (u, ps))
      → u.coord ≡ new_coord round c.node_id
  unfolding attempt Creator.create_unit new_pre_unit
  attempt-coord c round can_create u ps done = ground arith

  -- Where a unit was created, it is of the round and of the node, whose creator went on.
  IsOf : NodeIndex → Round → Waited H → Type 0
  IsOf i round stopped = Unit
  IsOf i round (created u ps c events) = (u.coord ≡ new_coord round i) × (c.node_id ≡ i)

  made-IsOf :
      (c : Creator H) (round : Round) (can_create : Bool) (u : PreUnit H) (ps : List H)
      (events : List (Event H)) (w : Waited H)
      → attempt c round can_create ≡ ok (some (u, ps))
      → ok (created u ps c events) ≡ ok w
      → IsOf c.node_id round w
  unfolding IsOf
  made-IsOf c round can_create u ps events w tried done =
      subst (IsOf c.node_id round) (ok_injective done)
        (attempt-coord c round can_create u ps tried, refl)

  create_unit-IsOf :
      (c : Creator H) (round : Round) (can_create : Bool) (events : List (Event H)) (w : Waited H)
      → create_unit c round can_create events ≡ ok w
      → IsOf c.node_id round w
  unfolding create_unit IsOf
  create_unit-IsOf c round can_create [] w done =
      let (result, tried, rest) = bind_returns (attempt c round can_create) _ done in
      elim (Option-cases result) [
        | inl nothing ↦ absurd (ground arith)
        | inr ((u, ps), it) ↦
            made-IsOf c round can_create u ps [] w (tried ∙ ap ok it) (ground arith)
      ]
  create_unit-IsOf c round can_create (parent v ∷ events) w done =
      let (result, tried, rest) = bind_returns (attempt c round can_create) _ done in
      elim (Option-cases result) [
        | inr ((u, ps), it) ↦
            made-IsOf c round can_create u ps (parent v ∷ events) w (tried ∙ ap ok it)
              (ground arith)
        | inl nothing ↦
            let onward : (Creator.add_unit c v >>= λ c'. create_unit c' round can_create events)
                ≡ ok w =
              ground arith in
            let (c', added, again) = bind_returns (Creator.add_unit c v) _ onward in
            subst (λ i. IsOf i round w) (add_unit-node_id c c' v added)
              (create_unit-IsOf c' round can_create events w again)
      ]
  create_unit-IsOf c round can_create (delay_passed ∷ events) w done =
      let (result, tried, rest) = bind_returns (attempt c round can_create) _ done in
      elim (Option-cases result) [
        | inr ((u, ps), it) ↦
            made-IsOf c round can_create u ps (delay_passed ∷ events) w (tried ∙ ap ok it)
              (ground arith)
        | inl nothing ↦ create_unit-IsOf c round true events w (ground arith)
      ]
  create_unit-IsOf c round can_create (exit ∷ events) w done =
      let (result, tried, rest) = bind_returns (attempt c round can_create) _ done in
      elim (Option-cases result) [
        | inr ((u, ps), it) ↦
            made-IsOf c round can_create u ps (exit ∷ events) w (tried ∙ ap ok it) (ground arith)
        | inl nothing ↦
            let halted : ◌≡◌ {A = Exec (Waited H)} (ok stopped) (ok w) = ground arith in
            subst (IsOf c.node_id round) (ok_injective halted) tt
      ]
  create_unit-IsOf c round can_create (closed ∷ events) w done =
      let (result, tried, rest) = bind_returns (attempt c round can_create) _ done in
      elim (Option-cases result) [
        | inr ((u, ps), it) ↦
            made-IsOf c round can_create u ps (closed ∷ events) w (tried ∙ ap ok it) (ground arith)
        | inl nothing ↦
            let halted : ◌≡◌ {A = Exec (Waited H)} (ok stopped) (ok w) = ground arith in
            subst (IsOf c.node_id round) (ok_injective halted) tt
      ]

  Waited-cases :
      (w : Waited H)
      → (w ≡ stopped)
        ⊎ (u : PreUnit H) × (ps : List H) × (c : Creator H) × (events : List (Event H)) × (w
            ≡ created u ps c events)
  Waited-cases stopped = inl refl
  Waited-cases (created u ps c events) = inr (u, ps, c, events, refl)

  -- The units that were sent between two states of the channel: at most `n`, of the rounds from
  -- `round` on.
  abbrev pub Sent :
      NodeIndex → ℕ → Round → Channel (NotificationOut H) → Channel (NotificationOut H) → Type 0
  Sent i n round outgoing outgoing' =
      (units : List (NotificationOut H)) × (outgoing'.sent ≡ outgoing.sent ++ units)
      × (length units ≤ n)
      × Consecutive i round units

  over :
      (i : NodeIndex) (n : ℕ) (round : Round) (outgoing outgoing' : Channel (NotificationOut H))
      → ok outgoing ≡ ok outgoing'
      → Sent i n round outgoing outgoing'
  over i n round outgoing outgoing' done =
      subst (Sent i n round outgoing) (ok_injective done)
        ([], sym (append-nil outgoing.sent), omega arith, tt)

  create_units-Sent :
      (i : NodeIndex) (n : ℕ) (round : Round) (c : Creator H)
      (outgoing outgoing' : Channel (NotificationOut H)) (events : List (Event H))
      → c.node_id ≡ i
      → create_units n round c outgoing events ≡ ok outgoing'
      → Sent i n round outgoing outgoing'
  unfolding create_units IsOf
  create_units-Sent i zero round c outgoing outgoing' events own done =
      over i 0 round outgoing outgoing' done
  create_units-Sent i (suc n) round c outgoing outgoing' events own done =
      let (w, waited, rest) =
        bind_returns (create_unit c round (ltb round (Creator.current_round c)) events) _ done in
      let of_node = create_unit-IsOf c round _ events w waited in
      elim (Waited-cases w) [
        | inl halted ↦ over i (suc n) round outgoing outgoing' (ground arith)
        | inr (u, ps, c', events', made) ↦ elim (Bool-cases outgoing.is_open) [
          | inr gone ↦ over i (suc n) round outgoing outgoing' (ground arith)
          | inl listens ↦
              let (at_coord, same) = subst (IsOf c.node_id round) made of_node in
              let (units, added, few, later) =
                create_units-Sent i n (suc round) c' (send outgoing (created_pre_unit u ps))
                  outgoing' events' (same ∙ own) (ground arith) in
              let grown : (send outgoing (created_pre_unit u ps)).sent
                  ≡ outgoing.sent ++ created_pre_unit u ps ∷ [] =
                rw listens refl in
              (
                created_pre_unit u ps ∷ units,
                added
                    ∙ ap (λ l. l ++ units) grown
                    ∙ append_assoc outgoing.sent (created_pre_unit u ps ∷ []) units,
                omega (arith, few),
                (at_coord ∙ ap (new_coord round) own, later),
              )
        ]
      ]

  -- When the process ends, what it sent are units of this node, one for each round from the starting
  -- round on, in this order, of rounds below the maximum.
  pub run-Sent :
      (i : NodeIndex) (n_members : NodeCount) (max_round starting_round : Round)
      (outgoing outgoing' : Channel (NotificationOut H)) (events : List (Event H))
      → run i n_members max_round (some starting_round) outgoing events ≡ ok outgoing'
      → Sent i (max_round - starting_round) starting_round outgoing outgoing'
  unfolding run Creator.new
  run-Sent i n_members max_round starting_round outgoing outgoing' events done =
      create_units-Sent i (max_round - starting_round) starting_round (Creator.new i n_members)
        outgoing outgoing' events refl done
