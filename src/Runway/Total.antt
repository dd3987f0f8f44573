-- ===== src/Runway/Total.antt =====
-- src/runway.rs: what units that arrive make of the runway.
pub mod Response
pub mod Message
use aleph_bft.Prelude.{
  ℕ, suc, ◌+◌, ◌≤◌, ◌<◌, ◌≡◌, refl, sym, ap, ◌∙◌, ◌⊎◌, inl, inr, Bool, true, false, not, Option,
  none, some, List, [], ◌∷◌, Eq, arith, if◌then◌else◌, Exec, ok, ◌>>=◌, Bool-cases, Option-cases,
  length, length-set, Returns, Channel, send, exiting_after,
}
use aleph_bft.Prelude.HashSet
use aleph_bft.Nodes.{NodeIndex}
use aleph_bft.Units.{UnitHasher, UnitCoord}
use aleph_bft.Units.Store
use aleph_bft.Units.Store.{SignedUnit, UnitStore, full, coord_of, coord_eq}
use aleph_bft.Units.Store.Valid
use aleph_bft.Units.Store.Marks.{
  with_mark, mark_forker_lem, is_forker_returns, with_mark-IsValid, add_unit_returns,
}
use aleph_bft.Alerts.{UncheckedSignedUnit, ForkProof, unit_signable}
use aleph_bft.Runway.Message.{Keys, Request, NotificationIn}
use aleph_bft.Runway.State.{Runway, resolve_missing_coord, send_resolved_request_notification}
use aleph_bft.Runway.Validate.{validate_unit}
use aleph_bft.Runway.Accepted.{IsAcceptable, validate_unit_accepts}
use aleph_bft.Runway.Receive.{
  form_alert, on_new_forker_detected, on_fork, store_unit, add_unit_to_store_unless_fork,
  on_unit_received,
}

module _ {H D S : Type 0} ⦃e : Eq H⦄ ⦃h : UnitHasher H D⦄ where
  -- A store whose indices agree, with a mark for each of the `n` members; this node is `i`, and
  -- `told` is what the consensus was told.
  pub record IsSound (n i : NodeIndex) (told : Channel (NotificationIn H)) (s : Runway H D S)
      : Type 0 where
    pub members : s.n_members ≡ n
    pub own : s.node_ix ≡ i
    pub stored : Valid.IsValid s.store
    pub marks : length s.store.forkers ≡ n
    pub same_told : s.tx_consensus ≡ told

  pub on_fork_new :
      (s : Runway H D S) (su sv : SignedUnit H D S)
      → Store.is_forker s.store (coord_of (full su)).creator ≡ ok false
      → on_fork s su sv
        ≡ on_new_forker_detected s (coord_of (full su)).creator (su.unchecked, sv.unchecked)
  unfolding on_fork
  on_fork_new s su sv unmarked = rw (on_fork, unmarked) refl

module _ {H D S : Type 0} ⦃e : Eq H⦄ ⦃h : UnitHasher H D⦄ (n i : NodeIndex)
    (told : Channel (NotificationIn H)) where
  pub resolve_missing_coord-IsSound :
      (s : Runway H D S) (c : UnitCoord)
      → IsSound n i told s
      → IsSound n i told (resolve_missing_coord s c)
  unfolding resolve_missing_coord send_resolved_request_notification
  resolve_missing_coord-IsSound s c v = elim (Bool-cases (HashSet.contains c s.missing_coords)) [
    | inl missing ↦
        rw (resolve_missing_coord, missing)
          (record {
            members = v.members;
            own = v.own;
            stored = v.stored;
            marks = v.marks;
            same_told = v.same_told;
          })
    | inr other ↦ rw (resolve_missing_coord, other) v
  ]

  pub on_new_forker_detected-IsSound :
      (s : Runway H D S) (node_id : NodeIndex) (proof : ForkProof H D S)
      → IsSound n i told s
      → node_id < n
      → Returns (IsSound n i told) (on_new_forker_detected s node_id proof)
  unfolding on_new_forker_detected
  on_new_forker_detected-IsSound s node_id proof v member =
      rw (on_new_forker_detected, mark_forker_lem s.store node_id (omega (arith, v.marks)))
        (record {
          members = v.members;
          own = v.own;
          stored = with_mark-IsValid s.store node_id v.stored;
          marks = length-set s.store.forkers node_id true ∙ v.marks;
          same_told = v.same_told;
        })

  pub store_unit-IsSound :
      (s : Runway H D S) (su : SignedUnit H D S)
      → IsSound n i told s
      → (coord_of (full su)).creator < n
      → Returns (IsSound n i told) (store_unit s su false)
  unfolding store_unit
  store_unit-IsSound s su v member =
      let (marked, at_creator) =
        is_forker_returns s.store (coord_of (full su)).creator (omega (arith, v.marks)) in
      let (store, done, valid, same, _) =
        add_unit_returns s.store su false marked v.stored at_creator (inl refl) in
      rw (store_unit, done)
        (record {
          members = v.members;
          own = v.own;
          stored = valid;
          marks = ap length same ∙ v.marks;
          same_told = v.same_told;
        })

  pub add_unit_to_store_unless_fork-IsSound :
      (s : Runway H D S) (su : SignedUnit H D S)
      → IsSound n i told s
      → (coord_of (full su)).creator < n
      → Returns (IsSound n i told) (add_unit_to_store_unless_fork s su)
  unfolding add_unit_to_store_unless_fork
  add_unit_to_store_unless_fork-IsSound s su v member =
      let (marked, at_creator) =
        is_forker_returns s.store (coord_of (full su)).creator (omega (arith, v.marks)) in
      elim (Bool-cases marked) [
        | inl old ↦
            let known = at_creator ∙ ap ok old in rw (add_unit_to_store_unless_fork, known) v
        | inr new ↦
            let known = at_creator ∙ ap ok new in
            elim (Option-cases (Store.is_new_fork s.store (full su))) [
              | inl no_fork ↦
                  rw (add_unit_to_store_unless_fork, known, no_fork)
                    (store_unit-IsSound s su v member)
              | inr (sv, forked) ↦
                  rw (add_unit_to_store_unless_fork, known, forked, on_fork_new s su sv known)
                    (on_new_forker_detected-IsSound s (coord_of (full su)).creator
                      (su.unchecked, sv.unchecked) v member)
            ]
      ]

  pub on_unit_received-IsSound :
      (s : Runway H D S) (keys : Keys H D S) (uu : UncheckedSignedUnit H D S)
      → IsSound n i told s
      → Returns (IsSound n i told) (on_unit_received s keys uu false)
  unfolding on_unit_received
  on_unit_received-IsSound s keys uu v =
      let (r, done, judged) = validate_unit_accepts s keys uu in
      elim judged [
        | inr (left, _) ↦ rw (on_unit_received, done, left) v
        | inl (taken, _, (_, _, member, _)) ↦
            rw (on_unit_received, done, taken)
              (add_unit_to_store_unless_fork-IsSound
                (resolve_missing_coord s uu.signable.pre_unit.coord) (record { unchecked = uu })
                (resolve_missing_coord-IsSound s uu.signable.pre_unit.coord v)
                (omega (arith, v.members)))
      ]
