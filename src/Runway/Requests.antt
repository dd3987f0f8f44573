-- ===== src/Runway/Requests.antt =====
-- src/runway.rs: requests for units, and the responses to this node's requests.
use aleph_bft.Prelude.{
  ℕ, suc, ◌+◌, false, not, Option, none, some, List, [], ◌∷◌, Eq, if◌then◌else◌, ltb, ◌==◌, u16,
  Exec, ok, ◌>>=◌, index, length, send, nat_eq,
}
use aleph_bft.Prelude.HashSet
use aleph_bft.Nodes.{NodeIndex}
use aleph_bft.Nodes.NodeMap
use aleph_bft.Nodes.NodeMap.{NodeMap}
use aleph_bft.Signed.{UncheckedSigned, valid, signature_error, check, as_signable, sign}
use aleph_bft.Units
use aleph_bft.Units.{Round, UnitCoord, UnitHasher, ParentHasher, combine_hashes, hash_of}
use aleph_bft.Units.Store
use aleph_bft.Units.Store.{SignedUnit, UnitStore, full, coord_of}
use aleph_bft.Alerts.{UncheckedSignedUnit, unit_signable, same}
use aleph_bft.Runway.Message.{
  Keys, unit_parents, NewestUnitResponse, response_signable, Request, Response,
  RunwayNotificationOut, RunwayNotificationIn,
}
use aleph_bft.Runway.State.{
  Runway, send_message_for_network, send_consensus_notification, resolve_missing_coord,
  is_starting_round_ready, resolve_starting_round,
}
use aleph_bft.Runway.Validate.{validate_unit}
use aleph_bft.Runway.Receive.{on_unit_received, add_unit_to_store_unless_fork}

module _ {H D S : Type 0} where
  unfoldable pub on_request_coord : Runway H D S → NodeIndex → UnitCoord → Runway H D S
  unfolding Store.unit_by_coord send_message_for_network
  on_request_coord s node_id coord = elim (Store.unit_by_coord s.store coord) [
    | none ↦ s
    | some su ↦
        send_message_for_network s
          (RunwayNotificationOut.response (Response.coord su.unchecked) node_id)
  ]

  -- A response that is lost is only logged.
  unfoldable pub on_request_newest : Runway H D S → Keys H D S → NodeIndex → ℕ → Exec (Runway H D S)
  unfolding Store.newest_unit sign
  on_request_newest s keys requester salt = do
    signed ← sign keys.responses (record {
      requester = requester;
      responder = s.node_ix;
      unit = Store.newest_unit s.store requester;
      salt = salt;
    })
    ok (record s {
      unit_messages_for_network =
          send s.unit_messages_for_network
            (RunwayNotificationOut.response (Response.newest_unit signed.unchecked) requester);
    })

module _ {H D S : Type 0} ⦃e : Eq H⦄ ⦃h : UnitHasher H D⦄ where
  -- The stored units of the hashes, if all are stored.
  unfoldable pub units_of : UnitStore H D S → List H → Option (List (UncheckedSignedUnit H D S))
  unfolding Store.unit_by_hash
  units_of store [] = some []
  units_of store (q ∷ qs) = elim (Store.unit_by_hash store q) [
    | none ↦ none
    | some fu ↦ elim (units_of store qs) [ none ↦ none | some fus ↦ some (fu.unchecked ∷ fus) ]
  ]

  unfoldable pub on_request_parents : Runway H D S → NodeIndex → H → Runway H D S
  unfolding Store.get_parents units_of send_message_for_network
  on_request_parents s node_id u_hash = elim (Store.get_parents s.store u_hash) [
    | none ↦ s
    | some p_hashes ↦ elim (units_of s.store p_hashes) [
      | none ↦ s
      | some full_units ↦
          send_message_for_network s
            (RunwayNotificationOut.response (Response.parents u_hash full_units) node_id)
    ]
  ]

  -- A parent that passed the validation, the `i`-th; `none` where the code gives the response up.
  unfoldable pub take_parent :
      Runway H D S
      → Round
      → List NodeIndex
      → ℕ
      → SignedUnit H D S
      → NodeMap H
      → Exec (Runway H D S × Option (NodeMap H))
  unfolding resolve_missing_coord add_unit_to_store_unless_fork hash_of NodeMap.insert
  take_parent s u_round parent_ids i su p_hashes =
      let coord = coord_of (full su) in
      if not (u16 (coord.round + 1) == u_round) then ok (s, none) else (do
        id ← index parent_ids i
        (if not (coord.creator == id) then ok (s, none) else (do
          p_hashes' ← NodeMap.insert p_hashes coord.creator (hash_of (full su))
          s' ← add_unit_to_store_unless_fork (resolve_missing_coord s coord) su
          ok (s', some p_hashes'))))

  -- The loop over the parents of a response.
  unfoldable pub take_parents :
      Runway H D S
      → Keys H D S
      → Round
      → List NodeIndex
      → ℕ
      → List (UncheckedSignedUnit H D S)
      → NodeMap H
      → Exec (Runway H D S × Option (NodeMap H))
  unfolding validate_unit take_parent
  take_parents s keys u_round parent_ids i [] p_hashes = ok (s, some p_hashes)
  take_parents s keys u_round parent_ids i (uu ∷ uus) p_hashes = do
    validated ← validate_unit s keys uu
    elim validated [
      | none ↦ ok (s, none)
      | some su ↦ do
        (s', taken) ← take_parent s u_round parent_ids i su p_hashes
        elim taken [
          | none ↦ ok (s', none)
          | some p_hashes' ↦ take_parents s' keys u_round parent_ids (suc i) uus p_hashes'
        ]
    ]

  -- The state is what the units of the response made of it, also where the hash is wrong.
  unfoldable pub accept_parents :
      ⦃p : ParentHasher H⦄ → Runway H D S → H → H → Option (NodeMap H) → Runway H D S
  unfolding combine_hashes NodeMap.values Store.add_parents send_consensus_notification
  accept_parents s u_hash u_control_hash none = s
  accept_parents s u_hash u_control_hash (some p_hashes) =
      if not (same (combine_hashes p_hashes) u_control_hash)
      then s
      else send_consensus_notification
          (record s { store = Store.add_parents s.store u_hash (NodeMap.values p_hashes) })
          (unit_parents u_hash (NodeMap.values p_hashes))

  unfoldable pub on_parents_response :
      ⦃p : ParentHasher H⦄
      → Runway H D S
      → Keys H D S
      → H
      → List (UncheckedSignedUnit H D S)
      → Exec (Runway H D S)
  unfolding Store.get_parents Store.unit_by_hash take_parents accept_parents Units.parents
      NodeMap.with_size
  on_parents_response s keys u_hash uus = elim (Store.get_parents s.store u_hash) [
    | some _ ↦ ok s
    | none ↦ elim (Store.unit_by_hash s.store u_hash) [
      | none ↦ ok s
      | some u ↦
          let control_hash = (full u).pre_unit.control_hash in
          let parent_ids = Units.parents control_hash in
          if not (length parent_ids == length uus) then ok s else (do
            (s', taken) ←
                take_parents s keys (coord_of (full u)).round parent_ids 0 uus
                  (NodeMap.with_size s.n_members)
            ok (accept_parents s' u_hash control_hash.combined_hash taken))
    ]
  ]

  -- The unit of a newest response, if there is one; `none` where the code ignores the response.
  unfoldable pub on_newest_unit :
      Runway H D S → Keys H D S → Option (UncheckedSignedUnit H D S) → Exec (Option (Runway H D S))
  unfolding validate_unit Store.unit_by_hash hash_of on_unit_received
  on_newest_unit s keys none = ok (some s)
  on_newest_unit s keys (some uu) = do
    validated ← validate_unit s keys uu
    elim validated [
      | none ↦ ok none
      | some su ↦
          if not ((coord_of (full su)).creator == s.node_ix)
          then ok none
          else elim (Store.unit_by_hash s.store (hash_of (full su))) [
            | some _ ↦ ok (some s)
            | none ↦ do
              let candidate = u16 ((coord_of (full su)).round + 1)
              s' ← on_unit_received s keys su.unchecked false
              ok (
                  some (record s' {
                    starting_round_value =
                        if ltb s'.starting_round_value candidate
                        then candidate
                        else s'.starting_round_value;
                  }))
          ]
    ]

  unfoldable pub add_responder : Runway H D S → NodeIndex → Runway H D S
  unfolding HashSet.insert is_starting_round_ready resolve_starting_round
  add_responder s responder =
      let counted = record s {
        newest_unit_responders = HashSet.insert responder s.newest_unit_responders;
      } in
      if is_starting_round_ready counted then resolve_starting_round counted else counted

  unfoldable pub on_newest_response :
      Runway H D S → Keys H D S → UncheckedSigned (NewestUnitResponse H D S) S → Exec (Runway H D S)
  unfolding check as_signable on_newest_unit add_responder
  on_newest_response s keys unchecked =
      if not s.starting_round_sender then ok s else elim (check keys.responses unchecked) [
        | signature_error _ ↦ ok s
        | valid signed ↦
            let response = as_signable signed in
            if not (response.salt == s.salt) then ok s else (do
              taken ← on_newest_unit s keys response.unit
              elim taken [ none ↦ ok s | some s' ↦ ok (add_responder s' response.responder) ])
      ]

  unfoldable pub on_unit_message :
      ⦃p : ParentHasher H⦄
      → Runway H D S
      → Keys H D S
      → RunwayNotificationIn H D S
      → Exec (Runway H D S)
  unfolding on_unit_received on_request_coord on_request_parents on_request_newest
      on_parents_response on_newest_response
  on_unit_message s keys (RunwayNotificationIn.new_unit u) = on_unit_received s keys u false
  on_unit_message s keys (RunwayNotificationIn.request (Request.coord c) node_id) =
      ok (on_request_coord s node_id c)
  on_unit_message s keys (RunwayNotificationIn.request (Request.parents u_hash) node_id) =
      ok (on_request_parents s node_id u_hash)
  on_unit_message s keys (RunwayNotificationIn.request (Request.newest_unit salt) node_id) =
      on_request_newest s keys node_id salt
  on_unit_message s keys (RunwayNotificationIn.response (Response.coord u)) =
      on_unit_received s keys u false
  on_unit_message s keys (RunwayNotificationIn.response (Response.parents u_hash ps)) =
      on_parents_response s keys u_hash ps
  on_unit_message s keys (RunwayNotificationIn.response (Response.newest_unit r)) =
      on_newest_response s keys r
