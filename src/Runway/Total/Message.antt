-- ===== src/Runway/Total/Message.antt =====
-- src/runway.rs: all messages of the network.
use aleph_bft.Prelude.{
  ℕ, ◌≡◌, refl, ap, ◌∙◌, inl, inr, true, false, Option, none, some, Eq, arith, ◌==◌, ok, Bool-cases,
  Option-cases, length, nat_eq, Returns, Returns-ok, Channel,
}
use aleph_bft.Prelude.HashSet
use aleph_bft.Nodes.{NodeIndex}
use aleph_bft.Signed.{UncheckedSigned, check, sign}
use aleph_bft.Units.{UnitCoord, UnitHasher, ParentHasher, hash_of}
use aleph_bft.Units.Store
use aleph_bft.Units.Store.{SignedUnit, full, coord_of}
use aleph_bft.Alerts.{UncheckedSignedUnit}
use aleph_bft.Runway.Message.{
  Keys, NotificationIn, NewestUnitResponse, response_signable, Request, Response,
  RunwayNotificationIn,
}
use aleph_bft.Runway.State.{
  Runway, send_message_for_network, is_starting_round_ready, resolve_starting_round,
}
use aleph_bft.Runway.Accepted.{validate_unit_accepts}
use aleph_bft.Runway.Receive.{on_unit_received}
use aleph_bft.Runway.Requests.{
  on_request_coord, on_request_newest, units_of, on_request_parents, on_newest_unit, add_responder,
  on_newest_response, on_unit_message,
}
use aleph_bft.Runway.Total.{IsSound, on_unit_received-IsSound}
use aleph_bft.Runway.Total.Response.{Responded, on_parents_response-Responded}

module _ {H D S : Type 0} ⦃e : Eq H⦄ ⦃h : UnitHasher H D⦄ (n i : NodeIndex) where
  -- Sound, whatever the consensus was told.
  abbrev pub IsRunning : Runway H D S → Type 0
  IsRunning s = (told : Channel (NotificationIn H)) × IsSound n i told s

  -- What is sent to other processes than the consensus does not matter.
  untouched :
      (s s' : Runway H D S)
      → s'.n_members ≡ s.n_members
      → s'.node_ix ≡ s.node_ix
      → s'.store ≡ s.store
      → s'.tx_consensus ≡ s.tx_consensus
      → IsRunning s
      → IsRunning s'
  untouched s s' members own store channel (told, v) = (
    told,
    record {
      members = members ∙ v.members;
      own = own ∙ v.own;
      stored = rw store v.stored;
      marks = ap (λ st. length st.forkers) store ∙ v.marks;
      same_told = channel ∙ v.same_told;
    },
  )

  resolve_starting_round-IsRunning :
      (s : Runway H D S) → IsRunning s → IsRunning (resolve_starting_round s)
  unfolding resolve_starting_round
  resolve_starting_round-IsRunning s v = elim (Bool-cases s.starting_round_sender) [
    | inr gone ↦ simp (resolve_starting_round, gone) v
    | inl there ↦ elim (Bool-cases s.starting_round.is_open) [
      | inl listens ↦
          simp (resolve_starting_round, there, listens) (untouched s _ refl refl refl refl v)
      | inr closed ↦
          simp (resolve_starting_round, there, closed) (untouched s _ refl refl refl refl v)
    ]
  ]

  add_responder-IsRunning :
      (s : Runway H D S) (responder : NodeIndex)
      → IsRunning s
      → IsRunning (add_responder s responder)
  unfolding add_responder
  add_responder-IsRunning s responder v =
      let counted = record s {
        newest_unit_responders = HashSet.insert responder s.newest_unit_responders;
      } in
      elim (Bool-cases (is_starting_round_ready counted)) [
        | inl ready ↦
            rw (add_responder, ready)
              (resolve_starting_round-IsRunning counted (untouched s counted refl refl refl refl v))
        | inr waiting ↦ rw (add_responder, waiting) (untouched s counted refl refl refl refl v)
      ]

  IsNewest : Option (Runway H D S) → Type 0
  IsNewest none = Unit
  IsNewest (some s) = IsRunning s

  on_newest_unit-IsNewest :
      (s : Runway H D S) (keys : Keys H D S) (unit : Option (UncheckedSignedUnit H D S))
      → IsRunning s
      → Returns IsNewest (on_newest_unit s keys unit)
  unfolding on_newest_unit IsNewest
  on_newest_unit-IsNewest s keys none v = v
  on_newest_unit-IsNewest s keys (some uu) v =
      let (r, done, judged) = validate_unit_accepts s keys uu in
      elim judged [
        | inr (left, _) ↦ rw (on_newest_unit, done, left) tt
        | inl (taken, _, _) ↦ elim (Bool-cases (uu.signable.pre_unit.coord.creator == s.node_ix)) [
          | inr alien ↦ rw (on_newest_unit, done, taken, alien) tt
          | inl own ↦ elim (Option-cases (Store.unit_by_hash s.store (hash_of uu.signable))) [
            | inr (su, known) ↦ rw (on_newest_unit, done, taken, own, known) v
            | inl new ↦
                let (s', received, v') =
                  Returns-ok (IsSound n i v.0) _ (on_unit_received-IsSound n i v.0 s keys uu v.1) in
                rw (on_newest_unit, done, taken, own, new, received)
                  (untouched s' _ refl refl refl refl (v.0, v'))
          ]
        ]
      ]

  counted :
      (s : Runway H D S) (responder : NodeIndex) (taken : Option (Runway H D S))
      → IsRunning s
      → IsNewest taken
      → Returns IsRunning (elim taken [ none ↦ ok s | some s' ↦ ok (add_responder s' responder) ])
  unfolding IsNewest
  counted s responder none v v' = v
  counted s responder (some s') v v' = add_responder-IsRunning s' responder v'

  on_newest_response-IsRunning :
      (s : Runway H D S) (keys : Keys H D S) (r : UncheckedSigned (NewestUnitResponse H D S) S)
      → IsRunning s
      → Returns IsRunning (on_newest_response s keys r)
  unfolding on_newest_response check
  on_newest_response-IsRunning s keys r v = elim (Bool-cases s.starting_round_sender) [
    | inr gone ↦ simp (on_newest_response, gone) v
    | inl there ↦
        elim (Bool-cases (keys.responses.verify r.signable r.signature r.signable.responder)) [
          | inr bad ↦ simp (on_newest_response, there, check, bad) v
          | inl good ↦ elim (Bool-cases (r.signable.salt == s.salt)) [
            | inr other ↦ simp (on_newest_response, there, check, good, other) v
            | inl ours ↦
                let (taken, done, v') =
                  Returns-ok IsNewest _ (on_newest_unit-IsNewest s keys r.signable.unit v) in
                simp (on_newest_response, there, check, good, ours, done)
                  (counted s r.signable.responder taken v v')
          ]
        ]
  ]

  on_request_coord-IsRunning :
      (s : Runway H D S) (node_id : NodeIndex) (c : UnitCoord)
      → IsRunning s
      → IsRunning (on_request_coord s node_id c)
  unfolding on_request_coord send_message_for_network
  on_request_coord-IsRunning s node_id c v = elim (Option-cases (Store.unit_by_coord s.store c)) [
    | inl missing ↦ simp (on_request_coord, missing) v
    | inr (su, found) ↦ simp (on_request_coord, found) (untouched s _ refl refl refl refl v)
  ]

  on_request_parents-IsRunning :
      (s : Runway H D S) (node_id : NodeIndex) (u_hash : H)
      → IsRunning s
      → IsRunning (on_request_parents s node_id u_hash)
  unfolding on_request_parents send_message_for_network
  on_request_parents-IsRunning s node_id u_hash v =
      elim (Option-cases (Store.get_parents s.store u_hash)) [
        | inl missing ↦ simp (on_request_parents, missing) v
        | inr (p_hashes, found) ↦ elim (Option-cases (units_of s.store p_hashes)) [
          | inl lost ↦ simp (on_request_parents, found, lost) v
          | inr (us, all) ↦
              simp (on_request_parents, found, all) (untouched s _ refl refl refl refl v)
        ]
      ]

  on_request_newest-IsRunning :
      (s : Runway H D S) (keys : Keys H D S) (requester : NodeIndex) (salt : ℕ)
      → keys.responses.index ≡ i
      → IsRunning s
      → Returns IsRunning (on_request_newest s keys requester salt)
  unfolding on_request_newest sign
  on_request_newest-IsRunning s keys requester salt key v =
      let same : (s.node_ix == keys.responses.index) ≡ true = ground (arith, v.1.own) in
      simp (on_request_newest, sign, same) (untouched s _ refl refl refl refl v)

  Responded-IsRunning :
      ⦃p : ParentHasher H⦄ (told : Channel (NotificationIn H)) (s : Runway H D S) (u_hash : H)
      (s' : Runway H D S)
      → Responded n i told s u_hash s'
      → IsRunning s'
  Responded-IsRunning told s u_hash s' (inl v) = (told, v)
  Responded-IsRunning told s u_hash s' (inr (u, found, inl v)) = (told, v)
  Responded-IsRunning told s u_hash s' (inr (u, found, inr (m, l, c, known, v))) = (_, v)

  received :
      (s : Runway H D S) (keys : Keys H D S) (u : UncheckedSignedUnit H D S)
      → IsRunning s
      → Returns IsRunning (on_unit_received s keys u false)
  received s keys u v =
      let (s', done, v') =
        Returns-ok (IsSound n i v.0) _ (on_unit_received-IsSound n i v.0 s keys u v.1) in
      rw done (v.0, v')

  -- No message from the network makes the runway panic, if its store is valid and has a mark for
  -- each member, and its keys are this node's; all that stays so.
  pub on_unit_message-IsRunning :
      ⦃p : ParentHasher H⦄ (s : Runway H D S) (keys : Keys H D S) (m : RunwayNotificationIn H D S)
      → keys.responses.index ≡ i
      → IsRunning s
      → Returns IsRunning (on_unit_message s keys m)
  unfolding on_unit_message
  on_unit_message-IsRunning s keys (RunwayNotificationIn.new_unit u) key v = received s keys u v
  on_unit_message-IsRunning s keys (RunwayNotificationIn.request (Request.coord c) j) key v =
      on_request_coord-IsRunning s j c v
  on_unit_message-IsRunning s keys (RunwayNotificationIn.request (Request.parents q) j) key v =
      on_request_parents-IsRunning s j q v
  on_unit_message-IsRunning s keys (RunwayNotificationIn.request (Request.newest_unit z) j) key v =
      on_request_newest-IsRunning s keys j z key v
  on_unit_message-IsRunning s keys (RunwayNotificationIn.response (Response.coord u)) key v =
      received s keys u v
  on_unit_message-IsRunning s keys (RunwayNotificationIn.response (Response.parents q us)) key v =
      let (s', done, told) =
        Returns-ok (Responded n i v.0 s q) _
          (on_parents_response-Responded n i v.0 s keys q us v.1) in
      rw done (Responded-IsRunning v.0 s q s' told)
  on_unit_message-IsRunning s keys (RunwayNotificationIn.response (Response.newest_unit r)) key v =
      on_newest_response-IsRunning s keys r v
