-- ===== src/Network/Taken.antt =====
-- src/network.rs and src/runway.rs: the data of a response, and the units that it makes the runway
-- take in.
use aleph_bft.Prelude.{
  ℕ, suc, ◌+◌, ◌≡◌, refl, sym, ap, subst, ◌∙◌, inl, inr, false, Option, none, some, List, [], ◌∷◌,
  Eq, All, arith, if◌then◌else◌, ◌==◌, u16, length, ltb, ok, ◌>>=◌, index, Bool-cases, Option-cases,
  ok_injective, some_injective, bind_returns,
}
use aleph_bft.Nodes.{NodeIndex}
use aleph_bft.Nodes.NodeMap
use aleph_bft.Nodes.NodeMap.{NodeMap}
use aleph_bft.Signed.{UncheckedSigned, check, as_signable}
use aleph_bft.Units
use aleph_bft.Units.{Round, UnitCoord, UnitHasher, ParentHasher, hash_of, combine_hashes}
use aleph_bft.Units.Store
use aleph_bft.Units.Store.{SignedUnit, UnitStore, full, coord_of}
use aleph_bft.Alerts.{UncheckedSignedUnit, same}
use aleph_bft.Runway.Message.{Keys, NewestUnitResponse, response_signable}
use aleph_bft.Runway.State.{
  Runway, resolve_missing_coord, send_consensus_notification, resolve_starting_round,
}
use aleph_bft.Runway.Accepted.{validate_unit_accepts}
use aleph_bft.Runway.Receive.{add_unit_to_store_unless_fork, on_unit_received}
use aleph_bft.Runway.Requests.{
  take_parent, take_parents, accept_parents, on_parents_response, on_newest_unit, add_responder,
  on_newest_response,
}
use aleph_bft.Network.Included.{
  Buffered, resolved_store, add_unit_to_store_unless_fork-Buffered, on_unit_received-Buffered,
}

module _ {H D S : Type 0} ⦃e : Eq H⦄ ⦃h : UnitHasher H D⦄
    (Good : UncheckedSignedUnit H D S → Type 0) where
  take_parent-Buffered :
      (s s' : Runway H D S) (u_round : Round) (ids : List NodeIndex) (i : ℕ) (su : SignedUnit H D S)
      (p_hashes : NodeMap H) (taken : Option (NodeMap H))
      → Buffered Good s.store
      → Good su.unchecked
      → take_parent s u_round ids i su p_hashes ≡ ok (s', taken)
      → Buffered Good s'.store
  unfolding take_parent
  take_parent-Buffered s s' u_round ids i su p_hashes taken b good done =
      let coord = coord_of (full su) in
      elim (Bool-cases (u16 (coord.round + 1) == u_round)) [
        | inr other ↦
            let over : ◌≡◌ {A = Runway H D S × Option (NodeMap H)} (s, none) (s', taken) =
              ok_injective (ground arith) in
            subst (λ q. Buffered Good q.0.store) over b
        | inl fits ↦
            let (id, at, rest) = bind_returns (index ids i) _ (rw fits at done) in
            elim (Bool-cases (coord.creator == id)) [
              | inr other ↦
                  let over : ◌≡◌ {A = Runway H D S × Option (NodeMap H)} (s, none) (s', taken) =
                    ok_injective (ground arith) in
                  subst (λ q. Buffered Good q.0.store) over b
              | inl same_creator ↦
                  let (p_hashes', placed, onward) =
                    bind_returns (NodeMap.insert p_hashes coord.creator (hash_of (full su))) _
                      (rw same_creator at rest) in
                  let resolved = resolve_missing_coord s coord in
                  let (t, added, end) =
                    bind_returns (add_unit_to_store_unless_fork resolved su) _ onward in
                  subst (λ q. Buffered Good q.0.store) (ok_injective end)
                    (add_unit_to_store_unless_fork-Buffered Good resolved t su
                      (subst (Buffered Good) (sym (resolved_store s coord)) b) good added)
            ]
      ]

  take_parents-Buffered :
      (s s' : Runway H D S) (keys : Keys H D S) (u_round : Round) (ids : List NodeIndex) (i : ℕ)
      (uus : List (UncheckedSignedUnit H D S)) (p_hashes : NodeMap H) (taken : Option (NodeMap H))
      → Buffered Good s.store
      → All Good uus
      → take_parents s keys u_round ids i uus p_hashes ≡ ok (s', taken)
      → Buffered Good s'.store
  unfolding take_parents
  take_parents-Buffered s s' keys u_round ids i [] p_hashes taken b good done =
      subst (λ q. Buffered Good q.0.store) (ok_injective done) b
  take_parents-Buffered s s' keys u_round ids i (uu ∷ uus) p_hashes taken b (good, rest) done =
      let (r, validated, judged) = validate_unit_accepts s keys uu in
      elim judged [
        | inr (refused, _) ↦
            let over : ◌≡◌ {A = Runway H D S × Option (NodeMap H)} (s, none) (s', taken) =
              ok_injective (ground arith) in
            subst (λ q. Buffered Good q.0.store) over b
        | inl (accepted, _, _) ↦
            let taking = take_parent s u_round ids i (record { unchecked = uu }) p_hashes in
            let (q, took, rest_done) =
              bind_returns taking _ (rw (validated ∙ ap ok accepted) at done) in
            let b' =
              take_parent-Buffered s q.0 u_round ids i (record { unchecked = uu }) p_hashes q.1 b
                good took in
            elim (Option-cases q.1) [
              | inl given_up ↦
                  let over : ◌≡◌ {A = Runway H D S × Option (NodeMap H)} (q.0, none) (s', taken) =
                    ok_injective (ground arith) in
                  subst (λ t. Buffered Good t.0.store) over b'
              | inr (p_hashes', on) ↦
                  take_parents-Buffered q.0 s' keys u_round ids (suc i) uus p_hashes' taken b' rest
                    (ground arith)
            ]
      ]

  accepted_buffer :
      ⦃p : ParentHasher H⦄ (s : Runway H D S) (u_hash c : H) (taken : Option (NodeMap H))
      → Buffered Good s.store
      → Buffered Good (accept_parents s u_hash c taken).store
  unfolding accept_parents send_consensus_notification Store.add_parents
  accepted_buffer s u_hash c none b = b
  accepted_buffer s u_hash c (some p_hashes) b =
      elim (Bool-cases (same (combine_hashes p_hashes) c)) [
        | inl right ↦ rw (accept_parents, right) b
        | inr wrong ↦ rw (accept_parents, wrong) b
      ]

  pub on_parents_response-Buffered :
      ⦃p : ParentHasher H⦄ (s s' : Runway H D S) (keys : Keys H D S) (u_hash : H)
      (uus : List (UncheckedSignedUnit H D S))
      → Buffered Good s.store
      → All Good uus
      → on_parents_response s keys u_hash uus ≡ ok s'
      → Buffered Good s'.store
  unfolding on_parents_response
  on_parents_response-Buffered s s' keys u_hash uus b good done =
      elim (Option-cases (Store.get_parents s.store u_hash)) [
        | inr (ps, known) ↦
            let over : s ≡ s' = ok_injective (ground arith) in
            subst (λ t. Buffered Good t.store) over b
        | inl unknown ↦ elim (Option-cases (Store.unit_by_hash s.store u_hash)) [
          | inl missing ↦
              let over : s ≡ s' = ok_injective (ground arith) in
              subst (λ t. Buffered Good t.store) over b
          | inr (u, found) ↦
              elim (Bool-cases
                (length (Units.parents (full u).pre_unit.control_hash) == length uus)) [
                  | inr other ↦
                      let over : s ≡ s' = ok_injective (ground arith) in
                      subst (λ t. Buffered Good t.store) over b
                  | inl fits ↦
                      let ids = Units.parents (full u).pre_unit.control_hash in
                      let taking =
                        take_parents s keys (coord_of (full u)).round ids 0 uus
                          (NodeMap.with_size s.n_members) in
                      let onward : ◌>>=◌ {B = Runway H D S} taking (λ q. ok (
                            accept_parents q.0 u_hash (full u).pre_unit.control_hash.combined_hash
                              q.1))
                          ≡ ok s' =
                        ground arith in
                      let (q, took, end) = bind_returns taking _ onward in
                      subst (λ t. Buffered Good t.store) (ok_injective end)
                        (accepted_buffer q.0 u_hash (full u).pre_unit.control_hash.combined_hash q.1
                          (take_parents-Buffered s q.0 keys (coord_of (full u)).round ids 0 uus
                            (NodeMap.with_size s.n_members) q.1 b good took))
                ]
        ]
      ]

  on_newest_unit-Buffered :
      (s : Runway H D S) (keys : Keys H D S) (o : Option (UncheckedSignedUnit H D S))
      (s' : Runway H D S)
      → Buffered Good s.store
      → ((uu : UncheckedSignedUnit H D S) → o ≡ some uu → Good uu)
      → on_newest_unit s keys o ≡ ok (some s')
      → Buffered Good s'.store
  unfolding on_newest_unit
  on_newest_unit-Buffered s keys none s' b good done =
      subst (λ t. Buffered Good t.store) (some_injective (ok_injective done)) b
  on_newest_unit-Buffered s keys (some uu) s' b good done =
      let (r, validated, judged) = validate_unit_accepts s keys uu in
      elim judged [
        | inr (refused, _) ↦ absurd (ground arith)
        | inl (accepted, _, _) ↦
            elim (Bool-cases (uu.signable.pre_unit.coord.creator == s.node_ix)) [
              | inr other ↦ absurd (ground arith)
              | inl own ↦ elim (Option-cases (Store.unit_by_hash s.store (hash_of uu.signable))) [
                | inr (known, stored) ↦
                    let over : s ≡ s' = some_injective (ok_injective (ground arith)) in
                    subst (λ t. Buffered Good t.store) over b
                | inl new ↦
                    let (t, received, end) =
                      bind_returns (on_unit_received s keys uu false) _
                        (rw (validated ∙ ap ok accepted, own, new) at done) in
                    let moved : Runway H D S =
                      let candidate = u16 (uu.signable.pre_unit.coord.round + 1) in
                      record t {
                        starting_round_value =
                            if ltb t.starting_round_value candidate
                            then candidate
                            else t.starting_round_value;
                      } in
                    let over : moved ≡ s' = some_injective (ok_injective end) in
                    subst (λ r. Buffered Good r.store) over
                      (on_unit_received-Buffered Good s t keys uu false b (good uu refl) received)
              ]
            ]
      ]

  responder_store :
      (s : Runway H D S) (responder : NodeIndex) → (add_responder s responder).store ≡ s.store
  unfolding add_responder resolve_starting_round
  responder_store s responder = ground arith

  pub on_newest_response-Buffered :
      (s s' : Runway H D S) (keys : Keys H D S)
      (unchecked : UncheckedSigned (NewestUnitResponse H D S) S)
      → Buffered Good s.store
      → ((uu : UncheckedSignedUnit H D S) → unchecked.signable.unit ≡ some uu → Good uu)
      → on_newest_response s keys unchecked ≡ ok s'
      → Buffered Good s'.store
  unfolding on_newest_response check as_signable
  on_newest_response-Buffered s s' keys unchecked b good done =
      elim (Bool-cases s.starting_round_sender) [
        | inr gone ↦
            let over : s ≡ s' = ok_injective (ground arith) in
            subst (λ t. Buffered Good t.store) over b
        | inl there ↦
            elim (Bool-cases (
              keys.responses.verify unchecked.signable unchecked.signature
                unchecked.signable.responder)) [
                  | inr bad ↦
                      let over : s ≡ s' = ok_injective (ground arith) in
                      subst (λ t. Buffered Good t.store) over b
                  | inl verified ↦ elim (Bool-cases (unchecked.signable.salt == s.salt)) [
                    | inr other ↦
                        let over : s ≡ s' = ok_injective (ground arith) in
                        subst (λ t. Buffered Good t.store) over b
                    | inl ours ↦
                        let (taken, newest, end) =
                          bind_returns (on_newest_unit s keys unchecked.signable.unit) _
                            (rw (there, verified, ours) at done) in
                        elim (Option-cases taken) [
                          | inl ignored ↦
                              let over : s ≡ s' = ok_injective (ground arith) in
                              subst (λ t. Buffered Good t.store) over b
                          | inr (t, is_t) ↦
                              let over : add_responder t unchecked.signable.responder ≡ s' =
                                ok_injective (ground arith) in
                              subst (λ r. Buffered Good r.store) over
                                (subst (Buffered Good)
                                  (sym (responder_store t unchecked.signable.responder))
                                  (on_newest_unit-Buffered s keys unchecked.signable.unit t b good
                                    (newest ∙ ap ok is_t)))
                        ]
                  ]
                ]
      ]
