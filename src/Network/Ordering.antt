-- ===== src/Network/Ordering.antt =====
-- src/network.rs and src/runway.rs: the data of a unit message, and what it makes of the buffer.
use aleph_bft.Prelude.{
  ℕ, ◌≡◌, sym, ap, subst, ◌∙◌, false, Option, none, some, List, [], ◌∷◌, Eq, All, map, arith, ok,
  ok_injective, some_injective, bind_returns,
}
use aleph_bft.Nodes.{NodeIndex}
use aleph_bft.Signed.{sign}
use aleph_bft.Units.{UnitCoord, UnitHasher, ParentHasher}
use aleph_bft.Units.Store
use aleph_bft.Units.Store.{SignedUnit, UnitStore, full, coord_of}
use aleph_bft.Alerts.{UncheckedSignedUnit}
use aleph_bft.Runway.Message.{
  UnitMessage, new_unit, request_coord, response_coord, request_parents, response_parents,
  request_newest, response_newest, try_from, Keys, NewestUnitResponse, response_signable,
}
use aleph_bft.Runway.State.{Runway, send_message_for_network}
use aleph_bft.Runway.Requests.{
  on_request_coord, on_request_parents, on_request_newest, on_unit_message,
}
use aleph_bft.Network.{units, included_data, unit_included_data, data_of, iter}
use aleph_bft.Network.Included.{Buffered, on_unit_received-Buffered}
use aleph_bft.Network.Taken.{on_parents_response-Buffered, on_newest_response-Buffered}

module _ {H D S : Type 0} ⦃e : Eq H⦄ ⦃h : UnitHasher H D⦄ where
  on_request_coord-store :
      (s : Runway H D S) (node_id : NodeIndex) (c : UnitCoord)
      → (on_request_coord s node_id c).store ≡ s.store
  unfolding on_request_coord send_message_for_network
  on_request_coord-store s node_id c = ground arith

  on_request_parents-store :
      (s : Runway H D S) (node_id : NodeIndex) (u_hash : H)
      → (on_request_parents s node_id u_hash).store ≡ s.store
  unfolding on_request_parents send_message_for_network
  on_request_parents-store s node_id u_hash = ground arith

  on_request_newest-store :
      (s s' : Runway H D S) (keys : Keys H D S) (requester : NodeIndex) (salt : ℕ)
      → on_request_newest s keys requester salt ≡ ok s'
      → s.store ≡ s'.store
  unfolding on_request_newest
  on_request_newest-store s s' keys requester salt done =
      let (signed, signs, end) =
        bind_returns
          (sign {T = NewestUnitResponse H D S} keys.responses (record {
            requester = requester;
            responder = s.node_ix;
            unit = Store.newest_unit s.store requester;
            salt = salt;
          }))
          _ done in
      ap (λ r. r.store) (ok_injective end)

module _ {H D S : Type 0} where
  data_of-All :
      (Good : D → Type 0) (us : List (UncheckedSignedUnit H D S))
      → All Good (map data_of us)
      → All (λ u. Good (data_of u)) us
  data_of-All Good [] good = tt
  data_of-All Good (u ∷ us) (first, rest) = (first, data_of-All Good us rest)

  iter_good :
      (Good : D → Type 0) (o : Option (UncheckedSignedUnit H D S))
      → All Good (map data_of (iter o))
      → (u : UncheckedSignedUnit H D S) → o ≡ some u
      → Good (data_of u)
  iter_good Good none good u is_u = cc
  iter_good Good (some v) (good, _) u is_u =
      subst (λ w. Good (data_of w)) (some_injective is_u) good

module _ {H D S : Type 0} ⦃e : Eq H⦄ ⦃h : UnitHasher H D⦄ ⦃p : ParentHasher H⦄ where
  -- For any property of data, any keys, and a message of a unit that the runway handles to the end:
  -- if all data of the buffered units have it, which are those that the consensus is told of next,
  -- and all that `included_data` gives for the message, then all data of the buffered units have it
  -- after.
  pub on_unit_message-included_data :
      (M : Type 0) (Good : D → Type 0) (s s' : Runway H D S) (keys : Keys H D S)
      (message : UnitMessage H D S)
      → Buffered (λ u. Good (data_of u)) s.store
      → All Good (included_data {M = M} (units message))
      → on_unit_message s keys (try_from message) ≡ ok s'
      → Buffered (λ u. Good (data_of u)) s'.store
  unfolding on_unit_message try_from included_data unit_included_data
  on_unit_message-included_data M Good s s' keys (new_unit u) b (good, _) done =
      on_unit_received-Buffered (λ v. Good (data_of v)) s s' keys u false b good done
  on_unit_message-included_data M Good s s' keys (request_coord j c) b good done =
      subst (Buffered (λ v. Good (data_of v)))
        (sym (on_request_coord-store s j c) ∙ ap (λ r. r.store) (ok_injective done)) b
  on_unit_message-included_data M Good s s' keys (response_coord u) b (good, _) done =
      on_unit_received-Buffered (λ v. Good (data_of v)) s s' keys u false b good done
  on_unit_message-included_data M Good s s' keys (request_parents j q) b good done =
      subst (Buffered (λ v. Good (data_of v)))
        (sym (on_request_parents-store s j q) ∙ ap (λ r. r.store) (ok_injective done)) b
  on_unit_message-included_data M Good s s' keys (response_parents q us) b good done =
      on_parents_response-Buffered (λ v. Good (data_of v)) s s' keys q us b
        (data_of-All Good us good) done
  on_unit_message-included_data M Good s s' keys (request_newest j salt) b good done =
      subst (Buffered (λ v. Good (data_of v))) (on_request_newest-store s s' keys j salt done) b
  on_unit_message-included_data M Good s s' keys (response_newest r) b good done =
      on_newest_response-Buffered (λ v. Good (data_of v)) s s' keys r b
        (iter_good Good r.signable.unit good) done
