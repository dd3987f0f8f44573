-- ===== src/Network/Included.antt =====
-- src/network.rs and src/runway.rs: the data of a message, and the units that it makes the runway
-- take in for the consensus.
use aleph_bft.Prelude.{
  ◌≡◌, sym, subst, inl, inr, Bool, true, false, [], ◌∷◌, ◌++◌, Eq, All, All-append, arith,
  if◌then◌else◌, ok, ◌>>=◌, Bool-cases, Option-cases, ok_injective, bind_returns,
}
use aleph_bft.Prelude.HashMap
use aleph_bft.Nodes.{NodeIndex}
use aleph_bft.Nodes.NodeSubset
use aleph_bft.Units.{UnitCoord, UnitHasher, hash_of}
use aleph_bft.Units.Store
use aleph_bft.Units.Store.{SignedUnit, UnitStore, full, coord_of, coord_eq}
use aleph_bft.Alerts.{UncheckedSignedUnit, ForkProof}
use aleph_bft.Runway.Message.{Keys}
use aleph_bft.Runway.State.{Runway, resolve_missing_coord, send_resolved_request_notification}
use aleph_bft.Runway.Accepted.{validate_unit_accepts}
use aleph_bft.Runway.Receive.{
  on_new_forker_detected, on_fork, store_unit, add_unit_to_store_unless_fork, on_unit_received,
}

module _ {H D S : Type 0} where
  pub resolved_store :
      (s : Runway H D S) (c : UnitCoord) → (resolve_missing_coord s c).store ≡ s.store
  unfolding resolve_missing_coord send_resolved_request_notification
  resolved_store s c = ground arith

module _ {H D S : Type 0} ⦃e : Eq H⦄ ⦃h : UnitHasher H D⦄
    (Good : UncheckedSignedUnit H D S → Type 0) where
  -- The units that wait in the store for the consensus.
  abbrev pub Buffered : UnitStore H D S → Type 0
  Buffered store = All (λ su. Good su.unchecked) store.legit_buffer

  add_unit-Buffered :
      (store store' : UnitStore H D S) (su : SignedUnit H D S) (alert : Bool)
      → Buffered store
      → Good su.unchecked
      → Store.add_unit store su alert ≡ ok store'
      → Buffered store'
  unfolding Store.add_unit
  add_unit-Buffered store store' su alert b good done =
      let (_, allowed, rest) =
        bind_returns (Store.alert_allowed store (coord_of (full su)).creator alert) _ done in
      elim (Bool-cases (Store.contains_hash store (hash_of (full su)))) [
        | inl known ↦
            let same : store ≡ store' = ok_injective (ground arith) in subst Buffered same b
        | inr new ↦
            let onward : ◌>>=◌ {B = UnitStore H D S}
                  (Store.is_legit store (coord_of (full su)).creator alert)
                  (λ legit. ok (record store {
                    by_hash = HashMap.insert (hash_of (full su)) su store.by_hash;
                    by_coord = HashMap.insert (coord_of (full su)) su store.by_coord;
                    legit_buffer =
                        if legit then store.legit_buffer ++ su ∷ [] else store.legit_buffer;
                  }))
                ≡ ok store' =
              ground arith in
            let (legit, judged, end) =
              bind_returns (Store.is_legit store (coord_of (full su)).creator alert) _ onward in
            subst Buffered (ok_injective end) (elim (Bool-cases legit) [
              | inl yes_ ↦
                  rw yes_
                    (All-append (λ sv. Good sv.unchecked) store.legit_buffer (su ∷ []) b (good, tt))
              | inr no_ ↦ rw no_ b
            ])
      ]

  store_unit-Buffered :
      (s s' : Runway H D S) (su : SignedUnit H D S) (alert : Bool)
      → Buffered s.store
      → Good su.unchecked
      → store_unit s su alert ≡ ok s'
      → Buffered s'.store
  unfolding store_unit
  store_unit-Buffered s s' su alert b good done =
      let (store, added, end) = bind_returns (Store.add_unit s.store su alert) _ done in
      subst (λ r. Buffered r.store) (ok_injective end)
        (add_unit-Buffered s.store store su alert b good added)

  on_new_forker_detected-Buffered :
      (s s' : Runway H D S) (node_id : NodeIndex) (proof : ForkProof H D S)
      → Buffered s.store
      → on_new_forker_detected s node_id proof ≡ ok s'
      → Buffered s'.store
  unfolding on_new_forker_detected Store.mark_forker
  on_new_forker_detected-Buffered s s' node_id proof b done =
      let (r, marked, end) = bind_returns (Store.mark_forker s.store node_id) _ done in
      let (known, contains, rest) =
        bind_returns (NodeSubset.contains s.store.forkers node_id) _ marked in
      let (forkers, inserted, last) =
        bind_returns (NodeSubset.insert s.store.forkers node_id) _ rest in
      subst (λ t. Buffered t.store) (ok_injective end)
        (subst (λ q. Buffered q.1) (ok_injective last) b)

  on_fork-Buffered :
      (s s' : Runway H D S) (su sv : SignedUnit H D S)
      → Buffered s.store
      → on_fork s su sv ≡ ok s'
      → Buffered s'.store
  unfolding on_fork
  on_fork-Buffered s s' su sv b done =
      let (marked, asked, rest) =
        bind_returns (Store.is_forker s.store (coord_of (full su)).creator) _ done in
      elim (Bool-cases marked) [
        | inl known ↦
            let same : s ≡ s' = ok_injective (ground arith) in subst (λ t. Buffered t.store) same b
        | inr new ↦
            on_new_forker_detected-Buffered s s' (coord_of (full su)).creator
              (su.unchecked, sv.unchecked) b (ground arith)
      ]

  pub add_unit_to_store_unless_fork-Buffered :
      (s s' : Runway H D S) (su : SignedUnit H D S)
      → Buffered s.store
      → Good su.unchecked
      → add_unit_to_store_unless_fork s su ≡ ok s'
      → Buffered s'.store
  unfolding add_unit_to_store_unless_fork
  add_unit_to_store_unless_fork-Buffered s s' su b good done =
      let (marked, asked, rest) =
        bind_returns (Store.is_forker s.store (coord_of (full su)).creator) _ done in
      elim (Bool-cases marked) [
        | inl known ↦
            let same : s ≡ s' = ok_injective (ground arith) in subst (λ t. Buffered t.store) same b
        | inr new ↦ elim (Option-cases (Store.is_new_fork s.store (full su))) [
          | inl none_ ↦ store_unit-Buffered s s' su false b good (ground arith)
          | inr (sv, fork) ↦ on_fork-Buffered s s' su sv b (ground arith)
        ]
      ]

  pub on_unit_received-Buffered :
      (s s' : Runway H D S) (keys : Keys H D S) (uu : UncheckedSignedUnit H D S) (alert : Bool)
      → Buffered s.store
      → Good uu
      → on_unit_received s keys uu alert ≡ ok s'
      → Buffered s'.store
  unfolding on_unit_received
  on_unit_received-Buffered s s' keys uu alert b good done =
      let (r, validated, judged) = validate_unit_accepts s keys uu in
      let su : SignedUnit H D S = record { unchecked = uu } in
      let b' : Buffered (resolve_missing_coord s (coord_of (full su))).store =
        subst Buffered (sym (resolved_store s (coord_of (full su)))) b in
      elim judged [
        | inr (refused, _) ↦
            let same : s ≡ s' = ok_injective (ground arith) in subst (λ t. Buffered t.store) same b
        | inl (accepted, _, _) ↦ elim (Bool-cases alert) [
          | inl alerted ↦
              store_unit-Buffered (resolve_missing_coord s (coord_of (full su))) s' su true b' good
                (ground arith)
          | inr usual ↦
              add_unit_to_store_unless_fork-Buffered (resolve_missing_coord s (coord_of (full su)))
                s' su b' good (ground arith)
        ]
      ]
