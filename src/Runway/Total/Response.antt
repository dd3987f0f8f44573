-- ===== src/Runway/Total/Response.antt =====
-- src/runway.rs: responses to requests for parents, and all other messages of the network.
use aleph_bft.Prelude.{
  ℕ, suc, ◌+◌, ◌<◌, ◌≡◌, ap, ◌∙◌, ◌⊎◌, inl, inr, Option, none, some, List, [], ◌∷◌, Eq, arith, ◌==◌,
  u16, ok, Bool-cases, Option-cases, length, length-set, get_elem?-some, length-replicate, Returns,
  Returns-ok, Channel, send, set,
}
use aleph_bft.Prelude.HashMap
use aleph_bft.Nodes.{NodeIndex}
use aleph_bft.Nodes.NodeMap
use aleph_bft.Nodes.NodeMap.{NodeMap}
use aleph_bft.Units
use aleph_bft.Units.{Round, UnitHasher, ParentHasher, hash_of, combine_hashes}
use aleph_bft.Units.Store
use aleph_bft.Units.Store.{SignedUnit, full, coord_of}
use aleph_bft.Alerts.{UncheckedSignedUnit, same}
use aleph_bft.Alerts.Claims.{same_iff}
use aleph_bft.Runway.Message.{Keys, NotificationIn, unit_parents}
use aleph_bft.Runway.State.{Runway, resolve_missing_coord, send_consensus_notification}
use aleph_bft.Runway.Accepted.{validate_unit_accepts}
use aleph_bft.Runway.Requests.{take_parent, take_parents, accept_parents, on_parents_response}
use aleph_bft.Runway.Total.{
  IsSound, resolve_missing_coord-IsSound, add_unit_to_store_unless_fork-IsSound,
}

insert_lem :
    {T : Type 0} (m : NodeMap T) (j : ℕ) (a : T)
    → j < length m
    → NodeMap.insert m j a ≡ ok (set m j (some a))
unfolding NodeMap.insert
insert_lem m j a h = ground arith

module _ {H D S : Type 0} ⦃e : Eq H⦄ ⦃h : UnitHasher H D⦄ (n i : NodeIndex)
    (told : Channel (NotificationIn H)) where
  -- The state stays sound, and a map of parents has a slot for each member.
  abbrev pub IsTaken : Runway H D S × Option (NodeMap H) → Type 0
  IsTaken (s, none) = IsSound n i told s
  IsTaken (s, some p_hashes) = IsSound n i told s × (length p_hashes ≡ n)

  take_parent-IsTaken :
      (s : Runway H D S) (u_round : Round) (ids : List NodeIndex) (j : ℕ) (su : SignedUnit H D S)
      (p_hashes : NodeMap H)
      → IsSound n i told s
      → (coord_of (full su)).creator < n
      → j < length ids
      → length p_hashes ≡ n
      → Returns IsTaken (take_parent s u_round ids j su p_hashes)
  unfolding take_parent
  take_parent-IsTaken s u_round ids j su p_hashes v member in_ids slots =
      let c = coord_of (full su) in
      elim (Bool-cases (u16 (c.round + 1) == u_round)) [
        | inr other ↦ rw (take_parent, other) v
        | inl same_round ↦
            let (id, at_j) = get_elem?-some ids j in_ids in
            elim (Bool-cases (c.creator == id)) [
              | inr alien ↦ rw (take_parent, same_round, at_j, alien) v
              | inl creator ↦
                  let (s', done, v') = Returns-ok (IsSound n i told) _ (
                    add_unit_to_store_unless_fork-IsSound n i told (resolve_missing_coord s c) su
                      (resolve_missing_coord-IsSound n i told s c v) member) in
                  let slot = insert_lem p_hashes c.creator (hash_of (full su)) (omega arith) in
                  rw (take_parent, same_round, at_j, creator, slot, done)
                    (v', length-set p_hashes c.creator (some (hash_of (full su))) ∙ slots)
            ]
      ]

  take_parents-IsTaken :
      (s : Runway H D S) (keys : Keys H D S) (u_round : Round) (ids : List NodeIndex) (j : ℕ)
      (uus : List (UncheckedSignedUnit H D S)) (p_hashes : NodeMap H)
      → IsSound n i told s
      → j + length uus ≡ length ids
      → length p_hashes ≡ n
      → Returns IsTaken (take_parents s keys u_round ids j uus p_hashes)
  unfolding take_parents
  take_parents-IsTaken s keys u_round ids j [] p_hashes v count slots = (v, slots)
  take_parents-IsTaken s keys u_round ids j (uu ∷ uus) p_hashes v count slots =
      let (r, done, judged) = validate_unit_accepts s keys uu in
      elim judged [
        | inr (left, _) ↦ rw (take_parents, done, left) v
        | inl (accepted, _, (_, _, member, _)) ↦
            let (q, took, good) = Returns-ok IsTaken _ (
              take_parent-IsTaken s u_round ids j (record { unchecked = uu }) p_hashes v
                (omega (arith, v.members)) (omega arith) slots) in
            rw (take_parents, done, accepted, took)
              (rest
                (λ s' m v' l.
                  take_parents-IsTaken s' keys u_round ids (suc j) uus m v' (omega arith) l)
                q good)
      ]
    where
      rest :
          ((s' : Runway H D S) (m : NodeMap H)
            → IsSound n i told s'
            → length m ≡ n
            → Returns IsTaken (take_parents s' keys u_round ids (suc j) uus m))
          → (q : Runway H D S × Option (NodeMap H)) → IsTaken q
          → Returns IsTaken (elim q.1 [
            | none ↦ ok (q.0, none)
            | some m ↦ take_parents q.0 keys u_round ids (suc j) uus m
          ])
      rest again (s', none) good = good
      rest again (s', some m) (v', l) = again s' m v' l

  module _ ⦃p : ParentHasher H⦄ where
    -- Either the consensus is told nothing, or it is told parents of the unit that combine to the
    -- unit's control hash, and they are then known.
    abbrev pub Tells : SignedUnit H D S → H → Runway H D S → Type 0
    Tells u u_hash s' =
        IsSound n i told s'
        ⊎ (m : NodeMap H) × (length m ≡ n)
          × (combine_hashes m ≡ (full u).pre_unit.control_hash.combined_hash)
          × (Store.get_parents s'.store u_hash ≡ some (NodeMap.values m))
          × IsSound n i (send told (unit_parents u_hash (NodeMap.values m))) s'

    accept_parents-Tells :
        (u : SignedUnit H D S) (u_hash : H) (q : Runway H D S × Option (NodeMap H))
        → IsTaken q
        → Tells u u_hash
            (accept_parents q.0 u_hash (full u).pre_unit.control_hash.combined_hash q.1)
    unfolding accept_parents send_consensus_notification Store.get_parents Store.add_parents
    accept_parents-Tells u u_hash (s, none) v = inl v
    accept_parents-Tells u u_hash (s, some m) (v, l) =
        elim (Bool-cases (same (combine_hashes m) (full u).pre_unit.control_hash.combined_hash)) [
          | inr other ↦ rw (accept_parents, other) (inl v)
          | inl equal ↦
              rw (accept_parents, equal)
                (inr (
                  m,
                  l,
                  (same_iff _ _).0 equal,
                  HashMap.get-insert_self u_hash (NodeMap.values m) s.store.parents,
                  record {
                    members = v.members;
                    own = v.own;
                    stored = record {
                      keyed = v.stored.keyed;
                      placed = v.stored.placed;
                      covered = v.stored.covered;
                    };
                    marks = v.marks;
                    same_told =
                        ap (λ ch. send ch (unit_parents u_hash (NodeMap.values m))) v.same_told;
                  },
                ))
        ]

    -- What a response to a request for parents makes of the runway.
    abbrev pub Responded : Runway H D S → H → Runway H D S → Type 0
    Responded s u_hash s' =
        IsSound n i told s'
        ⊎ (u : SignedUnit H D S) × (Store.unit_by_hash s.store u_hash ≡ some u) × Tells u u_hash s'

    -- In a runway with a valid store and a mark for each member, a response to a request for parents
    -- never panics. Whatever it holds, the
    -- consensus is told nothing, or parents that combine to the control hash of the stored unit.
    pub on_parents_response-Responded :
        (s : Runway H D S) (keys : Keys H D S) (u_hash : H) (uus : List (UncheckedSignedUnit H D S))
        → IsSound n i told s
        → Returns (Responded s u_hash) (on_parents_response s keys u_hash uus)
    unfolding on_parents_response NodeMap.with_size
    on_parents_response-Responded s keys u_hash uus v =
        elim (Option-cases (Store.get_parents s.store u_hash)) [
          | inr (ps, known) ↦ rw (on_parents_response, known) (inl v)
          | inl new ↦ elim (Option-cases (Store.unit_by_hash s.store u_hash)) [
            | inl missing ↦ rw (on_parents_response, new, missing) (inl v)
            | inr (u, found) ↦
                let ids = Units.parents (full u).pre_unit.control_hash in
                elim (Bool-cases (length ids == length uus)) [
                  | inr other ↦ rw (on_parents_response, new, found, other) (inl v)
                  | inl same_length ↦
                      let (q, took, good) = Returns-ok IsTaken _ (
                        take_parents-IsTaken s keys (coord_of (full u)).round ids 0 uus
                          (NodeMap.with_size s.n_members) v (ground arith)
                          (length-replicate s.n_members none ∙ v.members)) in
                      rw (on_parents_response, new, found, same_length, took)
                        (inr (u, found, accept_parents-Tells u u_hash q good))
                ]
          ]
        ]
