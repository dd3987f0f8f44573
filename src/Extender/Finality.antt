-- ===== src/Extender/Finality.antt =====
-- src/extender.rs: about `finalize_round`, its batch and the store that is left.
use aleph_bft.Prelude.{
  ◌⊎◌, Bool-cases, ℕ, ◌+◌, ◌<◌, ◌≡◌, refl, sym, ap, true, none, some, List, [], ◌∷◌, ◌++◌, reverse,
  inl, inr, ◌↔◌, arith, Eq, length, set, ◌∙◌, ok,
}
use aleph_bft.Prelude.HashMap
use aleph_bft.Prelude.HashMap.{HashMap}
use aleph_bft.Extender.State.{ExtenderUnit, Extender}
use aleph_bft.Extender.Finalize.{finalize_round}
use aleph_bft.Extender.Batch.Take.{Elem, times, stored, hashes, IsKeyed}
use aleph_bft.Extender.Batch.Walk.{times-reverse}
use aleph_bft.Extender.Batch.Rounds.{IsDown, Falls}
use aleph_bft.Extender.Batch.Finality.{
  Ancestor, here, up, walk, finalize_round-walk, walk_conserves, walk_closed, walk_takes_head,
  walk-Ancestor, walk-Falls,
}

module _ {H : Type 0} ⦃e : Eq H⦄ where
  Ancestor-stored :
      (units : HashMap H (ExtenderUnit H)) (head : H) (v : ExtenderUnit H)
      → Ancestor units head v
      → (q : H) × (HashMap.get q units ≡ some v)
  Ancestor-stored units head v (here found) = (head, found)
  Ancestor-stored units head v (up p anc at_p found) = (p, found)

  keyed_stored :
      (units : HashMap H (ExtenderUnit H))
      → IsKeyed units
      → (head : H) (v : ExtenderUnit H) → Ancestor units head v
      → HashMap.get v.hash units ≡ some v
  keyed_stored units keyed head v anc =
      let (q, found) = Ancestor-stored units head v anc in
      ap (λ r. HashMap.get r units) (keyed q v found) ∙ found

  times-Elem :
      (q : H) (us : List (ExtenderUnit H))
      → 0 < times q (hashes us)
      → (v : ExtenderUnit H) × Elem v us × (v.hash ≡ q)
  times-Elem q [] h = absurd (omega arith)
  times-Elem q (u ∷ us) h = elim (e.eq? u.hash q) [
    | yes is_q ↦ (u, inl refl, is_q)
    | no not_q ↦ let (v, m, is_q) = times-Elem q us (ground arith) in (v, inr m, is_q)
  ]

module _ {H : Type 0} ⦃e : Eq H⦄ (units : HashMap H (ExtenderUnit H)) (keyed : IsKeyed units)
    (head : H) (u : ExtenderUnit H) (found : HashMap.get head units ≡ some u) where
  -- What is gone from the store was visited.
  gone_visited :
      (v : ExtenderUnit H)
      → HashMap.get v.hash units ≡ some v
      → HashMap.get v.hash (walk units head u).0 ≡ none
      → Elem v (walk units head u).1
  gone_visited v known gone =
      let count = walk_conserves units head u found keyed v.hash in
      let (w, m, same) = times-Elem v.hash (walk units head u).1 (ground arith) in
      let stored_w = keyed_stored units keyed head w (walk-Ancestor units head u found w m) in
      let w_is : w ≡ v = some-eq (sym (rw same at stored_w) ∙ known) in rw (← w_is) m
    where
      some-eq : {A : Type 0} {a b : A} → some a ≡ some b → a ≡ b
      some-eq h = cc

  gone_below :
      (v : ExtenderUnit H) → Ancestor units head v → HashMap.get v.hash (walk units head u).0 ≡ none
  gone_below v (here at_head) =
      ap (λ r. HashMap.get r (walk units head u).0) (keyed head v at_head)
      ∙ walk_takes_head units head u found
  gone_below v (up {u = w} p anc at_p got) =
      let m = gone_visited w (keyed_stored units keyed head w anc) (gone_below w anc) in
      ap (λ r. HashMap.get r (walk units head u).0) (keyed p v got)
      ∙ walk_closed units head u found w p m at_p

module _ {H : Type 0} ⦃e : Eq H⦄ (s : Extender H) (round : ℕ) (head : H) (u : ExtenderUnit H)
    (keyed : IsKeyed s.units) (found : HashMap.get head s.units ≡ some u)
    (in_range : round < length s.units_by_round) where
  -- Where units are stored under their hashes, for a stored head and a round with a row:
  -- `finalize_round` returns, whatever the DAG; the round is emptied; and if the channel is closed
  -- no batch is sent and the extender exits.
  pub finalize_round_returns :
      (s' : Extender H) × (finalize_round s round head ≡ ok s')
      × (s'.units_by_round ≡ set s.units_by_round round [])
      × (s'.state ≡ s.state)
      × ((s.finalizer_open ≡ true) ⊎ (s'.finalized ≡ s.finalized) × (s'.exiting ≡ true))
  finalize_round_returns = (
    _,
    finalize_round-walk s round head u found in_range,
    refl,
    refl,
    elim (Bool-cases s.finalizer_open) [
      | inl open_ch ↦ inl open_ch
      | inr shut ↦ inr (ground arith, ground arith)
    ],
  )

  -- Where units are stored under their hashes, for a stored head and a round with a row, while the
  -- channel is open: one batch is sent, and every stored unit is then either in the batch, exactly
  -- once, or still stored; nothing else is in the batch.
  pub finalize_round_conserves :
      s.finalizer_open ≡ true
      → (s' : Extender H) × (batch : List H) × (finalize_round s round head ≡ ok s')
        × (s'.finalized ≡ s.finalized ++ batch ∷ [])
        × ((q : H) → times q batch + stored q s'.units ≡ stored q s.units)
  finalize_round_conserves open_ch = (
    _,
    reverse (hashes (walk s.units head u).1),
    finalize_round-walk s round head u found in_range,
    rw open_ch refl,
    λ q. omega (
      arith,
      times-reverse q (hashes (walk s.units head u).1),
      walk_conserves s.units head u found keyed q,
    ),
  )

  -- Where units are stored under their hashes, for a stored head and a round with a row:
  -- `finalize_round` returns, and a stored unit leaves the store exactly when it is the head or an
  -- ancestor of the head.
  pub finalize_round_ancestry :
      (v : ExtenderUnit H)
      → HashMap.get v.hash s.units ≡ some v
      → (s' : Extender H) × (finalize_round s round head ≡ ok s')
        × ((HashMap.get v.hash s'.units ≡ none) ↔ Ancestor s.units head v)
  finalize_round_ancestry v known = (
    _,
    finalize_round-walk s round head u found in_range,
    (
      λ gone.
          walk-Ancestor s.units head u found v
            (gone_visited s.units keyed head u found v known gone),
      gone_below s.units keyed head u found v,
    ),
  )

  -- Where units are stored under their hashes, for a stored head and a round with a row, where
  -- stored parents belong to the round before and the channel is open: the batch runs from the
  -- oldest round to the head, as the reverse of a list of stored units whose rounds never rise from
  -- the head's on.
  pub finalize_round_order :
      s.finalizer_open ≡ true
      → IsDown s.units
      → (s' : Extender H) × (us : List (ExtenderUnit H)) × (finalize_round s round head ≡ ok s')
        × (s'.finalized ≡ s.finalized ++ reverse (hashes us) ∷ [])
        × Falls u.round us
        × ((v : ExtenderUnit H) → Elem v us → HashMap.get v.hash s.units ≡ some v)
  finalize_round_order open_ch down = (
    _,
    (walk s.units head u).1,
    finalize_round-walk s round head u found in_range,
    rw open_ch refl,
    walk-Falls s.units head u found down,
    λ v m. keyed_stored s.units keyed head v (walk-Ancestor s.units head u found v m),
  )
