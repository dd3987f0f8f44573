-- ===== src/Extender/Batch/Finality.antt =====
-- What `finalize_round` sends and what it leaves.
use aleph_bft.Prelude.{
  ℕ, ◌+◌, ◌≤◌, ◌<◌, ◌≡◌, sym, ap, true, none, some, List, [], ◌∷◌, ◌++◌, reverse, inl, inr, arith,
  Eq, length, set, ite, ◌∙◌, ok, if◌then◌else◌,
}
use aleph_bft.Prelude.HashMap
use aleph_bft.Prelude.HashMap.{HashMap}
use aleph_bft.Nodes.NodeMap
use aleph_bft.Extender.State.{ExtenderUnit, Extender}
use aleph_bft.Extender.Finalize.{finalize_round}
use aleph_bft.Extender.Batch.Take.{
  Elem, times, stored, hashes, IsKeyed, Within, remove-Within, stored-remove, Within-none,
}
use aleph_bft.Extender.Batch.Visit.{visit, drain-visit}
use aleph_bft.Extender.Batch.Walk.{visit-Within, visit_conserves, visit_closed, visit_rule}
use aleph_bft.Extender.Batch.Rounds.{IsDown, Falls, visit-Falls}

module _ {H : Type 0} ⦃e : Eq H⦄ where
  -- The stored units that the head reaches through stored parents.
  pub data Ancestor (units : HashMap H (ExtenderUnit H)) (head : H) : ExtenderUnit H → Type 0 where
    here : {u : ExtenderUnit H} → HashMap.get head units ≡ some u → Ancestor units head u
    up :
        {u v : ExtenderUnit H} (p : H)
        → Ancestor units head u
        → Elem p (NodeMap.values u.parents)
        → HashMap.get p units ≡ some v
        → Ancestor units head v

  -- The units that leave the store for the batch, head first, and the store that is left.
  abbrev pub walk :
      HashMap H (ExtenderUnit H)
      → H
      → ExtenderUnit H
      → HashMap H (ExtenderUnit H) × List (ExtenderUnit H)
  walk units head u = visit (length units) (HashMap.remove head units) (u ∷ [])

  pub finalize_round-walk :
      (s : Extender H) (round : ℕ) (head : H) (u : ExtenderUnit H)
      → HashMap.get head s.units ≡ some u
      → round < length s.units_by_round
      → finalize_round s round head
        ≡ ok (record s {
          units = (walk s.units head u).0;
          finalized =
              if s.finalizer_open
              then s.finalized ++ reverse (hashes (walk s.units head u).1) ∷ []
              else s.finalized;
          exiting = if s.finalizer_open then s.exiting else true;
          units_by_round = set s.units_by_round round [];
        })
  unfolding finalize_round
  finalize_round-walk s round head u found in_range =
      let d =
        drain-visit (length s.units) (HashMap.remove head s.units) (u ∷ []) []
          (omega (arith, HashMap.length-remove_lt head u s.units found)) in
      rw (found, finalize_round, d) (ground arith)

module _ {H : Type 0} ⦃e : Eq H⦄ (units : HashMap H (ExtenderUnit H)) (head : H)
    (u : ExtenderUnit H) (found : HashMap.get head units ≡ some u) where
  enough : length (HashMap.remove head units) + length (u ∷ []) ≤ length units
  enough = omega (arith, HashMap.length-remove_lt head u units found)

  pub walk_takes_head : HashMap.get head (walk units head u).0 ≡ none
  walk_takes_head =
      Within-none _ (HashMap.remove head units)
        (visit-Within (length units) (HashMap.remove head units) (u ∷ [])) head
        (HashMap.get-remove_self head units)

  pub walk-Within : Within (walk units head u).0 units
  walk-Within q v h =
      remove-Within head units q v
        (visit-Within (length units) (HashMap.remove head units) (u ∷ []) q v h)

  pub walk_conserves :
      IsKeyed units
      → (q : H)
      → times q (hashes (walk units head u).1) + stored q (walk units head u).0 ≡ stored q units
  walk_conserves keyed q = omega (
    arith,
    visit_conserves q (length units) (HashMap.remove head units) (u ∷ []) enough
        (λ r v h. keyed r v (remove-Within head units r v h)),
    ap {B = ℕ} (λ h. ite (e.eq? h q) 1 0) (keyed head u found),
    stored-remove head q u units found,
  )

  pub walk_closed :
      (v : ExtenderUnit H) (p : H)
      → Elem v (walk units head u).1
      → Elem p (NodeMap.values v.parents)
      → HashMap.get p (walk units head u).0 ≡ none
  walk_closed v p m at_p =
      visit_closed (length units) (HashMap.remove head units) (u ∷ []) enough v p m at_p

  pub walk-Ancestor : (v : ExtenderUnit H) → Elem v (walk units head u).1 → Ancestor units head v
  walk-Ancestor v m =
      visit_rule (λ w. Ancestor units head w) (length units) (HashMap.remove head units) (u ∷ [])
        (λ w x p anc at_p got. up p anc at_p (remove-Within head units p x got))
        (λ w at_w. elim at_w [
          | inl w_is ↦ here (found ∙ ap some (sym w_is))
          | inr bad ↦ elim bad [ ]
        ])
        v m

  pub walk-Falls : IsDown units → Falls u.round (walk units head u).1
  walk-Falls down =
      visit-Falls units down u.round (length units) (HashMap.remove head units) (u ∷ [])
        (remove-Within head units)
        (λ w at_w. elim at_w [
          | inl w_is ↦ (head, found ∙ ap some (sym w_is))
          | inr bad ↦ elim bad [ ]
        ])
        (omega arith)
        (λ w at_w. elim at_w [
          | inl w_is ↦ omega (arith, ap (λ (x : ExtenderUnit H). x.round) w_is)
          | inr bad ↦ elim bad [ ]
        ])
