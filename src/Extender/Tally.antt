-- ===== src/Extender/Tally.antt =====
-- What a vote says of the votes that it was computed from.
use aleph_bft.Prelude.{
  ℕ, ◌+◌, ◌-◌, ◌≤◌, ◌<◌, ◌≡◌, refl, Bool, true, false, not, Option, none, some, List, [], ◌∷◌,
  arith, Eq, count, ok, if◌then◌else◌, Option-cases, inl, inr, bind_returns,
}
use aleph_bft.Prelude.HashMap
use aleph_bft.Prelude.HashMap.{HashMap}
use aleph_bft.Nodes.{NodeIndex, quorum}
use aleph_bft.Nodes.NodeMap
use aleph_bft.Nodes.NodeMap.{NodeMap, is_some, occupied, values-occupied}
use aleph_bft.Extender.State.{ExtenderUnit, Extender}
use aleph_bft.Extender.Voting.{common_vote, tally, count_votes, later_vote, unit_vote}

-- `b ≡ d`, as a test.
abbrev pub same : Bool → Bool → Bool
same true b = b
same false true = false
same false false = true

module _ {H : Type 0} ⦃e : Eq H⦄ where
  -- The parent `p` is stored and votes `d`.
  abbrev pub votes : HashMap H (ExtenderUnit H) → Bool → H → Bool
  votes units d p = elim (HashMap.get p units) [ none ↦ false | some u ↦ same d u.vote ]

  abbrev pub slot_votes : HashMap H (ExtenderUnit H) → Bool → Option H → Bool
  slot_votes units d none = false
  slot_votes units d (some p) = votes units d p

  count-occupied :
      (units : HashMap H (ExtenderUnit H)) (d : Bool) (m : NodeMap H)
      → count (votes units d) (occupied m) ≡ count (slot_votes units d) m
  count-occupied units d [] = refl
  count-occupied units d (none ∷ m) = count-occupied units d m
  count-occupied units d (some p ∷ m) = ground (arith, count-occupied units d m)

  pub record Counted (units : HashMap H (ExtenderUnit H)) (ps : List H) (t f t' f' : ℕ)
      : Type 0 where
    pub for_it : t' ≡ t + count (votes units true) ps
    pub against : f' ≡ f + count (votes units false) ps

  count_votes-Counted :
      (units : HashMap H (ExtenderUnit H)) (ps : List H) (t f t' f' : ℕ)
      → count_votes units ps t f ≡ ok (t', f')
      → Counted units ps t f t' f'
  unfolding count_votes
  count_votes-Counted units [] t f t' f' h = ground arith
  count_votes-Counted units (p ∷ ps) t f t' f' h = elim (Option-cases (HashMap.get p units)) [
    | inl missing ↦ ground arith
    | inr (u, found) ↦ ground (
      arith,
      count_votes-Counted units ps (if u.vote then t + 1 else t) (if u.vote then f else f + 1) t'
          f',
    )
  ]

  -- The votes `t` and `f` of the parents of `u`, and the outcome that they give.
  pub record Tallied (s : Extender H) (round : ℕ) (u : ExtenderUnit H) (vote : Bool)
      (decision : Option Bool) : Type 0 where
    pub t : ℕ
    pub f : ℕ
    pub for_it : t ≡ count (slot_votes s.units true) u.parents
    pub against : f ≡ count (slot_votes s.units false) u.parents
    pub enough : quorum s.n_members ≤ t + f
    pub vote_of : vote ≡ (tally (u.round - round) (quorum s.n_members) t f).0
    pub decision_of : decision ≡ (tally (u.round - round) (quorum s.n_members) t f).1

  later_vote-Tallied :
      (s : Extender H) (round : ℕ) (u : ExtenderUnit H) (b : Bool) (d : Option Bool) (t f : ℕ)
      → count_votes s.units (NodeMap.values u.parents) 0 0 ≡ ok (t, f)
      → later_vote s (u.round - round) u ≡ ok (b, d)
      → Tallied s round u b d
  unfolding later_vote
  later_vote-Tallied s round u b d t f e h =
      let c : Counted s.units (occupied u.parents) 0 0 t f =
        count_votes-Counted s.units (occupied u.parents) 0 0 t f
          (rw (values-occupied u.parents) at e) in
      record {
        t = t;
        f = f;
        for_it = omega (arith, c.for_it, count-occupied s.units true u.parents);
        against = omega (arith, c.against, count-occupied s.units false u.parents);
        enough = ground arith;
        vote_of = ground arith;
        decision_of = ground arith;
      }

  -- A vote of relative round two or more is a tally of the parents' votes.
  pub unit_vote-Tallied :
      (s : Extender H) (c : H) (k : NodeIndex) (round : ℕ) (u : ExtenderUnit H) (b : Bool)
      (d : Option Bool)
      → round + 2 ≤ u.round
      → unit_vote s c k round u ≡ ok (b, d)
      → Tallied s round u b d
  unfolding unit_vote
  unit_vote-Tallied s c k round u b d far h =
      let later : later_vote s (u.round - round) u ≡ ok (b, d) = ground arith in
      let (tf, e, rest) =
        bind_returns (count_votes s.units (NodeMap.values u.parents) 0 0) _
          (unfold later_vote in later) in
      later_vote-Tallied s round u b d tf.0 tf.1 e later

  -- Only the tally of relative round three or more decides.
  pub unit_vote-decides :
      (s : Extender H) (c : H) (k : NodeIndex) (round : ℕ) (u : ExtenderUnit H) (b d : Bool)
      → unit_vote s c k round u ≡ ok (b, some d)
      → round + 3 ≤ u.round
  unfolding unit_vote
  unit_vote-decides s c k round u b d h = ground arith

abbrev pub supporters : Bool → ℕ → ℕ → ℕ
supporters d t f = if d then t else f

abbrev pub opponents : Bool → ℕ → ℕ → ℕ
opponents d t f = if d then f else t

module _ (r n t f : ℕ) (d : Bool) where
  pub tally_decided :
      (tally r n t f).1 ≡ some d → (d ≡ common_vote r) × (n ≤ supporters d t f) × (3 ≤ r)
  unfolding tally
  tally_decided h = ground arith

  pub tally_follows : common_vote r ≡ d → 0 < supporters d t f → (tally r n t f).0 ≡ d
  unfolding tally
  tally_follows h p = ground arith

  pub tally_unanimous : opponents d t f ≡ 0 → 0 < supporters d t f → (tally r n t f).0 ≡ d
  unfolding tally
  tally_unanimous h p = ground arith

  pub tally_confirms :
      (d' : Bool) → opponents d t f ≡ 0 → 0 < n → (tally r n t f).1 ≡ some d' → d' ≡ d
  unfolding tally
  tally_confirms d' h p q = ground arith

module _ {H : Type 0} ⦃e : Eq H⦄ where
  -- The supporters in a tally are the parents that vote so, and the opponents the others.
  pub Tallied-supporters :
      (s : Extender H) (round : ℕ) (u : ExtenderUnit H) (b : Bool) (o : Option Bool) (d : Bool)
      (w : Tallied s round u b o)
      → supporters d w.t w.f ≡ count (slot_votes s.units d) u.parents
  Tallied-supporters s round u b o true w = w.for_it
  Tallied-supporters s round u b o false w = w.against

  pub Tallied-opponents :
      (s : Extender H) (round : ℕ) (u : ExtenderUnit H) (b : Bool) (o : Option Bool) (d : Bool)
      (w : Tallied s round u b o)
      → opponents d w.t w.f ≡ count (slot_votes s.units (not d)) u.parents
  Tallied-opponents s round u b o true w = w.against
  Tallied-opponents s round u b o false w = w.for_it

  -- No parent is counted twice.
  pub slot_votes-le :
      (units : HashMap H (ExtenderUnit H)) (m : NodeMap H)
      → count (slot_votes units true) m + count (slot_votes units false) m ≤ count is_some m
  slot_votes-le units [] = omega arith
  slot_votes-le units (none ∷ m) = slot_votes-le units m
  slot_votes-le units (some p ∷ m) = ground (arith, slot_votes-le units m)

  pub slot_votes-some :
      (units : HashMap H (ExtenderUnit H)) (d : Bool) (x : Option H)
      → slot_votes units d x ≡ true
      → (p : H) × (x ≡ some p)
  slot_votes-some units d none h = cc
  slot_votes-some units d (some p) h = (p, refl)
