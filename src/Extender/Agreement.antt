-- ===== src/Extender/Agreement.antt =====
-- src/extender.rs: about the decisions that `vote_and_decision` takes on one candidate.
use aleph_bft.Prelude.{
  ℕ, zero, suc, ◌+◌, ◌-◌, ◌*◌, ◌≤◌, ◌<◌, ◌≡◌, refl, ap, Bool, true, false, not, Option, some, List,
  arith, Eq, count, count-pos, count-pos_elem, length, get_elem?, ok, Option-cases, ◌∙◌, sym, ◌⊎◌,
  inl, inr,
}
use aleph_bft.Prelude.HashMap
use aleph_bft.Prelude.HashMap.{HashMap}
use aleph_bft.Nodes.{NodeIndex, quorum}
use aleph_bft.Nodes.NodeMap.{is_some, is_some-elim}
use aleph_bft.Extender.State.{ExtenderUnit, Extender}
use aleph_bft.Extender.Voting.{common_vote, unit_vote, vote_and_decision}
use aleph_bft.Extender.Quorum.{is_set, meet, quorums_exceed}
use aleph_bft.Extender.Tally.{
  same, slot_votes, Tallied, unit_vote-Tallied, unit_vote-decides, tally_decided, tally_follows,
  tally_unanimous, tally_confirms, Tallied-supporters, Tallied-opponents, slot_votes-le,
  slot_votes-some,
}

module _ {H : Type 0} ⦃e : Eq H⦄ where
  -- What the DAG guarantees of the units that vote on a candidate of the given round: a slot for
  -- each node, parents that are stored, of the round before, each by the node of its slot; and a
  -- node that does not fork has one unit for each round.
  pub record IsDag (s : Extender H) (forkers : List Bool) (round : ℕ) : Type 0 where
    pub committee : length forkers ≡ s.n_members
    pub few : 3 * count is_set forkers < s.n_members
    pub width :
        (h : H) (u : ExtenderUnit H)
        → HashMap.get h s.units ≡ some u
        → length u.parents ≡ s.n_members
    pub parent :
        (h : H) (u : ExtenderUnit H) (i : ℕ) (p : H)
        → HashMap.get h s.units ≡ some u
        → round + 2 ≤ u.round
        → get_elem? u.parents i ≡ some (some p)
        → (v : ExtenderUnit H) × (HashMap.get p s.units ≡ some v)
          × (suc v.round ≡ u.round)
          × (v.creator ≡ i)
    pub single :
        (h g : H) (u v : ExtenderUnit H)
        → HashMap.get h s.units ≡ some u
        → HashMap.get g s.units ≡ some v
        → u.creator ≡ v.creator
        → u.round ≡ v.round
        → get_elem? forkers u.creator ≡ some false
        → h ≡ g

  -- The votes in the store are those that the code computes.
  abbrev pub IsVoted : Extender H → H → NodeIndex → ℕ → Type 0
  IsVoted s c k round =
      (h : H) (u : ExtenderUnit H)
      → HashMap.get h s.units ≡ some u
      → round < u.round
      → (d : Option Bool) × (vote_and_decision s c h k round ≡ ok (u.vote, d))

against_vote : (d v : Bool) → v ≡ d → same (not d) v ≡ true → ⊥
against_vote d v p q = ground arith

zero-or-pos : (n : ℕ) → (n ≡ 0) ⊎ (0 < n)
zero-or-pos n = ground arith

eq-or-lt : (a b : ℕ) → a ≤ b → (a ≡ b) ⊎ (a < b)
eq-or-lt a b h = ground arith

le-or-le : (a b : ℕ) → (a ≤ b) ⊎ (b ≤ a)
le-or-le a b = ground arith

module _ {H : Type 0} ⦃e : Eq H⦄ (s : Extender H) (forkers : List Bool) (c : H) (k : NodeIndex)
    (round : ℕ) (dag : IsDag s forkers round) (voted : IsVoted s c k round) where
  voter :
      (h : H) (b : Bool) (d : Option Bool)
      → vote_and_decision s c h k round ≡ ok (b, d)
      → (u : ExtenderUnit H) × (HashMap.get h s.units ≡ some u)
        × (unit_vote s c k round u ≡ ok (b, d))
  unfolding vote_and_decision
  voter h b d x = elim (Option-cases (HashMap.get h s.units)) [
    | inl missing ↦ ground arith
    | inr (u, found) ↦ (u, found, ground arith)
  ]

  -- The stored vote of a unit of relative round two or more is a tally.
  stored-Tallied :
      (h : H) (u : ExtenderUnit H)
      → HashMap.get h s.units ≡ some u
      → round + 2 ≤ u.round
      → (d : Option Bool) × Tallied s round u u.vote d
  stored-Tallied h u found far =
      let (d, x) = voted h u found (omega arith) in
      let (u', found', y) = voter h u.vote d x in
      let same_unit : u ≡ u' = ground arith in
      (d, unit_vote-Tallied s c k round u u.vote d far (rw (← same_unit) at y))

  found_vote :
      (p : H) (v : ExtenderUnit H) (d : Bool)
      → HashMap.get p s.units ≡ some v
      → slot_votes s.units d (some p) ≡ true
      → same d v.vote ≡ true
  found_vote p v d fv h = ground arith

  -- All units of a round vote `d`.
  abbrev Unanimous : ℕ → Bool → Type 0
  Unanimous r d =
      (h : H) (u : ExtenderUnit H) → HashMap.get h s.units ≡ some u → u.round ≡ r → u.vote ≡ d

  -- Where a voter has a parent on an honest node, any other voter of the round with a parent there
  -- has the same one.
  shared_parent :
      (h g : H) (u w : ExtenderUnit H) (i : ℕ) (p q : H)
      → HashMap.get h s.units ≡ some u
      → HashMap.get g s.units ≡ some w
      → u.round ≡ w.round
      → round + 2 ≤ u.round
      → get_elem? u.parents i ≡ some (some p)
      → get_elem? w.parents i ≡ some (some q)
      → get_elem? forkers i ≡ some false
      → p ≡ q
  shared_parent h g u w i p q fu fw rounds far ep eq honest =
      let (v, fv, rv, cv) = dag.parent h u i p fu far ep in
      let (v', fv', rv', cv') = dag.parent g w i q fw (omega arith) eq in
      dag.single p q v v' fv fv' (cv ∙ sym cv') (omega arith) (rw cv honest)

  -- A decision binds the votes of its round.
  follows :
      (h g : H) (u w : ExtenderUnit H) (d : Bool)
      → HashMap.get h s.units ≡ some u
      → HashMap.get g s.units ≡ some w
      → u.round ≡ w.round
      → (b : Bool) (tu : Tallied s round u b (some d)) (wd : Option Bool)
        (tw : Tallied s round w w.vote wd)
      → w.vote ≡ d
  follows h g u w d fu fw rounds b tu wd tw =
      let (common, won, far) =
        tally_decided (u.round - round) (quorum s.n_members) tu.t tu.f d (sym tu.decision_of) in
      let sup = Tallied-supporters s round u b (some d) d tu in
      let sup_w = Tallied-supporters s round w w.vote wd d tw in
      let (i, x, y, ex, ey, honest, px, qy) =
        meet (slot_votes s.units d) is_some u.parents w.parents forkers
          (dag.width h u fu ∙ sym dag.committee) (dag.width g w fw ∙ sym dag.committee)
          (rw dag.committee (
            quorums_exceed s.n_members (count is_set forkers) _ _ dag.few (omega (arith, won, sup))
              (omega
                (arith, tw.enough, tw.for_it, tw.against, slot_votes-le s.units w.parents)))) in
      let (p, xp) = slot_votes-some s.units d x px in
      let (q, yq) = is_some-elim y qy in
      let pq =
        shared_parent h g u w i p q fu fw rounds (omega arith) (rw xp at ex) (rw yq at ey) honest in
      let pos = count-pos (slot_votes s.units d) w.parents i y ey (rw (yq, ← pq) (rw xp at px)) in
      let rel : common_vote (w.round - round) ≡ d = rw (← rounds) (sym common) in
      tw.vote_of
      ∙ tally_follows (w.round - round) (quorum s.n_members) tw.t tw.f d rel
          (omega (arith, pos, sup_w))

  -- Nobody votes against what the round before agrees on.
  unopposed :
      (r : ℕ) (d : Bool)
      → round < r
      → Unanimous r d
      → (g : H) (w : ExtenderUnit H) → HashMap.get g s.units ≡ some w
      → w.round ≡ suc r
      → count (slot_votes s.units (not d)) w.parents ≡ 0
  unopposed r d above all g w fw at_r =
      elim (zero-or-pos (count (slot_votes s.units (not d)) w.parents)) [
        | inl z ↦ z
        | inr p ↦
            let (i, x, ex, tx) = count-pos_elem (slot_votes s.units (not d)) w.parents p in
            let (p, xp) = slot_votes-some s.units (not d) x tx in
            let (v, fv, rv, cv) = dag.parent g w i p fw (omega arith) (rw xp at ex) in
            let vd = all p v fv (omega arith) in
            absurd (against_vote d v.vote vd (found_vote p v (not d) fv (rw xp at tx)))
      ]

  -- Agreement of a round carries over to all later rounds.
  agreed_next : (r : ℕ) (d : Bool) → round < r → Unanimous r d → Unanimous (suc r) d
  agreed_next r d above all g w fw at_r =
      let (wd, tw) = stored-Tallied g w fw (omega arith) in
      let none_against = unopposed r d above all g w fw at_r in
      let opp = Tallied-opponents s round w w.vote wd d tw in
      tw.vote_of
      ∙ tally_unanimous (w.round - round) (quorum s.n_members) tw.t tw.f d (opp ∙ none_against)
          (ground (arith, tw.enough, opp, none_against))

  agreed_later : (n r r' : ℕ) (d : Bool) → r + n ≡ r' → round < r → Unanimous r d → Unanimous r' d
  agreed_later zero r r' d e above all = λ h u fu at_r. all h u fu (omega arith)
  agreed_later (suc n) r r' d e above all =
      agreed_later n (suc r) r' d (omega arith) (omega arith) (agreed_next r d above all)

  decided_round :
      (h : H) (u : ExtenderUnit H) (b d : Bool)
      → HashMap.get h s.units ≡ some u
      → Tallied s round u b (some d)
      → Unanimous u.round d
  decided_round h u b d fu tu g w fw at_r =
      let (common, won, far) =
        tally_decided (u.round - round) (quorum s.n_members) tu.t tu.f d (sym tu.decision_of) in
      let (wd, tw) = stored-Tallied g w fw (omega arith) in
      follows h g u w d fu fw (sym at_r) b tu wd tw

  decided-Tallied :
      (u : ExtenderUnit H) (b d : Bool)
      → unit_vote s c k round u ≡ ok (b, some d)
      → Tallied s round u b (some d)
  decided-Tallied u b d x =
      unit_vote-Tallied s c k round u b (some d)
        (omega (arith, unit_vote-decides s c k round u b d x)) x

  decided_common :
      (u : ExtenderUnit H) (b d : Bool)
      → Tallied s round u b (some d)
      → d ≡ common_vote (u.round - round)
  decided_common u b d tu =
      (tally_decided (u.round - round) (quorum s.n_members) tu.t tu.f d (sym tu.decision_of)).0

  later_confirms :
      (h g : H) (u w : ExtenderUnit H) (b b' d d' : Bool)
      → HashMap.get h s.units ≡ some u
      → HashMap.get g s.units ≡ some w
      → Tallied s round u b (some d)
      → Tallied s round w b' (some d')
      → u.round < w.round
      → d ≡ d'
  later_confirms h g u w b b' d d' fu fw tu tw before =
      let (common, won, far) =
        tally_decided (u.round - round) (quorum s.n_members) tu.t tu.f d (sym tu.decision_of) in
      let all =
        agreed_later (w.round - 1 - u.round) u.round (w.round - 1) d (omega arith) (omega arith)
          (decided_round h u b d fu tu) in
      let none_against = unopposed (w.round - 1) d (omega arith) all g w fw (omega arith) in
      let opp = Tallied-opponents s round w b' (some d') d tw in
      sym (
        tally_confirms (w.round - round) (quorum s.n_members) tw.t tw.f d d' (opp ∙ none_against)
          (omega arith) (sym tw.decision_of))

  later_agrees :
      (h g : H) (u w : ExtenderUnit H) (b b' d d' : Bool)
      → HashMap.get h s.units ≡ some u
      → HashMap.get g s.units ≡ some w
      → Tallied s round u b (some d)
      → Tallied s round w b' (some d')
      → u.round ≤ w.round
      → d ≡ d'
  later_agrees h g u w b b' d d' fu fw tu tw le = elim (eq-or-lt u.round w.round le) [
    | inl at_once ↦
        decided_common u b d tu
        ∙ ap (λ x. common_vote (x - round)) at_once
        ∙ sym (decided_common w b' d' tw)
    | inr before ↦ later_confirms h g u w b b' d d' fu fw tu tw before
  ]

  -- In a DAG where fewer than a third of the nodes fork, and whose stored votes are the computed
  -- ones, two units that decide on the candidate decide the same.
  pub decisions_agree :
      (h g : H) (b b' d d' : Bool)
      → vote_and_decision s c h k round ≡ ok (b, some d)
      → vote_and_decision s c g k round ≡ ok (b', some d')
      → d ≡ d'
  decisions_agree h g b b' d d' x y =
      let (u, fu, ux) = voter h b (some d) x in
      let (w, fw, wy) = voter g b' (some d') y in
      let tu = decided-Tallied u b d ux in
      let tw = decided-Tallied w b' d' wy in
      elim (le-or-le u.round w.round) [
        | inl le ↦ later_agrees h g u w b b' d d' fu fw tu tw le
        | inr ge ↦ sym (later_agrees g h w u b' b d' d fw fu tw tu ge)
      ]

  -- In a DAG where fewer than a third of the nodes fork, and whose stored votes are the computed
  -- ones, every unit of the decider's round and of all later rounds votes for what was decided.
  pub decision_binds :
      (h g : H) (u w : ExtenderUnit H) (b d : Bool)
      → vote_and_decision s c h k round ≡ ok (b, some d)
      → HashMap.get h s.units ≡ some u
      → HashMap.get g s.units ≡ some w
      → u.round ≤ w.round
      → w.vote ≡ d
  decision_binds h g u w b d x fu fw le =
      let (u', fu', ux) = voter h b (some d) x in
      let same_unit : u' ≡ u = ground arith in
      let tu = decided-Tallied u b d (rw same_unit at ux) in
      agreed_later (w.round - u.round) u.round w.round d (omega arith)
        (omega (
          arith,
          (tally_decided (u.round - round) (quorum s.n_members) tu.t tu.f d (sym tu.decision_of)).2,
        ))
        (decided_round h u b d fu tu) g w fw refl
