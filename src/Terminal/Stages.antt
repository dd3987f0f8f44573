-- ===== src/Terminal/Stages.antt =====
-- src/terminal.rs: the stages of a unit in the terminal, and the order of the DAG.
use aleph_bft.Prelude.{
  ℕ, ◌+◌, ◌≤◌, ◌<◌, ◌≡◌, refl, sym, ap, ◌∙◌, ◌⊎◌, ite, Bool, true, false, not, Option, none, some,
  List, [], ◌∷◌, Eq, All, count, get_elem?, arith,
}
use aleph_bft.Prelude.HashMap
use aleph_bft.Prelude.HashMap.{HashMap}
use aleph_bft.Nodes.{NodeIndex}
use aleph_bft.Nodes.NodeMap
use aleph_bft.Nodes.NodeMap.{NodeMap}
use aleph_bft.Units
use aleph_bft.Alerts.{same}
use aleph_bft.Terminal.{
  TerminalUnit, TerminalEvent, parents_reconstructed, parents_in_dag, Coord, round_creator_eq,
  round_of,
}
use aleph_bft.Terminal.Events.{is_in_dag, is_wrong_hash}

module _ {H : Type 0} where
  -- Occupied slots are marked in the mask.
  abbrev pub Covers : NodeMap H → List Bool → Type 0
  Covers [] [] = Unit
  Covers [] (b ∷ bs) = ⊥
  Covers (o ∷ m) [] = ⊥
  Covers (none ∷ m) (b ∷ bs) = Covers m bs
  Covers (some p ∷ m) (b ∷ bs) = (b ≡ true) × Covers m bs

  abbrev pub mask_of : TerminalUnit H → List Bool
  mask_of u = u.unit.pre_unit.control_hash.parents_mask

  abbrev pub known_parents : TerminalUnit H → List H
  known_parents u = NodeMap.occupied u.parents

module _ {H : Type 0} ⦃e : Eq H⦄ where
  abbrev pub in_dag_of : HashMap H (TerminalUnit H) → H → Bool
  in_dag_of store p = elim (HashMap.get p store) [ none ↦ false | some u ↦ is_in_dag u.status ]

  -- The waiting list of a key, empty if there is none.
  abbrev pub list_from : Option (List H) → List H
  list_from none = []
  list_from (some waiting) = waiting

  abbrev pub list_at : {K : Type 0} ⦃k : Eq K⦄ → K → HashMap K (List H) → List H
  list_at p m = list_from (HashMap.get p m)

  abbrev pub waits : HashMap H (List H) → H → H → ℕ
  waits ch h p = count (same h) (list_at p ch)

  abbrev pub decode_event : H → TerminalEvent H → Bool
  decode_event h (parents_reconstructed q) = same h q
  decode_event h (parents_in_dag q) = false

  abbrev pub dag_event : H → TerminalEvent H → Bool
  dag_event h (parents_reconstructed q) = false
  dag_event h (parents_in_dag q) = same h q

  -- How many known parents are not in the DAG.
  abbrev pub missing : (H → Bool) → TerminalUnit H → ℕ
  missing dag u = count (λ p. not (dag p)) (known_parents u)

  -- No parent will be decoded any more.
  abbrev pub IsSettled : TerminalUnit H → Type 0
  IsSettled u = (u.n_miss_par_decoded ≡ 0) ⊎ (round_of u.unit ≡ 0)

  abbrev pub Untold : TerminalUnit H → (H → ℕ) → ℕ → Type 0
  Untold u w extra =
      (is_in_dag u.status ≡ false)
      × (u.n_miss_par_dag ≡ Units.n_parents u.unit.pre_unit.control_hash)
      × ((p : H) → w p ≡ 0)
      × (extra ≡ 0)

  -- The unit is told no more, and waits for nobody outside the DAG.
  abbrev pub Unasked : (H → Bool) → (H → ℕ) → ℕ → Type 0
  Unasked dag w extra = (extra ≡ 0) × ((p : H) → dag p ≡ false → w p ≡ 0)

  count-same_le :
      (dag : H → Bool) (ps : List H) (p : H)
      → dag p ≡ false
      → count (same p) ps ≤ count (λ q. not (dag q)) ps
  count-same_le dag [] p out = omega arith
  count-same_le dag (q ∷ ps) p out = elim (e.eq? p q) [
    | yes is ↦ ground (arith, count-same_le dag ps p out, sym (ap dag is) ∙ out)
    | no other ↦ ground (arith, count-same_le dag ps p out)
  ]

  pub all_inside-Unasked :
      (dag : H → Bool) (u : TerminalUnit H) (w : H → ℕ)
      → missing dag u ≡ 0
      → ((p : H) → w p ≤ count (same p) (known_parents u))
      → Unasked dag w 0
  all_inside-Unasked dag u w none_out asked =
      (refl, λ p out. omega (arith, count-same_le dag (known_parents u) p out, none_out, asked p))

  -- The stages of a unit: its parents are decoded, its hash is checked, it may wait for the parents
  -- that a response names, it waits for its parents to enter the DAG, and it enters. `w` says how
  -- often the unit waits for another, `extra` how often it is among those that are just being told;
  -- `decoding` and `entering` count its events in the queue.
  pub data Stage (dag : H → Bool) (u : TerminalUnit H) (w : H → ℕ) (extra decoding entering : ℕ)
      : Type 0 where
    fresh :
        is_wrong_hash u.status ≡ false
        → decoding ≡ 0
        → entering ≡ 0
        → Untold u w extra
        → Stage dag u w extra decoding entering
    decoded :
        IsSettled u
        → is_wrong_hash u.status ≡ false
        → decoding ≡ 1
        → entering ≡ 0
        → Untold u w extra
        → Stage dag u w extra decoding entering
    wrong :
        IsSettled u
        → is_wrong_hash u.status ≡ true
        → decoding ≡ 0
        → entering ≡ 0
        → Untold u w extra
        → Stage dag u w extra decoding entering
    waiting :
        IsSettled u
        → is_wrong_hash u.status ≡ false
        → is_in_dag u.status ≡ false
        → decoding ≡ 0
        → entering ≡ 0
        → 0 < u.n_miss_par_dag
        → missing dag u + extra ≤ u.n_miss_par_dag
        → ((p : H) → w p ≤ count (same p) (known_parents u))
        → Stage dag u w extra decoding entering
    ready :
        IsSettled u
        → is_in_dag u.status ≡ false
        → decoding ≡ 0
        → entering ≡ 1
        → u.n_miss_par_dag ≡ 0
        → missing dag u ≡ 0
        → Unasked dag w extra
        → Stage dag u w extra decoding entering
    placed :
        IsSettled u
        → is_in_dag u.status ≡ true
        → decoding ≡ 0
        → entering ≡ 0
        → u.n_miss_par_dag ≡ 0
        → Unasked dag w extra
        → Stage dag u w extra decoding entering

  abbrev pub UnitOk :
      HashMap H (TerminalUnit H)
      → List (TerminalEvent H)
      → HashMap H (List H)
      → List H
      → H
      → TerminalUnit H
      → Type 0
  UnitOk store queue ch told h u =
      (u.unit.hash ≡ h)
      × Covers u.parents (mask_of u)
      × Stage (in_dag_of store) u (waits ch h) (count (same h) told) (count (decode_event h) queue)
          (count (dag_event h) queue)

  abbrev pub Unknown : List (TerminalEvent H) → HashMap H (List H) → List H → H → Type 0
  Unknown queue ch told h =
      ((p : H) → waits ch h p ≡ 0)
      × (count (same h) told ≡ 0)
      × (count (decode_event h) queue ≡ 0)
      × (count (dag_event h) queue ≡ 0)

  -- A stored unit that may have a parent of index `i`.
  abbrev pub MayWait : HashMap H (TerminalUnit H) → NodeIndex → H → Type 0
  MayWait store i v =
      (u : TerminalUnit H) × (HashMap.get v store ≡ some u)
      × (0 < round_of u.unit)
      × (get_elem? (mask_of u) i ≡ some true)

  -- The DAG after more units, in their order.
  abbrev pub after : List (TerminalUnit H) → (H → Bool) → H → Bool
  after [] dag q = dag q
  after (u ∷ us) dag q = after us (λ p. ite (e.eq? u.unit.hash p) true (dag p)) q

  -- Each unit is new to the DAG and all its parents are in it, when it enters.
  abbrev pub InOrder : List (TerminalUnit H) → (H → Bool) → Type 0
  InOrder [] dag = Unit
  InOrder (u ∷ us) dag =
      (dag u.unit.hash ≡ false)
      × All (λ p. dag p ≡ true) (NodeMap.values u.parents)
      × InOrder us (λ p. ite (e.eq? u.unit.hash p) true (dag p))

  abbrev pub nothing : H → Bool
  nothing p = false

  -- What the parts of the terminal have to do with one another; `told` are the units that are being
  -- told that a parent entered the DAG.
  pub record Consistent (store : HashMap H (TerminalUnit H)) (queue : List (TerminalEvent H))
      (ch : HashMap H (List H)) (cc : HashMap Coord (List H)) (inserted : List (TerminalUnit H))
      (told : List H) : Type 0 where
    pub dag_is : (p : H) → in_dag_of store p ≡ after inserted nothing p
    pub ordered : InOrder inserted nothing
    pub units :
        (h : H) (u : TerminalUnit H) → HashMap.get h store ≡ some u → UnitOk store queue ch told h u
    pub strangers : (h : H) → HashMap.get h store ≡ none → Unknown queue ch told h
    pub coords : (k : Coord) → All (MayWait store k.1) (list_at k cc)
