-- ===== src/Signed/Complete.antt =====
-- src/signed.rs: `SignatureSet` and `DefaultMultiKeychain`, a signature for each node that signed.
use aleph_bft.Prelude.{
  ℕ, zero, suc, ◌+◌, ◌*◌, ◌/◌, ◌≤◌, ◌<◌, ◌≡◌, ◌↔◌, refl, ap, subst, ◌∙◌, Bool, true, false, ◌&&◌,
  none, some, List, [], ◌∷◌, arith, if◌then◌else◌, ltb, Exec, length, get_elem?, count,
}
use aleph_bft.Nodes.{NodeIndex, NodeCount, quorum}
use aleph_bft.Nodes.NodeMap
use aleph_bft.Nodes.NodeMap.{NodeMap, is_some, is_some-elim}
use aleph_bft.Signed.{KeyBox}
use aleph_bft.Extender.Quorum.{is_set, meet, quorums_exceed}

abbrev pub SignatureSet : Type 0 → Type 0
SignatureSet S = NodeMap S

module _ {S : Type 0} where
  unfoldable pub add_signature : SignatureSet S → S → NodeIndex → Exec (SignatureSet S)
  unfolding NodeMap.insert
  add_signature partial signature i = NodeMap.insert partial i signature

  unfoldable pub from_signature : NodeCount → S → NodeIndex → Exec (SignatureSet S)
  unfolding add_signature NodeMap.with_size
  from_signature node_count signature i = add_signature (NodeMap.with_size node_count) signature i

  length-iter_from : (i : ℕ) (m : NodeMap S) → length (NodeMap.iter_from i m) ≡ count is_some m
  unfolding NodeMap.iter_from
  length-iter_from i [] = refl
  length-iter_from i (none ∷ m) = length-iter_from (suc i) m
  length-iter_from i (some s ∷ m) = ap suc (length-iter_from (suc i) m)

module _ {M S : Type 0} where
  -- `Iterator::all`.
  abbrev all_verify : KeyBox M S → M → List (ℕ × S) → Bool
  all_verify key_box msg [] = true
  all_verify key_box msg (p ∷ ps) = key_box.verify msg p.1 p.0 && all_verify key_box msg ps

  unfoldable pub is_complete : KeyBox M S → NodeCount → M → SignatureSet S → Bool
  unfolding NodeMap.iter
  is_complete key_box node_count msg partial =
      if ltb (length (NodeMap.iter partial)) (2 * node_count / 3 + 1)
      then false
      else all_verify key_box msg (NodeMap.iter partial)

  -- Each signature of the set verifies, those of the slots from `i` on.
  abbrev AllVerify : KeyBox M S → M → ℕ → SignatureSet S → Type 0
  AllVerify key_box msg i partial =
      (j : ℕ) (s : S) → get_elem? partial j ≡ some (some s) → key_box.verify msg s (i + j) ≡ true

  all_verify_sound :
      (key_box : KeyBox M S) (msg : M) (i : ℕ) (m : NodeMap S)
      → all_verify key_box msg (NodeMap.iter_from i m) ≡ true
      → AllVerify key_box msg i m
  unfolding NodeMap.iter_from
  all_verify_sound key_box msg i [] h j s at_j = cc
  all_verify_sound key_box msg i (none ∷ m) h zero s at_j = cc
  all_verify_sound key_box msg i (none ∷ m) h (suc j) s at_j =
      subst (λ k. key_box.verify msg s k ≡ true) (omega arith)
        (all_verify_sound key_box msg (suc i) m h j s at_j)
  all_verify_sound key_box msg i (some u ∷ m) h zero s at_j =
      let same : u ≡ s = ground arith in
      let good : key_box.verify msg u i ≡ true = ground arith in
      subst (λ k. key_box.verify msg s k ≡ true) (omega arith)
        (subst (λ w. key_box.verify msg w i ≡ true) same good)
  all_verify_sound key_box msg i (some u ∷ m) h (suc j) s at_j =
      subst (λ k. key_box.verify msg s k ≡ true) (omega arith)
        (all_verify_sound key_box msg (suc i) m (ground arith) j s at_j)

  all_verify_whole :
      (key_box : KeyBox M S) (msg : M) (i : ℕ) (m : NodeMap S)
      → AllVerify key_box msg i m
      → all_verify key_box msg (NodeMap.iter_from i m) ≡ true
  unfolding NodeMap.iter_from
  all_verify_whole key_box msg i [] h = refl
  all_verify_whole key_box msg i (none ∷ m) h =
      all_verify_whole key_box msg (suc i) m
        (λ j s at_j. subst (λ k. key_box.verify msg s k ≡ true) (omega arith) (h (suc j) s at_j))
  all_verify_whole key_box msg i (some u ∷ m) h =
      let first : key_box.verify msg u i ≡ true =
        subst (λ k. key_box.verify msg u k ≡ true) (omega arith) (h 0 u refl) in
      rw first (
        all_verify_whole key_box msg (suc i) m
          (λ j s at_j. subst (λ k. key_box.verify msg s k ≡ true) (omega arith) (h (suc j) s at_j)))

  -- A set of signatures is complete exactly if at least a quorum of nodes signed and the signature
  -- of each node that signed verifies under its key.
  pub is_complete_iff :
      (key_box : KeyBox M S) (node_count : NodeCount) (msg : M) (partial : SignatureSet S)
      → (is_complete key_box node_count msg partial ≡ true)
        ↔ (quorum node_count ≤ count is_some partial)
          × ((i : NodeIndex) (s : S)
              → get_elem? partial i ≡ some (some s)
              → key_box.verify msg s i ≡ true)
  unfolding is_complete NodeMap.iter
  is_complete_iff key_box node_count msg partial =
      let size = length-iter_from 0 partial in
      (
        λ h. (
          ground arith,
          λ i s at_i.
              subst (λ k. key_box.verify msg s k ≡ true) (omega arith)
                (all_verify_sound key_box msg 0 partial (ground arith) i s at_i),
        ),
        λ (enough, good).
            let all = all_verify_whole key_box msg 0 partial (λ j s at_j.
              subst (λ k. key_box.verify msg s k ≡ true) (omega arith) (good j s at_j)) in
            ground arith,
      )

  -- Where fewer than a third of the nodes fork, any two complete sets of signatures, of whatever
  -- messages, with a slot for each node, have an honest node in common: each set has a signature of
  -- it, which verifies for the message of that set.
  pub complete_meet :
      (key_box : KeyBox M S) (forkers : List Bool) (m m' : M) (p q : SignatureSet S)
      → length p ≡ length forkers
      → length q ≡ length forkers
      → 3 * count is_set forkers < length forkers
      → is_complete key_box (length forkers) m p ≡ true
      → is_complete key_box (length forkers) m' q ≡ true
      → (i : NodeIndex) × (s : S) × (t : S) × (get_elem? forkers i ≡ some false)
        × (get_elem? p i ≡ some (some s))
        × (get_elem? q i ≡ some (some t))
        × (key_box.verify m s i ≡ true)
        × (key_box.verify m' t i ≡ true)
  complete_meet key_box forkers m m' p q size_p size_q few done_p done_q =
      let (enough_p, good_p) = (is_complete_iff key_box (length forkers) m p).0 done_p in
      let (enough_q, good_q) = (is_complete_iff key_box (length forkers) m' q).0 done_q in
      let (i, x, y, at_p, at_q, honest, set_p, set_q) =
        meet is_some is_some p q forkers size_p size_q
          (quorums_exceed (length forkers) (count is_set forkers) _ _ few enough_p enough_q) in
      let (s, is_s) = is_some-elim x set_p in
      let (t, is_t) = is_some-elim y set_q in
      let in_p : get_elem? p i ≡ some (some s) = at_p ∙ ap some is_s in
      let in_q : get_elem? q i ≡ some (some t) = at_q ∙ ap some is_t in
      (i, s, t, honest, in_p, in_q, good_p i s in_p, good_q i t in_q)
