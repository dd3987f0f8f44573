-- ===== src/Rmc/Once.antt =====
-- src/rmc.rs: about the hashes that are yielded.
use aleph_bft.Prelude.{
  ℕ, ◌+◌, ◌≡◌, refl, ap, ◌∙◌, inl, inr, true, false, some, List, [], ◌∷◌, ◌++◌, Eq, arith, ite,
  Bool-cases, Option-cases, if◌then◌else◌,
}
use aleph_bft.Prelude.HashMap
use aleph_bft.Signed.{UncheckedSigned, Signed, check, as_signable}
use aleph_bft.Signed.Multi.{
  Indexed, indexed_signable, MultiKeychain, PartiallyMultisigned, incomplete, complete, object,
  judged, into_partially_multisigned, add_signature, extended,
}
use aleph_bft.Rmc.{
  Message, signed_hash, multisigned_hash, hash, ReliableMulticast, broadcast,
  on_complete_multisignature, settle, new_state, collect, is_done, handle_message,
}

module _ {H S M : Type 0} ⦃e : Eq H⦄ (keychain : MultiKeychain H S M) where
  -- How often a hash was yielded.
  abbrev pub yielded : H → List (UncheckedSigned H M) → ℕ
  yielded q [] = 0
  yielded q (u ∷ us) = ite (e.eq? u.signable q) 1 0 + yielded q us

  abbrev pub AllComplete : List (UncheckedSigned H M) → Type 0
  AllComplete [] = Unit
  AllComplete (u ∷ us) = (keychain.is_complete u.signable u.signature ≡ true) × AllComplete us

  -- The state of a hash is about it; what was yielded is complete; and the hashes that were yielded,
  -- once each, are those whose state is complete.
  pub record IsOnce (s : ReliableMulticast H S M) : Type 0 where
    pub about :
        (q : H) (p : PartiallyMultisigned H M) → HashMap.get q s.hash_states ≡ some p → object p ≡ q
    pub all_complete : AllComplete s.multisigned_hashes
    pub once :
        (q : H)
        → yielded q s.multisigned_hashes ≡ (if is_done (HashMap.get q s.hash_states) then 1 else 0)

  yielded-append :
      (q : H) (us : List (UncheckedSigned H M)) (u : UncheckedSigned H M)
      → yielded q (us ++ u ∷ []) ≡ yielded q us + ite (e.eq? u.signable q) 1 0
  yielded-append q [] u = omega arith
  yielded-append q (v ∷ us) u = omega (arith, yielded-append q us u)

  AllComplete-append :
      (us : List (UncheckedSigned H M)) (u : UncheckedSigned H M)
      → AllComplete us
      → keychain.is_complete u.signable u.signature ≡ true
      → AllComplete (us ++ u ∷ [])
  AllComplete-append [] u all good = (good, tt)
  AllComplete-append (v ∷ us) u all good = (all.0, AllComplete-append us u all.1 good)

  on_complete_multisignature-IsOnce :
      (s : ReliableMulticast H S M) (u : UncheckedSigned H M)
      → IsOnce s
      → is_done (HashMap.get u.signable s.hash_states) ≡ false
      → keychain.is_complete u.signable u.signature ≡ true
      → IsOnce (on_complete_multisignature s u)
  unfolding on_complete_multisignature broadcast
  on_complete_multisignature-IsOnce s u v open_q good = record {
    about = λ q p found.
        ground (arith, HashMap.get-insert u.signable q (complete u) s.hash_states, v.about q p);
    all_complete = AllComplete-append s.multisigned_hashes u v.all_complete good;
    once = λ q. elim (e.eq? u.signable q) [
      | yes is_q ↦ rw (← is_q) (
          yielded-append u.signable s.multisigned_hashes u
          ∙ ground (
            arith,
            HashMap.get-insert_self u.signable (complete u) s.hash_states,
            v.once u.signable,
          ))
      | no other ↦
          yielded-append q s.multisigned_hashes u
          ∙ ground
              (arith, HashMap.get-insert_ne u.signable q (complete u) s.hash_states other, v.once q)
    ];
  }

  new_state-of :
      (s : ReliableMulticast H S M) (q : H) (signed : Signed (Indexed H) S)
      → IsOnce s
      → is_done (HashMap.get q s.hash_states) ≡ false
      → signed.unchecked.signable.signable ≡ q
      → (object (new_state s keychain q signed) ≡ q)
        × ((u : UncheckedSigned H M)
            → new_state s keychain q signed ≡ complete u
            → keychain.is_complete u.signable u.signature ≡ true)
  unfolding new_state into_partially_multisigned add_signature extended judged as_signable
  new_state-of s q signed v open_q is_q = elim (Option-cases (HashMap.get q s.hash_states)) [
    | inl missing ↦ (ground arith, λ u made. ground arith)
    | inr (p, found) ↦ let at_q = v.about q p found in (ground arith, λ u made. ground arith)
  ]

  forget-IsOnce :
      (s : ReliableMulticast H S M) (q : H)
      → IsOnce s
      → is_done (HashMap.get q s.hash_states) ≡ false
      → IsOnce (record s { hash_states = HashMap.remove q s.hash_states })
  forget-IsOnce s q v open_q = record {
    about = λ r p found. ground (arith, HashMap.get-remove q r s.hash_states, v.about r p);
    all_complete = v.all_complete;
    once = λ r. ground (arith, HashMap.get-remove q r s.hash_states, v.once r);
  }

  settle-IsOnce :
      (s : ReliableMulticast H S M) (q : H) (p : PartiallyMultisigned H M)
      → IsOnce s
      → is_done (HashMap.get q s.hash_states) ≡ false
      → object p ≡ q
      → ((u : UncheckedSigned H M)
          → p ≡ complete u
          → keychain.is_complete u.signable u.signature ≡ true)
      → IsOnce (settle s q p)
  unfolding settle
  settle-IsOnce s q (complete u) v open_q at_q good =
      on_complete_multisignature-IsOnce s u v
        (ap (λ r. is_done (HashMap.get r s.hash_states)) at_q ∙ open_q) (good u refl)
  settle-IsOnce s q (incomplete u) v open_q at_q good = record {
    about = λ r p found.
        ground (arith, HashMap.get-insert q r (incomplete u) s.hash_states, v.about r p);
    all_complete = v.all_complete;
    once = λ r. ground (arith, HashMap.get-insert q r (incomplete u) s.hash_states, v.once r);
  }

  collect-IsOnce :
      (s : ReliableMulticast H S M) (message : Message H S M)
      → IsOnce s
      → is_done (HashMap.get (hash message) s.hash_states) ≡ false
      → IsOnce (collect s keychain message)
  unfolding hash collect
  collect-IsOnce s (multisigned_hash u) v open_q =
      elim (Bool-cases (keychain.is_complete u.signable u.signature)) [
        | inl good ↦ rw (collect, good) (on_complete_multisignature-IsOnce s u v open_q good)
        | inr bad ↦ rw (collect, bad) v
      ]
  collect-IsOnce s (signed_hash u) v open_q =
      let q = u.signable.signable in
      elim (Bool-cases (keychain.key_box.verify q u.signature u.signable.index)) [
        | inl good ↦
            let (at_q, whole) = new_state-of s q (record { unchecked = u }) v open_q refl in
            rw (collect, check, good)
              (settle-IsOnce (record s { hash_states = HashMap.remove q s.hash_states }) q
                (new_state s keychain q (record { unchecked = u })) (forget-IsOnce s q v open_q)
                (ap is_done (HashMap.get-remove_self q s.hash_states)) at_q whole)
        | inr bad ↦ rw (collect, check, bad) v
      ]

  -- No message makes a hash be yielded twice, or with a multisignature that is not complete.
  pub handle_message-IsOnce :
      (s : ReliableMulticast H S M) (message : Message H S M)
      → IsOnce s
      → IsOnce (handle_message s keychain message)
  unfolding handle_message
  handle_message-IsOnce s message v =
      elim (Bool-cases (is_done (HashMap.get (hash message) s.hash_states))) [
        | inl done ↦ rw (handle_message, done) v
        | inr open_q ↦ rw (handle_message, open_q) (collect-IsOnce s message v open_q)
      ]
