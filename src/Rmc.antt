-- ===== src/Rmc.antt =====
-- src/rmc.rs: the reliable multicast of hashes, as it collects signatures to a multisignature.
pub mod Once
use aleph_bft.Prelude.{
  Bool, true, false, Option, none, some, List, [], ◌∷◌, ◌++◌, Eq, if◌then◌else◌, Exec, ok, ◌>>=◌,
}
use aleph_bft.Prelude.HashMap
use aleph_bft.Prelude.HashMap.{HashMap}
use aleph_bft.Nodes.{NodeIndex}
use aleph_bft.Signed.{UncheckedSigned, Signed, Checked, valid, signature_error, check, sign}
use aleph_bft.Signed.Multi.{
  Indexed, indexed_signable, MultiKeychain, PartiallyMultisigned, incomplete, complete,
  into_partially_multisigned, add_signature,
}

-- `S` are signatures, `M` partial multisignatures.
pub data Message (T S M : Type 0) : Type 0 where
  signed_hash : UncheckedSigned (Indexed T) S → Message T S M
  multisigned_hash : UncheckedSigned T M → Message T S M

module _ {T S M : Type 0} where
  unfoldable pub hash : Message T S M → T
  hash (signed_hash unchecked) = unchecked.signable.signable
  hash (multisigned_hash unchecked) = unchecked.signable

  unfoldable pub is_complete : Message T S M → Bool
  is_complete (signed_hash _) = false
  is_complete (multisigned_hash _) = true

-- `multisigned_hashes` are those that were yielded, `network` the messages that were sent, and
-- `scheduled` the tasks that the scheduler was given, all oldest first.
pub record ReliableMulticast (H S M : Type 0) : Type 0 where
  pub hash_states : HashMap H (PartiallyMultisigned H M)
  pub multisigned_hashes : List (UncheckedSigned H M)
  pub network : List (Message H S M)
  pub scheduled : List (Message H S M)

abbrev pub is_done : {H M : Type 0} → Option (PartiallyMultisigned H M) → Bool
is_done (some (complete _)) = true
is_done (some (incomplete _)) = false
is_done none = false

module _ {H S M : Type 0} where
  -- `do_task`, and the task is scheduled. The code panics if nobody takes what is sent to the
  -- network; here the receiver listens.
  unfoldable pub broadcast : ReliableMulticast H S M → Message H S M → ReliableMulticast H S M
  broadcast s message = record s {
    network = s.network ++ message ∷ [];
    scheduled = s.scheduled ++ message ∷ [];
  }

module _ {H S M : Type 0} ⦃e : Eq H⦄ where
  unfoldable pub on_complete_multisignature :
      ReliableMulticast H S M → UncheckedSigned H M → ReliableMulticast H S M
  unfolding broadcast HashMap.insert
  on_complete_multisignature s multisigned =
      broadcast
        (record s {
          hash_states = HashMap.insert multisigned.signable (complete multisigned) s.hash_states;
          multisigned_hashes = s.multisigned_hashes ++ multisigned ∷ [];
        })
        (multisigned_hash multisigned)

  -- The `match new_state`; `s` has no state for the hash.
  unfoldable pub settle :
      ReliableMulticast H S M → H → PartiallyMultisigned H M → ReliableMulticast H S M
  unfolding on_complete_multisignature HashMap.insert
  settle s q (complete multisigned) = on_complete_multisignature s multisigned
  settle s q (incomplete u) = record s {
    hash_states = HashMap.insert q (incomplete u) s.hash_states;
  }

  unfoldable pub new_state :
      ReliableMulticast H S M
      → MultiKeychain H S M
      → H
      → Signed (Indexed H) S
      → PartiallyMultisigned H M
  unfolding into_partially_multisigned add_signature HashMap.get
  new_state s keychain q signed = elim (HashMap.get q s.hash_states) [
    | none ↦ into_partially_multisigned keychain signed
    | some partial ↦ add_signature keychain partial signed
  ]

  -- `handle_message` for a hash whose multisignature is not complete.
  unfoldable pub collect :
      ReliableMulticast H S M → MultiKeychain H S M → Message H S M → ReliableMulticast H S M
  unfolding on_complete_multisignature check settle new_state HashMap.remove
  collect s keychain (multisigned_hash unchecked) =
      if keychain.is_complete unchecked.signable unchecked.signature
      then on_complete_multisignature s unchecked
      else s
  collect s keychain (signed_hash unchecked) = elim (check keychain.key_box unchecked) [
    | signature_error _ ↦ s
    | valid signed ↦
        let q = unchecked.signable.signable in
        settle (record s { hash_states = HashMap.remove q s.hash_states }) q
          (new_state s keychain q signed)
  ]

  unfoldable pub handle_message :
      ReliableMulticast H S M → MultiKeychain H S M → Message H S M → ReliableMulticast H S M
  unfolding hash collect HashMap.get
  handle_message s keychain message =
      if is_done (HashMap.get (hash message) s.hash_states) then s else collect s keychain message

  unfoldable pub start_rmc :
      ReliableMulticast H S M → MultiKeychain H S M → H → Exec (ReliableMulticast H S M)
  unfolding sign handle_message broadcast
  start_rmc s keychain q = do
    signed ← sign keychain.key_box (record { signable = q; index = keychain.key_box.index })
    ok (
        broadcast (handle_message s keychain (signed_hash signed.unchecked))
          (signed_hash signed.unchecked))

  unfoldable pub get_multisigned : ReliableMulticast H S M → H → Option (UncheckedSigned H M)
  unfolding HashMap.get
  get_multisigned s q = elim (HashMap.get q s.hash_states) [
    | none ↦ none
    | some (incomplete _) ↦ none
    | some (complete multisigned) ↦ some multisigned
  ]
