-- ===== src/Signed/Multi.antt =====
-- src/signed.rs: multisignatures under a hash. What is signed here is a hash, which is its own hash.
use aleph_bft.Prelude.{Bool, if◌then◌else◌, Eq, ite}
use aleph_bft.Nodes.{NodeIndex}
use aleph_bft.Signed.{KeyBox, Signable, UncheckedSigned, Signed, as_signable}

-- A value with the index of the node that signs it.
pub record Indexed (T : Type 0) : Type 0 where
  pub signable : T
  pub index : NodeIndex

instance abbrev pub indexed_signable : {H : Type 0} → Signable (Indexed H) H
indexed_signable = record { signed_hash = λ i. i.signable; index_of = λ i. i.index }

-- The user's keys with multisignatures `M`.
pub record MultiKeychain (H S M : Type 0) : Type 0 where
  pub key_box : KeyBox H S
  pub from_signature : S → NodeIndex → M
  pub with_signature : M → S → NodeIndex → M
  pub is_complete : H → M → Bool

pub data PartiallyMultisigned (H M : Type 0) : Type 0 where
  incomplete : UncheckedSigned H M → PartiallyMultisigned H M
  complete : UncheckedSigned H M → PartiallyMultisigned H M

module _ {H S M : Type 0} where
  -- The kind that the keychain says it is.
  unfoldable pub judged : MultiKeychain H S M → UncheckedSigned H M → PartiallyMultisigned H M
  judged keychain u =
      if keychain.is_complete u.signable u.signature then complete u else incomplete u

  unfoldable pub into_partially_multisigned :
      MultiKeychain H S M → Signed (Indexed H) S → PartiallyMultisigned H M
  unfolding judged as_signable
  into_partially_multisigned keychain signed = judged keychain (record {
    signable = (as_signable signed).signable;
    signature = keychain.from_signature signed.unchecked.signature (as_signable signed).index;
  })

  -- The branch of `add_signature` for signatures of the same object.
  unfoldable pub extended :
      MultiKeychain H S M
      → PartiallyMultisigned H M
      → Signed (Indexed H) S
      → PartiallyMultisigned H M
  unfolding judged as_signable
  extended keychain (complete u) signed = complete u
  extended keychain (incomplete u) signed = judged keychain (record u {
    signature =
        keychain.with_signature u.signature signed.unchecked.signature (as_signable signed).index;
  })

abbrev pub object : {H M : Type 0} → PartiallyMultisigned H M → H
object (incomplete u) = u.signable
object (complete u) = u.signable

module _ {H S M : Type 0} ⦃e : Eq H⦄ where
  unfoldable pub add_signature :
      MultiKeychain H S M
      → PartiallyMultisigned H M
      → Signed (Indexed H) S
      → PartiallyMultisigned H M
  unfolding extended as_signable
  add_signature keychain partial signed =
      ite (e.eq? (object partial) (as_signable signed).signable) (extended keychain partial signed)
        partial
