-- ===== src/Signed.antt =====
-- src/signed.rs: signed data. Keys and signatures are the user's: a `KeyBox` is a parameter.
pub mod Multi
pub mod Complete
use aleph_bft.Prelude.{Exec, ok, ◌>>◌, assert, ◌==◌, ◌≡◌, Bool, true, if◌then◌else◌, arith}
use aleph_bft.Nodes.{NodeIndex}

-- The user's keys: the index of the node that signs, and signing and verifying a message.
pub record KeyBox (M S : Type 0) : Type 0 where
  pub index : NodeIndex
  pub sign : M → S
  pub verify : M → S → NodeIndex → Bool

-- The traits `Signable` and `Index`.
pub record Signable (T M : Type 0) : Type 0 where
  pub signed_hash : T → M
  pub index_of : T → NodeIndex

pub record UncheckedSigned (T S : Type 0) : Type 0 where
  pub signable : T
  pub signature : S

-- The reference to the `KeyBox` that verified the signature is a phantom.
pub record Signed (T S : Type 0) : Type 0 where
  pub unchecked : UncheckedSigned T S

pub data Checked (T S : Type 0) : Type 0 where
  valid : Signed T S → Checked T S
  signature_error : UncheckedSigned T S → Checked T S

unfoldable pub as_signable : {T S : Type 0} → Signed T S → T
as_signable s = s.unchecked.signable

unfoldable pub check :
    {T S M : Type 0} ⦃g : Signable T M⦄ → KeyBox M S → UncheckedSigned T S → Checked T S
check ⦃g⦄ key_box u =
    if key_box.verify (g.signed_hash u.signable) u.signature (g.index_of u.signable)
    then valid (record { unchecked = u })
    else signature_error u

-- `Signed::sign`; only data of the signing node can be signed.
unfoldable pub sign : {T S M : Type 0} ⦃g : Signable T M⦄ → KeyBox M S → T → Exec (Signed T S)
sign ⦃g⦄ key_box signable = do
  assert (g.index_of signable == key_box.index)
  ok (record {
    unchecked = record { signable = signable; signature = key_box.sign (g.signed_hash signable) };
  })

-- `check` hands back what it was given, and accepts exactly what verifies under the index that the
-- data names.
pub check_verifies :
    {T S M : Type 0} ⦃g : Signable T M⦄ (key_box : KeyBox M S) (u : UncheckedSigned T S)
    (s : Signed T S)
    → check key_box u ≡ valid s
    → (s.unchecked ≡ u)
      × (key_box.verify (g.signed_hash u.signable) u.signature (g.index_of u.signable) ≡ true)
unfolding check
check_verifies key_box u s h = ground arith
