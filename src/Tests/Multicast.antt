-- ===== src/Tests/Multicast.antt =====
-- Three nodes; two signatures complete a multisignature, which counts them. A signature of a hash by
-- a node is their sum.
use aleph_bft.Prelude.{ℕ, ◌+◌, ◌==◌, ◌≡◌, refl, leb, [], ◌∷◌, nat_eq, ℕ_discrete}
use aleph_bft.Prelude.HashMap
use aleph_bft.Signed.{UncheckedSigned}
use aleph_bft.Signed.Multi.{MultiKeychain, complete}
use aleph_bft.Rmc.{Message, signed_hash, multisigned_hash, ReliableMulticast, handle_message}
use aleph_bft.Rmc.Once.{IsOnce, handle_message-IsOnce}

abbrev keychain : MultiKeychain ℕ ℕ ℕ
keychain = record {
  key_box = record { index = 0; sign = λ m. m; verify = λ m s i. s == m + i };
  from_signature = λ s i. 1;
  with_signature = λ m s i. m + 1;
  is_complete = λ q m. leb 2 m;
}

abbrev fresh : ReliableMulticast ℕ ℕ ℕ
fresh = record { hash_states = []; multisigned_hashes = []; network = []; scheduled = [] }

abbrev by_node : ℕ → Message ℕ ℕ ℕ
by_node i =
    signed_hash (record { signable = record { signable = 40; index = i }; signature = 40 + i })

abbrev whole : UncheckedSigned ℕ ℕ
whole = record { signable = 40; signature = 2 }

abbrev finished : ReliableMulticast ℕ ℕ ℕ
finished = record {
  hash_states = (40, complete whole) ∷ [];
  multisigned_hashes = whole ∷ [];
  network = multisigned_hash whole ∷ [];
  scheduled = multisigned_hash whole ∷ [];
}

collects :
    (handle_message (handle_message fresh keychain (by_node 0)) keychain (by_node 1) ≡ finished)
    × (handle_message finished keychain (by_node 2) ≡ finished)
unfolding handle_message ℕ_discrete
collects = (refl, refl)

fresh-IsOnce : IsOnce keychain fresh
unfolding HashMap.get
fresh-IsOnce = record { about = λ q p found. cc; all_complete = tt; once = λ q. refl }

handle_message-IsOnce_example : IsOnce keychain (handle_message fresh keychain (by_node 0))
handle_message-IsOnce_example = handle_message-IsOnce keychain fresh (by_node 0) fresh-IsOnce
