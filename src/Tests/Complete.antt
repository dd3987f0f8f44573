-- ===== src/Tests/Complete.antt =====
-- Four nodes, of which the last forks. A signature is the sum of the message and the index.
use aleph_bft.Prelude.{
  ℕ, ◌+◌, ◌≤◌, ◌≡◌, ◌↔◌, refl, ◌==◌, Bool, true, false, none, some, List, [], ◌∷◌, arith, get_elem?,
  count, ok, panic,
}
use aleph_bft.Nodes.{quorum}
use aleph_bft.Nodes.NodeMap.{is_some}
use aleph_bft.Signed.{KeyBox}
use aleph_bft.Signed.Complete.{
  SignatureSet, from_signature, is_complete, is_complete_iff, complete_meet,
}

abbrev key_box : KeyBox ℕ ℕ
key_box = record { index = 0; sign = λ m. m; verify = λ m s i. s == m + i }

abbrev three : SignatureSet ℕ
three = some 40 ∷ some 41 ∷ none ∷ some 43 ∷ []

abbrev others : SignatureSet ℕ
others = some 50 ∷ none ∷ some 52 ∷ some 53 ∷ []

abbrev forkers : List Bool
forkers = false ∷ false ∷ false ∷ true ∷ []

collects :
    (from_signature {S = ℕ} 4 41 1 ≡ ok (none ∷ some 41 ∷ none ∷ none ∷ []))
    × (from_signature {S = ℕ} 4 41 4 ≡ panic)
    × (is_complete key_box 4 40 three ≡ true)
    × (is_complete key_box 4 50 others ≡ true)
    × (is_complete key_box 4 41 three ≡ false)
unfolding from_signature is_complete
collects = (refl, refl, refl, refl, refl)

is_complete_iff_example :
    (is_complete key_box 4 40 three ≡ true)
    ↔ (quorum 4 ≤ count is_some three)
      × ((i : ℕ) (s : ℕ) → get_elem? three i ≡ some (some s) → key_box.verify 40 s i ≡ true)
is_complete_iff_example = is_complete_iff key_box 4 40 three

complete_meet_example :
    (i : ℕ) × (s : ℕ) × (t : ℕ) × (get_elem? forkers i ≡ some false)
    × (get_elem? three i ≡ some (some s))
    × (get_elem? others i ≡ some (some t))
    × (key_box.verify 40 s i ≡ true)
    × (key_box.verify 50 t i ≡ true)
complete_meet_example =
    complete_meet key_box forkers 40 50 three others refl refl (omega arith) collects.2 collects.3
