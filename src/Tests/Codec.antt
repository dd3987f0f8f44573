-- ===== src/Tests/Codec.antt =====
-- Bytes that hold a number, or any bits.
use aleph_bft.Prelude.{
  ℕ, ◌≡◌, refl, ◌↔◌, Bool, true, false, Option, none, some, List, [], ◌∷◌, ◌++◌, arith, length,
  replicate, nat_eq,
}
use mathlib.Core.List.{append-nil}
use aleph_bft.Nodes.Codec.{
  read, read-append, encode_index, decode_index, decode_index-encode_index, Codec, encode_subset,
  decode_subset, padding, IsCanonical, decode_subset_iff, IsCodec, decode_subset-encode_subset,
}

abbrev Byte : Type 0
Byte = ℕ × List Bool

abbrev number : List Byte → Option (ℕ × List Byte)
number [] = none
number (b ∷ rest) = some (b.0, rest)

abbrev vector : List Byte → Option (List Byte × List Byte)
vector [] = none
vector (b ∷ rest) = read b.0 rest

abbrev all_bits : List Byte → List Bool
all_bits [] = []
all_bits (b ∷ rest) = b.1 ++ all_bits rest

abbrev toy : Codec Byte
toy = record {
  encode_u32 = λ n. (n, []) ∷ [];
  decode_u32 = number;
  encode_bytes = λ bs. (length bs, []) ∷ bs;
  decode_bytes = vector;
  to_bytes = λ bv. (0, bv ++ replicate (padding (length bv)) false) ∷ [];
  from_bytes = all_bits;
}

toy-IsCodec : IsCodec toy
toy-IsCodec = record {
  u32 = λ n rest small. refl;
  bytes = λ bs rest. read-append bs rest;
  bits = λ bv. append-nil (bv ++ replicate (padding (length bv)) false);
}

abbrev two : List Bool
two = true ∷ false ∷ []

little_endian : encode_index 259 ≡ 3 ∷ 1 ∷ 0 ∷ 0 ∷ 0 ∷ 0 ∷ 0 ∷ 0 ∷ []
unfolding encode_index
little_endian = refl

-- A bit of the padding that is set.
trailing :
    decode_subset toy ((1, []) ∷ (1, []) ∷ (0, true ∷ replicate 6 false ++ true ∷ []) ∷ []) ≡ none
unfolding decode_subset read
trailing = refl

decode_index-encode_index_example : decode_index (encode_index 259 ++ 7 ∷ []) ≡ some (259, 7 ∷ [])
decode_index-encode_index_example = decode_index-encode_index 259 (7 ∷ []) (omega arith)

decode_subset_iff_example :
    (decode_subset toy (encode_subset toy two) ≡ some (two, []))
    ↔ IsCanonical toy (encode_subset toy two) two []
decode_subset_iff_example = decode_subset_iff toy (encode_subset toy two) two []

decode_subset-encode_subset_example :
    decode_subset toy (encode_subset toy two ++ []) ≡ some (two, [])
decode_subset-encode_subset_example =
    decode_subset-encode_subset toy toy-IsCodec two [] (omega arith)
