-- ===== src/Nodes/Codec.antt =====
-- src/nodes.rs: how `NodeIndex` and `NodeSubset` are encoded.
use aleph_bft.Prelude.{
  ℕ, zero, suc, ◌+◌, ◌-◌, ◌*◌, ◌/◌, ◌%◌, ◌^◌, ◌≤◌, ◌<◌, ◌≡◌, ◌↔◌, refl, sym, ap, ◌∙◌, inl, inr,
  Bool, true, false, not, Option, none, some, List, [], ◌∷◌, ◌++◌, arith, if◌then◌else◌, ltb, ◌==◌,
  Bool-cases, Option-cases, length, replicate, length-append, length-replicate,
}
use mathlib.Core.List.{append_assoc, append-nil}
use aleph_bft.Nodes.{NodeIndex}
use aleph_bft.Nodes.NodeSubset.{NodeSubset}

-- An `Err` of the codec is `none`.
infixl 5 ◌>>=◌
abbrev ◌>>=◌ : {A B : Type 0} → Option A → (A → Option B) → Option B
none >>= rest = none
some a >>= rest = rest a

-- `u64::to_le_bytes`, a digit of base 256 for each of `n` bytes, and `u64::from_le_bytes`.
unfoldable pub to_le_bytes : ℕ → ℕ → List ℕ
to_le_bytes zero val = []
to_le_bytes (suc n) val = val % 256 ∷ to_le_bytes n (val / 256)

unfoldable pub from_le_bytes : List ℕ → ℕ
from_le_bytes [] = 0
from_le_bytes (b ∷ bytes) = b + 256 * from_le_bytes bytes

-- `Input::read` of `n` bytes: what was read, and what is left.
unfoldable pub read : {B : Type 0} → ℕ → List B → Option (List B × List B)
read zero input = some ([], input)
read (suc n) [] = none
read (suc n) (b ∷ input) = do (bytes, rest) ← read n input; some (b ∷ bytes, rest)

unfoldable pub encode_index : NodeIndex → List ℕ
unfolding to_le_bytes
encode_index i = to_le_bytes 8 i

unfoldable pub decode_index : List ℕ → Option (NodeIndex × List ℕ)
unfolding read from_le_bytes
decode_index value = do (arr, rest) ← read 8 value; some (from_le_bytes arr, rest)

from_le_bytes-to_le_bytes : (n val : ℕ) → val < 256 ^ n → from_le_bytes (to_le_bytes n val) ≡ val
unfolding from_le_bytes to_le_bytes
from_le_bytes-to_le_bytes zero val h = omega arith
from_le_bytes-to_le_bytes (suc n) val h =
    let rest = from_le_bytes-to_le_bytes n (val / 256) (omega arith) in rw rest (omega arith)

pub read-append : {B : Type 0} (bs rest : List B) → read (length bs) (bs ++ rest) ≡ some (bs, rest)
unfolding read
read-append [] rest = refl
read-append (b ∷ bs) rest = rw (read-append bs rest) refl

length-to_le_bytes : (n val : ℕ) → length (to_le_bytes n val) ≡ n
unfolding to_le_bytes
length-to_le_bytes zero val = refl
length-to_le_bytes (suc n) val = ap suc (length-to_le_bytes n (val / 256))

read-to_le_bytes :
    (n val : ℕ) (rest : List ℕ)
    → read n (to_le_bytes n val ++ rest) ≡ some (to_le_bytes n val, rest)
read-to_le_bytes n val rest =
    ap (λ k. read k (to_le_bytes n val ++ rest)) (sym (length-to_le_bytes n val))
    ∙ read-append (to_le_bytes n val) rest

-- An index of 64 bits is read back from its encoding, whatever follows.
pub decode_index-encode_index :
    (i : NodeIndex) (rest : List ℕ)
    → i < 256 ^ 8
    → decode_index (encode_index i ++ rest) ≡ some (i, rest)
unfolding decode_index encode_index
decode_index-encode_index i rest h = width 8 h
  where
    width :
        (n : ℕ)
        → i < 256 ^ n
        → ◌>>=◌ {B = ℕ × List ℕ}
            (read n (to_le_bytes n i ++ rest))
            (λ p. some (from_le_bytes p.0, p.1))
          ≡ some (i, rest)
    width n small = rw (read-to_le_bytes n i rest, from_le_bytes-to_le_bytes n i small) refl

-- The codec of `u32` and of vectors of bytes, and the bytes of a vector of bits: a `B` is a byte.
pub record Codec (B : Type 0) : Type 0 where
  pub encode_u32 : ℕ → List B
  pub decode_u32 : List B → Option (ℕ × List B)
  pub encode_bytes : List B → List B
  pub decode_bytes : List B → Option (List B × List B)
  pub to_bytes : List Bool → List B
  pub from_bytes : List B → List Bool

-- `BitVec::pop`.
unfoldable pub pop : List Bool → Option (Bool × List Bool)
pop [] = none
pop (b ∷ bv) = elim (pop bv) [ none ↦ some (b, []) | some (last, front) ↦ some (last, b ∷ front) ]

-- `while bv.len() > capacity`; each turn takes a bit, so that the length is enough fuel.
unfoldable pub drop_padding : ℕ → ℕ → List Bool → Option (List Bool)
unfolding pop
drop_padding zero capacity bv = if ltb capacity (length bv) then none else some bv
drop_padding (suc fuel) capacity bv =
    if ltb capacity (length bv)
    then elim (pop bv) [
      | none ↦ none
      | some (true, front) ↦ none
      | some (false, front) ↦ drop_padding fuel capacity front
    ]
    else some bv

module _ {B : Type 0} (c : Codec B) where
  unfoldable pub encode_subset : NodeSubset → List B
  encode_subset s = c.encode_u32 (length s) ++ c.encode_bytes (c.to_bytes s)

  -- After the loop there is nothing left to truncate.
  unfoldable pub decode_subset : List B → Option (NodeSubset × List B)
  unfolding drop_padding
  decode_subset input = do
    (capacity, input') ← c.decode_u32 input
    (bytes, rest) ← c.decode_bytes input'
    let bv = c.from_bytes bytes
    (if not (length bv == 8 * ((capacity + 7) / 8))
        then none
        else (do s ← drop_padding (length bv) capacity bv; some (s, rest)))

pop-false :
    (s : List Bool) (k : ℕ)
    → pop (s ++ replicate (suc k) false) ≡ some (false, s ++ replicate k false)
unfolding pop
pop-false [] zero = refl
pop-false [] (suc k) = rw (pop-false [] k) refl
pop-false (b ∷ s) k = rw (pop-false s k) refl

pop-cons :
    (b : Bool) (bv : List Bool)
    → (last : Bool) × (front : List Bool) × (pop (b ∷ bv) ≡ some (last, front))
      × (b ∷ bv ≡ front ++ last ∷ [])
unfolding pop
pop-cons b [] = (b, [], refl, refl)
pop-cons b (a ∷ bv) =
    let (last, front, popped, parts) = pop-cons a bv in
    (last, b ∷ front, rw popped refl, ap (b ∷◌) parts)

drop_padding-append :
    (fuel : ℕ) (s : List Bool) (k : ℕ)
    → k ≤ fuel
    → drop_padding fuel (length s) (s ++ replicate k false) ≡ some s
unfolding drop_padding
drop_padding-append zero s zero h = rw append-nil (ground arith)
drop_padding-append zero s (suc k) h = absurd (omega arith)
drop_padding-append (suc fuel) s zero h = rw append-nil (ground arith)
drop_padding-append (suc fuel) s (suc k) h =
    let long : ltb (length s) (length (s ++ false ∷ replicate k false)) ≡ true =
      ground (arith, length-append s (false ∷ replicate k false)) in
    rw (long, pop-false s k) (drop_padding-append fuel s k (omega arith))

replicate-snoc : (k : ℕ) → replicate k false ++ false ∷ [] ≡ false ∷ replicate k false
replicate-snoc zero = refl
replicate-snoc (suc k) = ap (false ∷◌) (replicate-snoc k)

drop_padding-only :
    (fuel capacity : ℕ) (bv s : List Bool)
    → capacity ≤ length bv
    → drop_padding fuel capacity bv ≡ some s
    → (length s ≡ capacity) × (k : ℕ) × (bv ≡ s ++ replicate k false)
unfolding drop_padding
drop_padding-only zero capacity bv s h done = (ground arith, 0, rw append-nil (ground arith))
drop_padding-only (suc fuel) capacity [] s h done = (ground arith, 0, rw append-nil (ground arith))
drop_padding-only (suc fuel) capacity (b ∷ bv) s h done =
    let (last, front, popped, parts) = pop-cons b bv in
    let size : suc (length bv) ≡ length front + 1 =
      ap length parts ∙ length-append front (last ∷ []) in
    elim (Bool-cases (ltb capacity (suc (length bv)))) [
      | inr short ↦ (ground arith, 0, rw append-nil (ground arith))
      | inl long ↦ elim (Bool-cases last) [
        | inl set ↦ absurd (ground arith)
        | inr clear ↦
            let (same, k, rest) =
              drop_padding-only fuel capacity front s (ground arith) (ground arith) in
            (
              same,
              suc k,
              parts
                  ∙ ap (λ l. front ++ l ∷ []) clear
                  ∙ ap (λ f. f ++ false ∷ []) rest
                  ∙ append_assoc s (replicate k false) (false ∷ [])
                  ∙ ap (s ++◌) (replicate-snoc k),
            )
      ]
    ]

-- The bits of a byte vector that hold `n` bits.
abbrev pub padding : ℕ → ℕ
padding n = 8 * ((n + 7) / 8) - n

module _ {B : Type 0} (c : Codec B) where
  -- What decodes to a subset: its size, and bytes whose bits are the subset, with cleared bits up to
  -- the end of the last byte, then the rest.
  abbrev pub IsCanonical : List B → NodeSubset → List B → Type 0
  IsCanonical input s rest =
      (input' : List B) × (bytes : List B) × (c.decode_u32 input ≡ some (length s, input'))
      × (c.decode_bytes input' ≡ some (bytes, rest))
      × (c.from_bytes bytes ≡ s ++ replicate (padding (length s)) false)

  padded :
      (bytes : List B) (s : NodeSubset) (k : ℕ)
      → c.from_bytes bytes ≡ s ++ replicate k false
      → length (c.from_bytes bytes) ≡ length s + k
  padded bytes s k bits =
      ap length bits
      ∙ length-append s (replicate k false)
      ∙ ap (length s +◌) (length-replicate k false)

  decoded :
      (input : List B) (s : NodeSubset) (rest : List B)
      → decode_subset c input ≡ some (s, rest)
      → IsCanonical input s rest
  unfolding decode_subset
  decoded input s rest done = elim (Option-cases (c.decode_u32 input)) [
    | inl short ↦ absurd (ground arith)
    | inr ((capacity, input'), size) ↦ elim (Option-cases (c.decode_bytes input')) [
      | inl short ↦ absurd (ground arith)
      | inr ((bytes, rest'), body) ↦
          elim (Bool-cases (length (c.from_bytes bytes) == 8 * ((capacity + 7) / 8))) [
            | inr other ↦ absurd (ground arith)
            | inl fits ↦
                elim (Option-cases
                  (drop_padding (length (c.from_bytes bytes)) capacity (c.from_bytes bytes))) [
                    | inl dirty ↦ absurd (ground arith)
                    | inr (s', clean) ↦
                        let (same, k, bits) =
                          drop_padding-only (length (c.from_bytes bytes)) capacity
                            (c.from_bytes bytes) s (ground arith) (ground arith) in
                        let size_of = padded bytes s k bits in
                        let width : k ≡ padding (length s) = ground arith in
                        (
                          input',
                          bytes,
                          ground (arith, same),
                          ground arith,
                          bits ∙ ap (λ n. s ++ replicate n false) width,
                        )
                  ]
          ]
    ]
  ]

  -- A subset is decoded exactly from a canonical encoding: its size, and bytes whose bits are the
  -- subset, then cleared bits up to the end of the last byte. All else is refused.
  pub decode_subset_iff :
      (input : List B) (s : NodeSubset) (rest : List B)
      → (decode_subset c input ≡ some (s, rest)) ↔ IsCanonical input s rest
  unfolding decode_subset
  decode_subset_iff input s rest = (
    decoded input s rest,
    λ (input', bytes, size, body, bits).
        let size_of = padded bytes s (padding (length s)) bits in
        let fits : (length (c.from_bytes bytes) == 8 * ((length s + 7) / 8)) ≡ true =
          ground arith in
        let clean : drop_padding (length (c.from_bytes bytes)) (length s) (c.from_bytes bytes)
            ≡ some s =
          ap (drop_padding (length (c.from_bytes bytes)) (length s)) bits
          ∙ drop_padding-append (length (c.from_bytes bytes)) s (padding (length s))
              (omega arith) in
        rw (size, body, fits, clean) refl,
  )

-- What the codec of `u32` and of vectors, and the conversions of vectors of bits, do: they read back
-- what they wrote, and the bytes of a vector of bits hold it, with cleared bits at the end.
pub record IsCodec {B : Type 0} (c : Codec B) : Type 0 where
  pub u32 :
      (n : ℕ) (rest : List B) → n < 2 ^ 32 → c.decode_u32 (c.encode_u32 n ++ rest) ≡ some (n, rest)
  pub bytes : (bs rest : List B) → c.decode_bytes (c.encode_bytes bs ++ rest) ≡ some (bs, rest)
  pub bits :
      (bv : List Bool) → c.from_bytes (c.to_bytes bv) ≡ bv ++ replicate (padding (length bv)) false

-- A subset whose size fits 32 bits is read back from its encoding, whatever follows, if the codec of
-- numbers and of byte vectors reads back what it writes and the bytes of bits end in cleared bits.
pub decode_subset-encode_subset :
    {B : Type 0} (c : Codec B)
    → IsCodec c
    → (s : NodeSubset) (rest : List B) → length s < 2 ^ 32
    → decode_subset c (encode_subset c s ++ rest) ≡ some (s, rest)
unfolding encode_subset
decode_subset-encode_subset c laws s rest small = (decode_subset_iff c _ s rest).1 (
  c.encode_bytes (c.to_bytes s) ++ rest,
  c.to_bytes s,
  ap c.decode_u32 (append_assoc (c.encode_u32 (length s)) _ rest) ∙ laws.u32 (length s) _ small,
  laws.bytes (c.to_bytes s) rest,
  laws.bits s,
)
