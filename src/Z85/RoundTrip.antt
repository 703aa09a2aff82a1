-- ===== src/Z85/RoundTrip.antt =====
-- Decode after Encode, on whole buffers.
use brypt_node.Common.{
  ℕ, ◌+◌, ◌-◌, ◌*◌, ◌/◌, ◌^◌, ◌<◌, ◌≡◌, refl, ◌∙◌, inl, inr, Bool, true, false, ◌&&◌, ◌||◌, List,
  [], ◌∷◌, ◌++◌, append-nil, length, replicate, ◌==◌, ==_iff, if◌then◌else◌, All, Bool-cases, arith,
}
use brypt_node.PackUtils.{IsByte, store_big}
use brypt_node.Z85.{padding_bytes, encoded_size, encode, decode_into, decode}
use brypt_node.Z85.Blocks.{
  encode_values, block_values, word, encode_loop-encode_values, padding_bytes_block,
  encode_z85_digits,
}
use brypt_node.Z85.Decoding.{has_largest, store_values, decode_loop-encode_values}

-- The buffer has four bytes 0xff at a multiple of four.
unfoldable pub has_full_block : List ℕ → Bool
has_full_block (a ∷ b ∷ c ∷ d ∷ rest) =
    ((a == 255) && (b == 255) && (c == 255) && (d == 255)) || has_full_block rest
has_full_block _ = false

-- The buffer filled up to whole blocks with zeros.
unfoldable pub padded : List ℕ → List ℕ
unfolding padding_bytes
padded source = source ++ replicate (padding_bytes (length source)) 0

block_values-fit :
    (source : List ℕ) → All IsByte source → All (λ v. v < 2 ^ 32) (block_values source)
unfolding block_values
block_values-fit [] h = tt
block_values-fit (a ∷ []) h = omega arith
block_values-fit (a ∷ b ∷ []) h = omega arith
block_values-fit (a ∷ b ∷ c ∷ []) h = omega arith
block_values-fit (a ∷ b ∷ c ∷ d ∷ s) h = (omega arith, block_values-fit s h.1.1.1.1)

length-block_values :
    (source : List ℕ)
    → length (block_values source) ≡ (length source + padding_bytes (length source)) / 4
unfolding block_values padding_bytes
length-block_values [] = refl
length-block_values (a ∷ []) = refl
length-block_values (a ∷ b ∷ []) = refl
length-block_values (a ∷ b ∷ c ∷ []) = refl
length-block_values (a ∷ b ∷ c ∷ d ∷ s) = omega (arith, length-block_values s)

store_word :
    (a b c d : ℕ)
    → a < 256
    → b < 256
    → c < 256
    → d < 256
    → store_big 4 (word a b c d) ≡ a ∷ b ∷ c ∷ d ∷ []
unfolding store_big
store_word a b c d ha hb hc hd = ground arith

store_values-padded :
    (source : List ℕ) → All IsByte source → store_values (block_values source) ≡ padded source
unfolding block_values store_values padded
store_values-padded [] h = refl
store_values-padded (a ∷ []) h =
    rw (append-nil, store_word a 0 0 0 h.0 (omega arith) (omega arith) (omega arith))
store_values-padded (a ∷ b ∷ []) h =
    rw (append-nil, store_word a b 0 0 h.0 h.1.0 (omega arith) (omega arith))
store_values-padded (a ∷ b ∷ c ∷ []) h =
    rw (append-nil, store_word a b c 0 h.0 h.1.0 h.1.1.0 (omega arith))
store_values-padded (a ∷ b ∷ c ∷ d ∷ s) h = rw (
  store_word a b c d h.0 h.1.0 h.1.1.0 h.1.1.1.0,
  store_values-padded s h.1.1.1.1,
  padding_bytes_block (length s),
)

word_full :
    (a b c d : ℕ)
    → a < 256
    → b < 256
    → c < 256
    → d < 256
    → (word a b c d == 2 ^ 32 - 1) ≡ ((a == 255) && (b == 255) && (c == 255) && (d == 255))
word_full a b c d ha hb hc hd = elim (Bool-cases (word a b c d == 2 ^ 32 - 1)) [
  | inl e ↦
      let v : word a b c d ≡ 2 ^ 32 - 1 = (==_iff _ _).0 e in
      let ea : a ≡ 255 = omega arith in
      let eb : b ≡ 255 = omega arith in
      let ec : c ≡ 255 = omega arith in let ed : d ≡ 255 = omega arith in rw (e, ea, eb, ec, ed)
  | inr e ↦ rw e (ground arith)
]

has_largest-full :
    (source : List ℕ)
    → All IsByte source
    → has_largest (block_values source) ≡ has_full_block source
unfolding block_values has_largest has_full_block
has_largest-full [] h = refl
has_largest-full (a ∷ []) h =
    rw (word_full a 0 0 0 h.0 (omega arith) (omega arith) (omega arith)) (ground arith)
has_largest-full (a ∷ b ∷ []) h =
    rw (word_full a b 0 0 h.0 h.1.0 (omega arith) (omega arith)) (ground arith)
has_largest-full (a ∷ b ∷ c ∷ []) h =
    rw (word_full a b c 0 h.0 h.1.0 h.1.1.0 (omega arith)) (ground arith)
has_largest-full (a ∷ b ∷ c ∷ d ∷ s) h =
    rw (word_full a b c d h.0 h.1.0 h.1.1.0 h.1.1.1.0, has_largest-full s h.1.1.1.1)

length-encode_values : (vs : List ℕ) → length (encode_values vs) ≡ 5 * length vs
unfolding encode_values
length-encode_values [] = refl
length-encode_values (v ∷ vs) = rw (encode_z85_digits v) (omega (arith, length-encode_values vs))

eq_refl : (n : ℕ) → (n == n) ≡ true
eq_refl n = (==_iff n n).1 refl

encode_values_lem :
    (source : List ℕ) → All IsByte source → encode source ≡ encode_values (block_values source)
unfolding encode
encode_values_lem source h =
    rw (eq_refl (encoded_size (length source))) (encode_loop-encode_values source 0 (omega arith) h)

padding_bytes_lt : (n : ℕ) → padding_bytes n < 4
unfolding padding_bytes
padding_bytes_lt n = omega arith

-- The encoding of a list of bytes is as long as EncodedSize of the list's length.
pub length-encode :
    (source : List ℕ) → All IsByte source → length (encode source) ≡ encoded_size (length source)
unfolding encoded_size padding_bytes
length-encode source h =
    rw (encode_values_lem source h)
      (omega (arith, length-encode_values (block_values source), length-block_values source))

decode_values :
    (vs : List ℕ)
    → 5 * length vs < 2 ^ 32
    → All (λ v. v < 2 ^ 32) vs
    → decode (encode_values vs) ≡ (if has_largest vs then [] else store_values vs)
unfolding decode decode_into encode_values has_largest store_values
decode_values [] room fits = refl
decode_values (v ∷ vs) room fits =
    ground (arith, length-encode_values (v ∷ vs), decode_loop-encode_values (v ∷ vs) 0)

-- The decoded encoding of fewer than 2 ^ 31 bytes is those bytes filled up to whole blocks of
-- four, unless four bytes 0xff stand at a multiple of four: then nothing is decoded.
pub decode-encode :
    (source : List ℕ)
    → All IsByte source
    → length source < 2 ^ 31
    → decode (encode source) ≡ (if has_full_block source then [] else padded source)
decode-encode source h room = rw (encode_values_lem source h) (
    decode_values (block_values source)
      (omega (arith, length-block_values source, padding_bytes_lt (length source)))
      (block_values-fit source h)
    ∙ rw (has_largest-full source h, store_values-padded source h))
