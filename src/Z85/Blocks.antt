-- ===== src/Z85/Blocks.antt =====
-- Encode and Decode seen block by block: four bytes make a 32-bit value, and a value five characters.
use brypt_node.Common.{
  ℕ, suc, ◌+◌, ◌*◌, ◌/◌, ◌%◌, ◌^◌, ◌<◌, ◌≡◌, refl, ◌∙◌, ◌≢◌, List, [], ◌∷◌, ◌++◌, append-nil,
  length, get_or, All, arith,
}
use brypt_node.PackUtils.{IsByte}
use brypt_node.Z85.{
  encode_mapping, encode_divisor, next_index, encode_base256, encode_z85, pad_value, encode_loop,
  padding_bytes,
}

abbrev pub word : ℕ → ℕ → ℕ → ℕ → ℕ
word a b c d = ((a * 256 + b) * 256 + c) * 256 + d

-- The values of the blocks; the last block is filled up with zeros.
unfoldable pub block_values : List ℕ → List ℕ
block_values (a ∷ b ∷ c ∷ d ∷ rest) = word a b c d ∷ block_values rest
block_values (a ∷ b ∷ c ∷ []) = word a b c 0 ∷ []
block_values (a ∷ b ∷ []) = word a b 0 0 ∷ []
block_values (a ∷ []) = word a 0 0 0 ∷ []
block_values [] = []

unfoldable pub encode_values : List ℕ → List ℕ
encode_values [] = []
encode_values (v ∷ vs) = encode_z85 6 encode_divisor v ++ encode_values vs

abbrev pub character : ℕ → ℕ
character digit = get_or encode_mapping digit 0

pub encode_z85_digits :
    (v : ℕ)
    → encode_z85 6 encode_divisor v
      ≡ character (v / 52200625 % 85)
        ∷ character (v / 614125 % 85)
        ∷ character (v / 7225 % 85)
        ∷ character (v / 85 % 85)
        ∷ character (v / 1 % 85)
        ∷ []
unfolding encode_z85
encode_z85_digits v = refl

module _ (p i v x : ℕ) (s : List ℕ) where
  encode_more :
      next_index i % 4 ≢ 0
      → encode_loop p i v (x ∷ s) ≡ encode_loop p (next_index i) (encode_base256 v x) s
  unfolding encode_loop
  encode_more h = ground arith

  encode_full :
      next_index i % 4 ≡ 0
      → encode_loop p i v (x ∷ s)
        ≡ encode_z85 6 encode_divisor (encode_base256 v x) ++ encode_loop p (next_index i) 0 s
  unfolding encode_loop
  encode_full h = ground arith

module _ (p i v : ℕ) where
  encode_end : i % 4 ≡ 0 → encode_loop p i v [] ≡ []
  unfolding encode_loop
  encode_end h = ground arith

  encode_flush : i % 4 ≢ 0 → encode_loop p i v [] ≡ encode_z85 6 encode_divisor (pad_value p v)
  unfolding encode_loop
  encode_flush h = ground arith

pub padding_bytes_block : (n : ℕ) → padding_bytes (suc (suc (suc (suc n)))) ≡ padding_bytes n
unfolding padding_bytes
padding_bytes_block n = omega arith

encode_base256_lem : (v x : ℕ) → v < 2 ^ 24 → x < 256 → encode_base256 v x ≡ v * 256 + x
encode_base256_lem v x h k = omega arith

abbrev four_on : ℕ → ℕ
four_on i = next_index (next_index (next_index (next_index i)))

abbrev four_bytes : ℕ → ℕ → ℕ → ℕ → ℕ
four_bytes a b c d = encode_base256 (encode_base256 (encode_base256 (encode_base256 0 a) b) c) d

four_bytes_lem :
    (a b c d : ℕ) → a < 256 → b < 256 → c < 256 → d < 256 → four_bytes a b c d ≡ word a b c d
four_bytes_lem a b c d ha hb hc hd = omega arith

-- A block of the encoder from a block boundary on.
encode_loop_block :
    (p i a b c d : ℕ) (s : List ℕ)
    → i % 4 ≡ 0
    → encode_loop p i 0 (a ∷ b ∷ c ∷ d ∷ s)
      ≡ encode_z85 6 encode_divisor (four_bytes a b c d) ++ encode_loop p (four_on i) 0 s
encode_loop_block p i a b c d s h =
    encode_more p i 0 a (b ∷ c ∷ d ∷ s) (omega arith)
    ∙ encode_more p (next_index i) _ b (c ∷ d ∷ s) (omega arith)
    ∙ encode_more p (next_index (next_index i)) _ c (d ∷ s) (omega arith)
    ∙ encode_full p (next_index (next_index (next_index i))) _ d s (omega arith)

value_block : (v w : ℕ) → v ≡ w → encode_z85 6 encode_divisor v ≡ encode_values (w ∷ [])
unfolding encode_values
value_block v w e = rw (e, append-nil)

-- The encoder's loop writes the blocks' values, digit by digit.
pub encode_loop-encode_values :
    (source : List ℕ) (i : ℕ)
    → i % 4 ≡ 0
    → All IsByte source
    → encode_loop (padding_bytes (length source)) i 0 source ≡ encode_values (block_values source)
unfolding block_values encode_values padding_bytes pad_value
encode_loop-encode_values [] i h bytes = encode_end 0 i 0 h
encode_loop-encode_values (a ∷ []) i h bytes =
    encode_more 3 i 0 a [] (omega arith)
    ∙ encode_flush 3 (next_index i) _ (omega arith)
    ∙ value_block _ _ (four_bytes_lem a 0 0 0 bytes.0 (omega arith) (omega arith) (omega arith))
encode_loop-encode_values (a ∷ b ∷ []) i h bytes =
    encode_more 2 i 0 a (b ∷ []) (omega arith)
    ∙ encode_more 2 (next_index i) _ b [] (omega arith)
    ∙ encode_flush 2 (next_index (next_index i)) _ (omega arith)
    ∙ value_block _ _ (four_bytes_lem a b 0 0 bytes.0 bytes.1.0 (omega arith) (omega arith))
encode_loop-encode_values (a ∷ b ∷ c ∷ []) i h bytes =
    encode_more 1 i 0 a (b ∷ c ∷ []) (omega arith)
    ∙ encode_more 1 (next_index i) _ b (c ∷ []) (omega arith)
    ∙ encode_more 1 (next_index (next_index i)) _ c [] (omega arith)
    ∙ encode_flush 1 (next_index (next_index (next_index i))) _ (omega arith)
    ∙ value_block _ _ (four_bytes_lem a b c 0 bytes.0 bytes.1.0 bytes.1.1.0 (omega arith))
encode_loop-encode_values (a ∷ b ∷ c ∷ d ∷ s) i h bytes = rw (padding_bytes_block (length s)) (
    encode_loop_block (padding_bytes (length s)) i a b c d s h
    ∙ rw (
      four_bytes_lem a b c d bytes.0 bytes.1.0 bytes.1.1.0 bytes.1.1.1.0,
      encode_loop-encode_values s (four_on i) (omega arith) bytes.1.1.1.1,
    ))
