-- ===== src/Z85/Decoding.antt =====
-- Decode seen block by block: it reads back the digits of every value but the largest.
use brypt_node.Common.{
  ℕ, zero, suc, ◌+◌, ◌-◌, ◌*◌, ◌/◌, ◌%◌, ◌^◌, ◌≤◌, ◌<◌, ◌≡◌, refl, ap, ◌∙◌, ◌≢◌, inl, inr, Bool,
  true, false, ◌&&◌, ◌||◌, not, List, [], ◌∷◌, ◌++◌, Option, none, some, length, get_or, leb, ◌==◌,
  if◌then◌else◌, All, Bool-cases, ==_iff, arith,
}
use brypt_node.PackUtils.{store_big}
use brypt_node.Z85.{
  encode_mapping, decode_mapping, encode_divisor, decode_divisor, next_index, value_upper_bound,
  mapping_index, write, encode_z85, decode_base256, decode_character, decode_loop,
}
use brypt_node.Z85.Blocks.{character, encode_z85_digits, encode_values}

-- Every character of a digit stands for the digit.
abbrev reads_back : ℕ → Bool
reads_back d =
    (get_or decode_mapping (mapping_index (character d)) 0xff == d)
    && not (leb 96 (mapping_index (character d)))

digits_read_back : ℕ → Bool
digits_read_back zero = true
digits_read_back (suc digit) = if reads_back digit then digits_read_back digit else false

reads_back_digit :
    (bound digit : ℕ) → digit < bound → digits_read_back bound ≡ true → reads_back digit ≡ true
unfolding digits_read_back
reads_back_digit zero digit below table = absurd (omega arith)
reads_back_digit (suc last) digit below table = elim (Bool-cases (digit == last)) [
  | inl same ↦ rw ((==_iff digit last).0 same) (ground (arith, table))
  | inr smaller ↦ reads_back_digit last digit (ground arith) (ground (arith, table))
]

digit_table : digits_read_back 85 ≡ true
unfolding digits_read_back encode_mapping decode_mapping
digit_table = refl

decode_digit :
    (v d : ℕ) → d < 85 → v * 85 + d < 2 ^ 32 → decode_character v (character d) ≡ some (v * 85 + d)
unfolding decode_character
decode_digit v d h k = ground (arith, reads_back_digit 85 d h digit_table)

write-nil : (o : Option (List ℕ)) → write [] o ≡ o
write-nil none = refl
write-nil (some out) = refl

decode_end : (i v : ℕ) → i % 5 ≡ 0 → decode_loop i v [] ≡ some []
unfolding decode_loop
decode_end i v h = ground arith

module _ (i v x w : ℕ) (s : List ℕ) (read : decode_character v x ≡ some w) where
  decode_more :
      next_index i % 5 ≢ 0
      → w < value_upper_bound
      → decode_loop i v (x ∷ s) ≡ decode_loop (next_index i) w s
  unfolding decode_loop
  decode_more h k = ground (arith, write-nil (decode_loop (next_index i) w s))

  decode_refused : next_index i % 5 ≢ 0 → value_upper_bound ≤ w → decode_loop i v (x ∷ s) ≡ none
  unfolding decode_loop
  decode_refused h k = ground arith

  decode_full :
      next_index i % 5 ≡ 0
      → decode_loop i v (x ∷ s)
        ≡ write (decode_base256 5 decode_divisor w) (decode_loop (next_index i) 0 s)
  unfolding decode_loop
  decode_full h = ground arith

decode_base256_lem : (v : ℕ) → v < 2 ^ 32 → decode_base256 5 decode_divisor v ≡ store_big 4 v
unfolding decode_base256 store_big
decode_base256_lem v h = ground arith

abbrev five_on : ℕ → ℕ
five_on i = next_index (next_index (next_index (next_index (next_index i))))

read_digit : (u q : ℕ) → u ≡ q / 85 → q < 2 ^ 32 → decode_character u (character (q % 85)) ≡ some q
read_digit u q e h = decode_digit u (q % 85) (omega arith) (omega arith) ∙ ap some (omega arith)

module _ (i v : ℕ) (s : List ℕ) (h : i % 5 ≡ 0) (room : i + 5 < 2 ^ 32) (fits : v < 2 ^ 32) where
  -- The first three digits of a block, from a block boundary on.
  decode_three :
      decode_loop i 0 (encode_z85 6 encode_divisor v ++ s)
      ≡ decode_loop (i + 3) (v / 7225) (character (v / 85 % 85) ∷ character (v / 1 % 85) ∷ s)
  decode_three = rw (encode_z85_digits v) (
      decode_more i 0 _ (v / 52200625) _ (read_digit 0 _ (omega arith) (omega arith)) (omega arith)
        (omega arith)
      ∙ decode_more _ _ _ (v / 614125) _ (read_digit _ _ (omega arith) (omega arith)) (omega arith)
          (omega arith)
      ∙ decode_more _ _ _ (v / 7225) _ (read_digit _ _ (omega arith) (omega arith)) (omega arith)
          (omega arith)
      ∙ ap (λ k. decode_loop k (v / 7225) (character (v / 85 % 85) ∷ character (v / 1 % 85) ∷ s))
          (omega arith))

  -- A block whose value is not the largest is read back.
  decode_block :
      v < 2 ^ 32 - 1
      → decode_loop i 0 (encode_z85 6 encode_divisor v ++ s)
        ≡ write (store_big 4 v) (decode_loop (i + 5) 0 s)
  decode_block k =
      decode_three
      ∙ decode_more (i + 3) _ _ (v / 85) _ (read_digit _ _ (omega arith) (omega arith))
          (omega arith) (omega arith)
      ∙ decode_full _ _ _ v _
          (read_digit _ (v / 1) (omega arith) (omega arith) ∙ ap some (omega arith)) (omega arith)
      ∙ rw (decode_base256_lem v fits)
          (ap (λ k. write (store_big 4 v) (decode_loop k 0 s)) (omega arith))

  -- The largest value, four bytes 0xff, is refused.
  decode_block_refused :
      v ≡ 2 ^ 32 - 1 → decode_loop i 0 (encode_z85 6 encode_divisor v ++ s) ≡ none
  decode_block_refused k =
      decode_three
      ∙ decode_refused (i + 3) _ _ (v / 85) _ (read_digit _ _ (omega arith) (omega arith))
          (omega arith) (omega arith)

-- A block of four bytes 0xff.
unfoldable pub has_largest : List ℕ → Bool
has_largest [] = false
has_largest (v ∷ vs) = (v == 2 ^ 32 - 1) || has_largest vs

unfoldable pub store_values : List ℕ → List ℕ
store_values [] = []
store_values (v ∷ vs) = store_big 4 v ++ store_values vs

pub decode_loop-encode_values :
    (vs : List ℕ) (i : ℕ)
    → i % 5 ≡ 0
    → i + 5 * length vs < 2 ^ 32
    → All (λ v. v < 2 ^ 32) vs
    → decode_loop i 0 (encode_values vs) ≡ (if has_largest vs then none else some (store_values vs))
unfolding encode_values has_largest store_values
decode_loop-encode_values [] i h room fits = decode_end i 0 h
decode_loop-encode_values (v ∷ vs) i h room fits = elim (Bool-cases (v == 2 ^ 32 - 1)) [
  | inl largest ↦ rw largest (decode_block_refused i v _ h (omega arith) fits.0 (ground arith))
  | inr other ↦ rw other (
      decode_block i v _ h (omega arith) fits.0 (ground arith)
      ∙ rw (decode_loop-encode_values vs (i + 5) (omega arith) (omega arith) fits.1) (ground arith))
]
