-- ===== src/Base58/Examples.antt =====
-- The theorems on Base58 at concrete bytes.
use brypt_node.Common.{ℕ, ◌≤◌, ◌≡◌, refl, List, [], ◌∷◌, ◌++◌, some, length, arith}
use brypt_node.Base58.{
  encode, decode, result_size, encode_mapping, leading, carry_all, carry_into, flush,
}
use brypt_node.Base58.RoundTrip.{encoded_digits, decode-encode_nonempty}
use brypt_node.Base58.Bounds.{encoded_digits_bound}

abbrev bytes : List ℕ
bytes = 0 ∷ 255 ∷ 1 ∷ []

encoded_bytes : encode bytes [] ≡ some (49 ∷ 76 ∷ 81 ∷ 89 ∷ [])
unfolding encode encode_mapping leading carry_all carry_into flush
encoded_bytes = refl

decode-encode_nonempty_example : decode (49 ∷ 76 ∷ 81 ∷ 89 ∷ []) ≡ some bytes
decode-encode_nonempty_example =
    decode-encode_nonempty 0 (255 ∷ 1 ∷ []) (49 ∷ 76 ∷ 81 ∷ 89 ∷ []) (omega arith) encoded_bytes

encoded_digits_bound_example :
    length (encoded_digits bytes) ≤ result_size (length (bytes ++ 7 ∷ []))
encoded_digits_bound_example = encoded_digits_bound bytes (7 ∷ []) (omega arith)
