-- ===== src/Z85/Examples.antt =====
-- Concrete runs of the encoding, and its theorems at concrete inputs.
use brypt_node.Common.{ℕ, ◌≡◌, refl, List, [], ◌∷◌, arith}
use brypt_node.Z85.{
  encode_mapping, decode_mapping, encode_z85, encode_loop, encode_into, encode, decode_base256,
  decode_character, decode_loop, decode_into, decode, encoded_size, padding_bytes,
}
use brypt_node.Z85.RoundTrip.{has_full_block, padded, decode-encode}

-- The test vector of the encoding's specification: the text HelloWorld.
abbrev hello : List ℕ
hello = 0x86 ∷ 0x4f ∷ 0xd2 ∷ 0x6f ∷ 0xb5 ∷ 0x59 ∷ 0xf7 ∷ 0x5b ∷ []

encode-hello :
    encode hello ≡ b'H' ∷ b'e' ∷ b'l' ∷ b'l' ∷ b'o' ∷ b'W' ∷ b'o' ∷ b'r' ∷ b'l' ∷ b'd' ∷ []
unfolding encode encode_into encode_loop encode_z85 encode_mapping encoded_size padding_bytes
encode-hello = refl

decode-hello :
    decode (b'H' ∷ b'e' ∷ b'l' ∷ b'l' ∷ b'o' ∷ b'W' ∷ b'o' ∷ b'r' ∷ b'l' ∷ b'd' ∷ []) ≡ hello
unfolding decode decode_into decode_loop decode_character decode_base256 decode_mapping
decode-hello = refl

-- The text of four bytes 0xff.
decode_largest : decode (b'%' ∷ b'n' ∷ b'S' ∷ b'c' ∷ b'0' ∷ []) ≡ []
unfolding decode decode_into decode_loop decode_character decode_base256 decode_mapping
decode_largest = refl

decode-encode_example : decode (encode (1 ∷ 2 ∷ 3 ∷ [])) ≡ 1 ∷ 2 ∷ 3 ∷ 0 ∷ []
unfolding has_full_block padded padding_bytes
decode-encode_example = decode-encode (1 ∷ 2 ∷ 3 ∷ []) (omega arith) (omega arith)
