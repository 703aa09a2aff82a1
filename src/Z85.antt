-- ===== src/Z85.antt =====
-- src/Utilities/Z85.hpp: the base-85 text form in which messages travel. A character is its byte.
-- `uint32_t` values keep their wrap-around. The assertions are those of a build that compiles them
-- out: what they check is checked again by the code, or holds of every call.
use brypt_node.Common.{
  ℕ, zero, suc, ◌+◌, ◌-◌, ◌*◌, ◌/◌, ◌%◌, ◌^◌, ◌≤◌, ◌<◌, ◌≡◌, refl, not, ◌||◌, List, [], ◌∷◌, ◌++◌,
  Option, none, some, length, get_or, ltb, leb, ◌==◌, if◌then◌else◌, arith,
}
use mathlib.Core.Option
pub mod Tables
pub mod Blocks
pub mod Decoding
pub mod RoundTrip
mod Examples
unfoldable pub use Tables.{encode_mapping, decode_mapping}

abbrev pub character_space : ℕ
character_space = 85

abbrev pub character_offset : ℕ
character_offset = 32

abbrev pub encoded_block_size : ℕ
encoded_block_size = 5

abbrev pub decoded_block_size : ℕ
decoded_block_size = 4

abbrev pub encode_divisor : ℕ
encode_divisor = 85 * 85 * 85 * 85

abbrev pub decode_divisor : ℕ
decode_divisor = 256 * 256 * 256

-- `(4 - (size & 3)) & 3`, where `& 3` is the remainder by 4.
unfoldable pub padding_bytes : ℕ → ℕ
padding_bytes size = (4 - size % 4) % 4

unfoldable pub encoded_size : ℕ → ℕ
unfolding padding_bytes
encoded_size size = (size + padding_bytes size) * encoded_block_size / decoded_block_size

unfoldable pub decoded_size : ℕ → ℕ
decoded_size size = size * decoded_block_size / encoded_block_size

-- The macro EncodeZ85: `for (divisor = EncodeDivisor; divisor; divisor /= 85)`. The first argument
-- is fuel: the divisor is 0 after five rounds.
unfoldable pub encode_z85 : ℕ → ℕ → ℕ → List ℕ
encode_z85 zero divisor value = []
encode_z85 (suc fuel) divisor value =
    let rest = encode_z85 fuel (divisor / character_space) value in
    if divisor == 0 then [] else get_or encode_mapping (value / divisor % character_space) 0 ∷ rest

-- The macro EncodeBase256 on the value; its counter is stepped beside it.
abbrev pub encode_base256 : ℕ → ℕ → ℕ
encode_base256 value byte = (value * 256 + byte) % 2 ^ 32

abbrev pub next_index : ℕ → ℕ
next_index index = (index + 1) % 2 ^ 32

-- The loop that pads the last block.
unfoldable pub pad_value : ℕ → ℕ → ℕ
pad_value zero value = value
pad_value (suc padding) value = pad_value padding (encode_base256 value 0)

-- What is written from a state of the loop over the source on.
unfoldable pub encode_loop : ℕ → ℕ → ℕ → List ℕ → List ℕ
unfolding pad_value
encode_loop padding index value [] =
    if index % decoded_block_size == 0
    then []
    else encode_z85 6 encode_divisor (pad_value padding value)
encode_loop padding index value (decoded ∷ source) =
    let index' = next_index index in
    let value' = encode_base256 value decoded in
    let full = index' % decoded_block_size == 0 in
    (if full then encode_z85 6 encode_divisor value' else [])
    ++ encode_loop padding index' (if full then 0 else value') source

-- Encode into a destination of the given size; `none` is the result false.
unfoldable pub encode_into : List ℕ → ℕ → Option (List ℕ)
encode_into source room =
    if room == encoded_size (length source)
    then some (encode_loop (padding_bytes (length source)) 0 0 source)
    else none

unfoldable pub encode : List ℕ → List ℕ
unfolding encode_into
encode source = Option.get_or (encode_into source (encoded_size (length source))) []

-- The macro DecodeBase256, on fuel as above: four rounds.
unfoldable pub decode_base256 : ℕ → ℕ → ℕ → List ℕ
decode_base256 zero divisor value = []
decode_base256 (suc fuel) divisor value =
    let rest = decode_base256 fuel (divisor / 256) value in
    if divisor == 0 then [] else (value / divisor % 256) ∷ rest

abbrev pub decoded_block_maximum : ℕ
decoded_block_maximum = 2 ^ 32 - 1

abbrev pub value_upper_bound : ℕ
value_upper_bound = decoded_block_maximum / character_space

abbrev pub index_upper_bound : ℕ
index_upper_bound = 96

-- The cast to uint8_t of `encoded - CharacterOffset`.
abbrev pub mapping_index : ℕ → ℕ
mapping_index encoded = (encoded + 256 - character_offset) % 256

-- One round's value, if none of the round's tests on the character refuses it.
unfoldable pub decode_character : ℕ → ℕ → Option ℕ
decode_character value encoded =
    let scaled = value * character_space % 2 ^ 32 in
    let mapping = mapping_index encoded in
    let decoded = get_or decode_mapping mapping 0xff in
    if leb index_upper_bound mapping
    then none
    else if (decoded == 0xff) || ltb (decoded_block_maximum - scaled) decoded
    then none
    else some (scaled + decoded)

-- Bytes written before what the rest of the loop writes, if that does not fail.
abbrev pub write : List ℕ → Option (List ℕ) → Option (List ℕ)
write out none = none
write out (some rest) = some (out ++ rest)

-- What is written from a state of the loop on; `none` is the result false.
unfoldable pub decode_loop : ℕ → ℕ → List ℕ → Option (List ℕ)
decode_loop index value [] = if index % encoded_block_size == 0 then some [] else none
decode_loop index value (encoded ∷ source) =
    let index' = next_index index in
    let full = index' % encoded_block_size == 0 in
    elim (decode_character value encoded) [
      | none ↦ none
      | some value' ↦
          let value'' = if full then 0 else value' in
          if leb value_upper_bound value''
          then none
          else write (if full then decode_base256 5 decode_divisor value' else [])
              (decode_loop index' value'' source)
    ]

unfoldable pub decode_into : List ℕ → Option (List ℕ)
decode_into source =
    if ltb (length source) encoded_block_size || not (length source % encoded_block_size == 0)
    then none
    else decode_loop 0 0 source

unfoldable pub decode : List ℕ → List ℕ
unfolding decode_into
decode source = Option.get_or (decode_into source) []
