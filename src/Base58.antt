-- ===== src/Base58.antt =====
-- Utilities/Base58.hpp: bytes written to the base 58, most significant digit first, and read back.
use brypt_node.Common.{
  ℕ, zero, suc, ◌+◌, ◌-◌, ◌*◌, ◌/◌, ◌%◌, ◌^◌, List, [], ◌∷◌, ◌++◌, map, Option, none, some, get_or,
  replicate, ◌==◌, if◌then◌else◌,
}
use mathlib.Core.List.{reverse}
mod Tables
unfoldable pub use Tables.{encode_mapping, decode_mapping}
pub mod Digits
pub mod Canonical
pub mod Reading
pub mod RoundTrip
pub mod Bounds
mod Examples

abbrev pub character_space : ℕ
character_space = 58

abbrev pub result_size : ℕ → ℕ
result_size size = size * 138 / 100 + 1

-- `while (carry)`: the digits of the carry, least significant first. A carry has 32 bits, so that
-- six rounds are enough to the base 58, and four to the base 256.
unfoldable pub flush : ℕ → ℕ → ℕ → List ℕ
flush base zero carry = []
flush base (suc fuel) carry =
    let rest = flush base fuel (carry / base) in if carry == 0 then [] else (carry % base) ∷ rest

-- One round of the loop over the source: the carry goes through the first `length` digits, the least
-- significant first, and what is left of it is appended. The list is those digits of the buffer.
-- `factor` is 2^8 when encoding and CharacterSpace when decoding; a digit is below 256, so that its
-- cast to a byte keeps it.
unfoldable pub carry_into : ℕ → ℕ → ℕ → List ℕ → List ℕ
carry_into base factor carry [] = flush base 6 carry
carry_into base factor carry (digit ∷ digits) =
    let sum = (carry + digit * factor) % 2 ^ 32 in
    (sum % base) ∷ carry_into base factor (sum / base) digits

unfoldable pub carry_all : ℕ → ℕ → List ℕ → List ℕ → List ℕ
carry_all base factor [] digits = digits
carry_all base factor (carry ∷ carries) digits =
    carry_all base factor carries (carry_into base factor carry digits)

-- The elements that equal `mark` before any other, the last element left aside.
unfoldable pub leading : ℕ → List ℕ → ℕ
leading mark [] = 0
leading mark (x ∷ []) = 0
leading mark (x ∷ y ∷ rest) =
    let more = leading mark (y ∷ rest) in if x == mark then suc more else 0

abbrev pub encode_digit : ℕ → ℕ
encode_digit digit = get_or encode_mapping digit 0

abbrev pub decode_character : ℕ → ℕ
decode_character encoded = get_or decode_mapping (encoded % 128) 0

-- Encode appends to its destination. Of an empty source it reads the element before the first one,
-- which is undefined: none.
unfoldable pub encode : List ℕ → List ℕ → Option (List ℕ)
encode [] destination = none
encode (byte ∷ bytes) destination = some (
    destination
    ++ replicate (leading 0 (byte ∷ bytes)) (encode_digit 0)
    ++ map encode_digit (reverse (carry_all character_space 256 (byte ∷ bytes) (0 ∷ []))))

-- Decode, which reads an empty source like Encode does.
unfoldable pub decode : List ℕ → Option (List ℕ)
decode [] = none
decode (character ∷ text) =
    let decoded =
      carry_all 256 character_space (map decode_character (character ∷ text)) (0 ∷ []) in
    some (reverse (decoded ++ replicate (leading (encode_digit 0) (character ∷ text)) 0))
