-- ===== src/Identifier/Failure.antt =====
-- Texts and digests on which the constructors of BryptIdentifier.cpp go wrong.
use brypt_node.Common.{
  ℕ, zero, suc, ◌<◌, ◌≡◌, refl, true, [], ◌∷◌, ◌++◌, map, none, some, replicate, arith,
}
use brypt_node.Base58.{
  encode_mapping, decode_mapping, decode, decode_character, leading, carry_all, carry_into, flush,
}
use brypt_node.Identifier.{
  Library, checksum_size, metadata, same_bytes, is_internal_allowed, is_network_allowed,
  padded_bytes, network_of_bytes, from_decoded, convert_bytes_to_network, convert_to_network,
  convert_to_internal, setup_from_internal, setup_from_network, container_of_internal,
  container_of_network,
}

-- A character that Decode, which looks at seven bits, reads as '1', and does not count as one.
abbrev shadow_one : ℕ
shadow_one = 177

no_marks : (k : ℕ) → leading 49 (replicate (suc k) shadow_one) ≡ 0
unfolding leading
no_marks zero = refl
no_marks (suc k) = refl

no_value :
    (k : ℕ) → carry_all 256 58 (map decode_character (replicate k shadow_one)) (0 ∷ []) ≡ 0 ∷ []
unfolding carry_all carry_into flush decode_mapping
no_value zero = refl
no_value (suc k) = no_value k

decode_shadows : (k : ℕ) → decode (replicate (suc k) shadow_one) ≡ some (0 ∷ [])
unfolding decode encode_mapping
decode_shadows k = rw (no_value (suc k), no_marks k) refl

-- The constructor takes iterators in front of the decoded bytes of every text whose payload consists
-- of the byte 0xb1, such as one of the lengths that a header accepts: what it does is undefined.
pub container_of_network_undefined :
    (library : Library) (k : ℕ)
    → container_of_network library (metadata ++ replicate (suc k) shadow_one) ≡ none
unfolding container_of_network setup_from_network is_network_allowed convert_to_internal same_bytes
    from_decoded
container_of_network_undefined library k = rw (decode_shadows k) refl

-- Where there is a digest context and the digest of its bytes fails, the container of a number that is
-- not reserved is valid and its text is empty.
pub container_of_internal_undigested :
    (library : Library) (n : ℕ)
    → 0 < n
    → library.digest_context ≡ true
    → library.shake128 (padded_bytes library n) checksum_size ≡ none
    → container_of_internal library n
      ≡ some record { internal_representation = n; network_representation = []; valid = true }
unfolding container_of_internal setup_from_internal is_internal_allowed convert_to_network
    convert_bytes_to_network network_of_bytes
container_of_internal_undigested library n positive context failed =
    let allowed : is_internal_allowed n ≡ true = ground (arith, positive) in
    rw (allowed, context, failed) refl
