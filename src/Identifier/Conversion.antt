-- ===== src/Identifier/Conversion.antt =====
-- The two forms of an identifier are converted into each other: BryptIdentifier.cpp over Base58.
use brypt_node.Common.{
  ℕ, zero, suc, ◌-◌, ◌^◌, ◌≤◌, ◌<◌, ◌≡◌, refl, ap, ◌∙◌, true, List, [], ◌∷◌, ◌++◌, map,
  append_assoc, some, length, replicate, length-append, length-replicate, take-append_length,
  drop-append_length, All, All-append, arith,
}
use brypt_node.PackUtils.{IsByte}
use brypt_node.Base58.{encode, decode, leading, encode_digit}
use brypt_node.Base58.Digits.{read_value}
use brypt_node.Base58.Reading.{read_value-zeros}
use brypt_node.Base58.RoundTrip.{encoded_digits, decode-encode_nonempty}
use brypt_node.Identifier.{
  Library, payload_size, checksum_size, metadata, same_bytes, from_buffer, check_payload,
  from_decoded, convert_to_internal, network_of_bytes, padded_bytes, convert_bytes_to_network,
  convert_to_network,
}
use mathlib.Core.List.{reverse}

-- What Boost.Multiprecision and OpenSSL document: bits are exported and imported most significant
-- byte first, and a digest has the length that was asked for.
pub record IsLibrary (library : Library) : Type 0 where
  pub export_length : (n : ℕ) → n < 2 ^ 128 → length (library.export_bits n) ≤ payload_size
  pub export_bytes : (n : ℕ) → n < 2 ^ 128 → All IsByte (library.export_bits n)
  pub export_value : (n : ℕ) → n < 2 ^ 128 → read_value 256 0 (library.export_bits n) ≡ n
  pub import_value :
      (bytes : List ℕ)
      → All IsByte bytes
      → length bytes ≤ payload_size
      → library.import_bits bytes ≡ read_value 256 0 bytes
  pub digest_length :
      (bytes digest : List ℕ) (k : ℕ) → library.shake128 bytes k ≡ some digest → length digest ≡ k
  pub digest_bytes :
      (bytes digest : List ℕ) (k : ℕ) → library.shake128 bytes k ≡ some digest → All IsByte digest

same_bytes_self : (bytes : List ℕ) → same_bytes bytes bytes ≡ true
unfolding same_bytes
same_bytes_self [] = refl
same_bytes_self (x ∷ xs) = ground (arith, same_bytes_self xs)

zeros-IsByte : (n : ℕ) → All IsByte (replicate n 0)
zeros-IsByte zero = tt
zeros-IsByte (suc n) = (omega arith, zeros-IsByte n)

-- The text that Encode writes behind the metadata.
abbrev pub payload_text : List ℕ → List ℕ
payload_text source =
    replicate (leading 0 source) (encode_digit 0)
    ++ map encode_digit (reverse (encoded_digits source))

encode_lem :
    (source destination : List ℕ)
    → 0 < length source
    → encode source destination ≡ some (destination ++ payload_text source)
unfolding encode
encode_lem [] destination h = absurd (omega arith)
encode_lem (b ∷ bs) destination h = ap some (
    append_assoc destination (replicate (leading 0 (b ∷ bs)) (encode_digit 0))
      (map encode_digit (reverse (encoded_digits (b ∷ bs)))))

pub decode-payload_text :
    (source : List ℕ)
    → 0 < length source
    → All IsByte source
    → decode (payload_text source) ≡ some source
decode-payload_text [] h bytes = absurd (omega arith)
decode-payload_text (b ∷ bs) h bytes =
    decode-encode_nonempty b bs (payload_text (b ∷ bs)) bytes (encode_lem (b ∷ bs) [] (omega arith))

module _ (library : Library) (laws : IsLibrary library) (n : ℕ) (small : n < 2 ^ 128) where
  pub length-padded_bytes : length (padded_bytes library n) ≡ 16
  length-padded_bytes = omega (
    arith,
    length-append (replicate (16 - length (library.export_bits n)) 0) (library.export_bits n),
    length-replicate {A = ℕ} (16 - length (library.export_bits n)) 0,
    laws.export_length n small,
  )

  pub padded_bytes-IsByte : All IsByte (padded_bytes library n)
  padded_bytes-IsByte =
      All-append IsByte (replicate (16 - length (library.export_bits n)) 0) (library.export_bits n)
        (zeros-IsByte _) (laws.export_bytes n small)

  pub value-padded_bytes : read_value 256 0 (padded_bytes library n) ≡ n
  value-padded_bytes = read_value-zeros 256 _ (library.export_bits n) ∙ laws.export_value n small

  module _ (checksum : List ℕ) (context : library.digest_context ≡ true)
      (digest : library.shake128 (padded_bytes library n) checksum_size ≡ some checksum) where
    abbrev pub network_text : List ℕ
    network_text = metadata ++ payload_text (padded_bytes library n ++ checksum)

    pub length-source : length (padded_bytes library n ++ checksum) ≡ 20
    length-source = omega (
      arith,
      length-append (padded_bytes library n) checksum,
      length-padded_bytes,
      laws.digest_length _ checksum checksum_size digest,
    )

    pub convert_to_network_lem : convert_to_network library n ≡ some (some network_text)
    unfolding convert_to_network convert_bytes_to_network network_of_bytes
    convert_to_network_lem = rw (
      context,
      digest,
      encode_lem (padded_bytes library n ++ checksum) metadata (omega (arith, length-source)),
    )

    check_payload_lem : check_payload library (padded_bytes library n) checksum ≡ some n
    unfolding check_payload from_buffer
    check_payload_lem = rw (
      context,
      digest,
      same_bytes_self checksum,
      length-padded_bytes,
      laws.import_value (padded_bytes library n) padded_bytes-IsByte
          (omega (arith, length-padded_bytes)),
      value-padded_bytes,
    )

    from_decoded_lem :
        from_decoded library (some (padded_bytes library n ++ checksum)) ≡ some (some n)
    unfolding from_decoded
    from_decoded_lem = rw (
      length-source,
      take-append_length 16 (padded_bytes library n) checksum length-padded_bytes,
      drop-append_length 16 (padded_bytes library n) checksum length-padded_bytes,
      check_payload_lem,
    )

    pub convert_to_internal_lem : convert_to_internal library network_text ≡ some (some n)
    unfolding convert_to_internal same_bytes
    convert_to_internal_lem =
        ap (from_decoded library) (
          decode-payload_text (padded_bytes library n ++ checksum) (omega (arith, length-source)) (
            All-append IsByte (padded_bytes library n) checksum padded_bytes-IsByte
              (laws.digest_bytes _ checksum checksum_size digest)))
        ∙ from_decoded_lem
