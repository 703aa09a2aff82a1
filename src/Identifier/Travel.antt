-- ===== src/Identifier/Travel.antt =====
-- Identifiers that are built of a number and sent: they are rebuilt of their text, by the constructor
-- that MessageHeader.cpp calls, and their text has a length that it accepts.
use brypt_node.Common.{
  ℕ, zero, suc, ◌+◌, ◌*◌, ◌^◌, ◌≤◌, ◌<◌, ◌≡◌, refl, sym, ap, ◌∙◌, inl, inr, ◌≢◌, true, List, [],
  ◌∷◌, ◌++◌, map, some, or_same, length, take, drop, replicate, length-append, take-append_length,
  All, All-append, get_or, Bool-cases, ◌==◌, ==_iff, arith,
}
use brypt_node.PackUtils.{IsByte}
use brypt_node.Message.Identifier.{Container}
use brypt_node.Message.Header.RoundTrip.{Travels}
use brypt_node.Base58.{
  encode_mapping, decode_mapping, decode, encode_digit, leading, carry_all, carry_into, flush,
}
use brypt_node.Base58.Digits.{read_value}
use brypt_node.Base58.Reading.{read_value-append}
use brypt_node.Base58.Bounds.{read_above}
use brypt_node.Base58.RoundTrip.{encoded_digits}
use brypt_node.Identifier.{
  Library, checksum_size, metadata, invalid_network, same_bytes, is_internal_allowed,
  is_network_allowed, padded_bytes, set_both, default_container, setup_from_internal,
  setup_from_network, container_of_internal, container_of_network,
}
use brypt_node.Identifier.Conversion.{
  IsLibrary, network_text, payload_text, length-padded_bytes, padded_bytes-IsByte,
  value-padded_bytes, convert_to_network_lem, convert_to_internal_lem, decode-payload_text,
  length-source,
}
use brypt_node.Identifier.Length.{IsTextLength, payload_text-IsTextLength}
use mathlib.Core.Path.{subst}
use mathlib.Core.List.{reverse}

-- A constructor that agrees with the one of the source wherever that one is defined.
abbrev pub Constructs : Library → (List ℕ → Container) → Type 0
Constructs library construct =
    (text : List ℕ) (c : Container)
    → container_of_network library text ≡ some c
    → construct text ≡ c

same_bytes→eq : (a b : List ℕ) → same_bytes a b ≡ true → a ≡ b
unfolding same_bytes
same_bytes→eq [] [] h = refl
same_bytes→eq [] (y ∷ ys) h = absurd (ground (arith, h))
same_bytes→eq (x ∷ xs) [] h = absurd (ground (arith, h))
same_bytes→eq (x ∷ xs) (y ∷ ys) h = elim (Bool-cases (x == y)) [
  | inl e ↦ rw ((==_iff x y).0 e, same_bytes→eq xs ys (ground (arith, h, e)))
  | inr e ↦ absurd (ground (arith, h, e))
]

-- The text that stands for no identifier has the number zero.
invalid_payload :
    decode (replicate 16 49 ++ 52 ∷ 102 ∷ 113 ∷ 50 ∷ 105 ∷ 116 ∷ [])
    ≡ some (replicate 16 0 ++ 143 ∷ 142 ∷ 79 ∷ 97 ∷ [])
unfolding decode decode_mapping encode_mapping leading carry_all carry_into flush
invalid_payload = refl

get_or-IsByte : (xs : List ℕ) (i : ℕ) → All IsByte xs → get_or xs i 0 < 256
get_or-IsByte [] i h = omega arith
get_or-IsByte (x ∷ xs) zero h = h.0
get_or-IsByte (x ∷ xs) (suc i) h = get_or-IsByte xs i h.1

encode_mapping-IsByte : All IsByte encode_mapping
unfolding encode_mapping
encode_mapping-IsByte = omega arith

encode_digit-IsByte : (d : ℕ) → IsByte (encode_digit d)
encode_digit-IsByte d = get_or-IsByte encode_mapping d encode_mapping-IsByte

replicated-IsByte : (n : ℕ) → All IsByte (replicate n (encode_digit 0))
replicated-IsByte zero = tt
replicated-IsByte (suc n) = (encode_digit-IsByte 0, replicated-IsByte n)

mapped-IsByte : (ds : List ℕ) → All IsByte (map encode_digit ds)
mapped-IsByte [] = tt
mapped-IsByte (d ∷ ds) = (encode_digit-IsByte d, mapped-IsByte ds)

payload_text-IsByte : (source : List ℕ) → All IsByte (payload_text source)
payload_text-IsByte source =
    All-append IsByte (replicate (leading 0 source) (encode_digit 0))
      (map encode_digit (reverse (encoded_digits source))) (replicated-IsByte (leading 0 source))
      (mapped-IsByte (reverse (encoded_digits source)))

no_value : read_value 256 0 (replicate 16 0) ≡ 0
unfolding read_value
no_value = refl

module _ (library : Library) (laws : IsLibrary library) (n : ℕ) (small : n < 2 ^ 128)
    (checksum : List ℕ) (context : library.digest_context ≡ true)
    (digest : library.shake128 (padded_bytes library n) checksum_size ≡ some checksum)
    (positive : 0 < n) where
  abbrev source : List ℕ
  source = padded_bytes library n ++ checksum

  abbrev text : List ℕ
  text = network_text library laws n small checksum context digest

  source_bytes : All IsByte source
  source_bytes =
      All-append IsByte (padded_bytes library n) checksum (padded_bytes-IsByte library laws n small)
        (laws.digest_bytes _ checksum checksum_size digest)

  internal_allowed : is_internal_allowed n ≡ true
  unfolding is_internal_allowed
  internal_allowed = ground (arith, positive)

  not_invalid : text ≢ invalid_network
  not_invalid e =
      let decoded : decode (payload_text source) ≡ some source =
        decode-payload_text source
          (omega (arith, length-source library laws n small checksum context digest))
          source_bytes in
      let same : source ≡ replicate 16 0 ++ 143 ∷ 142 ∷ 79 ∷ 97 ∷ [] =
        ap (or_same source)
          (sym decoded ∙ ap (λ (t : List ℕ). decode (drop 5 t)) e ∙ invalid_payload) in
      let zeros : padded_bytes library n ≡ replicate 16 0 =
        sym (
          take-append_length 16 (padded_bytes library n) checksum
            (length-padded_bytes library laws n small))
        ∙ ap (take 16) same in
      omega (
        arith,
        positive,
        value-padded_bytes library laws n small,
        ap (read_value 256 0) zeros,
        no_value,
      )

  network_allowed : is_network_allowed text ≡ true
  unfolding is_network_allowed
  network_allowed = elim (Bool-cases (same_bytes text invalid_network)) [
    | inl e ↦ absurd (not_invalid (same_bytes→eq text invalid_network e))
    | inr e ↦ rw e refl
  ]

  abbrev container : Container
  container = set_both library default_container n text

  container_of_internal_lem : container_of_internal library n ≡ some container
  unfolding container_of_internal setup_from_internal
  container_of_internal_lem =
      rw (internal_allowed, convert_to_network_lem library laws n small checksum context digest)

  container_of_network_lem : container_of_network library text ≡ some container
  unfolding container_of_network setup_from_network
  container_of_network_lem =
      rw (network_allowed, convert_to_internal_lem library laws n small checksum context digest)

  -- A library that keeps to what its parts document, and that makes a digest of the number's bytes: of
  -- every number of 128 bits but the reserved zero the constructor makes a container that is valid and
  -- holds the number, and of that container's text the other constructor makes the same container.
  pub container_rebuilt :
      (c : Container) × (container_of_internal library n ≡ some c)
      × (container_of_network library c.network_representation ≡ some c)
      × (c.internal_representation ≡ n)
      × (c.valid ≡ true)
  container_rebuilt = (container, container_of_internal_lem, container_of_network_lem, refl, refl)

  length-text : length text ≡ 5 + length (payload_text source)
  length-text = length-append metadata (payload_text source)

  value_large : 256 ^ 13 ≤ n → 256 ^ 17 ≤ read_value 256 0 source
  value_large large = omega (
    arith,
    read_value-append 256 0 (padded_bytes library n) checksum,
    value-padded_bytes library laws n small,
    read_above (read_value 256 0 (padded_bytes library n)) checksum,
    ap (λ (k : ℕ). read_value 256 0 (padded_bytes library n) * 256 ^ k)
        (laws.digest_length _ checksum checksum_size digest),
  )

  sized : 256 ^ 13 ≤ n → IsTextLength (length (payload_text source))
  sized large =
      payload_text-IsTextLength source source_bytes
        (length-source library laws n small checksum context digest) (value_large large)

  -- A library that keeps to what its parts document, and that makes a digest of the number's bytes: for
  -- a number of 128 bits with at most two zero bytes in front, the text of
  -- the container that is made of the number consists of bytes, has between MinimumLength and
  -- MaximumLength characters, and is rebuilt by every constructor that agrees with the source's
  -- wherever that is defined. This is what the theorems on headers ask of an identifier.
  pub container-Travels :
      (construct : List ℕ → Container) (c : Container)
      → Constructs library construct
      → 256 ^ 13 ≤ n
      → container_of_internal library n ≡ some c
      → Travels construct c
  container-Travels construct c agrees large built =
      let same : container ≡ c = ap (or_same container) (sym container_of_internal_lem ∙ built) in
      subst (Travels construct) same record {
        long_enough = omega (arith, length-text, (sized large).0);
        short_enough = omega (arith, length-text, (sized large).1);
        text =
            All-append IsByte metadata (payload_text source) (omega arith)
              (payload_text-IsByte source);
        rebuilt = agrees text container container_of_network_lem;
      }
