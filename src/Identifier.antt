-- ===== src/Identifier.antt =====
-- BryptIdentifier/BryptIdentifier.cpp and ReservedIdentifiers.cpp: the two forms of an identifier, a
-- number of 128 bits and a text, and the container that holds both.
use brypt_node.Common.{
  ℕ, zero, suc, ◌-◌, Bool, true, false, not, ◌&&◌, List, [], ◌∷◌, ◌++◌, Option, none, some, length,
  take, drop, replicate, ltb, ◌==◌, if◌then◌else◌,
}
use brypt_node.Message.Identifier.{Container}
use brypt_node.Base58.{encode, decode}
pub mod Comparison
mod Conversion
mod Length
mod Travel
mod Failure
mod Examples

abbrev pub payload_size : ℕ
payload_size = 16

abbrev pub checksum_size : ℕ
checksum_size = 4

-- "bry0:", with the separator at its end.
abbrev pub metadata_separator : ℕ
metadata_separator = 58

abbrev pub metadata : List ℕ
metadata = 98 ∷ 114 ∷ 121 ∷ 48 ∷ metadata_separator ∷ []

abbrev pub invalid_internal : ℕ
invalid_internal = 0

-- "bry0:11111111111111114fq2it".
abbrev pub invalid_network : List ℕ
invalid_network = metadata ++ replicate 16 49 ++ 52 ∷ 102 ∷ 113 ∷ 50 ∷ 105 ∷ 116 ∷ []

unfoldable pub same_bytes : List ℕ → List ℕ → Bool
same_bytes [] [] = true
same_bytes [] (y ∷ ys) = false
same_bytes (x ∷ xs) [] = false
same_bytes (x ∷ xs) (y ∷ ys) = (x == y) && same_bytes xs ys

-- What is called of Boost.Multiprecision and of OpenSSL. `digest_context` says whether
-- EVP_MD_CTX_new gives a context; `shake128 source length` is none where a step of the digest fails.
pub record Library : Type 0 where
  pub import_bits : List ℕ → ℕ
  pub export_bits : ℕ → List ℕ
  pub digest_context : Bool
  pub shake128 : List ℕ → ℕ → Option (List ℕ)

-- IsIdentifierAllowed of the two forms.
unfoldable pub is_internal_allowed : ℕ → Bool
is_internal_allowed identifier = not (identifier == invalid_internal)

unfoldable pub is_network_allowed : List ℕ → Bool
is_network_allowed identifier = not (same_bytes identifier invalid_network)

unfoldable pub default_container : Container
default_container = record {
  internal_representation = invalid_internal;
  network_representation = invalid_network;
  valid = false;
}

-- The text behind the first separator; without one, find_first_of gives npos, and substr the whole.
abbrev pub behind_separator : List ℕ → List ℕ → List ℕ
behind_separator whole [] = whole
behind_separator whole (x ∷ xs) =
    let rest = behind_separator whole xs in if x == metadata_separator then xs else rest

module _ (library : Library) where
  unfoldable pub from_buffer : List ℕ → Option ℕ
  from_buffer buffer =
      if length buffer == payload_size then some (library.import_bits buffer) else none

  -- The checksum that was received is compared with the one of the bytes before it. Shake128 clears
  -- its destination where it fails.
  unfoldable pub check_payload : List ℕ → List ℕ → Option ℕ
  check_payload bytes received =
      if not library.digest_context then none else elim (library.shake128 bytes checksum_size) [
        | none ↦ none
        | some generated ↦ if same_bytes generated received then from_buffer bytes else none
      ]

  -- ConvertToInternalRepresentation of a text. The outer none stands for what is undefined: Decode
  -- of an empty payload, and iterators in front of a decoded buffer that is shorter than a checksum.
  unfoldable pub from_decoded : Option (List ℕ) → Option (Option ℕ)
  from_decoded none = none
  from_decoded (some buffer) =
      if ltb (length buffer) checksum_size
      then none
      else some (
          check_payload (take (length buffer - checksum_size) buffer)
            (drop (length buffer - checksum_size) buffer))

  unfoldable pub convert_to_internal : List ℕ → Option (Option ℕ)
  convert_to_internal identifier =
      if same_bytes (take (length metadata) identifier) metadata
      then from_decoded (decode (behind_separator identifier identifier))
      else some none

  -- local::ConvertToNetworkRepresentation of bytes: the text is empty where the checksum failed.
  unfoldable pub network_of_bytes : List ℕ → Option (List ℕ)
  network_of_bytes identifier = elim (library.shake128 identifier checksum_size) [
    | none ↦ some []
    | some checksum ↦ encode (identifier ++ checksum) metadata
  ]

  -- The bytes of a number, filled up in front.
  abbrev pub padded_bytes : ℕ → List ℕ
  padded_bytes identifier =
      let bytes = library.export_bits identifier in
      replicate (payload_size - length bytes) 0 ++ bytes

  -- ConvertToNetworkRepresentation of a number, and of bytes. The outer none is undefined.
  unfoldable pub convert_bytes_to_network : List ℕ → Option (Option (List ℕ))
  convert_bytes_to_network identifier =
      if library.digest_context
      then elim (network_of_bytes identifier) [ none ↦ none | some text ↦ some (some text) ]
      else some none

  unfoldable pub convert_to_network : ℕ → Option (Option (List ℕ))
  convert_to_network identifier = convert_bytes_to_network (padded_bytes identifier)

  abbrev pub set_both : Container → ℕ → List ℕ → Container
  set_both container internal network = record container {
    internal_representation = internal;
    network_representation = network;
    valid = true;
  }

  abbrev pub with_network : Container → ℕ → Option (Option (List ℕ)) → Option Container
  with_network container identifier none = none
  with_network container identifier (some none) = some container
  with_network container identifier (some (some text)) = some (set_both container identifier text)

  unfoldable pub setup_from_internal : ℕ → Container → Option Container
  setup_from_internal identifier container =
      if is_internal_allowed identifier
      then with_network container identifier (convert_to_network identifier)
      else some container

  abbrev pub with_internal : Container → List ℕ → Option (Option ℕ) → Option Container
  with_internal container identifier none = none
  with_internal container identifier (some none) = some container
  with_internal container identifier (some (some internal)) =
      some (set_both container internal identifier)

  unfoldable pub setup_from_network : List ℕ → Container → Option Container
  setup_from_network identifier container =
      if is_network_allowed identifier
      then with_internal container identifier (convert_to_internal identifier)
      else some container

  -- The constructors.
  unfoldable pub container_of_internal : ℕ → Option Container
  container_of_internal identifier = setup_from_internal identifier default_container

  unfoldable pub container_of_network : List ℕ → Option Container
  container_of_network identifier = setup_from_network identifier default_container

  abbrev pub setup_if_any : Option ℕ → Option Container
  setup_if_any none = some default_container
  setup_if_any (some identifier) = setup_from_internal identifier default_container

  unfoldable pub container_of_internal_buffer : List ℕ → Option Container
  container_of_internal_buffer buffer = setup_if_any (from_buffer buffer)

-- operator<, where a valid identifier stands behind one that is not.
unfoldable pub is_less : Container → Container → Bool
is_less a b =
    if a.valid && not b.valid
    then false
    else if not a.valid && b.valid
    then true
    else ltb a.internal_representation b.internal_representation
