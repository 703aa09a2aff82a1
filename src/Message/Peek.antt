-- ===== src/Message/Peek.antt =====
-- src/BryptMessage/MessageUtils.cpp: what is read of a buffer before it is unpacked.
use brypt_node.Common.{
  ℕ, ◌+◌, ◌≤◌, ◌<◌, ◌≡◌, refl, ◌≢◌, true, ◌||◌, List, ◌++◌, Option, none, some, length,
  length-append, take, drop, get_or, take-append_length, ltb, ◌==◌, if◌then◌else◌, arith,
}
use native.Mathlib.Nat.{mod-eq_of_lt}
use brypt_node.PackUtils.{store_big, unpack_chunk}
use brypt_node.PackUtils.RoundTrip.{unpack-pack_chunk}
use brypt_node.Message.Definitions.{
  Protocol, convert_to_protocol, is_protocol_invalid, protocol_code, convert-protocol_code,
  protocol_code-lt,
}
use brypt_node.Message.Identifier.{Container}
use brypt_node.Message.Header.{Header, minimum_length, maximum_length, packed_buffer}
use brypt_node.Message.Header.RoundTrip.{IsWellFormed, packed_buffer_lem, identifier_bytes}

valid_protocol : Protocol → Option Protocol
valid_protocol protocol = if is_protocol_invalid protocol then none else some protocol

-- PeekProtocol.
unfoldable pub peek_protocol : List ℕ → Option Protocol
unfolding valid_protocol
peek_protocol buffer =
    if ltb (length buffer) 1 then none else valid_protocol (convert_to_protocol (get_or buffer 0 0))

valid_size : Option (ℕ × List ℕ) → Option ℕ
valid_size none = none
valid_size (some (size, rest)) = if size == 0 then none else some size

-- PeekSize.
unfoldable pub peek_size : List ℕ → Option ℕ
unfolding valid_size
peek_size buffer =
    if ltb (length buffer) 3 then none else valid_size (unpack_chunk 4 (drop 3 buffer))

valid_identifier : Container → Option Container
valid_identifier identifier = if identifier.valid then some identifier else none

-- PeekSource.
unfoldable pub peek_source : (List ℕ → Container) → List ℕ → Option Container
unfolding valid_identifier
peek_source construct buffer =
    let size = get_or buffer 7 0 in
    if ltb (length buffer) 8 || ltb size minimum_length || ltb maximum_length size
    then none
    else if ltb (length buffer) (8 + size)
    then none
    else valid_identifier (construct (take size (drop 8 buffer)))

module _ (a b c : ℕ) (r : List ℕ) where
  behind_version : drop 3 (store_big 1 a ++ (store_big 1 b ++ (store_big 1 c ++ r))) ≡ r
  unfolding store_big
  behind_version = refl

  length_version : 3 ≤ length (store_big 1 a ++ (store_big 1 b ++ (store_big 1 c ++ r)))
  unfolding store_big
  length_version = omega arith

source_fits :
    {construct : List ℕ → Container} {h : Header}
    → IsWellFormed construct h
    → length h.source.network_representation < 256
source_fits w = omega (arith, w.source_travels.short_enough)

module _ (construct : List ℕ → Container) (h : Header) (rest : List ℕ)
    (w : IsWellFormed construct h) (size_set : h.size ≢ 0)
    (source_valid : h.source.valid ≡ true) where
  peek_protocol_lem :
      (r : List ℕ) → peek_protocol (store_big 1 (protocol_code h.protocol) ++ r) ≡ some h.protocol
  unfolding peek_protocol store_big
  peek_protocol_lem r =
      rw
        (
          mod-eq_of_lt (protocol_code-lt h.protocol),
          convert-protocol_code h.protocol,
          w.protocol_valid,
        )
        (ground arith)

  peek_size_lem :
      (r : List ℕ)
      → peek_size (
          store_big 1 (protocol_code h.protocol)
          ++ (store_big 1 h.version_major
              ++ (store_big 1 h.version_minor ++ (store_big 4 h.size ++ r))))
        ≡ some h.size
  unfolding peek_size
  peek_size_lem r =
      rw (behind_version _ _ _ (store_big 4 h.size ++ r), unpack-pack_chunk 4 h.size r w.size_fits)
        (ground (
          arith,
          length_version (protocol_code h.protocol) h.version_major h.version_minor
              (store_big 4 h.size ++ r),
          size_set,
        ))

  peek_source_lem :
      (r : List ℕ)
      → peek_source construct (
          store_big 1 (protocol_code h.protocol)
          ++ (store_big 1 h.version_major
              ++ (store_big 1 h.version_minor
                  ++ (store_big 4 h.size ++ (identifier_bytes h.source ++ r)))))
        ≡ some h.source
  unfolding peek_source store_big
  peek_source_lem r = rw (mod-eq_of_lt (source_fits w)) (
      ground (
        arith,
        length-append h.source.network_representation r,
        take-append_length (length h.source.network_representation) h.source.network_representation
            r,
        w.source_travels,
        source_valid,
      ))

  -- The protocol, the size and the source that are peeked at in the packed buffer of a
  -- well-formed header, of a size other than zero and with a valid source, are the header's.
  pub peek-packed_buffer :
      (peek_protocol (packed_buffer h ++ rest) ≡ some h.protocol)
      × (peek_size (packed_buffer h ++ rest) ≡ some h.size)
      × (peek_source construct (packed_buffer h ++ rest) ≡ some h.source)
  peek-packed_buffer =
      rw (packed_buffer_lem construct h rest w)
        (peek_protocol_lem _, peek_size_lem _, peek_source_lem _)
