-- ===== src/Message/Header.antt =====
-- src/BryptMessage/MessageHeader.hpp and MessageHeader.cpp.
use brypt_node.Common.{
  ℕ, ◌+◌, ◌≤◌, ◌<◌, ◌%◌, ◌^◌, ◌≡◌, refl, Bool, true, false, not, ◌&&◌, ◌||◌, List, [], ◌∷◌, ◌++◌,
  Option, none, some, length, ltb, ◌==◌, if◌then◌else◌, arith,
}
use brypt_node.PackUtils.{pack_chunk, pack_buffer, unpack_chunk}
use brypt_node.Message.Definitions.{
  Protocol, Destination, protocol_code, destination_code, convert_to_protocol,
  convert_to_destination, is_protocol_invalid, is_destination_invalid,
}
use brypt_node.Message.Identifier.{Container}
use brypt_node.Message.Parser.{
  Parser, ◌>>=◌, ◌>>◌, done, guard, modify, require, read, read_or_zero, read_buffer, call, present,
}
pub mod RoundTrip

pub record Header : Type 0 where
  pub protocol : Protocol
  pub version_major : ℕ
  pub version_minor : ℕ
  pub size : ℕ
  pub source : Container
  pub destination : Destination
  pub destination_identifier : Option Container

-- The member initialisers of the default constructor; `invalid` is a default Container.
abbrev pub default_header : Container → Header
default_header invalid = record {
  protocol = Protocol.invalid;
  version_major = 0;
  version_minor = 0;
  size = 0;
  source = invalid;
  destination = Destination.node;
  destination_identifier = none;
}

abbrev pub minimum_length : ℕ
minimum_length = 31

abbrev pub maximum_length : ℕ
maximum_length = 33

-- The protocol, both version bytes, the size, and a byte each for the source's size, the
-- destination type, the destination's size and the extensions.
abbrev pub fixed_pack_size : ℕ
fixed_pack_size = 1 + 1 + 1 + 4 + 1 + 1 + 1 + 1

network_size : Option Container → ℕ
network_size none = 0
network_size (some c) = length c.network_representation

unfoldable pub pack_size : Header → ℕ
unfolding network_size
pack_size h =
    fixed_pack_size + length h.source.network_representation + network_size h.destination_identifier

pack_destination : Option Container → List ℕ → List ℕ
pack_destination none buffer = pack_chunk 1 0 buffer
pack_destination (some c) buffer = pack_buffer 1 c.network_representation buffer

-- GetPackedBuffer.
unfoldable pub packed_buffer : Header → List ℕ
unfolding pack_destination
packed_buffer h =
    let b1 = pack_chunk 1 (protocol_code h.protocol) [] in
    let b2 = pack_chunk 1 h.version_major b1 in
    let b3 = pack_chunk 1 h.version_minor b2 in
    let b4 = pack_chunk 4 h.size b3 in
    let b5 = pack_buffer 1 h.source.network_representation b4 in
    let b6 = pack_chunk 1 (destination_code h.destination) b5 in
    let b7 = pack_destination h.destination_identifier b6 in pack_chunk 1 0 b7

-- IsValid.
unfoldable pub is_valid : Header → Bool
is_valid h = not (is_protocol_invalid h.protocol) && not (h.size == 0) && h.source.valid

-- The unpacking builds identifiers: `construct` is the constructor of a Container from a buffer
-- in the network representation.
module _ (construct : List ℕ → Container) where
  -- local::UnpackIdentifier. The result is `{}` until the last line.
  unfoldable pub unpack_identifier : Parser (Option Container) (Unit {0})
  unpack_identifier = do
    size ← read 1
    guard (not (ltb size minimum_length || ltb maximum_length size))
    buffer ← read_buffer size []
    modify (λ _. some (construct buffer))

  -- ParseBuffer. Its result is whether it comes to its end.
  unfoldable pub parse_buffer : Parser Header (Unit {0})
  parse_buffer = do
    require fixed_pack_size
    protocol ← read_or_zero 1
    modify (λ h. record h { protocol = convert_to_protocol protocol })
    guard (not (is_protocol_invalid (convert_to_protocol protocol)))
    version_major ← read 1
    modify (λ h. record h { version_major = version_major })
    version_minor ← read 1
    modify (λ h. record h { version_minor = version_minor })
    size ← read 4
    modify (λ h. record h { size = size })
    opt_source ← call unpack_identifier none
    source ← present opt_source
    modify (λ h. record h { source = source })
    destination ← read_or_zero 1
    modify (λ h. record h { destination = convert_to_destination destination })
    guard (not (is_destination_invalid (convert_to_destination destination)))
    opt_destination ← call unpack_identifier none
    modify (λ h. record h { destination_identifier = opt_destination })
    _ ← read 1
    done
