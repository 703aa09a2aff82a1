-- ===== src/Message/Network.antt =====
-- src/BryptMessage/NetworkMessage.hpp and NetworkMessage.cpp: the messages between neighbours.
use brypt_node.Common.{
  ℕ, ◌+◌, ◌-◌, ◌≤◌, ◌<◌, ◌%◌, ◌^◌, ◌≡◌, max, refl, Bool, true, false, not, ◌&&◌, List, [], ◌∷◌,
  ◌++◌, Option, none, some, length, replicate, ltb, ◌==◌, if◌then◌else◌, arith,
}
use brypt_node.PackUtils.{pack_chunk, pack_buffer}
use brypt_node.Z85.{encode, decode, encoded_size}
use brypt_node.Message.Definitions.{
  Protocol, NetworkType, network_type_code, convert_to_network_type, is_network_type_invalid,
}
use brypt_node.Message.Identifier.{Container}
use brypt_node.Message.Context.{Context, default_context}
use brypt_node.Message.Header.{
  Header, default_header, packed_buffer, pack_size, is_valid, parse_buffer,
}
use brypt_node.Message.Parser.{
  Parser, ◌>>=◌, ◌>>◌, done, guard, modify, require, read, read_or_zero, read_buffer, within,
  inspect,
}
pub mod RoundTrip
pub mod Partial

pub record NetworkMessage : Type 0 where
  pub context : Context
  pub header : Header
  pub type : NetworkType
  pub payload : List ℕ

abbrev pub fixed_pack_size : ℕ
fixed_pack_size = 1 + 4 + 1

-- GetPackSize.
unfoldable pub get_pack_size : NetworkMessage → ℕ
get_pack_size m = encoded_size (fixed_pack_size + pack_size m.header + length m.payload)

-- The buffer of GetPack up to its padding.
unfoldable pub sections : NetworkMessage → List ℕ
sections m =
    let b1 = packed_buffer m.header in
    let b2 = pack_chunk 1 (network_type_code m.type) b1 in
    let b3 = pack_buffer 4 m.payload b2 in pack_chunk 1 0 b3

-- The buffer of GetPack, padded to the next multiple of four: `(4 - (size & 3)) & 3` zeros.
unfoldable pub packed : NetworkMessage → List ℕ
packed m = sections m ++ replicate ((4 - length (sections m) % 4) % 4) 0

-- GetPack.
unfoldable pub get_pack : NetworkMessage → List ℕ
get_pack m = encode (packed m)

pub data ValidationStatus : Type 0 where
  success error : ValidationStatus

unfoldable pub validate : NetworkMessage → ValidationStatus
validate m =
    if not (is_valid m.header)
    then error
    else if is_network_type_invalid m.type
    then error
    else success

-- NetworkBuilder(): a default message for the network protocol.
abbrev pub builder : Container → NetworkMessage
builder invalid = record {
  context = default_context;
  header = record (default_header invalid) { protocol = Protocol.network };
  type = NetworkType.invalid;
  payload = [];
}

abbrev pub set_message_context : Context → NetworkMessage → NetworkMessage
set_message_context context m = record m { context = context }

abbrev pub set_source : Container → NetworkMessage → NetworkMessage
set_source identifier m = record m { header = record (m.header) { source = identifier } }

abbrev pub set_destination : Container → NetworkMessage → NetworkMessage
set_destination identifier m = record m {
  header = record (m.header) { destination_identifier = some identifier };
}

abbrev pub make_handshake_message : NetworkMessage → NetworkMessage
make_handshake_message m = record m { type = NetworkType.handshake }

abbrev pub make_heartbeat_request : NetworkMessage → NetworkMessage
make_heartbeat_request m = record m { type = NetworkType.heartbeat_request }

abbrev pub make_heartbeat_response : NetworkMessage → NetworkMessage
make_heartbeat_response m = record m { type = NetworkType.heartbeat_response }

abbrev pub set_payload : List ℕ → NetworkMessage → NetworkMessage
set_payload buffer m = record m { payload = buffer }

-- UnpackExtensions: no extension is known, so the loop ends in its first round.
unpack_extensions : Parser NetworkMessage (Unit {0})
unpack_extensions m begin =
    if length begin == 0 then done m begin else (read_or_zero 1 >>= λ _. done) m begin

is_protocol_network : Protocol → Bool
is_protocol_network Protocol.network = true
is_protocol_network _ = false

module _ (construct : List ℕ → Container) where
  -- Unpack. What was read before an early return stays in the message. A vector's capacity is the
  -- larger of its size and what was reserved.
  unfoldable pub unpack : Parser NetworkMessage (Unit {0})
  unfolding unpack_extensions is_protocol_network
  unpack = do
    within (λ m. m.header) (λ m h. record m { header = h }) (parse_buffer construct)
    type ← read_or_zero 1
    modify (λ m. record m { type = convert_to_network_type type })
    guard (not (is_network_type_invalid (convert_to_network_type type)))
    m ← inspect
    guard (is_protocol_network m.header.protocol)
    data_size ← read 4
    payload ← read_buffer (max (length m.payload) data_size) m.payload
    modify (λ m. record m { payload = payload })
    extensions ← read 1
    if extensions == 0 then done else unpack_extensions

  unfoldable pub from_decoded_pack : List ℕ → NetworkMessage → NetworkMessage
  from_decoded_pack [] m = m
  from_decoded_pack (b ∷ bs) m = (unpack m (b ∷ bs)).1

  unfoldable pub from_encoded_pack : List ℕ → NetworkMessage → NetworkMessage
  from_encoded_pack [] m = m
  from_encoded_pack (c ∷ cs) m = (unpack m (decode (c ∷ cs))).1

-- Build. The size is cast to uint32_t.
unfoldable pub build : NetworkMessage → NetworkMessage
build m = record m { header = record (m.header) { size = get_pack_size m % 2 ^ 32 } }

if_success : ValidationStatus → NetworkMessage → Option NetworkMessage
if_success success m = some m
if_success error m = none

-- ValidatedBuild.
unfoldable pub validated_build : NetworkMessage → Option NetworkMessage
unfolding if_success build
validated_build m = if_success (validate (build m)) (build m)
