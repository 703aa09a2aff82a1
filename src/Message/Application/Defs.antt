-- ===== src/Message/Application/Defs.antt =====
-- src/BryptMessage/ApplicationMessage.hpp and ApplicationMessage.cpp: the commands that nodes send
-- to one another, encrypted and signed by the handlers of their context.
use brypt_node.Common.{
  ℕ, ◌+◌, ◌-◌, ◌%◌, Bool, true, false, not, ◌&&◌, List, [], ◌++◌, Option, none, some, length,
  replicate, ◌==◌,
}
use brypt_node.PackUtils.{pack_chunk, pack_buffer}
use brypt_node.Z85.{encode, encoded_size}
use brypt_node.Message.Definitions.{
  Protocol, Destination, HandlerType, handler_type_code, is_handler_type_invalid,
}
use brypt_node.Message.Identifier.{Container}
use brypt_node.Message.Context.{Context, default_context, encrypt, decrypt, sign}
use brypt_node.Message.Header.{Header, default_header, packed_buffer, pack_size, is_valid}

-- Message::AwaitBinding.
pub data AwaitBinding : Type 0 where
  invalid source destination : AwaitBinding

abbrev pub binding_code : AwaitBinding → ℕ
binding_code AwaitBinding.invalid = 0
binding_code AwaitBinding.source = 1
binding_code AwaitBinding.destination = 2

-- A timestamp is the 64-bit pattern of its milliseconds.
pub record ApplicationMessage : Type 0 where
  pub context : Context
  pub header : Header
  pub command : HandlerType
  pub phase : ℕ
  pub payload : List ℕ
  pub timestamp : ℕ
  pub tracker : Option (AwaitBinding × ℕ)

-- GetPayload. The outer `none` is the exception of a missing handler.
unfoldable pub get_payload : ApplicationMessage → Option (List ℕ)
get_payload m = elim (decrypt m.context m.payload m.timestamp) [
  | none ↦ none
  | some none ↦ some []
  | some (some bytes) ↦ some bytes
]

-- GetAwaitTrackerKey.
unfoldable pub get_await_tracker_key : ApplicationMessage → Option ℕ
get_await_tracker_key m = elim m.tracker [ none ↦ none | some (binding, key) ↦ some key ]

abbrev pub fixed_pack_size : ℕ
fixed_pack_size = 1 + 1 + 4 + 8 + 1

abbrev pub fixed_await_extension_size : ℕ
fixed_await_extension_size = 1 + 2 + 1 + 4

abbrev pub extension_size : Option (AwaitBinding × ℕ) → ℕ
extension_size none = 0
extension_size (some t) = fixed_await_extension_size

-- GetPackSize; `signature` is what the context's handler says of the size of a signature.
unfoldable pub get_pack_size : ℕ → ApplicationMessage → ℕ
get_pack_size signature m =
    encoded_size (
      fixed_pack_size
      + pack_size m.header
      + length m.payload
      + extension_size m.tracker
      + signature)

abbrev pub await_tracker : ℕ
await_tracker = 0x01

-- The extension count and the await tracker's extension.
unfoldable pub pack_extensions : Option (AwaitBinding × ℕ) → List ℕ → List ℕ
pack_extensions none buffer = pack_chunk 1 0 buffer
pack_extensions (some (binding, key)) buffer =
    let b1 = pack_chunk 1 1 buffer in
    let b2 = pack_chunk 1 await_tracker b1 in
    let b3 = pack_chunk 2 fixed_await_extension_size b2 in
    let b4 = pack_chunk 1 (binding_code binding) b3 in pack_chunk 4 key b4

-- The buffer of GetPack up to its padding.
unfoldable pub sections : ApplicationMessage → List ℕ
sections m =
    let b1 = packed_buffer m.header in
    let b2 = pack_chunk 1 (handler_type_code m.command) b1 in
    let b3 = pack_chunk 1 m.phase b2 in
    let b4 = pack_buffer 4 m.payload b3 in
    let b5 = pack_chunk 8 m.timestamp b4 in pack_extensions m.tracker b5

-- The buffer that is signed.
unfoldable pub packed : ApplicationMessage → List ℕ
packed m = sections m ++ replicate ((4 - length (sections m) % 4) % 4) 0

abbrev pub encode_signed : Option (Bool × List ℕ) → Option (List ℕ)
encode_signed none = none
encode_signed (some (true, buffer)) = some []
encode_signed (some (false, buffer)) = some (encode buffer)

-- GetPack: the empty text if the signator fails. The outer `none` is the exception of a missing
-- handler.
unfoldable pub get_pack : ApplicationMessage → Option (List ℕ)
get_pack m = encode_signed (sign m.context (packed m))

-- Validate: whether its status is Success.
unfoldable pub validate : ApplicationMessage → Bool
validate m = is_valid m.header && not (is_handler_type_invalid m.command) && not (m.timestamp == 0)

-- ApplicationBuilder(), at the system time `now`.
abbrev pub builder : Container → ℕ → ApplicationMessage
builder no_source now = record {
  context = default_context;
  header = record (default_header no_source) { protocol = Protocol.application };
  command = HandlerType.invalid;
  phase = 0;
  payload = [];
  timestamp = now;
  tracker = none;
}

abbrev pub set_message_context : Context → ApplicationMessage → ApplicationMessage
set_message_context context m = record m { context = context }

abbrev pub set_source : Container → ApplicationMessage → ApplicationMessage
set_source identifier m = record m { header = record (m.header) { source = identifier } }

abbrev pub make_cluster_message : ApplicationMessage → ApplicationMessage
make_cluster_message m = record m {
  header = record (m.header) { destination = Destination.cluster };
}

abbrev pub make_network_message : ApplicationMessage → ApplicationMessage
make_network_message m = record m {
  header = record (m.header) { destination = Destination.network };
}

abbrev pub set_destination : Container → ApplicationMessage → ApplicationMessage
set_destination identifier m = record m {
  header = record (m.header) { destination_identifier = some identifier };
}

abbrev pub set_command : HandlerType → ℕ → ApplicationMessage → ApplicationMessage
set_command type phase m = record m { command = type; phase = phase }

-- SetPayload keeps the payload where the encryption fails.
unfoldable pub set_payload : List ℕ → ApplicationMessage → Option ApplicationMessage
set_payload buffer m = elim (encrypt m.context buffer m.timestamp) [
  | none ↦ none
  | some none ↦ some m
  | some (some bytes) ↦ some (record m { payload = bytes })
]

abbrev pub bind_await_tracker : Option (AwaitBinding × ℕ) → ApplicationMessage → ApplicationMessage
bind_await_tracker tracker m = record m { tracker = tracker }
