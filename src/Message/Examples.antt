-- ===== src/Message/Examples.antt =====
-- The theorems on messages at concrete inputs.
use brypt_node.Common.{
  ℕ, ◌<◌, ◌^◌, ◌≡◌, refl, true, false, List, [], ◌∷◌, ◌++◌, none, some, replicate, arith,
}
use brypt_node.PackUtils.{store_big, pack_chunk, pack_buffer}
use brypt_node.Z85.{encoded_size, padding_bytes, encode}
use brypt_node.Z85.RoundTrip.{has_full_block}
use brypt_node.Message.Definitions.{
  is_protocol_invalid, Protocol, Destination, NetworkType, HandlerType, network_type_code,
}
use brypt_node.Message.Identifier.{Container}
use brypt_node.Message.Context.{Context, EndpointProtocol, make_context}
use brypt_node.Message.Header.{Header, pack_size, packed_buffer, parse_buffer}
use brypt_node.Message.Header.RoundTrip as Formed
use brypt_node.Message.Header.RoundTrip.{parse-packed_buffer}
use brypt_node.Message.Peek.{peek_protocol, peek_size, peek_source, peek-packed_buffer}
use brypt_node.Message.Network as Network
use brypt_node.Message.Network.{NetworkMessage}
use brypt_node.Message.Network.RoundTrip as Sent
use brypt_node.Message.Application.Defs as Application
use brypt_node.Message.Application.Defs.{ApplicationMessage, AwaitBinding}
use brypt_node.Message.Application.Unpack as Unpacked
use brypt_node.Message.Application.Extensions.{starts_extension, extension_bytes}
use brypt_node.Message.Application.RoundTrip as Fit
use brypt_node.Message.Application.RoundTrip.{unpack_reread}
use brypt_node.Message.Application.Delivery as Delivered
use brypt_node.Message.Network.Partial.{foreign_protocol_built}

abbrev text : List ℕ
text = replicate 31 98

abbrev rebuild : List ℕ → Container
rebuild b = record { internal_representation = 7; network_representation = b; valid = true }

abbrev no_source : Container
no_source = record { internal_representation = 0; network_representation = []; valid = false }

abbrev header : Header
header = record {
  protocol = Protocol.network;
  version_major = 0;
  version_minor = 0;
  size = 65;
  source = rebuild text;
  destination = Destination.node;
  destination_identifier = none;
}

source-Travels : Formed.Travels rebuild (rebuild text)
source-Travels = record {
  long_enough = omega arith;
  short_enough = omega arith;
  text = omega arith;
  rebuilt = refl;
}

formed :
    (p : Protocol) (size : ℕ)
    → is_protocol_invalid p ≡ false
    → size < 2 ^ 32
    → Formed.IsWellFormed rebuild (record header { protocol = p; size = size })
formed p size valid fits = record {
  protocol_valid = valid;
  major_fits = omega arith;
  minor_fits = omega arith;
  size_fits = fits;
  source_travels = source-Travels;
  destination_valid = refl;
  destination_travels = tt;
}

header_formed : Formed.IsWellFormed rebuild header
header_formed = formed Protocol.network 65 refl (omega arith)

abbrev foreign : Header
foreign = record header { protocol = Protocol.application }

foreign_formed : Formed.IsWellFormed rebuild foreign
foreign_formed = formed Protocol.application 65 refl (omega arith)

parse-packed_buffer_example :
    parse_buffer rebuild header (packed_buffer header ++ (9 ∷ [])) ≡ (some tt, header, 9 ∷ [])
parse-packed_buffer_example = parse-packed_buffer rebuild header header (9 ∷ []) header_formed

abbrev message : NetworkMessage
message = record {
  context = make_context 1 EndpointProtocol.tcp;
  header = header;
  type = NetworkType.handshake;
  payload = 5 ∷ 6 ∷ [];
}

message-IsSendable : Sent.IsSendable rebuild message
unfolding Network.get_pack_size pack_size encoded_size padding_bytes
message-IsSendable = record {
  header_formed = header_formed;
  network = refl;
  source_valid = refl;
  type_valid = refl;
  payload_bytes = omega arith;
  payload_fits = omega arith;
  size_stated = refl;
}

abbrev receiver : Context
receiver = make_context 2 EndpointProtocol.tcp

receive-network_pack_example :
    Network.validated_build (
      Network.from_encoded_pack rebuild
        (Network.get_pack message)
        (Network.set_message_context receiver (Network.builder no_source)))
    ≡ some (record message { context = receiver })
unfolding Network.packed Network.sections packed_buffer pack_chunk pack_buffer store_big
    has_full_block
receive-network_pack_example =
    Sent.receive-network_pack rebuild message message-IsSendable receiver no_source refl

foreign_protocol_built_example :
    Network.validated_build (
      Network.from_decoded_pack rebuild
        (packed_buffer foreign
          ++ (store_big 1 (network_type_code NetworkType.handshake) ++ (7 ∷ [])))
        (Network.set_message_context receiver (Network.builder no_source)))
    ≡ some (
        Network.build (record {
          context = receiver;
          header = foreign;
          type = NetworkType.handshake;
          payload = [];
        }))
foreign_protocol_built_example =
    foreign_protocol_built rebuild foreign NetworkType.handshake foreign_formed refl refl receiver
      no_source (7 ∷ []) refl

-- A signature of four bytes, and handlers that know it.
abbrev signature : List ℕ
signature = 3 ∷ 1 ∷ 4 ∷ 1 ∷ []

abbrev bound : ℕ → Context
bound endpoint = record {
  endpoint_identifier = endpoint;
  endpoint_protocol = EndpointProtocol.tcp;
  encryptor = some (λ buffer nonce. some buffer);
  decryptor = some (λ buffer nonce. some buffer);
  signator = some (λ buffer. (false, buffer ++ signature));
  verifier = some (λ buffer. true);
  signature_size = some 4;
}

abbrev query : ApplicationMessage
query = record {
  context = bound 1;
  header = record header { protocol = Protocol.application; size = 90 };
  command = HandlerType.query;
  phase = 1;
  payload = 5 ∷ 6 ∷ [];
  timestamp = 1000;
  tracker = some (AwaitBinding.source, 77);
}

query-IsSendable : Fit.IsSendable rebuild 4 query
unfolding Application.get_pack_size pack_size encoded_size padding_bytes
query-IsSendable = record {
  header_formed = formed Protocol.application 90 refl (omega arith);
  application = refl;
  source_valid = refl;
  command_valid = refl;
  phase_fits = omega arith;
  payload_bytes = omega arith;
  payload_fits = omega arith;
  timestamp_set = omega arith;
  timestamp_fits = omega arith;
  tracker_fits = (λ e. cc, omega arith);
  size_stated = refl;
}

query-IsSigned : Delivered.IsSigned (bound 2) query signature
query-IsSigned = record {
  signed = refl;
  bytes = omega arith;
  short = omega arith;
  whole = refl;
  verified = refl;
  size_known = refl;
}

receive-application_pack_example :
    Delivered.receive rebuild (bound 2) no_source 5 (encode (Application.packed query ++ signature))
    ≡ some (some (record query { context = bound 2 }))
unfolding Application.packed Application.sections Application.pack_extensions packed_buffer
    pack_chunk pack_buffer store_big has_full_block starts_extension
receive-application_pack_example =
    Delivered.receive-application_pack rebuild (bound 2) query signature query-IsSendable
      query-IsSigned no_source 5 refl refl

unpack_reread_example :
    (Unpacked.unpack rebuild
      (Application.set_message_context (bound 2) (Application.builder no_source 5))
      (Application.sections query ++ extension_bytes 300 9 4 (0 ∷ []))).1
    ≡ record query { context = bound 2; tracker = none }
unfolding Unpacked.bound_tracker starts_extension
unpack_reread_example =
    unpack_reread rebuild 4 query query-IsSendable
      (Application.set_message_context (bound 2) (Application.builder no_source 5)) (0 ∷ [])
      (AwaitBinding.source, 77) 300 9 4 refl refl (omega arith) refl

peek-packed_buffer_example :
    (peek_protocol (packed_buffer header ++ (9 ∷ [])) ≡ some Protocol.network)
    × (peek_size (packed_buffer header ++ (9 ∷ [])) ≡ some 65)
    × (peek_source rebuild (packed_buffer header ++ (9 ∷ [])) ≡ some (rebuild text))
peek-packed_buffer_example =
    peek-packed_buffer rebuild header (9 ∷ []) header_formed (λ e. absurd (omega arith)) refl
