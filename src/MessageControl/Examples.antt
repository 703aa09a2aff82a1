-- ===== src/MessageControl/Examples.antt =====
-- The theorems on the authorized processor at concrete inputs.
use brypt_node.Common.{ℕ, ◌<◌, ◌≡◌, refl, true, false, List, [], ◌∷◌, ◌++◌, some, replicate, arith}
use brypt_node.PackUtils.{store_big, pack_chunk, pack_buffer}
use brypt_node.Z85.{encoded_size, padding_bytes, encode}
use brypt_node.Z85.RoundTrip.{has_full_block}
use brypt_node.Message.Definitions.{Protocol, Destination, NetworkType, HandlerType}
use brypt_node.Message.Identifier.{Container}
use brypt_node.Message.Context.{Context, EndpointProtocol, make_context}
use brypt_node.Message.Header.{pack_size, packed_buffer}
use brypt_node.Message.Header.RoundTrip as Formed
use brypt_node.Message.Network as Network
use brypt_node.Message.Network.{NetworkMessage}
use brypt_node.Message.Network.RoundTrip as Sent
use brypt_node.Message.Application.Defs as Application
use brypt_node.Message.Application.Defs.{ApplicationMessage}
use brypt_node.Message.Application.RoundTrip as Fit
use brypt_node.Message.Application.Delivery as Delivered
use brypt_node.Message.Application.Extensions.{starts_extension}
use brypt_node.MessageControl.Authorized.{
  Outside, Processor, answer, queue_message, collect_message,
}
use brypt_node.MessageControl.Collected.{collect_message-application}
use brypt_node.MessageControl.Queue.{pop_times, queue_all, pop_times-queue_all}
use brypt_node.Message.Application.Defs.{AwaitBinding}
use brypt_node.MessageControl.Authorized.{queued_message_count}
use brypt_node.MessageControl.Replies.{IsSession, heartbeat_reply, heartbeat_settles}

abbrev text : ℕ → List ℕ
text letter = replicate 31 letter

abbrev first_of : List ℕ → ℕ
first_of [] = 0
first_of (b ∷ bs) = b

-- Identifiers told apart by the first letter of their text.
abbrev rebuild : List ℕ → Container
rebuild b = record {
  internal_representation = first_of b;
  network_representation = b;
  valid = true;
}

abbrev outside : Outside
outside = record {
  construct = rebuild;
  no_source = record { internal_representation = 0; network_representation = []; valid = false };
  now = 5;
  can_lock = λ peer. true;
  schedule_send = λ peer endpoint pack. true;
}

abbrev node : ℕ → Processor
node letter = record { identifier = rebuild (text letter); incoming = [] }

travels : (letter : ℕ) → letter < 256 → Formed.Travels rebuild (rebuild (text letter))
travels letter fits = record {
  long_enough = omega arith;
  short_enough = omega arith;
  text = omega arith;
  rebuilt = refl;
}

abbrev ping : NetworkMessage
ping = record {
  context = make_context 1 EndpointProtocol.tcp;
  header = record {
    protocol = Protocol.network;
    version_major = 0;
    version_minor = 0;
    size = 100;
    source = rebuild (text 99);
    destination = Destination.node;
    destination_identifier = some (rebuild (text 98));
  };
  type = NetworkType.heartbeat_request;
  payload = [];
}

ping-IsSendable : Sent.IsSendable rebuild ping
unfolding Network.get_pack_size pack_size encoded_size padding_bytes
ping-IsSendable = record {
  header_formed = record {
    protocol_valid = refl;
    major_fits = omega arith;
    minor_fits = omega arith;
    size_fits = omega arith;
    source_travels = travels 99 (omega arith);
    destination_valid = refl;
    destination_travels = travels 98 (omega arith);
  };
  network = refl;
  source_valid = refl;
  type_valid = refl;
  payload_bytes = tt;
  payload_fits = omega arith;
  size_stated = refl;
}

session : IsSession outside outside (rebuild (text 98)) (rebuild (text 99)) 3 4
session = record {
  me_valid = refl;
  you_valid = refl;
  me_travels = travels 98 (omega arith);
  you_travels = travels 99 (omega arith);
  you_lockable = refl;
  me_lockable = refl;
}

abbrev context : Context
context = make_context 2 EndpointProtocol.tcp

abbrev reply : NetworkMessage
reply = heartbeat_reply outside (rebuild (text 98)) (rebuild (text 99))

ping_whole : has_full_block (Network.packed ping) ≡ false
unfolding Network.packed Network.sections packed_buffer pack_chunk pack_buffer store_big
    has_full_block
ping_whole = refl

reply_whole : has_full_block (Network.packed reply) ≡ false
unfolding Network.packed Network.sections packed_buffer pack_chunk pack_buffer store_big
    has_full_block Network.build Network.get_pack_size pack_size encoded_size
reply_whole = refl

heartbeat_settles_example :
    (collect_message outside (node 98) 3 context (Network.get_pack ping)
      ≡ some (answer (node 98) true ((2, Network.get_pack reply) ∷ [])))
    × (collect_message outside (node 99) 4 context (Network.get_pack reply)
        ≡ some (answer (node 99) true []))
heartbeat_settles_example =
    heartbeat_settles outside outside (node 98) (node 99) 3 4 context context ping session
      ping-IsSendable (record { type_asked = refl; from_peer = refl; to_node = refl; to_me = refl })
      ping_whole reply_whole

abbrev signature : List ℕ
signature = 9 ∷ 8 ∷ 7 ∷ 6 ∷ []

abbrev bound : ℕ → Context
bound endpoint = record {
  endpoint_identifier = endpoint;
  endpoint_protocol = EndpointProtocol.tcp;
  encryptor = some (λ buffer nonce. some buffer);
  decryptor = some (λ buffer nonce. some buffer);
  signator = some (λ buffer. (false, buffer ++ signature));
  verifier = some (λ buffer. true);
  signature_size = some 4;
}

abbrev query : ApplicationMessage
query = record {
  context = bound 1;
  header = record ping.header { protocol = Protocol.application; size = 130 };
  command = HandlerType.query;
  phase = 1;
  payload = 5 ∷ 6 ∷ [];
  timestamp = 1000;
  tracker = some (AwaitBinding.source, 77);
}

query-IsSendable : Fit.IsSendable rebuild 4 query
unfolding Application.get_pack_size pack_size encoded_size padding_bytes
query-IsSendable = record {
  header_formed = record {
    protocol_valid = refl;
    major_fits = omega arith;
    minor_fits = omega arith;
    size_fits = omega arith;
    source_travels = travels 99 (omega arith);
    destination_valid = refl;
    destination_travels = travels 98 (omega arith);
  };
  application = refl;
  source_valid = refl;
  command_valid = refl;
  phase_fits = omega arith;
  payload_bytes = omega arith;
  payload_fits = omega arith;
  timestamp_set = omega arith;
  timestamp_fits = omega arith;
  tracker_fits = (λ e. cc, omega arith);
  size_stated = refl;
}

query-IsSigned : Delivered.IsSigned (bound 2) query signature
query-IsSigned = record {
  signed = refl;
  bytes = omega arith;
  short = omega arith;
  whole = refl;
  verified = refl;
  size_known = refl;
}

collect_message-application_example :
    collect_message outside (node 98) 3 (bound 2) (encode (Application.packed query ++ signature))
    ≡ some (queue_message (node 98) 3 (record query { context = bound 2 }))
unfolding Application.packed Application.sections Application.pack_extensions packed_buffer
    pack_chunk pack_buffer store_big has_full_block starts_extension
collect_message-application_example =
    collect_message-application outside (bound 2) query signature query-IsSendable query-IsSigned
      (node 98) 3 refl

pop_times-queue_all_example :
    (queued_message_count (queue_all ((3, query) ∷ (4, query) ∷ []) (node 98)) ≡ 2)
    × (pop_times 2 (queue_all ((3, query) ∷ (4, query) ∷ []) (node 98))
        ≡ ((3, query) ∷ (4, query) ∷ [], node 98))
pop_times-queue_all_example = pop_times-queue_all ((3, query) ∷ (4, query) ∷ []) (node 98) refl
