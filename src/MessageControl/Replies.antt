-- ===== src/MessageControl/Replies.antt =====
-- How an authorized processor answers the messages that keep a session alive.
use brypt_node.Common.{ℕ, ◌^◌, ◌%◌, ◌<◌, ◌≡◌, refl, ◌∙◌, true, false, List, [], ◌∷◌, some, arith}
use native.Mathlib.Nat.{mod-eq_of_lt}
use brypt_node.Z85.{encoded_size, padding_bytes}
use brypt_node.Z85.RoundTrip.{has_full_block}
use brypt_node.Message.Definitions.{Destination, NetworkType, is_network_type_invalid}
use brypt_node.Message.Identifier.{Container, same_identifier}
use brypt_node.Message.Context.{Context}
use brypt_node.Message.Header.{pack_size}
use brypt_node.Message.Header.RoundTrip as Formed
use brypt_node.Message.Network as Network
use brypt_node.Message.Network.{NetworkMessage}
use brypt_node.Message.Network.RoundTrip as Sent
use brypt_node.Message.Network.Partial as Partial
use brypt_node.MessageControl.Authorized.{
  Outside, Processor, answer, handle_message, heartbeat_response, respond, collect_message,
}
use brypt_node.MessageControl.Collected.{collect_message-network}

-- What the builder makes of a type, a source and a destination.
abbrev unsized : Container → Container → Container → NetworkType → NetworkMessage
unsized no_source me you type = record (Network.builder no_source) {
  header = record (Network.builder no_source).header {
    source = me;
    destination_identifier = some you;
  };
  type = type;
}

module _ (construct : List ℕ → Container) (no_source me you : Container) (type : NetworkType)
    (a : Formed.Travels construct me) (b : Formed.Travels construct you) (valid : me.valid ≡ true)
    (type_valid : is_network_type_invalid type ≡ false) where
  sized-IsWellFormed :
      (size : ℕ)
      → size < 2 ^ 32
      → Formed.IsWellFormed construct
          (record (unsized no_source me you type).header { size = size })
  sized-IsWellFormed size fits = record {
    protocol_valid = refl;
    major_fits = omega arith;
    minor_fits = omega arith;
    size_fits = fits;
    source_travels = a;
    destination_valid = refl;
    destination_travels = b;
  }

  unsized-fits : Network.get_pack_size (unsized no_source me you type) < 2 ^ 32
  unfolding Network.get_pack_size encoded_size padding_bytes
  unsized-fits = omega (arith, Formed.pack_size-le construct _ (sized-IsWellFormed 0 (omega arith)))

  size_again :
      Network.get_pack_size (unsized no_source me you type) % 2 ^ 32
      ≡ Network.get_pack_size (Network.build (unsized no_source me you type))
  unfolding Network.build Network.get_pack_size pack_size
  size_again = mod-eq_of_lt unsized-fits

  unsized-IsSendable : Sent.IsSendable construct (Network.build (unsized no_source me you type))
  unfolding Network.build
  unsized-IsSendable = record {
    header_formed = sized-IsWellFormed _ (omega arith);
    network = refl;
    source_valid = valid;
    type_valid = type_valid;
    payload_bytes = tt;
    payload_fits = omega arith;
    size_stated = size_again;
  }

  unsized_built :
      Network.validated_build (unsized no_source me you type)
      ≡ some (Network.build (unsized no_source me you type))
  unsized_built =
      Partial.validated_build-valid (unsized no_source me you type) refl valid type_valid
        unsized-fits

same_identifier_refl : (c : Container) → c.valid ≡ true → same_identifier c c ≡ true
unfolding same_identifier
same_identifier_refl c valid = ground (arith, valid)

-- What two processors need to keep a session alive: identifiers that travel, and the peers.
pub record IsSession (mine yours : Outside) (me you : Container) (you_address my_address : ℕ)
    : Type 0 where
  pub me_valid : me.valid ≡ true
  pub you_valid : you.valid ≡ true
  pub me_travels : Formed.Travels yours.construct me
  pub you_travels : Formed.Travels yours.construct you
  pub you_lockable : mine.can_lock you_address ≡ true
  pub me_lockable : yours.can_lock my_address ≡ true

handle-addressed :
    (o : Outside) (p : Processor) (peer : ℕ) (m : NetworkMessage)
    → p.identifier.valid ≡ true
    → m.header.destination ≡ Destination.node
    → m.header.destination_identifier ≡ some p.identifier
    → o.can_lock peer ≡ true
    → handle_message o p peer m ≡ respond o p peer m m.type
unfolding handle_message
handle-addressed o p peer m valid node here lock =
    rw (node, here, same_identifier_refl p.identifier valid, lock)

-- A request of the peer to this node.
pub record IsRequest (type : NetworkType) (me you : Container) (m : NetworkMessage) : Type 0 where
  pub type_asked : m.type ≡ type
  pub from_peer : m.header.source ≡ you
  pub to_node : m.header.destination ≡ Destination.node
  pub to_me : m.header.destination_identifier ≡ some me

abbrev pub heartbeat_reply : Outside → Container → Container → NetworkMessage
heartbeat_reply o me you = Network.build (heartbeat_response o me you)

-- A session of two processors: the pack of a sendable heartbeat request of the peer to this node
-- makes this node send one pack, and the peer accepts that pack and sends nothing, where neither
-- pack has four bytes 0xff at a multiple of four before it is encoded. Neither queue changes.
pub heartbeat_settles :
    (mine yours : Outside) (me you : Processor) (you_address my_address : ℕ) (c d : Context)
    (m : NetworkMessage)
    → IsSession mine yours me.identifier you.identifier you_address my_address
    → Sent.IsSendable mine.construct m
    → IsRequest NetworkType.heartbeat_request me.identifier you.identifier m
    → has_full_block (Network.packed m) ≡ false
    → has_full_block (Network.packed (heartbeat_reply mine me.identifier you.identifier)) ≡ false
    → (collect_message mine me you_address c (Network.get_pack m)
        ≡ some (
            answer me
              (mine.schedule_send you_address c.endpoint_identifier
                (Network.get_pack (heartbeat_reply mine me.identifier you.identifier)))
              ((
                c.endpoint_identifier,
                Network.get_pack (heartbeat_reply mine me.identifier you.identifier),
              )
                ∷ [])))
      × (collect_message yours you my_address d
            (Network.get_pack (heartbeat_reply mine me.identifier you.identifier))
          ≡ some (answer you true []))
unfolding Network.build
heartbeat_settles mine yours me you you_address my_address c d m s w r full full_reply =
    let reply =
      unsized_built yours.construct mine.no_source me.identifier you.identifier
        NetworkType.heartbeat_response s.me_travels s.you_travels s.me_valid refl in
    let sendable =
      unsized-IsSendable yours.construct mine.no_source me.identifier you.identifier
        NetworkType.heartbeat_response s.me_travels s.you_travels s.me_valid refl in
    (
      collect_message-network mine m w me you_address c
          ∙ rw full (
              handle-addressed mine me you_address (record m { context = c }) s.me_valid r.to_node
                r.to_me s.you_lockable
              ∙ rw (r.type_asked, r.from_peer, reply) refl),
      collect_message-network yours (heartbeat_reply mine me.identifier you.identifier) sendable you
            my_address d
          ∙ rw full_reply (
              handle-addressed yours you my_address
                (record (heartbeat_reply mine me.identifier you.identifier) { context = d })
                s.you_valid refl refl s.me_lockable),
    )
