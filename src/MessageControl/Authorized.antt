-- ===== src/MessageControl/Authorized.antt =====
-- src/Components/MessageControl/AuthorizedProcessor.cpp: the sink of a peer that has a session. A
-- peer is its address. The mutex of the queue is left out: every operation holds it throughout.
use brypt_node.Common.{
  ℕ, Bool, true, false, not, List, [], ◌∷◌, ◌++◌, Option, none, some, length, if◌then◌else◌,
}
use brypt_node.Z85.{decode}
use brypt_node.Message.Definitions.{Protocol, Destination, NetworkType}
use brypt_node.Message.Identifier.{Container, same_identifier}
use brypt_node.Message.Context.{Context}
use brypt_node.Message.Peek.{peek_protocol}
use brypt_node.Message.Network as Network
use brypt_node.Message.Network.{NetworkMessage}
use brypt_node.Message.Application.Defs as Application
use brypt_node.Message.Application.Defs.{ApplicationMessage}
use brypt_node.Message.Application.Unpack as Unpacked

-- What the processor uses besides: the constructor of identifiers, the default identifier, the
-- time, whether a weak pointer to a peer can be locked, and what the peer's ScheduleSend returns.
pub record Outside : Type 0 where
  pub construct : List ℕ → Container
  pub no_source : Container
  pub now : ℕ
  pub can_lock : ℕ → Bool
  pub schedule_send : ℕ → ℕ → List ℕ → Bool

pub record Processor : Type 0 where
  pub identifier : Container
  pub incoming : List (ℕ × ApplicationMessage)

-- What an operation returns, the packs it gives to ScheduleSend with their endpoints, and the
-- processor after it.
pub record Collected : Type 0 where
  pub accepted : Bool
  pub sent : List (ℕ × List ℕ)
  pub processor : Processor

unfoldable pub queued_message_count : Processor → ℕ
queued_message_count p = length p.incoming

abbrev pub pop_front :
    Processor → List (ℕ × ApplicationMessage) → Option (ℕ × ApplicationMessage) × Processor
pop_front p [] = (none, p)
pop_front p (message ∷ rest) = (some message, record p { incoming = rest })

-- PopIncomingMessage.
unfoldable pub pop_incoming_message : Processor → Option (ℕ × ApplicationMessage) × Processor
pop_incoming_message p = pop_front p p.incoming

-- QueueMessage.
unfoldable pub queue_message : Processor → ℕ → ApplicationMessage → Collected
queue_message p peer message = record {
  accepted = true;
  sent = [];
  processor = record p { incoming = p.incoming ++ ((peer, message) ∷ []) };
}

abbrev pub is_node : Destination → Bool
is_node Destination.node = true
is_node _ = false

abbrev pub is_handshake : NetworkType → Bool
is_handshake NetworkType.handshake = true
is_handshake _ = false

abbrev pub is_addressed : Container → Option Container → NetworkType → Bool
is_addressed me none type = is_handshake type
is_addressed me (some destination) type = same_identifier destination me

abbrev pub heartbeat_response : Outside → Container → Container → NetworkMessage
heartbeat_response o me peer =
    Network.make_heartbeat_response
      (Network.set_destination peer (Network.set_source me (Network.builder o.no_source)))

abbrev pub heartbeat_request : Outside → Container → Container → NetworkMessage
heartbeat_request o me peer =
    Network.make_heartbeat_request
      (Network.set_destination peer (Network.set_source me (Network.builder o.no_source)))

abbrev pub answer : Processor → Bool → List (ℕ × List ℕ) → Collected
answer p accepted sent = record { accepted = accepted; sent = sent; processor = p }

-- A response that was not built must not be sent: `none`.
abbrev pub send_response : Outside → Processor → ℕ → ℕ → Option NetworkMessage → Option Collected
send_response o p peer endpoint none = none
send_response o p peer endpoint (some response) = some (
    answer p (o.schedule_send peer endpoint (Network.get_pack response))
      ((endpoint, Network.get_pack response) ∷ []))

-- The switch of HandleMessage.
abbrev pub respond : Outside → Processor → ℕ → NetworkMessage → NetworkType → Option Collected
respond o p peer message NetworkType.heartbeat_request =
    send_response o p peer message.context.endpoint_identifier
      (Network.validated_build (heartbeat_response o p.identifier message.header.source))
respond o p peer message NetworkType.heartbeat_response = some (answer p true [])
respond o p peer message NetworkType.handshake =
    send_response o p peer message.context.endpoint_identifier
      (Network.validated_build (heartbeat_request o p.identifier message.header.source))
respond o p peer message NetworkType.invalid = some (answer p false [])

-- HandleMessage.
unfoldable pub handle_message : Outside → Processor → ℕ → NetworkMessage → Option Collected
handle_message o p peer message =
    if not (is_node message.header.destination)
    then some (answer p false [])
    else if not (is_addressed p.identifier message.header.destination_identifier message.type)
    then some (answer p false [])
    else if not (o.can_lock peer)
    then some (answer p false [])
    else respond o p peer message message.type

abbrev pub handle_if_built : Outside → Processor → ℕ → Option NetworkMessage → Option Collected
handle_if_built o p peer none = some (answer p false [])
handle_if_built o p peer (some message) = handle_message o p peer message

abbrev pub queue_if_built : Processor → ℕ → Option (Option ApplicationMessage) → Option Collected
queue_if_built p peer none = none
queue_if_built p peer (some none) = some (answer p false [])
queue_if_built p peer (some (some message)) = some (queue_message p peer message)

abbrev pub build_if_read : Option ApplicationMessage → Option (Option ApplicationMessage)
build_if_read none = none
build_if_read (some message) = Unpacked.validated_build message

abbrev pub collect_by_protocol :
    Outside → Processor → ℕ → Context → List ℕ → Option Protocol → Option Collected
collect_by_protocol o p peer c buffer (some Protocol.network) = handle_if_built o p peer (
    Network.validated_build (
      Network.from_decoded_pack o.construct buffer
        (Network.set_message_context c (Network.builder o.no_source))))
collect_by_protocol o p peer c buffer (some Protocol.application) = queue_if_built p peer (
    build_if_read (
      Unpacked.from_decoded_pack o.construct buffer
        (Application.set_message_context c (Application.builder o.no_source o.now))))
collect_by_protocol o p peer c buffer (some Protocol.invalid) = some (answer p false [])
collect_by_protocol o p peer c buffer none = some (answer p false [])

-- The two CollectMessage functions. The outer `none` is an exception of a missing handler, or the
-- use of a response that was not built.
unfoldable pub collect_decoded : Outside → Processor → ℕ → Context → List ℕ → Option Collected
collect_decoded o p peer c buffer = collect_by_protocol o p peer c buffer (peek_protocol buffer)

unfoldable pub collect_message : Outside → Processor → ℕ → Context → List ℕ → Option Collected
unfolding collect_decoded
collect_message o p peer c text = collect_decoded o p peer c (decode text)
