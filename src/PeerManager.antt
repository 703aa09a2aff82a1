-- ===== src/PeerManager.antt =====
-- Components/BryptPeer/PeerManager.cpp: the peers that a node knows, and the addresses that it has
-- sent a request to and waits for.
use brypt_node.Common.{
  ℕ, Bool, true, false, not, ◌&&◌, ◌||◌, List, [], ◌∷◌, Option, none, some, length, ◌==◌,
  if◌then◌else◌,
}
use brypt_node.Message.Identifier.{Container}
use brypt_node.Message.Context.{EndpointProtocol, lora, tcp, invalid}
use brypt_node.Message.Network.{
  NetworkMessage, builder, set_source, set_destination, make_heartbeat_request, validated_build,
  get_pack,
}
use brypt_node.MessageControl.Exchange.{Surroundings}
use brypt_node.Identifier.{same_bytes, is_internal_allowed}
use brypt_node.SecurityMediator.{
  Mediator, mediator, Role, Receiver, Outcome, returned, thrown, undefined, bind_peer,
  setup_exchange_initiator, setup_exchange_acceptor,
}
mod Linking
mod Declaring
mod Examples

-- What the manager sees of a peer: who it is and its mediator.
pub record Peer (S : Type 0) : Type 0 where
  pub identifier : Container
  pub mediator : Mediator S

-- The members of a RemoteAddress that operator== compares.
pub record RemoteAddress : Type 0 where
  pub protocol : EndpointProtocol
  pub uri : List ℕ

abbrev same_protocol : EndpointProtocol → EndpointProtocol → Bool
same_protocol lora lora = true
same_protocol tcp tcp = true
same_protocol invalid invalid = true
same_protocol _ _ = false

unfoldable pub same_address : RemoteAddress → RemoteAddress → Bool
same_address a b = same_protocol a.protocol b.protocol && same_bytes a.uri b.uri

-- The addresses that are being resolved, with the mediator that awaits the peer.
pub record Resolving (S : Type 0) : Type 0 where
  pub address : RemoteAddress
  pub awaiting : Mediator S

-- The two containers have unique keys: of two entries with one key the first counts.
pub record Manager (S : Type 0) : Type 0 where
  pub peers : List (Peer S)
  pub resolving : List (Resolving S)

module _ {S : Type 0} where
  unfoldable pub find_peer : ℕ → List (Peer S) → Option (Peer S)
  find_peer internal [] = none
  find_peer internal (peer ∷ peers) =
      let others = find_peer internal peers in
      if peer.identifier.internal_representation == internal then some peer else others

  unfoldable pub find_resolving : RemoteAddress → List (Resolving S) → Option (Mediator S)
  find_resolving address [] = none
  find_resolving address (entry ∷ entries) =
      let others = find_resolving address entries in
      if same_address entry.address address then some entry.awaiting else others

  unfoldable pub erase_resolving : RemoteAddress → List (Resolving S) → List (Resolving S)
  erase_resolving address [] = []
  erase_resolving address (entry ∷ entries) =
      let others = erase_resolving address entries in
      if same_address entry.address address then others else entry ∷ others

  -- UndeclareResolvingPeer, whose assertion is not compiled into a release.
  unfoldable pub undeclare_resolving_peer : RemoteAddress → Manager S → Manager S
  undeclare_resolving_peer address manager = record manager {
    resolving = erase_resolving address manager.resolving;
  }

  -- The constructor of a peer throws for an identifier that is not valid or is reserved; the peer
  -- is bound to the mediator that is attached to it.
  abbrev track_bound : Container → Manager S → Outcome (Mediator S) → Outcome (Option ℕ × Manager S)
  track_bound identifier manager (returned bound) = returned (
    some identifier.internal_representation,
    record manager { peers = record { identifier = identifier; mediator = bound } ∷ manager.peers },
  )
  track_bound identifier manager thrown = thrown
  track_bound identifier manager undefined = undefined

  abbrev attach : Container → Manager S → Mediator S → Outcome (Option ℕ × Manager S)
  attach identifier manager m = track_bound identifier manager (bind_peer (some Receiver.nobody) m)

  abbrev attach_acceptor :
      Container → Manager S → Outcome (Bool × Mediator S) → Outcome (Option ℕ × Manager S)
  attach_acceptor identifier manager (returned (true, m)) = attach identifier manager m
  attach_acceptor identifier manager (returned (false, m)) = returned (none, manager)
  attach_acceptor identifier manager thrown = thrown
  attach_acceptor identifier manager undefined = undefined

  -- The surroundings and the identifier are those of the node; `create` makes its strategies.
  module _ (s : Surroundings S) (own : Container) (create : Role → Option S) where
    abbrev link_by_resolving :
        Container → RemoteAddress → Manager S → Option (Mediator S) → Outcome (Option ℕ × Manager S)
    link_by_resolving identifier address manager (some m) =
        attach identifier (undeclare_resolving_peer address manager) m
    link_by_resolving identifier address manager none =
        attach_acceptor identifier manager (setup_exchange_acceptor s own create mediator)

    abbrev link_by_peer :
        Container → RemoteAddress → Manager S → Option (Peer S) → Outcome (Option ℕ × Manager S)
    link_by_peer identifier address manager (some peer) =
        returned
          (some peer.identifier.internal_representation, undeclare_resolving_peer address manager)
    link_by_peer identifier address manager none =
        if not identifier.valid || not (is_internal_allowed identifier.internal_representation)
        then thrown
        else link_by_resolving identifier address manager (find_resolving address manager.resolving)

    -- LinkPeer returns the peer, here by its number, or a null pointer.
    unfoldable pub link_peer :
        Container → RemoteAddress → Manager S → Outcome (Option ℕ × Manager S)
    link_peer identifier address manager =
        link_by_peer identifier address manager
          (find_peer identifier.internal_representation manager.peers)

    abbrev declare_requested :
        RemoteAddress
        → Manager S
        → Outcome (Option (List ℕ) × Mediator S)
        → Outcome (Option (List ℕ) × Manager S)
    declare_requested address manager (returned (none, m)) = returned (none, manager)
    declare_requested address manager (returned (some request, m)) = returned (
      some request,
      record manager {
        resolving =
            record { address = address; awaiting = m } ∷ erase_resolving address manager.resolving;
      },
    )
    declare_requested address manager thrown = thrown
    declare_requested address manager undefined = undefined

    -- A heartbeat request that could not be built is used all the same.
    abbrev heartbeat_pack :
        Manager S → Option NetworkMessage → Outcome (Option (List ℕ) × Manager S)
    heartbeat_pack manager none = undefined
    heartbeat_pack manager (some request) = returned (some (get_pack request), manager)

    -- Without a tracked peer, an identifier is answered by nothing but an assertion.
    abbrev declare_known :
        Container → Manager S → Option (Peer S) → Outcome (Option (List ℕ) × Manager S)
    declare_known identifier manager none = returned (none, manager)
    declare_known identifier manager (some peer) = heartbeat_pack manager (
        validated_build (
          make_heartbeat_request
            (set_destination identifier (set_source own (builder s.no_source)))))

    abbrev declare_by_identifier :
        RemoteAddress → Option Container → Manager S → Outcome (Option (List ℕ) × Manager S)
    declare_by_identifier address none manager =
        declare_requested address manager (setup_exchange_initiator s own create mediator)
    declare_by_identifier address (some identifier) manager =
        declare_known identifier manager
          (find_peer identifier.internal_representation manager.peers)

    abbrev declare_unless_found :
        RemoteAddress
        → Option Container
        → Manager S
        → Option (Mediator S)
        → Outcome (Option (List ℕ) × Manager S)
    declare_unless_found address identifier manager (some m) = returned (none, manager)
    declare_unless_found address identifier manager none =
        declare_by_identifier address identifier manager

    unfoldable pub declare_resolving_peer :
        RemoteAddress → Option Container → Manager S → Outcome (Option (List ℕ) × Manager S)
    declare_resolving_peer address identifier manager =
        declare_unless_found address identifier manager (find_resolving address manager.resolving)
