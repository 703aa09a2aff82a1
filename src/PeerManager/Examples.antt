-- ===== src/PeerManager/Examples.antt =====
-- The theorem on linking at a concrete manager, whose strategies are numbers.
use brypt_node.Common.{ℕ, ◌≡◌, refl, true, [], ◌∷◌, none, some}
use brypt_node.Message.Identifier.{Container}
use brypt_node.Message.Context.{EndpointProtocol}
use brypt_node.MessageControl.Exchange.{SynchronizationStatus, ProcessStage, Surroundings, prepare}
use brypt_node.Identifier.{is_internal_allowed}
use brypt_node.SecurityMediator.{
  Mediator, mediator, Receiver, returned, bind_peer, setup_exchange_acceptor,
  setup_exchange_initiator, setup_exchange_processor,
}
use brypt_node.PeerManager.{
  RemoteAddress, Manager, find_peer, find_resolving, erase_resolving, declare_resolving_peer,
  link_peer,
}
use brypt_node.PeerManager.Linking.{IsUnique, IsConsistent, Links, link_peer-Links}

abbrev identifier : ℕ → Container
identifier n = record {
  internal_representation = n;
  network_representation = 98 ∷ [];
  valid = true;
}

abbrev surroundings : Surroundings ℕ
surroundings = record {
  construct = λ b. identifier 9;
  no_source = identifier 9;
  can_lock = λ p. true;
  schedule_send = λ p e b. true;
  prepare_synchronization =
      λ t. record { status = SynchronizationStatus.processing; buffer = []; strategy = t };
  synchronize = λ t b. record { status = SynchronizationStatus.ready; buffer = []; strategy = t };
  has_observer = true;
  send_request = none;
}

abbrev address : RemoteAddress
address = record { protocol = EndpointProtocol.tcp; uri = 116 ∷ [] }

abbrev bound_mediator : Mediator ℕ
bound_mediator = record mediator {
  is_bound = true;
  receiver = Receiver.exchange_processor;
  processor =
      some record {
        stage = ProcessStage.synchronization;
        identifier = identifier 1;
        strategy = some 3;
      };
}

abbrev manager : Manager ℕ
manager = record {
  peers = record { identifier = identifier 4; mediator = bound_mediator } ∷ [];
  resolving = [];
}

abbrev linked : Manager ℕ
linked = record manager {
  peers =
      record { identifier = identifier 5; mediator = bound_mediator }
      ∷ record { identifier = identifier 4; mediator = bound_mediator }
      ∷ [];
}

manager-IsConsistent : IsConsistent manager
unfolding IsUnique is_internal_allowed
manager-IsConsistent = ((tt, tt), ((refl, refl, refl), tt))

linked_peer :
    link_peer surroundings (identifier 1) (λ role. some 3) (identifier 5) address manager
    ≡ returned (some 5, linked)
unfolding link_peer find_peer find_resolving is_internal_allowed setup_exchange_acceptor
    setup_exchange_processor prepare bind_peer
linked_peer = refl

link_peer-Links_example : Links (identifier 5) address (some 5, linked)
link_peer-Links_example =
    link_peer-Links surroundings (identifier 1) (λ role. some 3) (identifier 5) address manager
      linked (some 5) manager-IsConsistent linked_peer

abbrev awaiting : Manager ℕ
awaiting = record manager {
  resolving =
      record {
        address = address;
        awaiting = record mediator {
          processor = some record {
            stage = ProcessStage.synchronization;
            identifier = identifier 1;
            strategy = some 3;
          };
        };
      }
      ∷ [];
}

declared :
    declare_resolving_peer surroundings (identifier 1) (λ role. some 3) address none manager
    ≡ returned (some [], awaiting)
unfolding declare_resolving_peer find_resolving erase_resolving setup_exchange_initiator
    setup_exchange_processor prepare
declared = refl
