-- ===== src/MessageControl/ExchangeExamples.antt =====
-- The theorems on exchanges at concrete inputs: the strategy is ready, and has a response.
use brypt_node.Common.{ℕ, ◌≡◌, refl, true, false, List, [], ◌∷◌, none, some}
use brypt_node.Z85.{encoded_size}
use brypt_node.Message.Definitions.{Protocol, Destination, NetworkType}
use brypt_node.Message.Identifier.{Container}
use brypt_node.Message.Context.{EndpointProtocol, make_context}
use brypt_node.Message.Header.{is_valid, pack_size}
use brypt_node.Message.Network.{
  NetworkMessage, validated_build, validate, build, get_pack, get_pack_size,
}
use brypt_node.MessageControl.Exchange.{
  SynchronizationStatus, ExchangeStatus, ProcessStage, closed, strategy_fulfilled, scheduled,
  Surroundings, Exchange, Handled, handshake_response, handle_message,
  handle_synchronization_message,
}
use brypt_node.MessageControl.Authorization.{State, after_events}
use brypt_node.MessageControl.Authorization.Unsent.{unsent-handle_message}

abbrev identifier : ℕ → Container
identifier n = record { internal_representation = n; network_representation = n ∷ []; valid = true }

abbrev surroundings : Surroundings ℕ
surroundings = record {
  construct = λ b. identifier 0;
  no_source = record { internal_representation = 0; network_representation = []; valid = false };
  can_lock = λ peer. true;
  schedule_send = λ peer endpoint pack. false;
  prepare_synchronization =
      λ n. record { status = SynchronizationStatus.processing; buffer = []; strategy = n };
  synchronize =
      λ n payload. record { status = SynchronizationStatus.ready; buffer = 7 ∷ []; strategy = n };
  has_observer = true;
  send_request = none;
}

abbrev exchange : Exchange ℕ
exchange = record {
  stage = ProcessStage.synchronization;
  identifier = identifier 1;
  strategy = some 5;
}

abbrev handshake : NetworkMessage
handshake = record {
  context = make_context 1 EndpointProtocol.tcp;
  header = record {
    protocol = Protocol.network;
    version_major = 0;
    version_minor = 0;
    size = 20;
    source = identifier 2;
    destination = Destination.node;
    destination_identifier = none;
  };
  type = NetworkType.handshake;
  payload = 9 ∷ [];
}

abbrev response_pack : List ℕ
response_pack = get_pack (build (handshake_response surroundings exchange handshake (7 ∷ [])))

-- The peer takes the response.
abbrev sending : Surroundings ℕ
sending = record surroundings { schedule_send = λ peer endpoint pack. true }

abbrev outcome : Handled ℕ
outcome = record {
  accepted = true;
  events = scheduled 1 response_pack ∷ strategy_fulfilled ∷ closed ExchangeStatus.success ∷ [];
  exchange = record exchange { strategy = none };
}

-- The peer does not take it.
abbrev unsent_outcome : Handled ℕ
unsent_outcome = record {
  accepted = true;
  events =
      scheduled 1 response_pack
      ∷ closed ExchangeStatus.failed
      ∷ strategy_fulfilled
      ∷ closed ExchangeStatus.success
      ∷ [];
  exchange = record exchange { strategy = none };
}

unsent-handle_message_example : after_events State.unauthorized unsent_outcome.events ≡ none
unfolding handle_message handle_synchronization_message validated_build validate is_valid
    get_pack_size pack_size encoded_size
unsent-handle_message_example =
    unsent-handle_message surroundings refl 3 (λ endpoint pack. refl) State.unauthorized exchange 5
      handshake 7 [] unsent_outcome refl refl refl refl refl refl
