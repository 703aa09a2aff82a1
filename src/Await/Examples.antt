-- ===== src/Await/Examples.antt =====
-- The theorems on awaited requests at concrete inputs.
use brypt_node.Common.{
  ℕ, ◌++◌, ◌≡◌, ◌↔◌, refl, true, false, List, [], ◌∷◌, none, some, length, map, arith,
}
use brypt_node.Message.Definitions.{Protocol, Destination, HandlerType}
use brypt_node.Message.Identifier.{Container, same_identifier}
use brypt_node.Message.Context.{EndpointProtocol}
use brypt_node.Message.Application.Defs.{ApplicationMessage, AwaitBinding}
use brypt_node.Await.Tracker.{
  UpdateStatus, ResponseStatus, ResponseTracker, Outside, has_room, find, tracker_for_many,
  update_response, check_response_status,
}
use brypt_node.Await.Counting.{IsCounted, answered}
use brypt_node.Await.Fulfilment.{IsComplete, fulfilled-update_response}
use brypt_node.Await.Starvation.{Arrival, after_arrivals, some_skipped, unfulfilled_before_expiry}
use brypt_node.Await.Roster.{is_roster, lacks, fulfilled_by_all}
use brypt_node.Await.Manager.{Awaiting, process_fulfilled_requests}
use brypt_node.Await.Processing.{process_fulfilled_requests_expired}
use brypt_node.Await.Tracker.{send_fulfilled_response, aggregate}
use brypt_node.Message.Application.Defs.{set_payload, validate, get_pack_size, packed}
use brypt_node.Message.Application.Unpack.{validated_build, build}
use brypt_node.Message.Header.{is_valid, pack_size}
use brypt_node.Z85.{encoded_size, encode}

abbrev peer : ℕ → Container
peer n = record { internal_representation = n; network_representation = n ∷ []; valid = true }

abbrev request : ApplicationMessage
request = record {
  context = record {
    endpoint_identifier = 1;
    endpoint_protocol = EndpointProtocol.tcp;
    encryptor = some (λ buffer nonce. some buffer);
    decryptor = some (λ buffer nonce. some buffer);
    signator = some (λ buffer. (false, buffer ++ (6 ∷ [])));
    verifier = some (λ buffer. true);
    signature_size = some 1;
  };
  header = record {
    protocol = Protocol.application;
    version_major = 0;
    version_minor = 0;
    size = 0;
    source = peer 1;
    destination = Destination.node;
    destination_identifier = some (peer 9);
  };
  command = HandlerType.information;
  phase = 0;
  payload = [];
  timestamp = 0;
  tracker = none;
}

abbrev tracker : ResponseTracker
tracker = record {
  status = ResponseStatus.unfulfilled;
  expected = 2;
  received = 0;
  requestor = 5;
  request = request;
  responses =
      record { identifier = peer 2; pack = [] } ∷ record { identifier = peer 3; pack = [] } ∷ [];
  expire = 100;
}

tracker-IsCounted : IsCounted tracker
unfolding answered
tracker-IsCounted = record { counted = refl; peers_fit = omega arith }

fulfilled-update_response_example :
    ((update_response tracker (peer 2) (7 ∷ []) 50).0 ≡ UpdateStatus.fulfilled) ↔ (
      (has_room (find 2 tracker.responses) ≡ true)
      × IsComplete (update_response tracker (peer 2) (7 ∷ []) 50).1)
fulfilled-update_response_example =
    fulfilled-update_response tracker (peer 2) 7 [] 50 tracker-IsCounted refl

-- The peers that answer: two besides the source of the request, and the source.
abbrev arrivals : List Arrival
arrivals =
    record { source = peer 2; first = 7; others = []; time = 10 }
    ∷ record { source = peer 3; first = 7; others = []; time = 20 }
    ∷ record { source = peer 1; first = 7; others = []; time = 30 }
    ∷ []

unfulfilled_before_expiry_example :
    (check_response_status
      (after_arrivals arrivals
        (tracker_for_many 5 request (some (peer 1) ∷ some (peer 2) ∷ some (peer 3) ∷ []) 0))
      1500).0
    ≡ ResponseStatus.unfulfilled
unfolding some_skipped same_identifier
unfulfilled_before_expiry_example =
    unfulfilled_before_expiry 5 request (some (peer 1) ∷ some (peer 2) ∷ some (peer 3) ∷ []) 0
      arrivals 1500 refl (omega arith) (omega arith)

fulfilled_by_all_example :
    ((check_response_status
        (after_arrivals arrivals
          (tracker_for_many 5 request (some (peer 2) ∷ some (peer 3) ∷ []) 0))
        40).0
      ≡ ResponseStatus.fulfilled)
    ↔ IsComplete (
        after_arrivals arrivals (tracker_for_many 5 request (some (peer 2) ∷ some (peer 3) ∷ []) 0))
unfolding is_roster lacks same_identifier
fulfilled_by_all_example =
    fulfilled_by_all 5 request (some (peer 2) ∷ some (peer 3) ∷ []) 0 arrivals 40 refl (omega arith)
      (omega arith)

abbrev outside : Outside
outside = record {
  encode_json = λ es. length es ∷ [];
  can_lock = λ r. false;
  schedule_send = λ r e pack. true;
  default_identifier = peer 0;
}

abbrev waiting : List Awaiting
waiting = record { key = 4; tracker = tracker } ∷ []

process_fulfilled_requests_expired_example :
    ((process_fulfilled_requests outside 200 waiting).awaiting ≡ [])
    × (map (λ s. s.0) (process_fulfilled_requests outside 200 waiting).sent ≡ 4 ∷ [])
unfolding process_fulfilled_requests check_response_status send_fulfilled_response aggregate
    set_payload validated_build validate is_valid build get_pack_size encoded_size pack_size
process_fulfilled_requests_expired_example =
    process_fulfilled_requests_expired outside 200 waiting (omega arith) refl

abbrev key_of : List ℕ → ℕ
key_of pack = 4

abbrev response : ApplicationMessage
response = record request {
  header = record request.header { source = peer 2; destination_identifier = some (peer 1) };
  tracker = some (AwaitBinding.destination, 4);
}

abbrev two_waiting : List Awaiting
two_waiting = record { key = 4; tracker = tracker } ∷ record { key = 6; tracker = tracker } ∷ []

abbrev updated : UpdateStatus × ResponseTracker
updated = update_response tracker (peer 2) (encode (packed response ++ (6 ∷ []))) 60
