-- ===== src/Await/Tracker.antt =====
-- src/Components/Await/ResponseTracker.hpp and ResponseTracker.cpp. The system time is an argument
-- of what reads it. A shared pointer to an identifier is an Option.
use brypt_node.Common.{
  ℕ, ◌+◌, ◌%◌, ◌^◌, Bool, false, ◌||◌, List, [], ◌∷◌, Option, none, some, length, ltb, leb, ◌==◌,
  if◌then◌else◌,
}
use brypt_node.Message.Identifier.{Container, same_identifier}
use brypt_node.Message.Application.Defs.{
  ApplicationMessage, builder, set_message_context, set_source, set_destination, set_command,
  set_payload, get_pack,
}
use brypt_node.Message.Application.Unpack.{validated_build}

pub data UpdateStatus : Type 0 where
  expired unexpected success fulfilled : UpdateStatus

pub data ResponseStatus : Type 0 where
  unfulfilled fulfilled completed : ResponseStatus

pub record ResponseEntry : Type 0 where
  pub identifier : Container
  pub pack : List ℕ

abbrev pub peer_identifier : ResponseEntry → ℕ
peer_identifier e = e.identifier.internal_representation

-- The container of entries is unique in their peers' identifiers. A weak pointer to the requestor
-- is its address.
pub record ResponseTracker : Type 0 where
  pub status : ResponseStatus
  pub expected : ℕ
  pub received : ℕ
  pub requestor : ℕ
  pub request : ApplicationMessage
  pub responses : List ResponseEntry
  pub expire : ℕ

abbrev pub expiration_period : ℕ
expiration_period = 1500

unfoldable pub find : ℕ → List ResponseEntry → Option ResponseEntry
find key [] = none
find key (e ∷ es) = if peer_identifier e == key then some e else find key es

-- emplace: an entry of a peer that has one already is dropped.
unfoldable pub emplace : ResponseEntry → List ResponseEntry → List ResponseEntry
emplace entry [] = entry ∷ []
emplace entry (e ∷ es) =
    if peer_identifier e == peer_identifier entry then e ∷ es else e ∷ emplace entry es

-- modify: the pack of the peer's entry is set.
unfoldable pub set_pack : ℕ → List ℕ → List ResponseEntry → List ResponseEntry
set_pack key pack [] = []
set_pack key pack (e ∷ es) =
    if peer_identifier e == key then record e { pack = pack } ∷ es else e ∷ set_pack key pack es

unfoldable pub tracker_for_one : ℕ → ApplicationMessage → Option Container → ℕ → ResponseTracker
unfolding emplace
tracker_for_one requestor request peer now = record {
  status = unfulfilled;
  expected = 1;
  received = 0;
  requestor = requestor;
  request = request;
  responses = elim peer [ none ↦ [] | some c ↦ emplace (record { identifier = c; pack = [] }) [] ];
  expire = now + expiration_period;
}

-- The loop of the constructor for many peers: null pointers and the source are passed over.
unfoldable pub enter_all :
    Container → List (Option Container) → List ResponseEntry → List ResponseEntry
enter_all source [] responses = responses
enter_all source (none ∷ peers) responses = enter_all source peers responses
enter_all source (some c ∷ peers) responses = enter_all source peers (
    if same_identifier c source
    then responses
    else emplace (record { identifier = c; pack = [] }) responses)

unfoldable pub tracker_for_many :
    ℕ → ApplicationMessage → List (Option Container) → ℕ → ResponseTracker
unfolding enter_all
tracker_for_many requestor request peers now = record {
  status = unfulfilled;
  expected = length peers % 2 ^ 32;
  received = 0;
  requestor = requestor;
  request = request;
  responses = enter_all request.header.source peers [];
  expire = now + expiration_period;
}

unfoldable pub refuse : ResponseTracker → ℕ → UpdateStatus × ResponseTracker
refuse t now = (if ltb t.expire now then expired else unexpected, t)

-- The end of UpdateResponse, once the response is stored: `++m_received >= m_expected`.
unfoldable pub count : ResponseTracker → UpdateStatus × ResponseTracker
count t =
    let received = (t.received + 1) % 2 ^ 32 in
    if leb t.expected received
    then (fulfilled, record t { received = received; status = fulfilled })
    else (success, record t { received = received })

-- Whether an entry was found and its pack is empty.
abbrev pub has_room : Option ResponseEntry → Bool
has_room none = false
has_room (some e) = length e.pack == 0

-- UpdateResponse. A response enters as its source and its pack, which GetPack gives.
unfoldable pub update_response :
    ResponseTracker → Container → List ℕ → ℕ → UpdateStatus × ResponseTracker
unfolding find set_pack
update_response t source pack now =
    let key = source.internal_representation in
    if has_room (find key t.responses)
    then count (record t { responses = set_pack key pack t.responses })
    else refuse t now

-- CheckResponseStatus.
unfoldable pub check_response_status : ResponseTracker → ℕ → ResponseStatus × ResponseTracker
check_response_status t now =
    if (t.received == t.expected) || ltb t.expire now
    then (fulfilled, record t { status = fulfilled })
    else (t.status, t)

-- What SendFulfilledResponse uses of the JSON library and of the requestor: the encoding of the
-- entries, whether the weak pointer can be locked, and what ScheduleSend returns.
pub record Outside : Type 0 where
  pub encode_json : List ResponseEntry → List ℕ
  pub can_lock : ℕ → Bool
  pub schedule_send : ℕ → ℕ → List ℕ → Bool
  pub default_identifier : Container

-- The aggregate response; `none` is an exception of the context's handlers.
unfoldable pub aggregate :
    Outside → ResponseTracker → Container → ℕ → Option (Option ApplicationMessage)
aggregate o t source now =
    elim (set_payload (o.encode_json t.responses) (
      set_command t.request.command ((t.request.phase + 1) % 256) (
        set_destination t.request.header.source (
          set_source source
            (set_message_context t.request.context (builder o.default_identifier now)))))) [
              | none ↦ none
              | some m ↦ validated_build m
            ]

-- The result of SendFulfilledResponse. `fault` is an exception of a handler, or the use of a
-- response that was not built.
pub data Sent : Type 0 where
  fault : Sent
  returned : Bool → Sent

transmit : Outside → ResponseTracker → ApplicationMessage → Sent
transmit o t response =
    if o.can_lock t.requestor
    then elim (get_pack response) [
      | none ↦ fault
      | some pack ↦
          returned (o.schedule_send t.requestor t.request.context.endpoint_identifier pack)
    ]
    else returned false

complete : ResponseTracker → ResponseTracker
complete t = record t { responses = []; status = completed }

abbrev finish :
    Outside → ResponseTracker → Option (Option ApplicationMessage) → Sent × ResponseTracker
finish o t none = (fault, t)
finish o t (some none) = (fault, t)
finish o t (some (some response)) = (transmit o t response, complete t)

abbrev respond : Outside → ResponseTracker → Option Container → ℕ → Sent × ResponseTracker
respond o t none now = (returned false, t)
respond o t (some source) now = finish o t (aggregate o t source now)

abbrev send_if : ResponseStatus → Outside → ResponseTracker → ℕ → Sent × ResponseTracker
send_if fulfilled o t now = respond o t t.request.header.destination_identifier now
send_if _ o t now = (returned false, t)

-- SendFulfilledResponse.
unfoldable pub send_fulfilled_response : Outside → ResponseTracker → ℕ → Sent × ResponseTracker
unfolding transmit complete
send_fulfilled_response o t now =
    send_if (check_response_status t now).0 o (check_response_status t now).1 now
