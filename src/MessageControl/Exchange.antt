-- ===== src/MessageControl/Exchange.antt =====
-- src/Components/MessageControl/ExchangeProcessor.cpp: the sink of a peer while the keys of its
-- session are exchanged. The security strategy is a parameter: its state, and what its functions
-- return. What the observer and the peer are told is a list of events.
use brypt_node.Common.{
  ℕ, Bool, true, false, not, List, [], ◌∷◌, ◌++◌, Option, none, some, if◌then◌else◌,
}
use brypt_node.Z85.{decode}
use brypt_node.Message.Definitions.{Protocol}
use brypt_node.Message.Identifier.{Container}
use brypt_node.Message.Context.{Context}
use brypt_node.Message.Peek.{peek_protocol}
use brypt_node.Message.Network.{
  NetworkMessage, builder, set_message_context, set_source, set_destination, set_payload,
  make_handshake_message, from_decoded_pack, validated_build, get_pack,
}
use brypt_node.MessageControl.Authorized.{is_node, is_handshake}

pub data SynchronizationStatus : Type 0 where
  error processing ready : SynchronizationStatus

pub data ExchangeStatus : Type 0 where
  failed success : ExchangeStatus

pub data ProcessStage : Type 0 where
  invalid synchronization : ProcessStage

pub data Event : Type 0 where
  closed : ExchangeStatus → Event
  strategy_fulfilled : Event
  scheduled : ℕ → List ℕ → Event
  connect_requested : Event

-- What a strategy's function returns, and the strategy after it.
pub record Synchronized (S : Type 0) : Type 0 where
  pub status : SynchronizationStatus
  pub buffer : List ℕ
  pub strategy : S

-- What the processor uses: the constructor of identifiers, the default identifier, the peers, the
-- strategy, whether there is an observer, and the connect protocol if there is one.
pub record Surroundings (S : Type 0) : Type 0 where
  pub construct : List ℕ → Container
  pub no_source : Container
  pub can_lock : ℕ → Bool
  pub schedule_send : ℕ → ℕ → List ℕ → Bool
  pub prepare_synchronization : S → Synchronized S
  pub synchronize : S → List ℕ → Synchronized S
  pub has_observer : Bool
  pub send_request : Option (ℕ → Context → Bool)

-- The strategy is `none` once it has been moved to the observer.
pub record Exchange (S : Type 0) : Type 0 where
  pub stage : ProcessStage
  pub identifier : Container
  pub strategy : Option S

pub record Handled (S : Type 0) : Type 0 where
  pub accepted : Bool
  pub events : List Event
  pub exchange : Exchange S

abbrev pub notify : Bool → Event → List Event
notify true event = event ∷ []
notify false event = []

module _ {S : Type 0} (s : Surroundings S) where
  abbrev pub handled : Bool → List Event → Exchange S → Handled S
  handled accepted events x = record { accepted = accepted; events = events; exchange = x }

  -- OnFulfilledStrategy moves the strategy to the observer.
  abbrev pub give_strategy : Exchange S → Exchange S
  give_strategy x = if s.has_observer then record x { strategy = none } else x

  abbrev pub connect : Option (ℕ → Context → Bool) → ℕ → Context → List Event × Bool
  connect none peer c = ([], true)
  connect (some request) peer c = (connect_requested ∷ [], request peer c)

  -- The switch on the status, after the events so far.
  abbrev pub conclude : SynchronizationStatus → List Event → Exchange S → ℕ → Context → Handled S
  conclude ready events x peer c =
      let asked = connect s.send_request peer c in
      let told = events ++ (notify s.has_observer strategy_fulfilled ++ asked.0) in
      if asked.1
      then handled true (told ++ notify s.has_observer (closed success)) (give_strategy x)
      else handled false told (give_strategy x)
  conclude processing events x peer c = handled true events x
  conclude error events x peer c = handled false events x

  abbrev pub handshake_response : Exchange S → NetworkMessage → List ℕ → NetworkMessage
  handshake_response x message buffer = set_payload buffer (
      make_handshake_message (
        set_destination message.header.source
          (set_source x.identifier (set_message_context message.context (builder s.no_source)))))

  -- What is told about sending a response.
  abbrev pub send_events : ℕ → ℕ → List ℕ → List Event
  send_events peer endpoint pack =
      scheduled endpoint pack
      ∷ (if s.schedule_send peer endpoint pack then [] else notify s.has_observer (closed failed))

  -- The response of a strategy that returned a buffer. One that was not built must not be sent:
  -- `none`.
  abbrev pub respond_and_conclude :
      SynchronizationStatus → Exchange S → ℕ → Context → Option NetworkMessage → Option (Handled S)
  respond_and_conclude status x peer c none = none
  respond_and_conclude status x peer c (some response) =
      some (conclude status (send_events peer c.endpoint_identifier (get_pack response)) x peer c)

  abbrev pub respond_if_any :
      SynchronizationStatus → Exchange S → ℕ → NetworkMessage → List ℕ → Option (Handled S)
  respond_if_any status x peer message [] = some (conclude status [] x peer message.context)
  respond_if_any status x peer message (b ∷ bs) =
      respond_and_conclude status x peer message.context
        (validated_build (handshake_response x message (b ∷ bs)))

  abbrev pub handle_synchronized :
      SynchronizationStatus → Exchange S → ℕ → NetworkMessage → List ℕ → Option (Handled S)
  handle_synchronized error x peer message buffer = some (handled false [] x)
  handle_synchronized status x peer message buffer =
      if is_node message.header.destination
      then respond_if_any status x peer message buffer
      else some (handled false [] x)

  -- HandleSynchronizationMessage. `none` is the use of a strategy that was moved away.
  abbrev pub synchronize_with : Exchange S → ℕ → NetworkMessage → Option S → Option (Handled S)
  synchronize_with x peer message none = none
  synchronize_with x peer message (some strategy) =
      let result = s.synchronize strategy message.payload in
      handle_synchronized result.status (record x { strategy = some result.strategy }) peer message
        result.buffer

  unfoldable pub handle_synchronization_message :
      Exchange S → ℕ → NetworkMessage → Option (Handled S)
  handle_synchronization_message x peer message = synchronize_with x peer message x.strategy

  abbrev pub close_if_refused : Handled S → Handled S
  close_if_refused h =
      if h.accepted
      then h
      else record h { events = h.events ++ notify s.has_observer (closed failed) }

  abbrev pub handle_at_stage : ProcessStage → Exchange S → ℕ → NetworkMessage → Option (Handled S)
  handle_at_stage synchronization x peer message =
      elim (handle_synchronization_message x peer message) [
        | none ↦ none
        | some h ↦ some (close_if_refused h)
      ]
  handle_at_stage invalid x peer message =
      some (handled false (notify s.has_observer (closed failed)) x)

  -- HandleMessage.
  unfoldable pub handle_message : Exchange S → ℕ → NetworkMessage → Option (Handled S)
  unfolding handle_synchronization_message
  handle_message x peer message = handle_at_stage x.stage x peer message

  abbrev pub handle_handshake : Exchange S → ℕ → Option NetworkMessage → Option (Handled S)
  handle_handshake x peer none = some (handled false [] x)
  handle_handshake x peer (some message) =
      if not (is_handshake message.type)
      then some (handled false [] x)
      else if s.can_lock peer
      then handle_message x peer message
      else some (handled false [] x)

  abbrev pub collect_by_protocol :
      Exchange S → ℕ → Context → List ℕ → Option Protocol → Option (Handled S)
  collect_by_protocol x peer c buffer none = some (handled false [] x)
  collect_by_protocol x peer c buffer (some Protocol.network) = handle_handshake x peer (
      validated_build
        (from_decoded_pack s.construct buffer (set_message_context c (builder s.no_source))))
  collect_by_protocol x peer c buffer (some Protocol.application) =
      some (handled false [] (record x { stage = invalid }))
  collect_by_protocol x peer c buffer (some Protocol.invalid) =
      some (handled false [] (record x { stage = invalid }))

  abbrev pub unless_invalid : ProcessStage → Exchange S → Option (Handled S) → Option (Handled S)
  unless_invalid invalid x result = some (handled false [] x)
  unless_invalid synchronization x result = result

  -- The two CollectMessage functions.
  unfoldable pub collect_decoded : Exchange S → ℕ → Context → List ℕ → Option (Handled S)
  collect_decoded x peer c buffer =
      unless_invalid x.stage x (collect_by_protocol x peer c buffer (peek_protocol buffer))

  unfoldable pub collect_message : Exchange S → ℕ → Context → List ℕ → Option (Handled S)
  unfolding collect_decoded
  collect_message x peer c text = unless_invalid x.stage x (collect_decoded x peer c (decode text))

-- What Prepare returns and tells.
pub record Prepared (S : Type 0) : Type 0 where
  pub prepared : Bool
  pub pack : List ℕ
  pub told : List Event
  pub exchange : Exchange S

module _ {S : Type 0} (s : Surroundings S) where
  abbrev pub handshake_request : Exchange S → List ℕ → NetworkMessage
  handshake_request x buffer =
      set_payload buffer (make_handshake_message (set_source x.identifier (builder s.no_source)))

  abbrev pub prepare_request : Exchange S → Option NetworkMessage → Option (Prepared S)
  prepare_request x none = none
  prepare_request x (some request) =
      some (record { prepared = true; pack = get_pack request; told = []; exchange = x })

  abbrev pub prepare_if_any : Exchange S → List ℕ → Option (Prepared S)
  prepare_if_any x [] = some (record { prepared = true; pack = []; told = []; exchange = x })
  prepare_if_any x (b ∷ bs) = prepare_request x (validated_build (handshake_request x (b ∷ bs)))

  abbrev pub prepare_by_status : SynchronizationStatus → Exchange S → List ℕ → Option (Prepared S)
  prepare_by_status error x buffer = some (record {
    prepared = false;
    pack = [];
    told = notify s.has_observer (closed failed);
    exchange = record x { stage = invalid };
  })
  prepare_by_status status x buffer = prepare_if_any x buffer

  abbrev pub prepare_with : Exchange S → Option S → Option (Prepared S)
  prepare_with x none = none
  prepare_with x (some strategy) =
      let result = s.prepare_synchronization strategy in
      prepare_by_status result.status (record x { strategy = some result.strategy }) result.buffer

  unfoldable pub prepare : Exchange S → Option (Prepared S)
  prepare x = prepare_with x x.strategy
