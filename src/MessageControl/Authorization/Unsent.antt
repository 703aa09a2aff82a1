-- ===== src/MessageControl/Authorization/Unsent.antt =====
-- An exchange that goes on after the peer did not take its response.
use brypt_node.Common.{
  ℕ, ◌≡◌, ap, sym, ◌∙◌, Bool, true, false, List, [], ◌∷◌, ◌++◌, Option, none, some, if◌then◌else◌,
  arith,
}
use brypt_node.Message.Context.{Context}
use brypt_node.Message.Network.{NetworkMessage, get_pack}
use brypt_node.MessageControl.Authorized.{is_node}
use brypt_node.MessageControl.Exchange.{
  SynchronizationStatus, ExchangeStatus, ProcessStage, Event, closed, strategy_fulfilled,
  Surroundings, Exchange, Handled, notify, handled, give_strategy, connect, send_events,
  respond_and_conclude, handle_synchronized, close_if_refused, handle_at_stage, handle_message,
}
use brypt_node.MessageControl.Authorization.{State, after_events, some_same, at_synchronization}

-- A strategy that is ready, and a peer that takes nothing.
module _ {S : Type 0} (s : Surroundings S) (observed : s.has_observer ≡ true) (peer : ℕ)
    (sends_nothing : (endpoint : ℕ) (pack : List ℕ)
      → s.schedule_send peer endpoint pack ≡ false) where
  goes_on_after :
      (state : State) (request : Option (ℕ → Context → Bool)) (x : Exchange S) (c : Context)
      (endpoint : ℕ) (pack : List ℕ)
      → let told =
          send_events s peer endpoint pack
          ++ (notify s.has_observer strategy_fulfilled ++ (connect s request peer c).0) in
        (more : List Event) → after_events state (told ++ more) ≡ none
  unfolding after_events
  goes_on_after state none x c endpoint pack more = simp (sends_nothing endpoint pack, observed)
  goes_on_after state (some request) x c endpoint pack more =
      simp (sends_nothing endpoint pack, observed)

  left_off :
      (state : State) (told : List Event) (x : Exchange S) (ok : Bool)
      → ((more : List Event) → after_events state (told ++ more) ≡ none)
      → after_events state
          (close_if_refused s (
            if ok
            then handled s true (told ++ notify s.has_observer (closed ExchangeStatus.success)) x
            else handled s false told x)).events
        ≡ none
  left_off state told x true h = h (notify s.has_observer (closed ExchangeStatus.success))
  left_off state told x false h = h (notify s.has_observer (closed ExchangeStatus.failed))

  concluded_undefined :
      (state : State) (x : Exchange S) (c : Context) (response : Option NetworkMessage)
      (g : Handled S)
      → respond_and_conclude s SynchronizationStatus.ready x peer c response ≡ some g
      → after_events state (close_if_refused s g).events ≡ none
  concluded_undefined state x c none g e = ground (arith, e)
  concluded_undefined state x c (some response) g e = rw (sym (some_same _ g e)) (
      left_off state
        (send_events s peer c.endpoint_identifier (get_pack response)
          ++ (notify s.has_observer strategy_fulfilled ++ (connect s s.send_request peer c).0))
        (give_strategy s x) (connect s s.send_request peer c).1
        (goes_on_after state s.send_request x c c.endpoint_identifier (get_pack response)))

  synchronized_undefined :
      (state : State) (status : SynchronizationStatus) (x : Exchange S) (m : NetworkMessage)
      (buffer : List ℕ) (b : ℕ) (bs : List ℕ) (g : Handled S)
      → status ≡ SynchronizationStatus.ready
      → buffer ≡ b ∷ bs
      → is_node m.header.destination ≡ true
      → handle_synchronized s status x peer m buffer ≡ some g
      → after_events state (close_if_refused s g).events ≡ none
  synchronized_undefined state SynchronizationStatus.error x m buffer b bs g r full node e =
      ground (arith, r)
  synchronized_undefined state SynchronizationStatus.processing x m buffer b bs g r full node e =
      ground (arith, r)
  synchronized_undefined state SynchronizationStatus.ready x m [] b bs g r full node e =
      ground (arith, full)
  synchronized_undefined state SynchronizationStatus.ready x m (c ∷ cs) b bs g r full node e =
      concluded_undefined state x m.context _ g (rw node at e)

  -- HandleMessage in the stage of synchronization, with an observer that has a peer: where the
  -- strategy is ready and has a response, the message is for a node, the response is built, and the
  -- peer takes nothing that is sent, the processor goes on after its observer has deleted it.
  pub unsent-handle_message :
      (state : State) (x : Exchange S) (strategy : S) (m : NetworkMessage) (b : ℕ) (bs : List ℕ)
      (h : Handled S)
      → x.stage ≡ ProcessStage.synchronization
      → x.strategy ≡ some strategy
      → (s.synchronize strategy m.payload).status ≡ SynchronizationStatus.ready
      → (s.synchronize strategy m.payload).buffer ≡ b ∷ bs
      → is_node m.header.destination ≡ true
      → handle_message s x peer m ≡ some h
      → after_events state h.events ≡ none
  unfolding handle_message
  unsent-handle_message state x strategy m b bs h stage here is_ready full node e =
      let at_stage = ap (λ (p : ProcessStage). handle_at_stage s p x peer m) (sym stage) ∙ e in
      let made = at_synchronization s x strategy peer m h here at_stage in
      rw (sym made.2) (
        synchronized_undefined state (s.synchronize strategy m.payload).status _ m
          (s.synchronize strategy m.payload).buffer b bs made.0 is_ready full node made.1)
