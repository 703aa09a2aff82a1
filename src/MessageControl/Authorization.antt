-- ===== src/MessageControl/Authorization.antt =====
-- How the events of an exchange change the peer's security state: OnExchangeClose of
-- src/Components/Security/SecurityMediator.cpp, where the mediator has a peer.
use brypt_node.Common.{
  or_same, ℕ, ◌≡◌, ap, sym, ◌∙◌, inl, inr, Bool, true, false, not, ◌&&◌, List, [], ◌∷◌, Option,
  none, some, if◌then◌else◌, Option-cases, arith,
}
use brypt_node.Message.Context.{Context}
use brypt_node.Message.Network.{NetworkMessage}
use brypt_node.MessageControl.Exchange.{
  SynchronizationStatus, ExchangeStatus, ProcessStage, Event, closed, Surroundings, Exchange,
  Handled, handle_synchronized, synchronize_with, handle_synchronization_message, close_if_refused,
  handle_at_stage,
}
pub mod Unsent

pub data State : Type 0 where
  unauthorized authorized flagged : State

abbrev pub after_event : State → Event → State
after_event state (closed ExchangeStatus.success) = authorized
after_event state (closed ExchangeStatus.failed) = unauthorized
after_event state _ = state

abbrev is_close : Event → Bool
is_close (closed status) = true
is_close _ = false

abbrev goes_on : List Event → Bool
goes_on [] = false
goes_on (event ∷ events) = true

-- OnExchangeClose deletes the exchange processor, whatever the status. Before each event that it
-- tells its observer of, the processor reads its member for the observer: where an event follows a
-- close, it reads it after its deletion, which is undefined, `none`.
unfoldable pub after_events : State → List Event → Option State
after_events state [] = some state
after_events state (event ∷ events) =
    let rest = after_events (after_event state event) events in
    if is_close event && goes_on events then none else rest

-- No event closes the exchange.
unfoldable is_open : List Event → Bool
is_open [] = true
is_open (event ∷ events) = let rest = is_open events in not (is_close event) && rest

pub some_same : {A : Type 0} (a b : A) → ◌≡◌ {A = Option A} (some a) (some b) → a ≡ b
some_same a b e = ap (or_same a) e

-- Of a handled message whose refusal is not told yet: where it is refused, the exchange is open;
-- where it is accepted and the strategy is ready, the peer ends authorized.
module _ {S : Type 0} where
  abbrev IsFine : SynchronizationStatus → State → Handled S → Type 0
  IsFine status state h =
      (h.accepted ≡ false → is_open h.events ≡ true)
      × (status ≡ SynchronizationStatus.ready
          → h.accepted ≡ true
          → after_events state h.events ≡ some authorized)

module _ {S : Type 0} (s : Surroundings S) where
  -- What handling the message of a synchronization comes to, where there is a strategy.
  synchronized_lem :
      (x : Exchange S) (strategy : S) (peer : ℕ) (m : NetworkMessage)
      → x.strategy ≡ some strategy
      → handle_synchronization_message s x peer m
        ≡ handle_synchronized s
            (s.synchronize strategy m.payload).status
            (record x { strategy = some (s.synchronize strategy m.payload).strategy })
            peer
            m
            (s.synchronize strategy m.payload).buffer
  unfolding handle_synchronization_message
  synchronized_lem x strategy peer m here = ap (synchronize_with s x peer m) here

  pub at_synchronization :
      (x : Exchange S) (strategy : S) (peer : ℕ) (m : NetworkMessage) (h : Handled S)
      → x.strategy ≡ some strategy
      → handle_at_stage s ProcessStage.synchronization x peer m ≡ some h
      → (g : Handled S) × (handle_synchronized s
            (s.synchronize strategy m.payload).status
            (record x { strategy = some (s.synchronize strategy m.payload).strategy })
            peer
            m
            (s.synchronize strategy m.payload).buffer
          ≡ some g)
        × (close_if_refused s g ≡ h)
  at_synchronization x strategy peer m h here e =
      elim (Option-cases (handle_synchronization_message s x peer m)) [
        | inl missing ↦ let bad = rw (handle_at_stage, missing) at e in ground (arith, bad)
        | inr (g, made) ↦ (
          g,
          sym (synchronized_lem x strategy peer m here) ∙ made,
          some_same (close_if_refused s g) h (rw (handle_at_stage, made) at e),
        )
      ]
