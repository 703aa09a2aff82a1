-- ===== src/SecurityMediator.antt =====
-- Components/Security/SecurityMediator.cpp: who receives the packs of a peer, and with which strategy
-- its messages are encrypted and signed, while the keys of its session are exchanged and after that.
use mathlib.Core.Path.{subst}
use brypt_node.Common.{
  ◌≡◌, ℕ, Bool, true, false, not, ◌&&◌, ◌||◌, List, [], ◌∷◌, Option, none, some, if◌then◌else◌,
}
use brypt_node.Message.Identifier.{Container}
use brypt_node.Message.Context.{Context, bind_encryption_handlers, bind_signature_handlers, is_some}
use brypt_node.MessageControl.Exchange.{
  ExchangeStatus, ProcessStage, Surroundings, Exchange, Prepared, prepare,
}
use brypt_node.MessageControl.Authorization.{State}
mod Reachable
mod Failure
mod Session
mod Examples

-- The message sink of a peer: none, the exchange processor of its mediator, or the sink of authorized
-- peers.
pub data Receiver : Type 0 where
  nobody exchange_processor authorized_sink : Receiver

pub data Role : Type 0 where
  initiator acceptor : Role

-- A function returns, throws, or does what the language leaves undefined.
pub data Outcome {ℓ} (A : Type ℓ) : Type ℓ where
  returned : A → Outcome A
  thrown undefined : Outcome A

-- What holds of a result that is returned.
unfoldable pub Returns : {A : Type 0} → (A → Type 0) → Outcome A → Type 0
Returns P (returned a) = P a
Returns P _ = Unit

pub from_returned :
    {A : Type 0} (P : A → Type 0) (o : Outcome A) (a : A) → o ≡ returned a → Returns P o → P a
from_returned P o a e h = unfold Returns in subst (Returns P) e h

-- The receiver is the one of the peer that is bound.
pub record Mediator (S : Type 0) : Type 0 where
  pub state : State
  pub is_bound : Bool
  pub receiver : Receiver
  pub strategy : Option S
  pub processor : Option (Exchange S)

-- The functions of a strategy that a message context calls.
pub record Functions (S : Type 0) : Type 0 where
  pub encrypt : S → List ℕ → ℕ → Option (List ℕ)
  pub decrypt : S → List ℕ → ℕ → Option (List ℕ)
  pub sign : S → List ℕ → Bool × List ℕ
  pub verify : S → List ℕ → Bool
  pub signature_size : S → ℕ

module _ {S : Type 0} where
  abbrev pub mediator : Mediator S
  mediator = record {
    state = State.unauthorized;
    is_bound = false;
    receiver = nobody;
    strategy = none;
    processor = none;
  }

  abbrev pub mediator_with : S → Mediator S
  mediator_with strategy = record mediator { strategy = some strategy }

  -- OnExchangeClose. The authorized sink is a weak pointer: it may have expired.
  abbrev close_by_status : ExchangeStatus → Bool → Mediator S → Mediator S
  close_by_status ExchangeStatus.success is_sink_alive m = record m {
    state = State.authorized;
    receiver = if is_sink_alive then authorized_sink else m.receiver;
    processor = none;
  }
  close_by_status ExchangeStatus.failed is_sink_alive m = record m {
    state = State.unauthorized;
    receiver = nobody;
    processor = none;
  }

  unfoldable pub on_exchange_close : ExchangeStatus → Bool → Mediator S → Mediator S
  on_exchange_close status is_sink_alive m =
      if not m.is_bound then m else close_by_status status is_sink_alive m

  unfoldable pub on_fulfilled_strategy : S → Mediator S → Mediator S
  on_fulfilled_strategy strategy m = record m { strategy = some strategy }

  -- BindPeer of a peer, which has a receiver, or of a null pointer.
  abbrev bind_to : Option Receiver → Mediator S → Outcome (Mediator S)
  bind_to none m = thrown
  bind_to (some receiver) m =
      if m.is_bound
      then thrown
      else returned (record m {
        is_bound = true;
        receiver = if is_some m.processor then exchange_processor else receiver;
      })

  unfoldable pub bind_peer : Option Receiver → Mediator S → Outcome (Mediator S)
  bind_peer peer m =
      if not (is_some m.strategy) && not (is_some m.processor) then thrown else bind_to peer m

  -- SetupExchangeProcessor takes the strategy that was created, or a null pointer.
  abbrev process_with : Container → Option S → Mediator S → Bool × Mediator S
  process_with identifier none m = (false, m)
  process_with identifier (some strategy) m = (
    true,
    record m {
      processor = some record {
        stage = ProcessStage.synchronization;
        identifier = identifier;
        strategy = some strategy;
      };
    },
  )

  unfoldable pub setup_exchange_processor : Container → Option S → Mediator S → Bool × Mediator S
  setup_exchange_processor identifier created m =
      if is_some m.processor then (false, m) else process_with identifier created m

  module _ (s : Surroundings S) (identifier : Container) (create : Role → Option S) where
    -- The processor's Prepare tells its observer, this mediator, of a failure: OnExchangeClose then
    -- locks the shared mutex that the caller of Prepare holds, which is undefined. So is the use of a
    -- request that could not be built.
    abbrev after_prepare : Mediator S → Option (Prepared S) → Outcome (Option (List ℕ) × Mediator S)
    after_prepare m none = undefined
    after_prepare m (some prepared) = elim prepared.told [
      | [] ↦ returned (
        if prepared.prepared then some prepared.pack else none,
        record m { processor = some prepared.exchange },
      )
      | ◌∷◌ event events ↦ undefined
    ]

    abbrev prepare_processor :
        Mediator S → Option (Exchange S) → Outcome (Option (List ℕ) × Mediator S)
    prepare_processor m none = returned (none, m)
    prepare_processor m (some processor) = after_prepare m (prepare s processor)

    -- What SetupExchangeInitiator and SetupExchangeAcceptor have in common.
    abbrev setup_exchange : Role → Mediator S → Outcome (Option (List ℕ) × Mediator S)
    setup_exchange role m =
        if is_some m.strategy
        then returned (none, m)
        else (let made = setup_exchange_processor identifier (create role) m in
            if made.0 then prepare_processor made.1 made.1.processor else returned (none, made.1))

    unfoldable pub setup_exchange_initiator : Mediator S → Outcome (Option (List ℕ) × Mediator S)
    setup_exchange_initiator m = setup_exchange initiator m

    abbrev succeeded : Outcome (Option (List ℕ) × Mediator S) → Outcome (Bool × Mediator S)
    succeeded (returned result) = returned (is_some result.0, result.1)
    succeeded thrown = thrown
    succeeded undefined = undefined

    unfoldable pub setup_exchange_acceptor : Mediator S → Outcome (Bool × Mediator S)
    setup_exchange_acceptor m = succeeded (setup_exchange acceptor m)

  -- BindSecurityContext: the handlers look at the strategy when they are called.
  abbrev with_strategy : {A : Type 0} → A → (S → A) → Option S → A
  with_strategy missing call none = missing
  with_strategy missing call (some strategy) = call strategy

  unfoldable pub bind_security_context : Functions S → Mediator S → Context → Context
  bind_security_context functions m c =
      bind_signature_handlers
        (bind_encryption_handlers c
          (λ buffer nonce. with_strategy none (λ t. functions.encrypt t buffer nonce) m.strategy)
          (λ buffer nonce. with_strategy none (λ t. functions.decrypt t buffer nonce) m.strategy))
        (λ buffer. with_strategy (true, buffer) (λ t. functions.sign t buffer) m.strategy)
        (λ buffer. with_strategy false (λ t. functions.verify t buffer) m.strategy)
        (with_strategy 0 functions.signature_size m.strategy)

  -- The destructor.
  unfoldable pub destroyed_receiver : Mediator S → Receiver
  destroyed_receiver m = if m.is_bound && is_some m.processor then nobody else m.receiver
