-- ===== src/SecurityMediator/Examples.antt =====
-- The theorems on mediators at a concrete strategy, which is a number.
use brypt_node.Common.{
  ℕ, zero, suc, ◌≡◌, refl, Bool, true, false, [], ◌∷◌, Option, none, some, ◌==◌,
}
use brypt_node.Message.Identifier.{Container}
use brypt_node.Message.Context.{default_context, verify, decrypt}
use brypt_node.MessageControl.Exchange.{
  SynchronizationStatus, ExchangeStatus, Surroundings, prepare,
}
use brypt_node.MessageControl.Authorization.{State}
use brypt_node.SecurityMediator.{
  Receiver, Role, returned, Mediator, Functions, mediator, on_exchange_close, on_fulfilled_strategy,
  bind_peer, setup_exchange_acceptor, setup_exchange_processor, bind_security_context,
}
use brypt_node.SecurityMediator.Reachable.{Reachable, IsSound, new_exchange, reachable-IsSound}
use brypt_node.SecurityMediator.Session.{session_established}

abbrev identifier : Container
identifier = record { internal_representation = 9; network_representation = 98 ∷ []; valid = true }

-- A strategy that fails from the beginning is the number zero.
abbrev status_of : ℕ → SynchronizationStatus
status_of zero = SynchronizationStatus.error
status_of (suc n) = SynchronizationStatus.processing

abbrev surroundings : Surroundings ℕ
surroundings = record {
  construct = λ b. identifier;
  no_source = identifier;
  can_lock = λ p. true;
  schedule_send = λ p e b. true;
  prepare_synchronization = λ t. record { status = status_of t; buffer = []; strategy = t };
  synchronize = λ t b. record { status = status_of t; buffer = []; strategy = t };
  has_observer = true;
  send_request = none;
}

abbrev create : Role → Option ℕ
create role = some 3

abbrev functions : Functions ℕ
functions = record {
  encrypt = λ t b n. some b;
  decrypt = λ t b n. some (t ∷ b);
  sign = λ t b. (false, b);
  verify = λ t b. t == 5;
  signature_size = λ t. 0;
}

abbrev with_processor : Bool → Receiver → Mediator ℕ
with_processor is_bound receiver = record mediator {
  is_bound = is_bound;
  receiver = receiver;
  processor = some (new_exchange surroundings identifier create 3);
}

accepted :
    setup_exchange_acceptor surroundings identifier create mediator
    ≡ returned (true, with_processor false Receiver.nobody)
unfolding setup_exchange_acceptor setup_exchange_processor prepare
accepted = refl

bound_mediator :
    bind_peer (some Receiver.nobody) (with_processor false Receiver.nobody)
    ≡ returned (with_processor true Receiver.exchange_processor)
unfolding bind_peer
bound_mediator = refl

reached : Reachable surroundings identifier create (with_processor true Receiver.exchange_processor)
reached =
    Reachable.bound (with_processor false Receiver.nobody) _
      (Reachable.accepted mediator (with_processor false Receiver.nobody) true Reachable.created
        accepted)
      bound_mediator

reachable-IsSound_example :
    IsSound surroundings identifier create (with_processor true Receiver.exchange_processor)
reachable-IsSound_example = reachable-IsSound surroundings identifier create reached

accepted_again :
    setup_exchange_acceptor surroundings identifier create (
      on_exchange_close ExchangeStatus.failed true
        (with_processor true Receiver.exchange_processor))
    ≡ returned (true, with_processor true Receiver.nobody)
unfolding setup_exchange_acceptor setup_exchange_processor prepare on_exchange_close
accepted_again = refl

session_established_example :
    (m : Mediator ℕ) × (n : Mediator ℕ) × (setup_exchange_acceptor surroundings identifier create
        mediator
      ≡ returned (true, m))
    × (bind_peer (some Receiver.nobody) m ≡ returned n)
    × (n.receiver ≡ Receiver.exchange_processor)
    × (verify (bind_security_context functions n default_context) (7 ∷ []) ≡ some false)
    × (let session = on_exchange_close ExchangeStatus.success true (on_fulfilled_strategy 5 n) in
        (session.state ≡ State.authorized)
        × (session.receiver ≡ Receiver.authorized_sink)
        × (session.processor ≡ none)
        × (verify (bind_security_context functions session default_context) (7 ∷ []) ≡ some true)
        × (decrypt (bind_security_context functions session default_context) (7 ∷ []) 1
            ≡ some (some (5 ∷ 7 ∷ []))))
session_established_example =
    session_established surroundings identifier create functions default_context 3 5 refl refl refl
      (7 ∷ []) 1
