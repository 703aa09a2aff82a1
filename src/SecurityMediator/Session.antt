-- ===== src/SecurityMediator/Session.antt =====
-- The life of a session in SecurityMediator.cpp, from the creation of the mediator to the handlers
-- that it gives the contexts of the peer.
use brypt_node.Common.{ℕ, ◌≡◌, refl, true, false, List, [], Option, none, some}
use brypt_node.Message.Identifier.{Container}
use brypt_node.Message.Context.{
  Context, verify, decrypt, bind_encryption_handlers, bind_signature_handlers,
}
use brypt_node.MessageControl.Exchange.{
  SynchronizationStatus, ExchangeStatus, Surroundings, prepare,
}
use brypt_node.MessageControl.Authorization.{State}
use brypt_node.SecurityMediator.{
  Receiver, Role, returned, Mediator, Functions, mediator, on_exchange_close, on_fulfilled_strategy,
  bind_peer, setup_exchange_processor, setup_exchange_acceptor, bind_security_context,
}
use brypt_node.SecurityMediator.Reachable.{new_exchange}

module _ {S : Type 0} (s : Surroundings S) (identifier : Container) (create : Role → Option S)
    (functions : Functions S) (c : Context) (strategy ready_strategy : S)
    (made : create Role.acceptor ≡ some strategy)
    (going_on : (s.prepare_synchronization strategy).status ≡ SynchronizationStatus.processing)
    (nothing_to_send : (s.prepare_synchronization strategy).buffer ≡ []) where
  -- A mediator whose strategy is prepared and has nothing to send can accept an exchange, and be bound
  -- to a peer, whose packs the exchange processor then receives; its context verifies nothing. When a
  -- strategy has been fulfilled and the exchange is closed with success, while the sink of authorized
  -- peers is alive, the peer is authorized, that sink receives its packs, the processor is gone, and
  -- the context verifies and decrypts with that strategy.
  pub session_established :
      (buffer : List ℕ) (nonce : ℕ)
      → (m : Mediator S) × (n : Mediator S) × (setup_exchange_acceptor s identifier create mediator
          ≡ returned (true, m))
        × (bind_peer (some Receiver.nobody) m ≡ returned n)
        × (n.receiver ≡ Receiver.exchange_processor)
        × (verify (bind_security_context functions n c) buffer ≡ some false)
        × (let session =
              on_exchange_close ExchangeStatus.success true
                (on_fulfilled_strategy ready_strategy n) in
            (session.state ≡ State.authorized)
            × (session.receiver ≡ Receiver.authorized_sink)
            × (session.processor ≡ none)
            × (verify (bind_security_context functions session c) buffer
                ≡ some (functions.verify ready_strategy buffer))
            × (decrypt (bind_security_context functions session c) buffer nonce
                ≡ some (functions.decrypt ready_strategy buffer nonce)))
  unfolding setup_exchange_acceptor setup_exchange_processor prepare bind_peer bind_security_context
      bind_encryption_handlers bind_signature_handlers on_exchange_close on_fulfilled_strategy
  session_established buffer nonce = (
    accepted,
    record accepted { is_bound = true; receiver = Receiver.exchange_processor },
    simp (made, going_on, nothing_to_send) refl,
    refl,
    refl,
    refl,
    (refl, refl, refl, refl, refl),
  )
    where
      accepted : Mediator S
      accepted = record mediator {
        processor = some record (new_exchange s identifier create strategy) {
          strategy = some (s.prepare_synchronization strategy).strategy;
        };
      }
