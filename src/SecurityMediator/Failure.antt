-- ===== src/SecurityMediator/Failure.antt =====
-- Sequences of calls after which a peer of SecurityMediator.cpp cannot go on.
use brypt_node.Common.{
  ◌≡◌, refl, ◌∙◌, inl, inr, Bool, true, false, not, ◌&&◌, Option, none, some, Bool-cases,
}
use brypt_node.Message.Identifier.{Container}
use brypt_node.Message.Context.{is_some}
use brypt_node.MessageControl.Exchange.{ExchangeStatus, Surroundings}
use brypt_node.MessageControl.Authorization.{State}
use brypt_node.SecurityMediator.{
  Receiver, Role, returned, thrown, Mediator, on_exchange_close, bind_peer, bind_to,
  setup_exchange_acceptor,
}
use brypt_node.SecurityMediator.Reachable.{acceptor-IsFollowed}

module _ {S : Type 0} where
  -- Where a bound peer's exchange succeeds after the sink of authorized peers has expired, the peer
  -- is authorized and its receiver is still the exchange processor, which there is no more.
  pub expired_sink :
      (m : Mediator S)
      → m.is_bound ≡ true
      → m.receiver ≡ Receiver.exchange_processor
      → let n = on_exchange_close ExchangeStatus.success false m in
        (n.state ≡ State.authorized)
        × (n.receiver ≡ Receiver.exchange_processor)
        × (n.processor ≡ none)
  unfolding on_exchange_close
  expired_sink m bound receiver = simp bound (refl, receiver, refl)

  module _ (s : Surroundings S) (identifier : Container) (create : Role → Option S) where
    failed_close :
        (m : Mediator S) (is_sink_alive : Bool)
        → m.is_bound ≡ true
        → let n = on_exchange_close ExchangeStatus.failed is_sink_alive m in
          (n.receiver ≡ Receiver.nobody) × (n.is_bound ≡ true)
    unfolding on_exchange_close
    failed_close m is_sink_alive bound = simp bound (refl, refl)

    bound_throws :
        (peer : Option Receiver) (n : Mediator S) → n.is_bound ≡ true → bind_to peer n ≡ thrown
    bound_throws none n bound = refl
    bound_throws (some receiver) n bound = simp bound refl

    -- After an exchange of a bound peer has failed, another exchange that an acceptor sets up does not
    -- reach the peer: the peer has no receiver, and binding it again throws.
    pub retry_unreceived :
        (m n : Mediator S) (success is_sink_alive : Bool) (peer : Option Receiver)
        → m.is_bound ≡ true
        → setup_exchange_acceptor s identifier create
            (on_exchange_close ExchangeStatus.failed is_sink_alive m)
          ≡ returned (success, n)
        → (n.receiver ≡ Receiver.nobody) × (bind_peer peer n ≡ thrown)
    unfolding bind_peer
    retry_unreceived m n success is_sink_alive peer bound e =
        let closed = failed_close m is_sink_alive bound in
        let f =
          acceptor-IsFollowed s identifier create
            (on_exchange_close ExchangeStatus.failed is_sink_alive m) n success e in
        (
          f.receiver_kept ∙ closed.0,
          elim (Bool-cases (not (is_some n.strategy) && not (is_some n.processor))) [
            | inl b ↦ rw b refl
            | inr b ↦ rw b (bound_throws peer n (f.bound_kept ∙ closed.1))
          ],
        )
