-- ===== src/SecurityMediator/Reachable.antt =====
-- What holds of every mediator that SecurityMediator.cpp can bring about.
use brypt_node.Common.{
  ℕ, ◌≡◌, refl, sym, ◌∙◌, inl, inr, Bool, true, false, not, ◌&&◌, List, Option, none, some,
  if◌then◌else◌, Bool-cases, List-cases, arith,
}
use brypt_node.Message.Identifier.{Container}
use brypt_node.Message.Context.{is_some}
use brypt_node.MessageControl.Exchange.{
  ExchangeStatus, ProcessStage, Surroundings, Exchange, Prepared, prepare,
}
use brypt_node.MessageControl.Authorization.{State}
use brypt_node.SecurityMediator.{
  Receiver, Returns, from_returned, Role, Outcome, returned, thrown, undefined, Mediator, mediator,
  mediator_with, on_exchange_close, close_by_status, on_fulfilled_strategy, bind_peer,
  setup_exchange_processor, process_with, setup_exchange_initiator, setup_exchange_acceptor,
  setup_exchange, prepare_processor, after_prepare, succeeded,
}

module _ {S : Type 0} (s : Surroundings S) (identifier : Container) (create : Role → Option S) where
  -- The mediators that come about while the sink of authorized peers is alive: the observer's
  -- functions may be called at any time, and a peer that is bound has no receiver yet.
  pub data Reachable : Mediator S → Type 0 where
    created : Reachable mediator
    created_with : (strategy : S) → Reachable (mediator_with strategy)
    initiated :
        (m n : Mediator S) (request : Option (List ℕ))
        → Reachable m
        → setup_exchange_initiator s identifier create m ≡ returned (request, n)
        → Reachable n
    accepted :
        (m n : Mediator S) (success : Bool)
        → Reachable m
        → setup_exchange_acceptor s identifier create m ≡ returned (success, n)
        → Reachable n
    bound :
        (m n : Mediator S)
        → Reachable m
        → bind_peer (some Receiver.nobody) m ≡ returned n
        → Reachable n
    closed :
        (m : Mediator S) (status : ExchangeStatus)
        → Reachable m
        → Reachable (on_exchange_close status true m)
    fulfilled :
        (m : Mediator S) (strategy : S) → Reachable m → Reachable (on_fulfilled_strategy strategy m)

  -- The peer's receiver is the exchange processor only while there is one, and it is the sink of
  -- authorized peers exactly while the peer is authorized, which takes a peer.
  pub record IsSound (m : Mediator S) : Type 0 where
    pub processor_alive : m.receiver ≡ Receiver.exchange_processor → is_some m.processor ≡ true
    pub authorized_received : m.state ≡ State.authorized → m.receiver ≡ Receiver.authorized_sink
    pub received_authorized : m.receiver ≡ Receiver.authorized_sink → m.state ≡ State.authorized
    pub unbound_unreceived : m.is_bound ≡ false → m.receiver ≡ Receiver.nobody

  close-IsSound :
      (status : ExchangeStatus) (m : Mediator S)
      → IsSound m
      → IsSound (on_exchange_close status true m)
  unfolding on_exchange_close
  close-IsSound status m h = elim (Bool-cases m.is_bound) [
    | inl e ↦ simp e (closed_sound status e)
    | inr e ↦ simp e h
  ]
    where
      closed_sound : (st : ExchangeStatus) → m.is_bound ≡ true → IsSound (close_by_status st true m)
      closed_sound ExchangeStatus.success b = record {
        processor_alive = λ e. absurd (ground (arith, e));
        authorized_received = λ e. refl;
        received_authorized = λ e. refl;
        unbound_unreceived = λ e. absurd (ground (arith, e, b));
      }
      closed_sound ExchangeStatus.failed b = record {
        processor_alive = λ e. absurd (ground (arith, e));
        authorized_received = λ e. absurd (ground (arith, e));
        received_authorized = λ e. absurd (ground (arith, e));
        unbound_unreceived = λ e. refl;
      }

  -- A mediator that differs in its processor and in its strategy, and has a processor if the other
  -- one has.
  pub record IsFollowed (m n : Mediator S) : Type 0 where
    pub state_kept : n.state ≡ m.state
    pub bound_kept : n.is_bound ≡ m.is_bound
    pub receiver_kept : n.receiver ≡ m.receiver
    pub processor_kept : is_some m.processor ≡ true → is_some n.processor ≡ true

  followed-IsSound : (m n : Mediator S) → IsFollowed m n → IsSound m → IsSound n
  followed-IsSound m n f h = record {
    processor_alive = λ e. f.processor_kept (h.processor_alive (sym f.receiver_kept ∙ e));
    authorized_received = λ e. f.receiver_kept ∙ h.authorized_received (sym f.state_kept ∙ e);
    received_authorized = λ e. f.state_kept ∙ h.received_authorized (sym f.receiver_kept ∙ e);
    unbound_unreceived = λ e. f.receiver_kept ∙ h.unbound_unreceived (sym f.bound_kept ∙ e);
  }

  same-IsFollowed : (m : Mediator S) → IsFollowed m m
  same-IsFollowed m = record {
    state_kept = refl;
    bound_kept = refl;
    receiver_kept = refl;
    processor_kept = λ e. e;
  }

  prepared-Returns :
      (m : Mediator S) (x : Exchange S) (o : Option (Prepared S))
      → Returns
          (λ r. IsFollowed m r.1)
          (after_prepare s identifier create (record m { processor = some x }) o)
  unfolding Returns
  prepared-Returns m x none = tt
  prepared-Returns m x (some prepared) = elim (List-cases prepared.told) [
    | inl e ↦ rw e record {
      state_kept = refl;
      bound_kept = refl;
      receiver_kept = refl;
      processor_kept = λ k. refl;
    }
    | inr (event, events, e) ↦ rw e tt
  ]

  abbrev pub new_exchange : S → Exchange S
  new_exchange strategy = record {
    stage = ProcessStage.synchronization;
    identifier = identifier;
    strategy = some strategy;
  }

  processed-Returns :
      (m : Mediator S) (o : Option S)
      → let made = process_with identifier o m in
        Returns
          (λ r. IsFollowed m r.1)
          (if made.0
            then prepare_processor s identifier create made.1 made.1.processor
            else returned (none, made.1))
  unfolding Returns
  processed-Returns m none = same-IsFollowed m
  processed-Returns m (some strategy) =
      prepared-Returns m (new_exchange strategy) (prepare s (new_exchange strategy))

  setup-Returns :
      (role : Role) (m : Mediator S)
      → Returns (λ r. IsFollowed m r.1) (setup_exchange s identifier create role m)
  unfolding Returns setup_exchange_processor
  setup-Returns role m = elim (Bool-cases (is_some m.strategy)) [
    | inl e ↦ rw e (same-IsFollowed m)
    | inr e ↦ elim (Bool-cases (is_some m.processor)) [
      | inl p ↦ rw (e, p) (same-IsFollowed m)
      | inr p ↦ rw (e, p) (processed-Returns m (create role))
    ]
  ]

  succeeded-Returns :
      (m : Mediator S) (o : Outcome (Option (List ℕ) × Mediator S))
      → Returns (λ r. IsFollowed m r.1) o
      → Returns (λ r. IsFollowed m r.1) (succeeded s identifier create o)
  unfolding Returns
  succeeded-Returns m (returned result) h = h
  succeeded-Returns m thrown h = tt
  succeeded-Returns m undefined h = tt

  pub acceptor-IsFollowed :
      (m n : Mediator S) (success : Bool)
      → setup_exchange_acceptor s identifier create m ≡ returned (success, n)
      → IsFollowed m n
  acceptor-IsFollowed m n success e =
      from_returned (λ t. IsFollowed m t.1)
        (succeeded s identifier create (setup_exchange s identifier create Role.acceptor m))
        (success, n) (unfold setup_exchange_acceptor in e)
        (succeeded-Returns m _ (setup-Returns Role.acceptor m))

  bound-Returns :
      (m : Mediator S) → IsSound m → Returns IsSound (bind_peer (some Receiver.nobody) m)
  unfolding bind_peer Returns
  bound-Returns m h = elim (Bool-cases (not (is_some m.strategy) && not (is_some m.processor))) [
    | inl e ↦ rw e tt
    | inr e ↦ elim (Bool-cases m.is_bound) [
      | inl b ↦ rw (e, b) tt
      | inr b ↦ rw (e, b) (newly_bound b)
    ]
  ]
    where
      newly_bound :
          m.is_bound ≡ false
          → IsSound (record m {
            is_bound = true;
            receiver = if is_some m.processor then Receiver.exchange_processor else Receiver.nobody;
          })
      newly_bound b =
          let quiet = h.unbound_unreceived b in
          record {
            processor_alive = λ e. ground (arith, e);
            authorized_received = λ e. absurd (ground (arith, quiet, h.authorized_received e));
            received_authorized = λ e. absurd (ground (arith, e));
            unbound_unreceived = λ e. absurd (ground (arith, e));
          }

  new-IsSound : (strategy : Option S) → IsSound (record mediator { strategy = strategy })
  new-IsSound strategy = record {
    processor_alive = λ e. absurd (ground (arith, e));
    authorized_received = λ e. absurd (ground (arith, e));
    received_authorized = λ e. absurd (ground (arith, e));
    unbound_unreceived = λ e. refl;
  }

  fulfilled-IsFollowed :
      (m : Mediator S) (strategy : S) → IsFollowed m (on_fulfilled_strategy strategy m)
  unfolding on_fulfilled_strategy
  fulfilled-IsFollowed m strategy = record {
    state_kept = refl;
    bound_kept = refl;
    receiver_kept = refl;
    processor_kept = λ e. e;
  }

  -- While the sink of authorized peers is alive, of every mediator that comes about: where the
  -- receiver is the exchange processor, there is one; the peer is authorized exactly where the sink of
  -- authorized peers is the receiver; and without a bound peer there is no receiver.
  pub reachable-IsSound : {m : Mediator S} → Reachable m → IsSound m
  reachable-IsSound created = new-IsSound none
  reachable-IsSound (created_with strategy) = new-IsSound (some strategy)
  reachable-IsSound (initiated m n request r e) =
      followed-IsSound m n
        (from_returned (λ t. IsFollowed m t.1) (setup_exchange s identifier create Role.initiator m)
          (request, n) (unfold setup_exchange_initiator in e) (setup-Returns Role.initiator m))
        (reachable-IsSound r)
  reachable-IsSound (accepted m n success r e) =
      followed-IsSound m n (acceptor-IsFollowed m n success e) (reachable-IsSound r)
  reachable-IsSound (bound m n r e) =
      from_returned IsSound (bind_peer (some Receiver.nobody) m) n e
        (bound-Returns m (reachable-IsSound r))
  reachable-IsSound (closed m status r) = close-IsSound status m (reachable-IsSound r)
  reachable-IsSound (fulfilled m strategy r) =
      followed-IsSound m (on_fulfilled_strategy strategy m) (fulfilled-IsFollowed m strategy)
        (reachable-IsSound r)
