-- ===== src/PeerManager/Linking.antt =====
-- Which peers PeerManager.cpp tracks, and what LinkPeer makes of the address that it is given.
use brypt_node.Common.{
  ℕ, ◌≡◌, refl, sym, ap, ◌∙◌, ◌≢◌, inl, inr, Bool, true, false, not, ◌&&◌, List, [], ◌∷◌, Option,
  none, some, or_same, ◌==◌, ==_iff, if◌then◌else◌, All, Bool-cases, arith,
}
use brypt_node.Message.Identifier.{Container}
use brypt_node.Message.Context.{is_some}
use brypt_node.MessageControl.Exchange.{Surroundings}
use brypt_node.Identifier.{is_internal_allowed}
use brypt_node.SecurityMediator.{
  Mediator, mediator, Role, Receiver, Outcome, returned, thrown, undefined, Returns, from_returned,
  bind_peer, setup_exchange_acceptor,
}
use brypt_node.PeerManager.{
  RemoteAddress, Peer, Resolving, Manager, same_address, find_peer, find_resolving, erase_resolving,
  undeclare_resolving_peer, track_bound, attach_acceptor, link_by_resolving, link_by_peer,
  link_peer,
}

module _ {S : Type 0} where
  unfoldable pub IsUnique : List (Peer S) → Type 0
  IsUnique [] = Unit
  IsUnique (peer ∷ peers) =
      All (λ p. p.identifier.internal_representation ≢ peer.identifier.internal_representation)
        peers
      × IsUnique peers

  -- A peer that can be told from the others and can be secured.
  abbrev pub IsLinked : Peer S → Type 0
  IsLinked peer =
      (peer.identifier.valid ≡ true)
      × (is_internal_allowed peer.identifier.internal_representation ≡ true)
      × (peer.mediator.is_bound ≡ true)

  abbrev pub IsConsistent : Manager S → Type 0
  IsConsistent manager = IsUnique manager.peers × All IsLinked manager.peers

  absent :
      (internal : ℕ) (peers : List (Peer S))
      → find_peer internal peers ≡ none
      → All (λ p. p.identifier.internal_representation ≢ internal) peers
  unfolding find_peer
  absent internal [] e = tt
  absent internal (peer ∷ peers) e =
      elim (Bool-cases (peer.identifier.internal_representation == internal)) [
        | inl here ↦ absurd (ground (arith, e, here))
        | inr there ↦ (
          (λ same. absurd (ground (arith, same, there))),
          absent internal peers (ground (arith, e, there)),
        )
      ]

  -- What LinkPeer promises of its result.
  abbrev pub Links : Container → RemoteAddress → Option ℕ × Manager S → Type 0
  Links identifier address (none, n) = IsConsistent n
  Links identifier address (some internal, n) =
      IsConsistent n
      × (internal ≡ identifier.internal_representation)
      × (is_some (find_peer internal n.peers) ≡ true)
      × (find_resolving address n.resolving ≡ none)

  bound-Returns :
      (m : Mediator S) → Returns (λ n. n.is_bound ≡ true) (bind_peer (some Receiver.nobody) m)
  unfolding bind_peer Returns
  bound-Returns m = elim (Bool-cases (not (is_some m.strategy) && not (is_some m.processor))) [
    | inl e ↦ rw e tt
    | inr e ↦ elim (Bool-cases m.is_bound) [ inl b ↦ simp (e, b) tt | inr b ↦ simp (e, b) refl ]
  ]

  erased :
      (address : RemoteAddress) (entries : List (Resolving S))
      → find_resolving address (erase_resolving address entries) ≡ none
  unfolding find_resolving erase_resolving
  erased address [] = refl
  erased address (entry ∷ entries) = elim (Bool-cases (same_address entry.address address)) [
    | inl e ↦ rw e (erased address entries)
    | inr e ↦ rw (e, e) (erased address entries)
  ]

  tracked-Links :
      (identifier : Container) (address : RemoteAddress) (manager : Manager S)
      (o : Outcome (Mediator S))
      → IsConsistent manager
      → find_peer identifier.internal_representation manager.peers ≡ none
      → (identifier.valid ≡ true) × (is_internal_allowed identifier.internal_representation ≡ true)
      → find_resolving address manager.resolving ≡ none
      → Returns (λ n. n.is_bound ≡ true) o
      → Returns (Links identifier address) (track_bound identifier manager o)
  unfolding Returns IsUnique find_peer
  tracked-Links identifier address manager (returned bound) h new valid unresolved b = (
    ((absent _ manager.peers new, h.0), ((valid.0, valid.1, b), h.1)),
    refl,
    own_number identifier.internal_representation,
    unresolved,
  )
    where
      own_number :
          (x : ℕ)
          → is_some (
              if x == x
              then some record { identifier = identifier; mediator = bound }
              else find_peer x manager.peers)
            ≡ true
      own_number x = let same : (x == x) ≡ true = (==_iff x x).1 refl in rw same refl
  tracked-Links identifier address manager thrown h new valid unresolved b = tt
  tracked-Links identifier address manager undefined h new valid unresolved b = tt

  find_peer-number :
      (internal : ℕ) (peers : List (Peer S)) (peer : Peer S)
      → find_peer internal peers ≡ some peer
      → peer.identifier.internal_representation ≡ internal
  unfolding find_peer
  find_peer-number internal [] peer e = absurd (ground (arith, e))
  find_peer-number internal (first ∷ peers) peer e =
      elim (Bool-cases (first.identifier.internal_representation == internal)) [
        | inl here ↦
            let found : some first ≡ some peer = rw here at e in
            ap (λ (p : Peer S). p.identifier.internal_representation)
              (sym (ap (or_same first) found))
            ∙ (==_iff _ _).0 here
        | inr there ↦
            let later : find_peer internal peers ≡ some peer = rw there at e in
            find_peer-number internal peers peer later
      ]

  module _ (s : Surroundings S) (own : Container) (create : Role → Option S) where
    accepted-Links :
        (identifier : Container) (address : RemoteAddress) (manager : Manager S)
        (o : Outcome (Bool × Mediator S))
        → IsConsistent manager
        → find_peer identifier.internal_representation manager.peers ≡ none
        → (identifier.valid ≡ true)
          × (is_internal_allowed identifier.internal_representation ≡ true)
        → find_resolving address manager.resolving ≡ none
        → Returns (Links identifier address) (attach_acceptor identifier manager o)
    unfolding Returns
    accepted-Links identifier address manager (returned (true, m)) h new valid unresolved =
        tracked-Links identifier address manager (bind_peer (some Receiver.nobody) m) h new valid
          unresolved (bound-Returns m)
    accepted-Links identifier address manager (returned (false, m)) h new valid unresolved = h
    accepted-Links identifier address manager thrown h new valid unresolved = tt
    accepted-Links identifier address manager undefined h new valid unresolved = tt

    resolved-Links :
        (identifier : Container) (address : RemoteAddress) (manager : Manager S)
        (o : Option (Mediator S))
        → find_resolving address manager.resolving ≡ o
        → IsConsistent manager
        → find_peer identifier.internal_representation manager.peers ≡ none
        → (identifier.valid ≡ true)
          × (is_internal_allowed identifier.internal_representation ≡ true)
        → Returns
            (Links identifier address)
            (link_by_resolving s own create identifier address manager o)
    unfolding undeclare_resolving_peer
    resolved-Links identifier address manager none e h new valid =
        accepted-Links identifier address manager (setup_exchange_acceptor s own create mediator) h
          new valid e
    resolved-Links identifier address manager (some m) e h new valid =
        tracked-Links identifier address (undeclare_resolving_peer address manager)
          (bind_peer (some Receiver.nobody) m) h new valid (erased address manager.resolving)
          (bound-Returns m)

    peer-Links :
        (identifier : Container) (address : RemoteAddress) (manager : Manager S)
        (o : Option (Peer S))
        → find_peer identifier.internal_representation manager.peers ≡ o
        → IsConsistent manager
        → Returns
            (Links identifier address)
            (link_by_peer s own create identifier address manager o)
    unfolding Returns undeclare_resolving_peer
    peer-Links identifier address manager (some peer) e h =
        let number = find_peer-number identifier.internal_representation manager.peers peer e in
        (h, number, rw (number, e) refl, erased address manager.resolving)
    peer-Links identifier address manager none e h = elim (Bool-cases identifier.valid) [
      | inl v ↦ elim (Bool-cases (is_internal_allowed identifier.internal_representation)) [
        | inl a ↦
            simp (v, a)
              (resolved-Links identifier address manager (find_resolving address manager.resolving)
                refl h e (v, a))
        | inr a ↦ simp (v, a) tt
      ]
      | inr v ↦ simp v tt
    ]

    -- A consistent manager has peers with different numbers, whose identifiers are valid and not
    -- reserved, and whose mediators are bound. LinkPeer, where it returns, leaves such a manager; and
    -- where it returns a peer, that peer has the identifier's number and is tracked, and the address
    -- is not being resolved any more.
    pub link_peer-Links :
        (identifier : Container) (address : RemoteAddress) (manager n : Manager S) (peer : Option ℕ)
        → IsConsistent manager
        → link_peer s own create identifier address manager ≡ returned (peer, n)
        → Links identifier address (peer, n)
    unfolding link_peer
    link_peer-Links identifier address manager n peer h e =
        from_returned (Links identifier address)
          (link_by_peer s own create identifier address manager
            (find_peer identifier.internal_representation manager.peers))
          (peer, n) e
          (peer-Links identifier address manager
            (find_peer identifier.internal_representation manager.peers) refl h)
