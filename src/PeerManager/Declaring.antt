-- ===== src/PeerManager/Declaring.antt =====
-- DeclareResolvingPeer of PeerManager.cpp: an address is asked once.
use brypt_node.Common.{ℕ, ◌≡◌, refl, true, List, Option, none, some}
use brypt_node.Message.Identifier.{Container}
use brypt_node.Message.Context.{EndpointProtocol, lora, tcp, invalid}
use brypt_node.MessageControl.Exchange.{Surroundings}
use brypt_node.Identifier.Comparison.{same_bytes_refl}
use brypt_node.SecurityMediator.{
  Mediator, mediator, Role, Outcome, returned, thrown, undefined, Returns, from_returned,
  setup_exchange_initiator,
}
use brypt_node.PeerManager.{
  RemoteAddress, Manager, same_protocol, same_address, find_resolving, declare_requested,
  declare_unless_found, declare_resolving_peer,
}

same_protocol_refl : (protocol : EndpointProtocol) → same_protocol protocol protocol ≡ true
same_protocol_refl lora = refl
same_protocol_refl tcp = refl
same_protocol_refl invalid = refl

same_address_refl : (address : RemoteAddress) → same_address address address ≡ true
unfolding same_address
same_address_refl address =
    rw (same_protocol_refl address.protocol, same_bytes_refl address.uri) refl

module _ {S : Type 0} (s : Surroundings S) (own : Container) (create : Role → Option S)
    (address : RemoteAddress) where
  -- A manager that has asked an address waits for it.
  Awaits : Option (List ℕ) × Manager S → Type 0
  Awaits (none, n) = Unit
  Awaits (some request, n) = (m : Mediator S) × (find_resolving address n.resolving ≡ some m)

  requested-Awaits :
      (manager : Manager S) (o : Outcome (Option (List ℕ) × Mediator S))
      → Returns Awaits (declare_requested s own create address manager o)
  unfolding Returns Awaits find_resolving
  requested-Awaits manager (returned (none, m)) = tt
  requested-Awaits manager (returned (some request, m)) =
      let same = same_address_refl address in (m, rw same refl)
  requested-Awaits manager thrown = tt
  requested-Awaits manager undefined = tt

  declared-Awaits :
      (manager : Manager S) (o : Option (Mediator S))
      → Returns Awaits (declare_unless_found s own create address none manager o)
  declared-Awaits manager (some m) = unfold Returns Awaits in tt
  declared-Awaits manager none =
      requested-Awaits manager (setup_exchange_initiator s own create mediator)

  -- After an address has been declared without an identifier and a request to it been returned, its
  -- declaration with any identifier or none returns no request and leaves the manager as it is.
  pub declare_again_refused :
      (manager n : Manager S) (request : List ℕ) (identifier : Option Container)
      → declare_resolving_peer s own create address none manager ≡ returned (some request, n)
      → declare_resolving_peer s own create address identifier n ≡ returned (none, n)
  unfolding declare_resolving_peer
  declare_again_refused manager n request identifier e =
      let waiting : Awaits (some request, n) =
        from_returned Awaits _ (some request, n) e
          (declared-Awaits manager (find_resolving address manager.resolving)) in
      unfold Awaits in rw waiting.1 refl
