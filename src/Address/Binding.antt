-- ===== src/Address/Binding.antt =====
-- BindingAddress: the uri that an interface of the host is bound to.
use brypt_node.Common.{
  ℕ, suc, ◌+◌, ◌-◌, ◌≡◌, Bool, true, false, ◌&&◌, ◌||◌, List, [], ◌∷◌, ◌++◌, Option, none, some,
  length, take, drop, ltb, ◌==◌, if◌then◌else◌,
}
use brypt_node.Message.Context.{EndpointProtocol, lora, tcp, invalid}
use brypt_node.Address.{
  Address, Run, returned, undefined, Parsers, scheme_separator, tcp_scheme, lora_scheme, is_empty,
  find_scheme, find_last, find_wildcard, address_of,
}
pub mod Wildcard

-- An entry of the list that getifaddrs makes: its name, and the text of its address if that is of
-- the family AF_INET.
pub record Entry : Type 0 where
  pub name : List ℕ
  pub inet : Option (List ℕ)

pub record BindingAddress : Type 0 where
  pub address : Address
  pub interface : List ℕ

unfoldable pub is_prefix : List ℕ → List ℕ → Bool
is_prefix [] name = true
is_prefix (c ∷ cs) [] = false
is_prefix (c ∷ cs) (d ∷ ds) = (c == d) && is_prefix cs ds

-- The first AF_INET entry whose name begins with that of the interface.
unfoldable pub get_interface_address : List ℕ → List Entry → List ℕ
get_interface_address interface [] = []
get_interface_address interface (entry ∷ entries) =
    let others = get_interface_address interface entries in
    elim entry.inet [
      | none ↦ others
      | some address ↦ if is_prefix interface entry.name then address else others
    ]

abbrev scheme_of : EndpointProtocol → List ℕ
scheme_of tcp = tcp_scheme
scheme_of lora = lora_scheme
scheme_of invalid = []

abbrev pub scheme_part : EndpointProtocol → List ℕ → Option ℕ → List ℕ
scheme_part protocol uri none = scheme_of protocol ++ scheme_separator
scheme_part protocol uri (some scheme) = take (scheme + 3) uri

abbrev start_of : Option ℕ → ℕ
start_of none = 0
start_of (some scheme) = scheme + 3

abbrev joined : List ℕ → List ℕ → Run (List ℕ) → Run (List ℕ)
joined scheme rest undefined = undefined
joined scheme rest (returned primary) = returned (scheme ++ (primary ++ rest))

abbrev is_unbound : EndpointProtocol → List ℕ → List ℕ → Bool
is_unbound invalid uri interface = true
is_unbound _ uri interface = is_empty uri || is_empty interface

abbrev pub with_interface : List ℕ → Run Address → Run BindingAddress
with_interface interface undefined = undefined
with_interface interface (returned a) = returned (record { address = a; interface = interface })

abbrev pub bound_to : Parsers → EndpointProtocol → List ℕ → Run (List ℕ) → Run BindingAddress
bound_to parsers protocol interface undefined = undefined
bound_to parsers protocol interface (returned uri) =
    with_interface interface (address_of parsers protocol uri false)

module _ (entries : List Entry) where
  abbrev wildcard_part : EndpointProtocol → List ℕ → List ℕ
  wildcard_part tcp interface = get_interface_address interface entries
  wildcard_part lora interface = []
  wildcard_part invalid interface = []

  -- The primary part is copied from a range that must not end before it begins.
  abbrev primary_part : EndpointProtocol → List ℕ → List ℕ → ℕ → ℕ → Run (List ℕ)
  primary_part protocol uri interface start separator =
      if find_wildcard uri
      then returned (wildcard_part protocol interface)
      else if ltb separator start
      then undefined
      else returned (take (separator - start) (drop start uri))

  abbrev bind_at : EndpointProtocol → List ℕ → List ℕ → Option ℕ → Option ℕ → Run (List ℕ)
  bind_at protocol uri interface scheme none = returned []
  bind_at protocol uri interface scheme (some separator) =
      joined (scheme_part protocol uri scheme) (drop separator uri)
        (primary_part protocol uri interface (start_of scheme) separator)

  unfoldable pub build_binding_uri : EndpointProtocol → List ℕ → List ℕ → Run (List ℕ)
  unfolding find_scheme find_last find_wildcard get_interface_address is_prefix
  build_binding_uri protocol uri interface =
      if is_unbound protocol uri interface
      then returned []
      else bind_at protocol uri interface (find_scheme uri) (find_last uri)

  -- The constructor of a binding address.
  unfoldable pub binding_address_of :
      Parsers → EndpointProtocol → List ℕ → List ℕ → Run BindingAddress
  unfolding build_binding_uri address_of
  binding_address_of parsers protocol uri interface =
      bound_to parsers protocol interface (build_binding_uri protocol uri interface)
