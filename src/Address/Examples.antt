-- ===== src/Address/Examples.antt =====
-- Addresses at work: a TCP uri with a scheme, one for LoRa without, and a wildcard.
use brypt_node.Common.{
  ℕ, ◌≡◌, ◌↔◌, refl, inl, true, false, List, [], ◌∷◌, ◌++◌, none, some, if◌then◌else◌,
}
use brypt_node.Message.Context.{lora, tcp}
use brypt_node.Address.{
  Address, returned, undefined, Parsers, v4, address_of, view_at, tcp_scheme, lora_scheme,
  scheme_separator, find_scheme, find_last, find_wildcard,
}
use brypt_node.Identifier.{same_bytes}
use brypt_node.Address.Partitions.{IsPartitioned, blank}
use brypt_node.Address.Copies.{IsKept, address_of-IsPartitioned, copy-address_of}
use brypt_node.Address.Validation.{IsShort, address_of-IsShort}
use brypt_node.Address.Accepted.{IsShifted, address_of-IsShifted}
use brypt_node.Address.Binding.{Entry, binding_address_of, get_interface_address}
use brypt_node.Address.Binding.Wildcard.{binding_address_of-wildcard}

-- Parsers that know one port, 1024, and one address, 10.0.0.7.
abbrev port_text : List ℕ
port_text = 49 ∷ 48 ∷ 50 ∷ 52 ∷ []

abbrev host_text : List ℕ
host_text = 49 ∷ 48 ∷ 46 ∷ 48 ∷ 46 ∷ 48 ∷ 46 ∷ 55 ∷ []

abbrev one_host : Parsers
one_host = record {
  port_of = λ text. if same_bytes text port_text then some 1024 else none;
  family_of = λ text. if same_bytes text host_text then some v4 else none;
}

abbrev authority_text : List ℕ
authority_text = host_text ++ (58 ∷ port_text)

abbrev tcp_text : List ℕ
tcp_text = tcp_scheme ++ (scheme_separator ++ authority_text)

-- The address of either uri, with the scheme and without.
abbrev tcp_address : Address
tcp_address = record {
  protocol = tcp;
  uri = tcp_text;
  scheme = tcp_scheme;
  authority = authority_text;
  primary = host_text;
  secondary = port_text;
  bootstrapable = true;
}

tcp_address_built : address_of one_host tcp tcp_text true ≡ returned tcp_address
unfolding address_of same_bytes
tcp_address_built = refl

tcp_address_prefixed : address_of one_host tcp authority_text true ≡ returned tcp_address
unfolding address_of same_bytes
tcp_address_prefixed = refl

address_of-IsPartitioned_example : IsPartitioned tcp_address
address_of-IsPartitioned_example =
    address_of-IsPartitioned one_host tcp authority_text true (inl (λ h. cc)) tcp_address_prefixed
      refl

copy-address_of_example : IsKept one_host tcp_address
copy-address_of_example =
    copy-address_of one_host tcp tcp_text true (inl (λ h. cc)) tcp_address_built

-- A host with no port, "tcp://10.0.0.7".
abbrev portless : List ℕ
portless = tcp_scheme ++ (scheme_separator ++ host_text)

address_of-IsShort_example :
    (address_of one_host tcp portless false ≡ undefined) ↔ IsShort tcp portless
address_of-IsShort_example = address_of-IsShort one_host tcp portless false

portless_undefined : address_of one_host tcp portless false ≡ undefined
unfolding address_of
portless_undefined = refl

-- "915:71" for LoRa.
abbrev radio : List ℕ
radio = 57 ∷ 49 ∷ 53 ∷ 58 ∷ 55 ∷ 49 ∷ []

abbrev radio_address : Address
radio_address = view_at 3 10 (blank lora (lora_scheme ++ (scheme_separator ++ radio)) false)

radio_built : address_of one_host lora radio false ≡ returned radio_address
unfolding address_of
radio_built = refl

radio_has_no_scheme : find_scheme radio ≡ none
unfolding find_scheme
radio_has_no_scheme = refl

address_of-IsShifted_example : IsShifted one_host radio radio_address
address_of-IsShifted_example =
    address_of-IsShifted one_host radio false radio_has_no_scheme radio_built refl

-- "*:1024" on the interface "e", after an entry with no IPv4 address.
abbrev entries : List Entry
entries =
    record { name = 101 ∷ []; inet = none }
    ∷ record { name = 101 ∷ 48 ∷ []; inet = some host_text }
    ∷ []

abbrev any_host : List ℕ
any_host = 42 ∷ 58 ∷ port_text

any_host_wild : find_wildcard any_host ≡ true
unfolding find_wildcard
any_host_wild = refl

any_host_last : find_last any_host ≡ some 1
unfolding find_last
any_host_last = refl

any_host_bound :
    binding_address_of entries one_host tcp any_host (101 ∷ [])
    ≡ returned
        (record { address = record tcp_address { bootstrapable = false }; interface = 101 ∷ [] })
unfolding binding_address_of same_bytes
any_host_bound = refl

binding_address_of-wildcard_example :
    ((tcp_address.primary ≡ get_interface_address (101 ∷ []) entries)
      × (tcp_address.secondary ≡ port_text))
    × (◌≡◌ {A = List ℕ} (101 ∷ []) (101 ∷ []))
binding_address_of-wildcard_example =
    binding_address_of-wildcard entries one_host any_host (101 ∷ []) 1 any_host_wild any_host_last
      any_host_bound refl
