-- ===== src/Address.antt =====
-- Components/Network/Address.cpp: the address of an endpoint, its partitions and its validation.
use brypt_node.Common.{
  ℕ, suc, ◌+◌, ◌-◌, Bool, true, false, not, ◌&&◌, ◌||◌, List, [], ◌∷◌, ◌++◌, Option, none, some,
  length, take, drop, get_or, ltb, leb, ◌==◌, if◌then◌else◌,
}
use brypt_node.Message.Context.{EndpointProtocol, lora, tcp, invalid}
mod Locating
mod Partitions
mod Copies
mod Validation
mod Accepted
mod Binding
mod Examples

-- What the code leaves undefined is a value of its own.
pub data Run (A : Type 0) : Type 0 where
  returned : A → Run A
  undefined : Run A

-- The members of an Address; a view is the text that it shows.
pub record Address : Type 0 where
  pub protocol : EndpointProtocol
  pub uri : List ℕ
  pub scheme : List ℕ
  pub authority : List ℕ
  pub primary : List ℕ
  pub secondary : List ℕ
  pub bootstrapable : Bool

pub data SocketType : Type 0 where
  ipv4 ipv6 unusable : SocketType

pub data Family : Type 0 where
  v4 v6 : Family

-- What the code takes from boost: lexical_cast to a 16-bit number, and the address parser.
pub record Parsers : Type 0 where
  pub port_of : List ℕ → Option ℕ
  pub family_of : List ℕ → Option Family

-- The texts "://", "tcp" and "lora", and the characters ":" and "*".
abbrev pub scheme_separator : List ℕ
scheme_separator = 58 ∷ 47 ∷ 47 ∷ []

abbrev pub tcp_scheme : List ℕ
tcp_scheme = 116 ∷ 99 ∷ 112 ∷ []

abbrev pub lora_scheme : List ℕ
lora_scheme = 108 ∷ 111 ∷ 114 ∷ 97 ∷ []

abbrev pub component_separator : ℕ
component_separator = 58

abbrev pub wildcard : ℕ
wildcard = 42

-- std::isspace in the default locale. A negative char is undefined; here it is no space.
abbrev pub is_space : ℕ → Bool
is_space c = (c == 32) || (leb 9 c && leb c 13)

abbrev pub any_space : List ℕ → Bool
any_space [] = false
any_space (c ∷ cs) = is_space c || any_space cs

abbrev pub is_empty : List ℕ → Bool
is_empty [] = true
is_empty (c ∷ cs) = false

abbrev pub at_separator : List ℕ → Bool
at_separator (a ∷ b ∷ c ∷ rest) = (a == 58) && ((b == 47) && (c == 47))
at_separator _ = false

abbrev after : Option ℕ → Option ℕ
after none = none
after (some n) = some (suc n)

-- std::string::find of "://".
unfoldable pub find_scheme : List ℕ → Option ℕ
find_scheme [] = none
find_scheme (c ∷ cs) =
    let later = after (find_scheme cs) in if at_separator (c ∷ cs) then some 0 else later

abbrev or_here : ℕ → Option ℕ → Option ℕ
or_here c (some n) = some (suc n)
or_here c none = if c == component_separator then some 0 else none

-- std::string::find_last_of the character ":".
unfoldable pub find_last : List ℕ → Option ℕ
find_last [] = none
find_last (c ∷ cs) = or_here c (find_last cs)

unfoldable pub find_wildcard : List ℕ → Bool
find_wildcard [] = false
find_wildcard (c ∷ cs) = (c == wildcard) || find_wildcard cs

abbrev last_or : ℕ → List ℕ → ℕ
last_or d [] = d
last_or d (c ∷ cs) = last_or c cs

-- The brackets round an IPv6 address are taken off before the address is parsed.
unfoldable pub unwrap : List ℕ → List ℕ
unwrap partition =
    if (get_or partition 0 0 == 91) && (last_or 0 partition == 93)
    then take (length partition - 2) (drop 1 partition)
    else partition

-- The end of the scheme, and the uri with a scheme put before it where it has none. The length
-- of the scheme that is put before it is taken to be that of "tcp" for each protocol.
unfoldable pub locate : EndpointProtocol → List ℕ → Option ℕ → Option (ℕ × List ℕ)
locate protocol uri (some start) = some (start, uri)
locate tcp uri none = some (length tcp_scheme, tcp_scheme ++ scheme_separator ++ uri)
locate lora uri none = some (length tcp_scheme, lora_scheme ++ scheme_separator ++ uri)
locate invalid uri none = none

unfoldable pub reset : Address → Address
reset address = record address {
  uri = [];
  scheme = [];
  authority = [];
  primary = [];
  secondary = [];
  bootstrapable = false;
}

-- The four views, from the end of the scheme and the position of the last separator.
abbrev pub view_at : ℕ → ℕ → Address → Address
view_at start position address = record address {
  scheme = take start address.uri;
  authority = drop (start + 3) address.uri;
  primary = take (position - (start + 3)) (drop (start + 3) address.uri);
  secondary = drop (suc (position - (start + 3))) (drop (start + 3) address.uri);
}

abbrev pub or_reset : Run (Bool × Address) → Run Address
or_reset (returned (true, address)) = returned address
or_reset (returned (false, address)) = returned (reset address)
or_reset undefined = undefined

module _ (parsers : Parsers) where
  abbrev type_of_family : List ℕ → Option Family → SocketType
  type_of_family primary none = unusable
  type_of_family primary (some v4) = ipv4
  type_of_family primary (some v6) = if get_or primary 0 0 == 91 then ipv6 else unusable

  abbrev is_port : Option ℕ → Bool
  is_port none = false
  is_port (some port) = leb 1 port && leb port 65535

  unfoldable pub parse_address_type : Address → SocketType
  parse_address_type address = elim address.protocol [
    | lora ↦ unusable
    | invalid ↦ unusable
    | tcp ↦
        if ltb (length address.uri) 9 || ltb 53 (length address.uri)
        then unusable
        else if is_empty address.primary || is_empty address.secondary
        then unusable
        else if get_or address.secondary 0 0 == 45
        then unusable
        else if not (is_port (parsers.port_of address.secondary))
        then unusable
        else type_of_family address.primary (parsers.family_of (unwrap address.primary))
  ]

  abbrev is_usable : SocketType → Bool
  is_usable unusable = false
  is_usable ipv4 = true
  is_usable ipv6 = true

  -- The validation by protocol that ends CacheAddressPartitions.
  unfoldable pub validate : Address → Bool
  unfolding parse_address_type unwrap
  validate address = elim address.protocol [
    | tcp ↦ is_usable (parse_address_type address)
    | lora ↦ true
    | invalid ↦ false
  ]

  -- The range of the primary view must not end before it begins.
  abbrev pub cut : ℕ → ℕ → Address → Run (Bool × Address)
  cut start position address =
      let views : Address = view_at start position address in
      if ltb position (start + 3) then undefined else returned (validate views, views)

  abbrev pub cut_at : ℕ → Address → Option ℕ → Run (Bool × Address)
  cut_at start address none = returned (false, record address { scheme = take start address.uri })
  cut_at start address (some position) = cut start position address

  unfoldable pub cache_located : Address → Option (ℕ × List ℕ) → Run (Bool × Address)
  unfolding find_last validate
  cache_located address none = returned (false, address)
  cache_located address (some (start, uri)) =
      cut_at start (record address { uri = uri }) (find_last uri)

  unfoldable pub cache_address_partitions : Address → Run (Bool × Address)
  unfolding find_scheme locate cache_located
  cache_address_partitions address =
      if is_empty address.uri || any_space address.uri
      then returned (false, address)
      else cache_located address (locate address.protocol address.uri (find_scheme address.uri))

  -- The constructor of an address from a protocol, a uri and whether it is bootstrapable.
  unfoldable pub address_of : EndpointProtocol → List ℕ → Bool → Run Address
  unfolding cache_address_partitions reset
  address_of protocol uri bootstrapable = or_reset (
      cache_address_partitions (record {
        protocol = protocol;
        uri = uri;
        scheme = [];
        authority = [];
        primary = [];
        secondary = [];
        bootstrapable = bootstrapable;
      }))

  -- The copy constructor.
  unfoldable pub copy : Address → Run Address
  unfolding address_of
  copy other = address_of other.protocol other.uri other.bootstrapable

  -- The copy assignment works on the views that are there.
  unfoldable pub assign : Address → Address → Run Address
  unfolding cache_address_partitions reset
  assign address other = or_reset (
      cache_address_partitions (record address {
        protocol = other.protocol;
        uri = other.uri;
        bootstrapable = other.bootstrapable;
      }))

abbrev pub no_address : Address
no_address = record {
  protocol = invalid;
  uri = [];
  scheme = [];
  authority = [];
  primary = [];
  secondary = [];
  bootstrapable = false;
}

-- IsValid of the source.
abbrev pub is_valid : Address → Bool
is_valid address = not (is_empty address.uri)

abbrev pub is_bootstrapable : Address → Bool
is_bootstrapable address = address.bootstrapable && is_valid address

abbrev pub get_size : Address → ℕ
get_size address = length address.uri

-- GetAddressComponents with GetIPAddress and GetPort.
abbrev pub get_address_components : Address → List ℕ × List ℕ
get_address_components address = (address.primary, address.secondary)

abbrev pub number_or_zero : Option ℕ → ℕ
number_or_zero none = 0
number_or_zero (some port) = port

unfoldable pub get_port_number : Parsers → List ℕ × List ℕ → ℕ
get_port_number parsers components = number_or_zero (parsers.port_of components.1)
