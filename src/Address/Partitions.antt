-- ===== src/Address/Partitions.antt =====
-- CacheAddressPartitions: what the partitions of an address say of its uri, and copies of it.
use brypt_node.Common.{
  ℕ, ◌+◌, ◌-◌, ◌≡◌, ◌≢◌, refl, ap, ◌∙◌, inl, inr, Bool, true, false, ◌||◌, List, [], ◌∷◌, ◌++◌, ◌⊎◌,
  none, some, length, drop, arith, Bool-cases, Option-cases, ltb,
}
use mathlib.Core.Path.{subst}
use brypt_node.Message.Context.{EndpointProtocol, lora, tcp, invalid}
use brypt_node.Address.{
  Address, Run, returned, undefined, Parsers, scheme_separator, component_separator, tcp_scheme,
  find_scheme, find_last, locate, cache_located, cache_address_partitions, address_of, cut, view_at,
  or_reset, reset, validate, is_empty, any_space,
}
use brypt_node.Address.Locating.{
  HasNoColon, find_scheme-splits, find_last-splits, find_last-HasNoColon, find_last-drop,
}

-- The views are the parts of the uri that the separators set off.
pub record IsPartitioned (a : Address) : Type 0 where
  pub whole : a.uri ≡ a.scheme ++ (scheme_separator ++ a.authority)
  pub parts : a.authority ≡ a.primary ++ component_separator ∷ a.secondary
  pub secondary_plain : HasNoColon a.secondary

-- A uri for LoRa that has no scheme is the one that is partitioned differently.
abbrev pub IsLocatable : EndpointProtocol → List ℕ → Type 0
IsLocatable protocol uri = (protocol ≢ lora) ⊎ (find_scheme uri ≢ none)

abbrev pub blank : EndpointProtocol → List ℕ → Bool → Address
blank protocol uri bootstrapable = record {
  protocol = protocol;
  uri = uri;
  scheme = [];
  authority = [];
  primary = [];
  secondary = [];
  bootstrapable = bootstrapable;
}

find_scheme-tcp :
    (uri : List ℕ) → find_scheme (tcp_scheme ++ scheme_separator ++ uri) ≡ some (length tcp_scheme)
unfolding find_scheme
find_scheme-tcp uri = refl

-- The scheme that is put before a uri is found again where it was put.
pub locate-found :
    (protocol : EndpointProtocol) (uri : List ℕ) {n : ℕ} {text : List ℕ}
    → IsLocatable protocol uri
    → locate protocol uri (find_scheme uri) ≡ some (n, text)
    → find_scheme text ≡ some n
unfolding locate
locate-found protocol uri h e = elim (Option-cases (find_scheme uri)) [
  | inr (m, found) ↦ ground arith
  | inl nowhere ↦ by_protocol protocol uri h nowhere e
]
  where
    by_protocol :
        (protocol : EndpointProtocol) (uri : List ℕ) {n : ℕ} {text : List ℕ}
        → IsLocatable protocol uri
        → find_scheme uri ≡ none
        → locate protocol uri (find_scheme uri) ≡ some (n, text)
        → find_scheme text ≡ some n
    by_protocol tcp uri h nowhere e = ground (arith, find_scheme-tcp uri)
    by_protocol lora uri h nowhere e = ground arith
    by_protocol invalid uri h nowhere e = ground arith

-- The separator that is found last stands behind the scheme's.
pub view_at-IsPartitioned :
    (n p : ℕ) (address : Address)
    → find_scheme address.uri ≡ some n
    → find_last address.uri ≡ some p
    → ltb p (n + 3) ≡ false
    → IsPartitioned (view_at n p address)
view_at-IsPartitioned n p address first last behind =
    let tail : find_last (drop (n + 3) address.uri) ≡ some (p - (n + 3)) =
      find_last-drop (n + 3) address.uri (p - (n + 3)) (last ∙ ap some (ground arith)) in
    let pieces = find_last-splits (drop (n + 3) address.uri) tail in
    record {
      whole = find_scheme-splits address.uri first;
      parts = pieces.0;
      secondary_plain = find_last-HasNoColon _ pieces.1;
    }

-- How the constructor ends: reset, undefined, or with a valid address that has its views.
pub data Built (parsers : Parsers) (protocol : EndpointProtocol) (uri : List ℕ)
    (bootstrapable : Bool) (run : Run Address) : Type 0 where
  refused : run ≡ returned (blank protocol [] false) → Built parsers protocol uri bootstrapable run
  ranging :
      (n p : ℕ) (text : List ℕ)
      → locate protocol uri (find_scheme uri) ≡ some (n, text)
      → find_last text ≡ some p
      → ltb p (n + 3) ≡ true
      → (is_empty uri || any_space uri) ≡ false
      → run ≡ undefined
      → Built parsers protocol uri bootstrapable run
  partitioned :
      (n p : ℕ) (text : List ℕ)
      → (is_empty uri || any_space uri) ≡ false
      → locate protocol uri (find_scheme uri) ≡ some (n, text)
      → find_last text ≡ some p
      → ltb p (n + 3) ≡ false
      → validate parsers (view_at n p (blank protocol text bootstrapable)) ≡ true
      → run ≡ returned (view_at n p (blank protocol text bootstrapable))
      → Built parsers protocol uri bootstrapable run

module _ (parsers : Parsers) (protocol : EndpointProtocol) (uri : List ℕ) (b : Bool) where
  Built-cut :
      (n p : ℕ) (text : List ℕ)
      → (is_empty uri || any_space uri) ≡ false
      → locate protocol uri (find_scheme uri) ≡ some (n, text)
      → find_last text ≡ some p
      → Built parsers protocol uri b (or_reset (cut parsers n p (blank protocol text b)))
  unfolding reset
  Built-cut n p text plain located last = elim (Bool-cases (ltb p (n + 3))) [
    | inl before ↦ Built.ranging n p text located last before plain (rw before refl)
    | inr behind ↦ elim (Bool-cases (validate parsers (view_at n p (blank protocol text b)))) [
      | inl good ↦ Built.partitioned n p text plain located last behind good (simp (behind, good))
      | inr bad ↦ Built.refused (simp (behind, bad))
    ]
  ]

  pub address_of-Built : Built parsers protocol uri b (address_of parsers protocol uri b)
  unfolding address_of cache_address_partitions cache_located reset
  address_of-Built = elim (Bool-cases (is_empty uri || any_space uri)) [
    | inl unfit ↦ Built.refused (simp unfit)
    | inr plain ↦ elim (Option-cases (locate protocol uri (find_scheme uri))) [
      | inl nowhere ↦ Built.refused (simp (plain, nowhere))
      | inr ((n, text), located) ↦ elim (Option-cases (find_last text)) [
        | inl none_last ↦ Built.refused (simp (plain, located, none_last))
        | inr (p, last) ↦
            subst (Built parsers protocol uri b) (simp (plain, located, last))
              (Built-cut n p text plain located last)
      ]
    ]
  ]
