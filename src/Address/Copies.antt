-- ===== src/Address/Copies.antt =====
-- What holds of every address that the constructor builds, and of its copies.
use mathlib.Core.Path.{subst}
use brypt_node.Common.{
  ℕ, ◌≡◌, refl, sym, ap, ◌∙◌, Bool, true, false, ◌||◌, List, [], Option, none, some, arith,
}
use brypt_node.Message.Context.{EndpointProtocol, lora, tcp, invalid}
use brypt_node.Address.{
  Address, Run, returned, undefined, Parsers, find_scheme, locate, cache_located,
  cache_address_partitions, address_of, copy, assign, reset, is_valid, is_empty, any_space, view_at,
}
use brypt_node.Address.Partitions.{
  IsPartitioned, IsLocatable, Built, blank, address_of-Built, locate-found, view_at-IsPartitioned,
}

-- The address that a run has returned, or another one.
abbrev pub or_other : Address → Run Address → Address
or_other other (returned a) = a
or_other other undefined = other

-- The copies of an address, constructed or assigned to any address, are the address.
abbrev pub IsKept : Parsers → Address → Type 0
IsKept parsers a = (copy parsers a ≡ returned a) × ((x : Address) → assign parsers x a ≡ returned a)

locate-plain :
    (protocol : EndpointProtocol) (uri : List ℕ) (found : Option ℕ) {n : ℕ} {text : List ℕ}
    → (is_empty uri || any_space uri) ≡ false
    → locate protocol uri found ≡ some (n, text)
    → (is_empty text || any_space text) ≡ false
unfolding locate
locate-plain protocol uri (some m) plain e = ground arith
locate-plain tcp uri none plain e = ground arith
locate-plain lora uri none plain e = ground arith
locate-plain invalid uri none plain e = cc

module _ (parsers : Parsers) (protocol : EndpointProtocol) (uri : List ℕ) (b : Bool)
    {a : Address} where
  -- An address that the constructor returned as valid, for another protocol than LoRa or from a
  -- text with a scheme, has a uri of its scheme, "://" and its authority; the authority is the
  -- primary partition, ":" and the secondary one, which has no further ":".
  pub address_of-IsPartitioned :
      IsLocatable protocol uri
      → address_of parsers protocol uri b ≡ returned a
      → is_valid a ≡ true
      → IsPartitioned a
  address_of-IsPartitioned h e valid = elim (address_of-Built parsers protocol uri b) [
    | Built.refused r ↦
        let same : blank protocol [] false ≡ a = ap (or_other a) (sym r ∙ e) in
        absurd (
          let no : false ≡ true = subst (λ (c : Address). is_valid c ≡ true) (sym same) valid in cc)
    | Built.ranging n p text located last before plain r ↦ cc
    | Built.partitioned n p text plain located last behind good r ↦
        let same : view_at n p (blank protocol text b) ≡ a = ap (or_other a) (sym r ∙ e) in
        subst IsPartitioned same (
          view_at-IsPartitioned n p (blank protocol text b) (locate-found protocol uri h located)
            last behind)
  ]

  -- A copy of an address that the constructor returned, made by the copy constructor or assigned to
  -- any address, is the address with all its views, unless it was a uri for LoRa with no scheme.
  pub copy-address_of :
      IsLocatable protocol uri → address_of parsers protocol uri b ≡ returned a → IsKept parsers a
  unfolding copy assign address_of cache_address_partitions cache_located reset
  copy-address_of h e = elim (address_of-Built parsers protocol uri b) [
    | Built.refused r ↦
        let same : blank protocol [] false ≡ a = ap (or_other a) (sym r ∙ e) in
        subst (IsKept parsers) same (refl, λ x. refl)
    | Built.ranging n p text located last before plain r ↦ cc
    | Built.partitioned n p text plain located last behind good r ↦
        let same : view_at n p (blank protocol text b) ≡ a = ap (or_other a) (sym r ∙ e) in
        let found : find_scheme text ≡ some n = locate-found protocol uri h located in
        let plain' : (is_empty text || any_space text) ≡ false =
          locate-plain protocol uri _ plain located in
        subst (IsKept parsers) same (
          unfold locate in simp (plain', found, last, behind, good),
          λ x. unfold locate in simp (plain', found, last, behind, good),
        )
  ]
