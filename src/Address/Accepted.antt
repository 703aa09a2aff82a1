-- ===== src/Address/Accepted.antt =====
-- The partitions of a uri for LoRa that has no scheme.
use mathlib.Core.Path.{subst}
use brypt_node.Common.{
  ℕ, ◌+◌, ◌≡◌, refl, sym, ap, ◌∙◌, inl, inr, Bool, true, false, List, [], ◌∷◌, ◌++◌, none, some,
  take, arith, Option-cases, or_same, ltb,
}
use brypt_node.Message.Context.{lora}
use brypt_node.Address.{
  Address, returned, Parsers, scheme_separator, copy, lora_scheme, find_scheme, find_last, locate,
  cache_located, cache_address_partitions, address_of, validate, is_valid, any_space, view_at,
}
use brypt_node.Address.Partitions.{Built, blank, address_of-Built}
use brypt_node.Address.Copies.{or_other}

-- An address for LoRa whose uri has no scheme: its views are off by one, and a copy's are right.
pub record IsShifted (parsers : Parsers) (uri : List ℕ) (a : Address) : Type 0 where
  pub uri_kept : a.uri ≡ lora_scheme ++ scheme_separator ++ uri
  pub scheme_short : a.scheme ≡ take 3 lora_scheme
  pub authority_long : a.authority ≡ 47 ∷ uri
  pub twin : Address
  pub copied : copy parsers a ≡ returned twin
  pub twin_scheme : twin.scheme ≡ lora_scheme
  pub twin_authority : twin.authority ≡ uri
  pub twin_uri : twin.uri ≡ a.uri

find_last-lora :
    (uri : List ℕ) {p : ℕ}
    → find_last (lora_scheme ++ scheme_separator ++ uri) ≡ some p
    → ltb p 6 ≡ false
    → ltb p 7 ≡ false
unfolding find_last
find_last-lora uri e h = elim (Option-cases (find_last uri)) [
  | inl nowhere ↦ ground arith
  | inr (m, later) ↦ ground arith
]

view-IsShifted :
    (parsers : Parsers) (uri : List ℕ) (b : Bool) (p : ℕ)
    → any_space uri ≡ false
    → find_last (lora_scheme ++ scheme_separator ++ uri) ≡ some p
    → ltb p 6 ≡ false
    → IsShifted parsers uri (view_at 3 p (blank lora (lora_scheme ++ scheme_separator ++ uri) b))
unfolding copy address_of find_scheme cache_address_partitions cache_located validate locate
view-IsShifted parsers uri b p plain last beyond = record {
  uri_kept = refl;
  scheme_short = refl;
  authority_long = refl;
  twin = view_at 4 p (blank lora (lora_scheme ++ scheme_separator ++ uri) b);
  copied = simp (plain, last, find_last-lora uri last beyond);
  twin_scheme = refl;
  twin_authority = refl;
  twin_uri = refl;
}

abbrev Located : Parsers → List ℕ → Bool → ℕ → ℕ × List ℕ → Type 0
Located parsers uri b p (n, text) =
    find_last text ≡ some p
    → ltb p (n + 3) ≡ false
    → IsShifted parsers uri (view_at n p (blank lora text b))

module _ (parsers : Parsers) (uri : List ℕ) (b : Bool) {a : Address} where
  -- A uri for LoRa that has no scheme is given the scheme "lora", but a valid address that is built
  -- from it has the scheme "lor" and an authority that begins with "/". Its copy has the same uri,
  -- the scheme "lora" and the uri that was given as authority.
  pub address_of-IsShifted :
      find_scheme uri ≡ none
      → address_of parsers lora uri b ≡ returned a
      → is_valid a ≡ true
      → IsShifted parsers uri a
  unfolding locate
  address_of-IsShifted nowhere e valid = elim (address_of-Built parsers lora uri b) [
    | Built.refused r ↦
        let same : blank lora [] false ≡ a = ap (or_other a) (sym r ∙ e) in
        let no : false ≡ true = subst (λ (c : Address). is_valid c ≡ true) (sym same) valid in cc
    | Built.ranging n p text located last before plain r ↦ cc
    | Built.partitioned n p text plain located last behind good r ↦
        let same : view_at n p (blank lora text b) ≡ a = ap (or_other a) (sym r ∙ e) in
        let there : ◌≡◌ {A = ℕ × List ℕ} (3, lora_scheme ++ scheme_separator ++ uri) (n, text) =
          ap (or_same (0, uri)) (rw nowhere at located) in
        let shifted : Located parsers uri b p (n, text) =
          subst (Located parsers uri b p) there (view-IsShifted parsers uri b p (ground arith)) in
        subst (IsShifted parsers uri) same (shifted last behind)
  ]
