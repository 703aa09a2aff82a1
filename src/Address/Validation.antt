-- ===== src/Address/Validation.antt =====
-- The uris that the constructor of an address does not cut, and what it accepts for TCP.
use brypt_node.Common.{
  ℕ, ◌+◌, ◌-◌, ◌≡◌, ◌≢◌, ◌↔◌, ◌⊎◌, refl, ap, ◌∙◌, inl, inr, Bool, false, List, ◌++◌, Option, none,
  some, drop, arith, Bool-cases, Option-cases, or_same, ltb,
}
use mathlib.Core.Path.{subst}
use brypt_node.Message.Context.{EndpointProtocol, lora, tcp, invalid}
use brypt_node.Address.{
  undefined, Parsers, scheme_separator, tcp_scheme, lora_scheme, find_scheme, find_last, locate,
  cache_located, cache_address_partitions, address_of, is_empty, any_space,
}
use brypt_node.Address.Locating.{
  HasNoColon, find_last-HasNoColon, HasNoColon-find_last, find_last_of_drop, find_last-drop,
  find_scheme-find_last,
}
use brypt_node.Address.Partitions.{Built, address_of-Built}

-- What stands behind the scheme's separator, or the whole uri.
abbrev behind : List ℕ → Option ℕ → List ℕ
behind uri none = uri
behind uri (some n) = drop (n + 3) uri

-- The uris that have a view end before it begins.
pub record IsShort (protocol : EndpointProtocol) (uri : List ℕ) : Type 0 where
  pub written : is_empty uri ≡ false
  pub unspaced : any_space uri ≡ false
  pub known : (protocol ≢ invalid) ⊎ (find_scheme uri ≢ none)
  pub plain : HasNoColon (behind uri (find_scheme uri))

tcp_located : (uri : List ℕ) → find_last (tcp_scheme ++ scheme_separator ++ uri) ≢ none
unfolding find_last
tcp_located uri h = elim (Option-cases (find_last uri)) [
  | inl nowhere ↦ ground arith
  | inr (m, later) ↦ ground arith
]

lora_located : (uri : List ℕ) → find_last (lora_scheme ++ scheme_separator ++ uri) ≢ none
unfolding find_last
lora_located uri h = elim (Option-cases (find_last uri)) [
  | inl nowhere ↦ ground arith
  | inr (m, later) ↦ ground arith
]

abbrev IsCut : List ℕ → ℕ × List ℕ → Type 0
IsCut plain (n, text) =
    (HasNoColon (drop (n + 3) text) ↔ HasNoColon plain) × (find_last text ≢ none)

-- Wherever the scheme ends, the rest of the located text has no separator if the uri's has none.
locate-IsCut :
    (protocol : EndpointProtocol) (uri : List ℕ) (found : Option ℕ) {where_to : ℕ × List ℕ}
    → find_scheme uri ≡ found
    → locate protocol uri found ≡ some where_to
    → IsCut (behind uri found) where_to
unfolding locate
locate-IsCut protocol uri (some m) at e =
    subst (IsCut (behind uri (some m))) (ap (or_same (m, uri)) e)
      ((λ h. h, λ h. h), find_scheme-find_last uri at)
locate-IsCut tcp uri none at e =
    subst (IsCut uri) (ap (or_same (0, uri)) e) ((λ h. h, λ h. h), tcp_located uri)
locate-IsCut lora uri none at e =
    subst (IsCut uri) (ap (or_same (0, uri)) e)
      ((λ h. h.1, λ h. ((λ h. absurd (omega arith)), h)), lora_located uri)
locate-IsCut invalid uri none at e = cc

locate_known :
    (protocol : EndpointProtocol) (uri : List ℕ) (found : Option ℕ)
    → (protocol ≢ invalid) ⊎ (found ≢ none)
    → locate protocol uri found ≢ none
unfolding locate
locate_known protocol uri (some m) k e = cc
locate_known tcp uri none k e = cc
locate_known lora uri none k e = cc
locate_known invalid uri none k e = ground arith

known_of_locate :
    (protocol : EndpointProtocol) (uri : List ℕ) (found : Option ℕ) {where_to : ℕ × List ℕ}
    → locate protocol uri found ≡ some where_to
    → (protocol ≢ invalid) ⊎ (found ≢ none)
unfolding locate
known_of_locate protocol uri (some m) e = inr (λ h. cc)
known_of_locate tcp uri none e = inl (λ h. cc)
known_of_locate lora uri none e = inl (λ h. cc)
known_of_locate invalid uri none e = cc

module _ (parsers : Parsers) (protocol : EndpointProtocol) (uri : List ℕ) (b : Bool) where
  address_of_undefined : IsShort protocol uri → address_of parsers protocol uri b ≡ undefined
  unfolding address_of cache_address_partitions cache_located
  address_of_undefined short = elim (Option-cases (locate protocol uri (find_scheme uri))) [
    | inl nowhere ↦ absurd (locate_known protocol uri (find_scheme uri) short.known nowhere)
    | inr ((n, text), located) ↦
        let facts : IsCut (behind uri (find_scheme uri)) (n, text) =
          locate-IsCut protocol uri (find_scheme uri) refl located in
        let none_last : find_last (drop (n + 3) text) ≡ none =
          HasNoColon-find_last (drop (n + 3) text) (facts.0.1 short.plain) in
        elim (Option-cases (find_last text)) [
          | inl nothing ↦ absurd (facts.1 nothing)
          | inr (p, last) ↦ elim (Bool-cases (ltb p (n + 3))) [
            | inl before ↦ simp (short.written, short.unspaced, located, last, before)
            | inr beyond ↦
                let tail : find_last (drop (n + 3) text) ≡ some (p - (n + 3)) =
                  find_last-drop (n + 3) text (p - (n + 3)) (last ∙ ap some (ground arith)) in
                cc
          ]
        ]
  ]

  undefined-IsShort : address_of parsers protocol uri b ≡ undefined → IsShort protocol uri
  undefined-IsShort e = elim (address_of-Built parsers protocol uri b) [
    | Built.refused r ↦ cc
    | Built.ranging n p text located last before plain r ↦
        let facts : IsCut (behind uri (find_scheme uri)) (n, text) =
          locate-IsCut protocol uri (find_scheme uri) refl located in
        record {
          written = ground arith;
          unspaced = ground arith;
          known = known_of_locate protocol uri (find_scheme uri) located;
          plain = facts.0.0 (
              find_last-HasNoColon (drop (n + 3) text)
                (elim (Option-cases (find_last (drop (n + 3) text))) [
                  | inl nowhere ↦ nowhere
                  | inr (j, later) ↦
                      let whole : find_last text ≡ some (n + 3 + j) =
                        find_last_of_drop (n + 3) text j later in
                      ground arith
                ]));
        }
    | Built.partitioned n p text plain located last behind good r ↦ cc
  ]

  -- The constructor leaves the defined range of its views exactly for a uri that is not empty, has
  -- no white space, has a scheme or a known protocol, and has no ":" behind "://" or, where it has
  -- no "://", none at all.
  pub address_of-IsShort : (address_of parsers protocol uri b ≡ undefined) ↔ IsShort protocol uri
  address_of-IsShort = (undefined-IsShort, address_of_undefined)
