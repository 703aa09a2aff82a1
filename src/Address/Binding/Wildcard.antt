-- ===== src/Address/Binding/Wildcard.antt =====
-- The binding address of a uri with a wildcard.
use mathlib.Core.Path.{subst}
use brypt_node.Common.{
  ℕ, zero, suc, ◌+◌, ◌-◌, ◌≡◌, refl, sym, ap, ◌∙◌, inl, inr, Bool, true, false, ◌||◌, List, [], ◌∷◌,
  ◌++◌, Option, none, some, length, take, drop, arith, Bool-cases, or_same, take-append_length,
  drop-append_length,
}
use brypt_node.Message.Context.{tcp}
use brypt_node.Address.{
  Address, Run, returned, undefined, Parsers, component_separator, find_scheme, find_last,
  find_wildcard, locate, address_of, is_valid, is_empty, view_at, reset, cache_located,
  cache_address_partitions,
}
use brypt_node.Address.Locating.{
  find_last-splits, find_last-append, find_last-here, find_scheme-take,
}
use brypt_node.Address.Partitions.{Built, blank, address_of-Built}
use brypt_node.Address.Copies.{or_other}
use brypt_node.Address.Binding.{
  Entry, BindingAddress, get_interface_address, scheme_part, build_binding_uri, binding_address_of,
  bound_to, with_interface,
}

abbrev or_bound : BindingAddress → Run BindingAddress → BindingAddress
or_bound other (returned a) = a
or_bound other undefined = other

-- The primary and the secondary partition.
abbrev HasParts : List ℕ → List ℕ → Address → Type 0
HasParts ip rest a = (a.primary ≡ ip) × (a.secondary ≡ rest)

find_last-component :
    (rest : List ℕ) → find_last rest ≡ none → find_last (component_separator ∷ rest) ≡ some 0
unfolding find_last
find_last-component rest e = ground arith

drop_after :
    (front : List ℕ) (c : ℕ) (rest : List ℕ) (k : ℕ)
    → length front ≡ k
    → drop (suc k) (front ++ c ∷ rest) ≡ rest
drop_after [] c rest zero e = refl
drop_after [] c rest (suc k) e = absurd (omega arith)
drop_after (d ∷ front) c rest zero e = absurd (omega arith)
drop_after (d ∷ front) c rest (suc k) e = drop_after front c rest k (omega arith)

view_at-HasParts :
    (front ip rest : List ℕ) (n : ℕ) (b : Bool)
    → length front ≡ n + 3
    → HasParts ip rest (
        view_at n
          (length front + (length ip + 0))
          (blank tcp (front ++ (ip ++ component_separator ∷ rest)) b))
view_at-HasParts front ip rest n b long =
    let tail : drop (n + 3) (front ++ (ip ++ component_separator ∷ rest))
        ≡ ip ++ component_separator ∷ rest =
      drop-append_length (n + 3) front _ long in
    let size : length ip ≡ length front + (length ip + 0) - (n + 3) = omega arith in
    (
      rw tail (take-append_length _ ip _ size),
      rw tail (drop_after ip component_separator rest _ size),
    )

-- What the two searches find in a text that is put together.
joined-HasParts :
    (parsers : Parsers) (front ip rest : List ℕ) (n : ℕ) (b : Bool) {a : Address}
    → length front ≡ n + 3
    → find_scheme (front ++ (ip ++ component_separator ∷ rest)) ≡ some n
    → find_last rest ≡ none
    → address_of parsers tcp (front ++ (ip ++ component_separator ∷ rest)) b ≡ returned a
    → is_valid a ≡ true
    → HasParts ip rest a
unfolding locate
joined-HasParts parsers front ip rest n b {a} long first plain_rest e valid =
    elim (address_of-Built parsers tcp (front ++ (ip ++ component_separator ∷ rest)) b) [
      | Built.refused r ↦
          let same : blank tcp [] false ≡ a = ap (or_other a) (sym r ∙ e) in
          let no : false ≡ true = subst (λ (c : Address). is_valid c ≡ true) (sym same) valid in cc
      | Built.ranging m p text located last before plain r ↦ cc
      | Built.partitioned m p text plain located last behind good r ↦
          let there : ◌≡◌ {A = ℕ × List ℕ} (n, front ++ (ip ++ component_separator ∷ rest))
              (m, text) =
            ap (or_same (0, [])) (rw first at located) in
          let found : find_last (front ++ (ip ++ component_separator ∷ rest))
              ≡ some (length front + (length ip + 0)) =
            find_last-append front _ _
              (find_last-append ip _ 0 (find_last-component rest plain_rest)) in
          let text_same : front ++ (ip ++ component_separator ∷ rest) ≡ text =
            ap (λ (q : ℕ × List ℕ). q.1) there in
          let at_last : find_last (front ++ (ip ++ component_separator ∷ rest)) ≡ some p =
            ap find_last text_same ∙ last in
          let place : length front + (length ip + 0) ≡ p = ap (or_same 0) (sym found ∙ at_last) in
          let built : HasParts ip rest (view_at m p (blank tcp text b)) =
            subst (λ (q : ℕ × List ℕ). HasParts ip rest (view_at q.0 p (blank tcp q.1 b))) there
              (subst
                (λ (k : ℕ).
                  HasParts ip rest
                    (view_at n k (blank tcp (front ++ (ip ++ component_separator ∷ rest)) b)))
                place (view_at-HasParts front ip rest n b long)) in
          subst (HasParts ip rest) (ap (or_other a) (sym r ∙ e)) built
    ]

-- Where the scheme of the new uri ends.
scheme_end : Option ℕ → ℕ
scheme_end none = 3
scheme_end (some n) = n

scheme_part_lem :
    (uri rest : List ℕ) (found : Option ℕ)
    → find_scheme uri ≡ found
    → (length (scheme_part tcp uri found) ≡ scheme_end found + 3)
      × (find_scheme (scheme_part tcp uri found ++ rest) ≡ some (scheme_end found))
unfolding scheme_end find_scheme
scheme_part_lem uri rest none e = (refl, refl)
scheme_part_lem uri rest (some n) e =
    let both = find_scheme-take uri rest n e in
    subst (λ (k : ℕ). (length (take k uri) ≡ n + 3) × (find_scheme (take k uri ++ rest) ≡ some n))
      {x = suc (suc (suc n))} {y = n + 3} (omega arith) (both.1, both.0)

returned-parts :
    (interface : List ℕ) (run : Run Address) {a : BindingAddress}
    → with_interface interface run ≡ returned a
    → (run ≡ returned a.address) × (a.interface ≡ interface)
returned-parts interface undefined e = cc
returned-parts interface (returned c) {a} e =
    let same : record { address = c; interface = interface } ≡ a = ap (or_bound a) e in
    (
      ap (λ (x : BindingAddress). returned x.address) same,
      ap (λ (x : BindingAddress). x.interface) (sym same),
    )

-- A uri that is empty, or bound to no interface, gives an address that is not valid.
unbound_invalid :
    (parsers : Parsers) {a : Address}
    → address_of parsers tcp [] false ≡ returned a
    → is_valid a ≡ false
unfolding address_of cache_address_partitions cache_located reset
unbound_invalid parsers {a} e = subst (λ (c : Address). is_valid c ≡ false) (ap (or_other a) e) refl

module _ (entries : List Entry) (parsers : Parsers) (uri interface : List ℕ) (p : ℕ) where
  build_binding_uri-wildcard :
      is_empty uri ≡ false
      → is_empty interface ≡ false
      → find_wildcard uri ≡ true
      → find_last uri ≡ some p
      → build_binding_uri entries tcp uri interface
        ≡ returned (
            scheme_part tcp uri (find_scheme uri)
            ++ (get_interface_address interface entries ++ drop p uri))
  unfolding build_binding_uri
  build_binding_uri-wildcard written named wild last = simp (written, named, last, wild)

  -- A valid binding address for TCP, of a uri that has a "*" and a last ":", has the address of the
  -- interface as its primary partition, what follows the last ":" as its secondary one, and keeps
  -- the name of the interface.
  pub binding_address_of-wildcard :
      {a : BindingAddress}
      → find_wildcard uri ≡ true
      → find_last uri ≡ some p
      → binding_address_of entries parsers tcp uri interface ≡ returned a
      → is_valid a.address ≡ true
      → HasParts (get_interface_address interface entries) (drop (suc p) uri) a.address
        × (a.interface ≡ interface)
  unfolding binding_address_of
  binding_address_of-wildcard {a} wild last e valid =
      elim (Bool-cases (is_empty uri || is_empty interface)) [
        | inl lacking ↦
            let nothing : build_binding_uri entries tcp uri interface ≡ returned [] =
              unfold build_binding_uri in simp lacking in
            let e' : bound_to parsers tcp interface (returned []) ≡ returned a = rw nothing at e in
            let no = unbound_invalid parsers (returned-parts interface _ e').0 in cc
        | inr full ↦
            let split = find_last-splits uri last in
            let shape : build_binding_uri entries tcp uri interface
                ≡ returned (
                    scheme_part tcp uri (find_scheme uri)
                    ++ (get_interface_address interface entries
                        ++ component_separator ∷ drop (suc p) uri)) =
              build_binding_uri-wildcard (ground arith) (ground arith) wild last
              ∙ ap
                  (λ (rest : List ℕ). returned (
                    scheme_part tcp uri (find_scheme uri)
                    ++ (get_interface_address interface entries ++ rest)))
                  (find_last-here uri last) in
            let e' : bound_to parsers tcp interface (
                  returned (
                    scheme_part tcp uri (find_scheme uri)
                    ++ (get_interface_address interface entries
                        ++ component_separator ∷ drop (suc p) uri)))
                ≡ returned a =
              rw shape at e in
            let parts = returned-parts interface _ e' in
            let scheme =
              scheme_part_lem uri
                (get_interface_address interface entries ++ component_separator ∷ drop (suc p) uri)
                (find_scheme uri) refl in
            (joined-HasParts parsers _ _ _ _ false scheme.0 scheme.1 split.1 parts.0 valid, parts.1)
      ]
