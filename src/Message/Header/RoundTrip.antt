-- ===== src/Message/Header/RoundTrip.antt =====
-- Parsing what GetPackedBuffer wrote.
use brypt_node.Common.{
  All, All-append, ℕ, ◌+◌, ◌≤◌, ◌<◌, ◌^◌, ◌≡◌, refl, sym, ap, ◌∙◌, false, List, [], ◌++◌,
  append_assoc, append-nil, Option, none, some, length, length-append, arith,
}
use mathlib.Core.Path.{subst}
use brypt_node.PackUtils.{IsByte, pack_chunk, store_big}
use brypt_node.PackUtils.RoundTrip.{store_big-IsByte, pack_buffer_lem, length-store_big}
use brypt_node.Message.Definitions.{
  protocol_code, destination_code, is_protocol_invalid, is_destination_invalid,
  convert-protocol_code, convert-destination_code, protocol_code-lt, destination_code-lt,
}
use brypt_node.Message.Identifier.{Container}
use brypt_node.Message.Parser.{
  done, modify, modify-then, guard-then, guard-stop, require-then, require-stop, read-then,
  read_or_zero-then, read_buffer-then, present-then, call-then,
}
use brypt_node.Message.Header.{
  Header, minimum_length, maximum_length, fixed_pack_size, packed_buffer, pack_size, parse_buffer,
  unpack_identifier, pack_destination, network_size,
}

-- The bytes of an identifier: its size, then its text.
abbrev pub identifier_bytes : Container → List ℕ
identifier_bytes c = store_big 1 (length c.network_representation) ++ c.network_representation

abbrev pub destination_bytes : Option Container → List ℕ
destination_bytes none = store_big 1 0
destination_bytes (some c) = identifier_bytes c

-- An identifier that can travel: of a length that is accepted, and rebuilt from its own text.
pub record Travels (construct : List ℕ → Container) (c : Container) : Type 0 where
  pub long_enough : minimum_length ≤ length c.network_representation
  pub short_enough : length c.network_representation ≤ maximum_length
  pub text : All IsByte c.network_representation
  pub rebuilt : construct c.network_representation ≡ c

abbrev pub TravelsIfAny : (List ℕ → Container) → Option Container → Type 0
TravelsIfAny construct none = Unit
TravelsIfAny construct (some c) = Travels construct c

pub record IsWellFormed (construct : List ℕ → Container) (h : Header) : Type 0 where
  pub protocol_valid : is_protocol_invalid h.protocol ≡ false
  pub major_fits : h.version_major < 256
  pub minor_fits : h.version_minor < 256
  pub size_fits : h.size < 2 ^ 32
  pub source_travels : Travels construct h.source
  pub destination_valid : is_destination_invalid h.destination ≡ false
  pub destination_travels : TravelsIfAny construct h.destination_identifier

pack_destination_lem :
    (construct : List ℕ → Container) (o : Option Container) (buffer : List ℕ)
    → TravelsIfAny construct o
    → pack_destination o buffer ≡ buffer ++ destination_bytes o
unfolding pack_destination
pack_destination_lem construct none buffer t = unfold pack_chunk in refl
pack_destination_lem construct (some c) buffer t =
    pack_buffer_lem 1 c.network_representation buffer (omega arith)

-- The packed header, section by section.
pub packed_buffer_lem :
    (construct : List ℕ → Container) (h : Header) (rest : List ℕ)
    → IsWellFormed construct h
    → packed_buffer h ++ rest
      ≡ store_big 1 (protocol_code h.protocol)
        ++ (store_big 1 h.version_major
            ++ (store_big 1 h.version_minor
                ++ (store_big 4 h.size
                    ++ (identifier_bytes h.source
                        ++ (store_big 1 (destination_code h.destination)
                            ++ (destination_bytes h.destination_identifier
                                ++ (store_big 1 0 ++ rest)))))))
unfolding packed_buffer pack_chunk
packed_buffer_lem construct h rest w =
    rw
      (
        pack_buffer_lem 1 h.source.network_representation _
            (omega (arith, w.source_travels.short_enough)),
        pack_destination_lem construct h.destination_identifier _ w.destination_travels,
      )
      (simp append_assoc)

length-destination_bytes :
    (o : Option Container) → length (destination_bytes o) ≡ 1 + network_size o
unfolding network_size
length-destination_bytes none = length-store_big 1 0
length-destination_bytes (some c) = rw (length-append, length-store_big) refl

ruleset lengths = (length-append, length-store_big, length-destination_bytes)

-- GetPackSize of a well-formed header is the length of its packed buffer.
pub length-packed_buffer :
    (construct : List ℕ → Container) (h : Header)
    → IsWellFormed construct h
    → length (packed_buffer h) ≡ pack_size h
unfolding pack_size
length-packed_buffer construct h w =
    ap length (sym (append-nil (packed_buffer h)))
    ∙ ap length (packed_buffer_lem construct h [] w)
    ∙ simp lengths (omega arith)

section : (n v : ℕ) (rest : List ℕ) → All IsByte rest → All IsByte (store_big n v ++ rest)
section n v rest h = All-append IsByte (store_big n v) rest (store_big-IsByte n v) h

network_size-le :
    (construct : List ℕ → Container) (o : Option Container)
    → TravelsIfAny construct o
    → network_size o ≤ maximum_length
unfolding network_size
network_size-le construct none t = omega arith
network_size-le construct (some c) t = t.short_enough

identifier-IsByte :
    (construct : List ℕ → Container) (c : Container)
    → Travels construct c
    → All IsByte (identifier_bytes c)
identifier-IsByte construct c t = All-append IsByte _ _ (store_big-IsByte 1 _) t.text

destination-IsByte :
    (construct : List ℕ → Container) (o : Option Container)
    → TravelsIfAny construct o
    → All IsByte (destination_bytes o)
destination-IsByte construct none t = store_big-IsByte 1 0
destination-IsByte construct (some c) t = identifier-IsByte construct c t

-- A packed header holds bytes.
pub packed_buffer-IsByte :
    (construct : List ℕ → Container) (h : Header)
    → IsWellFormed construct h
    → All IsByte (packed_buffer h)
packed_buffer-IsByte construct h w =
    subst (All IsByte) (sym (packed_buffer_lem construct h [] w) ∙ append-nil (packed_buffer h)) (
      section 1 _ _ (
        section 1 _ _ (
          section 1 _ _ (
            section 4 _ _ (
              All-append IsByte _ _ (identifier-IsByte construct h.source w.source_travels) (
                section 1 _ _ (
                  All-append IsByte _ _
                    (destination-IsByte construct h.destination_identifier w.destination_travels)
                    (section 1 0 [] tt))))))))

-- A well-formed header is short.
pub pack_size-le :
    (construct : List ℕ → Container) (h : Header) → IsWellFormed construct h → pack_size h ≤ 77
unfolding pack_size
pack_size-le construct h w =
    omega (arith, w.source_travels.short_enough, network_size-le construct _ w.destination_travels)

fixed_fits :
    (construct : List ℕ → Container) (h : Header) (rest : List ℕ)
    → IsWellFormed construct h
    → fixed_pack_size
      ≤ length (
          store_big 1 (protocol_code h.protocol)
          ++ (store_big 1 h.version_major
              ++ (store_big 1 h.version_minor
                  ++ (store_big 4 h.size
                      ++ (identifier_bytes h.source
                          ++ (store_big 1 (destination_code h.destination)
                              ++ (destination_bytes h.destination_identifier
                                  ++ (store_big 1 0 ++ rest))))))))
fixed_fits construct h rest w = simp lengths (omega arith)

module _ (construct : List ℕ → Container) where
  unpack_identifier-some :
      (c : Container) (rest : List ℕ)
      → Travels construct c
      → unpack_identifier construct none (identifier_bytes c ++ rest) ≡ (some tt, some c, rest)
  unfolding unpack_identifier
  unpack_identifier-some c rest t =
      ap (λ b. unpack_identifier construct none b) (append_assoc _ c.network_representation rest)
      ∙ read-then _ none _ 1 (length c.network_representation) (omega arith)
      ∙ guard-then _ none _ _ (ground arith)
      ∙ read_buffer-then _ none c.network_representation [] rest _ refl
      ∙ rw (append-nil, t.rebuilt) (unfold modify in refl)

  unpack_identifier-none :
      (rest : List ℕ)
      → unpack_identifier construct none (store_big 1 0 ++ rest) ≡ (none, none, rest)
  unfolding unpack_identifier
  unpack_identifier-none rest =
      read-then _ none rest 1 0 (omega arith) ∙ guard-stop _ none rest _ refl

  unpacked : Option Container → Option (Unit {0})
  unpacked none = none
  unpacked (some c) = some tt

  unpack_destination_lem :
      (o : Option Container) (rest : List ℕ)
      → TravelsIfAny construct o
      → unpack_identifier construct none (destination_bytes o ++ rest) ≡ (unpacked o, o, rest)
  unfolding unpacked
  unpack_destination_lem none rest t = unpack_identifier-none rest
  unpack_destination_lem (some c) rest t = unpack_identifier-some c rest t

  -- ParseBuffer reads back a well-formed header from its packed buffer and any bytes behind it,
  -- whatever header it is read into, and leaves those bytes.
  pub parse-packed_buffer :
      (start h : Header) (rest : List ℕ)
      → IsWellFormed construct h
      → parse_buffer construct start (packed_buffer h ++ rest) ≡ (some tt, h, rest)
  unfolding parse_buffer
  parse-packed_buffer start h rest w =
      ap (parse_buffer construct start) (packed_buffer_lem construct h rest w)
      ∙ require-then _ start _ fixed_pack_size (fixed_fits construct h rest w)
      ∙ read_or_zero-then _ start _ 1 (protocol_code h.protocol) (protocol_code-lt h.protocol)
      ∙ modify-then _ start _ _
      ∙ guard-then _ _ _ _ (rw (convert-protocol_code h.protocol, w.protocol_valid))
      ∙ read-then _ _ _ 1 h.version_major (omega (arith, w.major_fits))
      ∙ modify-then _ _ _ _
      ∙ read-then _ _ _ 1 h.version_minor (omega (arith, w.minor_fits))
      ∙ modify-then _ _ _ _
      ∙ read-then _ _ _ 4 h.size (omega (arith, w.size_fits))
      ∙ modify-then _ _ _ _
      ∙ call-then _ none _ _ _ _ _ _ (unpack_identifier-some h.source _ w.source_travels)
      ∙ present-then h.source _ _ _
      ∙ modify-then _ _ _ _
      ∙ read_or_zero-then _ _ _ 1 (destination_code h.destination)
          (destination_code-lt h.destination)
      ∙ modify-then _ _ _ _
      ∙ guard-then _ _ _ _ (rw (convert-destination_code h.destination, w.destination_valid))
      ∙ call-then _ none _ _ _ _ _ _
          (unpack_destination_lem h.destination_identifier _ w.destination_travels)
      ∙ modify-then _ _ _ _
      ∙ read-then _ _ _ 1 0 (omega arith)
      ∙ rw (convert-protocol_code h.protocol, convert-destination_code h.destination)
          (unfold done in refl)

-- A buffer below the fixed size is refused before anything is written.
pub parse_buffer_short :
    (construct : List ℕ → Container) (h : Header) (rest : List ℕ)
    → length rest < fixed_pack_size
    → parse_buffer construct h rest ≡ (none, h, rest)
unfolding parse_buffer
parse_buffer_short construct h rest short = require-stop _ h rest fixed_pack_size short
