-- ===== src/Message/Network/RoundTrip.antt =====
-- A network message sent and received.
use brypt_node.Common.{
  ℕ, zero, suc, ◌+◌, ◌-◌, ◌%◌, ◌^◌, ◌<◌, ◌≡◌, refl, sym, ap, ◌∙◌, inl, inr, true, false, List, [],
  ◌∷◌, ◌++◌, append_assoc, append-nil, none, some, length, length-append, length-replicate,
  replicate, if◌then◌else◌, All, All-append, Bool-cases, arith,
}
use mathlib.Core.Path.{subst}
use brypt_node.PackUtils.{IsByte, store_big, pack_chunk}
use brypt_node.PackUtils.RoundTrip.{length-store_big, store_big-IsByte, pack_buffer_lem}
use brypt_node.Z85.{decode, encoded_size, padding_bytes}
use brypt_node.Z85.RoundTrip.{has_full_block, padded, length-encode, decode-encode}
use brypt_node.Message.Definitions.{
  Protocol, network_type_code, is_network_type_invalid, convert-network_type_code,
  network_type_code-lt,
}
use brypt_node.Message.Identifier.{Container}
use brypt_node.Message.Context.{Context}
use brypt_node.Message.Header.{packed_buffer, pack_size, is_valid, parse_buffer}
use brypt_node.Message.Header.RoundTrip
use brypt_node.Message.Header.RoundTrip.{
  pack_size-le, length-packed_buffer, packed_buffer-IsByte, parse-packed_buffer,
}
use brypt_node.Message.Parser.{
  done, within-then, within-stop, require-stop, inspect-then, modify-then, guard-then, read-then,
  read_or_zero-then, read_buffer-then,
}
use brypt_node.Message.Network.{
  NetworkMessage, fixed_pack_size, get_pack_size, sections, packed, get_pack, unpack,
  from_encoded_pack, validated_build, validate, builder, set_message_context,
}

-- A message that the sender may pack: a well-formed header of the network protocol that states the
-- size of the pack, a valid type, and a payload below a gigabyte.
pub record IsSendable (construct : List ℕ → Container) (m : NetworkMessage) : Type 0 where
  pub header_formed : RoundTrip.IsWellFormed construct m.header
  pub network : m.header.protocol ≡ Protocol.network
  pub source_valid : m.header.source.valid ≡ true
  pub type_valid : is_network_type_invalid m.type ≡ false
  pub payload_bytes : All IsByte m.payload
  pub payload_fits : length m.payload < 2 ^ 30
  pub size_stated : m.header.size ≡ get_pack_size m

abbrev pub body : NetworkMessage → List ℕ → List ℕ
body m rest =
    store_big 1 (network_type_code m.type)
    ++ (store_big 4 (length m.payload) ++ (m.payload ++ (store_big 1 0 ++ rest)))

pub sections_lem :
    (m : NetworkMessage) (rest : List ℕ)
    → length m.payload < 2 ^ 30
    → sections m ++ rest ≡ packed_buffer m.header ++ body m rest
unfolding sections pack_chunk
sections_lem m rest h = rw (pack_buffer_lem 4 m.payload _ (omega arith)) (simp append_assoc)

replicate-IsByte : (n : ℕ) → All IsByte (replicate n 0)
replicate-IsByte zero = tt
replicate-IsByte (suc n) = (omega arith, replicate-IsByte n)

no_padding : (n : ℕ) → n % 4 ≡ 0 → replicate {A = ℕ} ((4 - n % 4) % 4) 0 ≡ []
no_padding n h = rw h

module _ (construct : List ℕ → Container) (m : NetworkMessage) (w : IsSendable construct m) where
  length-sections : length (sections m) ≡ fixed_pack_size + pack_size m.header + length m.payload
  length-sections =
      ap length (sym (append-nil (sections m)) ∙ sections_lem m [] w.payload_fits)
      ∙ simp (length-append, length-store_big)
          (omega (arith, length-packed_buffer construct m.header w.header_formed))

  sections-IsByte : All IsByte (sections m)
  sections-IsByte =
      subst (All IsByte) (sym (sections_lem m [] w.payload_fits) ∙ append-nil (sections m)) (
        All-append IsByte _ _ (packed_buffer-IsByte construct m.header w.header_formed) (
          All-append IsByte _ _ (store_big-IsByte 1 _) (
            All-append IsByte _ _ (store_big-IsByte 4 _) (
              All-append IsByte _ _ w.payload_bytes
                (All-append IsByte _ [] (store_big-IsByte 1 _) tt)))))

  length-packed : length (packed m) ≡ length (sections m) + (4 - length (sections m) % 4) % 4
  unfolding packed
  length-packed = rw length-append (rw length-replicate)

  packed-IsByte : All IsByte (packed m)
  unfolding packed
  packed-IsByte = All-append IsByte _ _ sections-IsByte (replicate-IsByte _)

  -- The pack needs no padding from the encoding.
  packed-whole : padded (packed m) ≡ packed m
  unfolding padded padding_bytes
  packed-whole =
      rw (no_padding (length (packed m)) (omega (arith, length-packed))) (append-nil (packed m))

  packed_fits : length (packed m) < 2 ^ 31
  packed_fits =
      omega (arith, length-packed, length-sections, pack_size-le construct m.header w.header_formed)

  -- What Decode makes of a pack.
  pub decode-get_pack : decode (get_pack m) ≡ (if has_full_block (packed m) then [] else packed m)
  unfolding get_pack
  decode-get_pack =
      decode-encode (packed m) packed-IsByte packed_fits
      ∙ ap (λ p. if has_full_block (packed m) then [] else p) packed-whole

  -- GetPackSize of a sendable message is the length of its pack.
  pub length-network_pack : length (get_pack m) ≡ get_pack_size m
  unfolding get_pack get_pack_size encoded_size padding_bytes
  length-network_pack =
      length-encode (packed m) packed-IsByte ∙ omega (arith, length-packed, length-sections)

  -- Unpacking the sections gives the message in the context of the message that they are read into.
  pub unpack-sections :
      (start : NetworkMessage) (rest : List ℕ)
      → start.payload ≡ []
      → unpack construct start (sections m ++ rest)
        ≡ (some tt, record m { context = start.context }, rest)
  unfolding unpack
  unpack-sections start rest e =
      ap (unpack construct start) (sections_lem m rest w.payload_fits)
      ∙ within-then _ _ (parse_buffer construct) _ start _ m.header _
          (parse-packed_buffer construct start.header m.header _ w.header_formed)
      ∙ read_or_zero-then _ _ _ 1 (network_type_code m.type) (network_type_code-lt m.type)
      ∙ modify-then _ _ _ _
      ∙ guard-then _ _ _ _ (rw (convert-network_type_code m.type, w.type_valid))
      ∙ inspect-then _ _ _
      ∙ guard-then _ _ _ _ (rw w.network)
      ∙ read-then _ _ _ 4 (length m.payload) (omega (arith, w.payload_fits))
      ∙ read_buffer-then _ _ m.payload start.payload _ _ (omega (arith, ap length e))
      ∙ modify-then _ _ _ _
      ∙ read-then _ _ _ 1 0 (omega arith)
      ∙ rw convert-network_type_code (
          unfold done in
          ap (λ p. (some tt, record m { context = start.context; payload = p }, rest))
            (ap (λ q. m.payload ++ q) e ∙ append-nil m.payload))

unpack_nothing :
    (construct : List ℕ → Container) (start : NetworkMessage)
    → unpack construct start [] ≡ (none, start, [])
unfolding unpack
unpack_nothing construct start =
    within-stop _ _ (parse_buffer construct) _ start [] start.header []
      (unfold parse_buffer in require-stop _ start.header [] _ (omega arith))

from_encoded_pack_lem :
    (construct : List ℕ → Container) (pack : List ℕ) (start : NetworkMessage)
    → 0 < length pack
    → from_encoded_pack construct pack start ≡ (unpack construct start (decode pack)).1
unfolding from_encoded_pack
from_encoded_pack_lem construct [] start h = absurd (omega arith)
from_encoded_pack_lem construct (c ∷ cs) start h = refl

-- A message that nothing was read into is not built.
unbuilt :
    (c : Context) (invalid : Container)
    → invalid.valid ≡ false
    → validated_build (set_message_context c (builder invalid)) ≡ none
unfolding validated_build validate is_valid
unbuilt c invalid e = ground arith

module _ (construct : List ℕ → Container) (m : NetworkMessage) (w : IsSendable construct m) where
  pub get_pack_size_pos : 0 < get_pack_size m
  unfolding get_pack_size encoded_size padding_bytes
  get_pack_size_pos = omega arith

  header_valid : is_valid m.header ≡ true
  unfolding is_valid
  header_valid = rw (w.network, w.source_valid, w.size_stated) (ground (arith, get_pack_size_pos))

  size_again : (c : Context) → get_pack_size (record m { context = c }) % 2 ^ 32 ≡ m.header.size
  unfolding get_pack_size
  size_again c = omega (arith, w.size_stated, w.header_formed.size_fits)

  pub unpack-packed :
      (start : NetworkMessage)
      → start.payload ≡ []
      → (unpack construct start (packed m)).1 ≡ record m { context = start.context }
  unfolding packed
  unpack-packed start e = ap (λ r. r.1) (unpack-sections construct m w start _ e)

  -- Rebuilding a message that states its size changes nothing.
  pub validated_build_lem :
      (c : Context) → validated_build (record m { context = c }) ≡ some (record m { context = c })
  unfolding validated_build validate
  validated_build_lem c = rw (size_again c, header_valid, w.type_valid)

  -- What a builder that begins with an invalid source builds of the pack of a sendable message:
  -- the message, in the context of the receiving endpoint, unless its packed bytes have four
  -- bytes 0xff at a multiple of four. Then no message is built.
  pub receive-network_pack :
      (c : Context) (invalid : Container)
      → invalid.valid ≡ false
      → validated_build
          (from_encoded_pack construct (get_pack m) (set_message_context c (builder invalid)))
        ≡ (if has_full_block (packed m) then none else some (record m { context = c }))
  receive-network_pack c invalid e =
      let start : NetworkMessage = set_message_context c (builder invalid) in
      ap validated_build (
        from_encoded_pack_lem construct (get_pack m) start
          (omega (arith, length-network_pack construct m w, get_pack_size_pos))
        ∙ ap (λ b. (unpack construct start b).1) (decode-get_pack construct m w))
      ∙ elim (Bool-cases (has_full_block (packed m))) [
        | inl full ↦
            rw full
              (ap (λ r. validated_build r.1) (unpack_nothing construct start) ∙ unbuilt c invalid e)
        | inr other ↦
            rw other (ap validated_build (unpack-packed start refl) ∙ validated_build_lem c)
      ]
