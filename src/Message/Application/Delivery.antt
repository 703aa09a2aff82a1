-- ===== src/Message/Application/Delivery.antt =====
-- A signed pack and what the receiving node builds of it.
use brypt_node.Common.{
  ℕ, zero, suc, ◌+◌, ◌-◌, ◌%◌, ◌^◌, ◌≤◌, ◌<◌, ◌≡◌, refl, ap, ◌∙◌, ◌≢◌, inl, inr, Bool, true, false,
  List, [], ◌∷◌, ◌++◌, append_assoc, append-nil, Option, none, some, length, length-append,
  length-replicate, replicate, if◌then◌else◌, All, All-append, Bool-cases, arith,
}
use brypt_node.PackUtils.{IsByte}
use brypt_node.Z85.{encode, decode, encoded_size, padding_bytes}
use brypt_node.Z85.RoundTrip.{has_full_block, padded, length-encode, decode-encode}
use brypt_node.Message.Identifier.{Container}
use brypt_node.Message.Context.{Context, sign, verify}
use brypt_node.Message.Header.{is_valid, parse_buffer}
use brypt_node.Message.Header.RoundTrip
use brypt_node.Message.Header.RoundTrip.{parse_buffer_short}
use brypt_node.Message.Parser.{within-stop}
use brypt_node.Message.Application.Defs.{
  ApplicationMessage, AwaitBinding, extension_size, sections, packed, encode_signed, get_pack,
  get_pack_size, validate, builder, set_message_context,
}
use brypt_node.Message.Application.Unpack.{
  unpack, if_verified, build_of_size, from_encoded_pack, validated_build, build,
}
use brypt_node.Message.Application.Extensions.{starts_extension}
use brypt_node.Message.Application.RoundTrip.{
  IsSendable, length-sections, sections-IsByte, unpack-sections,
}

-- The sender's signator appends the signature, which the receiver's verifier accepts; both know its
-- size, a multiple of four.
pub record IsSigned (c : Context) (m : ApplicationMessage) (signature : List ℕ) : Type 0 where
  pub signed : sign m.context (packed m) ≡ some (false, packed m ++ signature)
  pub bytes : All IsByte signature
  pub short : length signature < 2 ^ 20
  pub whole : length signature % 4 ≡ 0
  pub verified : verify c (packed m ++ signature) ≡ some true
  pub size_known : c.signature_size ≡ some (length signature)

abbrev pub padding : ApplicationMessage → List ℕ
padding m = replicate ((4 - length (sections m) % 4) % 4) 0

replicate-IsByte : (n : ℕ) → All IsByte (replicate n 0)
replicate-IsByte zero = tt
replicate-IsByte (suc n) = (omega arith, replicate-IsByte n)

no_padding : (n : ℕ) → n % 4 ≡ 0 → replicate {A = ℕ} ((4 - n % 4) % 4) 0 ≡ []
no_padding n h = rw h

extension_size-le : (t : Option (AwaitBinding × ℕ)) → extension_size t ≤ 8
extension_size-le none = omega arith
extension_size-le (some t) = omega arith

abbrev pub build_received : Option ApplicationMessage → Option (Option ApplicationMessage)
build_received none = none
build_received (some m) = validated_build m

-- What a fresh builder makes of a pack: an exception, nothing, or a message.
abbrev pub receive :
    (List ℕ → Container) → Context → Container → ℕ → List ℕ → Option (Option ApplicationMessage)
receive construct c no_source now pack =
    build_received
      (from_encoded_pack construct pack (set_message_context c (builder no_source now)))

unpack_nothing :
    (construct : List ℕ → Container) (start : ApplicationMessage)
    → (unpack construct start []).1 ≡ start
unfolding unpack
unpack_nothing construct start =
    ap (λ r. r.1)
      (within-stop _ _ (parse_buffer construct) _ start [] start.header []
        (parse_buffer_short construct start.header [] (omega arith)))

from_encoded_pack_lem :
    (construct : List ℕ → Container) (pack : List ℕ) (start : ApplicationMessage)
    → 0 < length pack
    → from_encoded_pack construct pack start
      ≡ if_verified
          (verify start.context (decode pack))
          start
          (unpack construct start (decode pack)).1
unfolding from_encoded_pack
from_encoded_pack_lem construct [] start h = absurd (omega arith)
from_encoded_pack_lem construct (c ∷ cs) start h = refl

-- Nothing is built of a builder that nothing was read into.
unbuilt :
    (c : Context) (no_source : Container) (now signature : ℕ)
    → no_source.valid ≡ false
    → c.signature_size ≡ some signature
    → validated_build (set_message_context c (builder no_source now)) ≡ some none
unfolding validated_build validate is_valid build
unbuilt c no_source now signature e h = rw (h, e) (ground arith)

verify-ne-none :
    (c : Context) (buffer other : List ℕ) → verify c buffer ≡ some true → verify c other ≢ none
verify-ne-none c buffer other h e = ground arith

-- A verifier that is there leaves a builder alone whose pack did not decode.
if_verified_same :
    (v : Option Bool) (start : ApplicationMessage) (m : ApplicationMessage)
    → v ≢ none
    → m ≡ start
    → if_verified v start m ≡ some start
if_verified_same none start m h e = absurd (h refl)
if_verified_same (some false) start m h e = refl
if_verified_same (some true) start m h e = ap some e

module _ (construct : List ℕ → Container) (c : Context) (m : ApplicationMessage)
    (signature : List ℕ) (w : IsSendable construct (length signature) m)
    (s : IsSigned c m signature) where
  length-packed : length (packed m) ≡ length (sections m) + (4 - length (sections m) % 4) % 4
  unfolding packed
  length-packed = rw length-append (rw length-replicate)

  signed-IsByte : All IsByte (packed m ++ signature)
  unfolding packed
  signed-IsByte =
      All-append IsByte _ _
        (All-append IsByte _ _ (sections-IsByte construct _ m w) (replicate-IsByte _)) s.bytes

  length-signed : length (packed m ++ signature) ≡ length (packed m) + length signature
  length-signed = length-append (packed m) signature

  signed_fits : length (packed m ++ signature) < 2 ^ 31
  signed_fits = omega (
    arith,
    length-signed,
    length-packed,
    length-sections construct _ m w,
    RoundTrip.pack_size-le construct m.header w.header_formed,
    extension_size-le m.tracker,
  )

  signed_whole : padded (packed m ++ signature) ≡ packed m ++ signature
  unfolding padded padding_bytes
  signed_whole =
      rw
        (no_padding (length (packed m ++ signature))
          (omega (arith, length-signed, length-packed, s.whole)))
        (append-nil (packed m ++ signature))

  -- GetPack of a sendable message with a handler that signs it gives the encoding of the packed
  -- bytes and the signature, and it is as long as GetPackSize states.
  pub get_pack_lem :
      (get_pack m ≡ some (encode (packed m ++ signature)))
      × (length (encode (packed m ++ signature)) ≡ get_pack_size (length signature) m)
  unfolding get_pack get_pack_size encoded_size padding_bytes
  get_pack_lem = (
    ap encode_signed s.signed,
    length-encode (packed m ++ signature) signed-IsByte
        ∙ omega (arith, length-signed, length-packed, length-sections construct _ m w, s.whole),
  )

  pub decode-signed :
      decode (encode (packed m ++ signature))
      ≡ (if has_full_block (packed m ++ signature) then [] else packed m ++ signature)
  decode-signed =
      decode-encode (packed m ++ signature) signed-IsByte signed_fits
      ∙ ap (λ p. if has_full_block (packed m ++ signature) then [] else p) signed_whole

  pub get_pack_size_pos : 0 < get_pack_size (length signature) m
  unfolding get_pack_size encoded_size padding_bytes
  get_pack_size_pos = omega arith

  header_valid : is_valid m.header ≡ true
  unfolding is_valid
  header_valid =
      rw (w.application, w.source_valid, w.size_stated) (ground (arith, get_pack_size_pos))

  size_again : get_pack_size (length signature) (record m { context = c }) % 2 ^ 32 ≡ m.header.size
  unfolding get_pack_size
  size_again = omega (arith, w.size_stated, w.header_formed.size_fits)

  -- Rebuilding a message that states its size changes nothing.
  pub validated_build_lem :
      validated_build (record m { context = c }) ≡ some (some (record m { context = c }))
  unfolding validated_build validate build
  validated_build_lem =
      ap (λ o. build_of_size o (record m { context = c })) s.size_known
      ∙ rw (size_again, header_valid, w.command_valid) (ground (arith, w.timestamp_set))

  -- The byte behind the sections: of the padding, or else of the signature.
  abbrev pub tail : List ℕ
  tail = padding m ++ signature

  pub unpack-signed :
      (start : ApplicationMessage)
      → start.payload ≡ []
      → start.tracker ≡ none
      → starts_extension tail ≡ false
      → (unpack construct start (packed m ++ signature)).1 ≡ record m { context = start.context }
  unfolding packed
  unpack-signed start e n ends =
      ap (λ b. (unpack construct start b).1) (append_assoc (sections m) (padding m) signature)
      ∙ unpack-sections construct _ m w start tail e n ends

  -- What a builder that begins with an invalid source builds of the signed pack of a sendable
  -- message, where the receiving context verifies the signature and the byte behind the
  -- sections is not that of an await tracker: the message, in the receiving context, unless the
  -- signed bytes have four bytes 0xff at a multiple of four. Then no message is built.
  pub receive-application_pack :
      (no_source : Container) (now : ℕ)
      → no_source.valid ≡ false
      → starts_extension tail ≡ false
      → receive construct c no_source now (encode (packed m ++ signature)) ≡ (
          if has_full_block (packed m ++ signature)
          then some none
          else some (some (record m { context = c })))
  receive-application_pack no_source now e ends =
      let start : ApplicationMessage = set_message_context c (builder no_source now) in
      ap build_received (
        from_encoded_pack_lem construct _ start (omega (arith, get_pack_lem.1, get_pack_size_pos))
        ∙ ap (λ b. if_verified (verify c b) start (unpack construct start b).1) decode-signed)
      ∙ elim (Bool-cases (has_full_block (packed m ++ signature))) [
        | inl full ↦ rw full (
            ap build_received (
              if_verified_same (verify c []) start _
                (verify-ne-none c (packed m ++ signature) [] s.verified)
                (unpack_nothing construct start))
            ∙ unbuilt c no_source now (length signature) e s.size_known)
        | inr other ↦ rw other (
            ap
              (λ r.
                build_received
                  (if_verified r start (unpack construct start (packed m ++ signature)).1))
              s.verified
            ∙ ap validated_build (unpack-signed start refl refl ends)
            ∙ validated_build_lem)
      ]
