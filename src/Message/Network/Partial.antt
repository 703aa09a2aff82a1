-- ===== src/Message/Network/Partial.antt =====
-- Buffers that NetworkBuilder::Unpack leaves early, and what ValidatedBuild makes of the result.
use brypt_node.Common.{
  ℕ, ◌^◌, ◌<◌, ◌≡◌, refl, ap, ◌∙◌, true, false, List, [], ◌∷◌, ◌++◌, some, length, length-append,
  arith,
}
use brypt_node.PackUtils.{store_big}
use brypt_node.Z85.{encoded_size, padding_bytes}
use brypt_node.Message.Definitions.{
  Protocol, NetworkType, network_type_code, is_network_type_invalid, convert-network_type_code,
  network_type_code-lt, is_protocol_invalid,
}
use brypt_node.Message.Identifier.{Container}
use brypt_node.Message.Context.{Context}
use brypt_node.Message.Header.{Header, packed_buffer, pack_size, is_valid, parse_buffer}
use brypt_node.Message.Header.RoundTrip
use brypt_node.Message.Header.RoundTrip.{length-packed_buffer, parse-packed_buffer}
use brypt_node.Message.Parser.{
  within-then, inspect-then, modify-then, guard-then, guard-stop, read-then, read_or_zero-then,
  read_buffer-stop,
}
use brypt_node.Message.Network.{
  NetworkMessage, get_pack_size, unpack, from_decoded_pack, build, validated_build, validate,
  builder, set_message_context,
}

pub from_decoded_pack_lem :
    (construct : List ℕ → Container) (buffer : List ℕ) (start : NetworkMessage)
    → 0 < length buffer
    → from_decoded_pack construct buffer start ≡ (unpack construct start buffer).1
unfolding from_decoded_pack
from_decoded_pack_lem construct [] start h = absurd (omega arith)
from_decoded_pack_lem construct (b ∷ bs) start h = refl

get_pack_size_pos : (m : NetworkMessage) → 0 < get_pack_size m
unfolding get_pack_size encoded_size padding_bytes
get_pack_size_pos m = omega arith

pack_size_pos : (h : Header) → 0 < pack_size h
unfolding pack_size
pack_size_pos h = omega arith

-- ValidatedBuild looks at the header and the type alone, and recomputes the size.
pub validated_build-valid :
    (m : NetworkMessage)
    → is_protocol_invalid m.header.protocol ≡ false
    → m.header.source.valid ≡ true
    → is_network_type_invalid m.type ≡ false
    → get_pack_size m < 2 ^ 32
    → validated_build m ≡ some (build m)
unfolding validated_build validate is_valid build
validated_build-valid m p s t fits = ground (arith, get_pack_size_pos m)

module _ (construct : List ℕ → Container) (h : Header) (t : NetworkType)
    (w : RoundTrip.IsWellFormed construct h) (source_valid : h.source.valid ≡ true)
    (type_valid : is_network_type_invalid t ≡ false) (c : Context) (invalid : Container) where
  abbrev fresh : NetworkMessage
  fresh = set_message_context c (builder invalid)

  abbrev headed : NetworkMessage
  headed = record { context = c; header = h; type = t; payload = [] }

  -- The message as it stands behind the type byte.
  headed-fits : get_pack_size headed < 2 ^ 32
  unfolding get_pack_size encoded_size padding_bytes
  headed-fits = omega (arith, RoundTrip.pack_size-le construct h w)

  built : validated_build headed ≡ some (build headed)
  built = validated_build-valid headed w.protocol_valid source_valid type_valid headed-fits

  -- For a well-formed header of the application protocol with a valid source, and a valid
  -- network type: its packed buffer, the type's byte and any bytes behind them build a network
  -- message of the application protocol. The type is set before the protocol is looked at.
  pub foreign_protocol_built :
      (rest : List ℕ)
      → h.protocol ≡ Protocol.application
      → validated_build (
          from_decoded_pack construct
            (packed_buffer h ++ (store_big 1 (network_type_code t) ++ rest))
            fresh)
        ≡ some (build headed)
  unfolding unpack
  foreign_protocol_built rest p =
      ap validated_build (
        from_decoded_pack_lem construct _ fresh (
          omega (
            arith,
            length-append (packed_buffer h) (store_big 1 (network_type_code t) ++ rest),
            length-packed_buffer construct h w,
            pack_size_pos h,
          ))
        ∙ ap (λ r. r.1)
            (within-then _ _ (parse_buffer construct) _ fresh _ h _
                (parse-packed_buffer construct fresh.header h _ w)
              ∙ read_or_zero-then _ _ _ 1 (network_type_code t) (network_type_code-lt t)
              ∙ modify-then _ _ _ _
              ∙ guard-then _ _ _ _ (rw (convert-network_type_code t, type_valid))
              ∙ inspect-then _ _ _
              ∙ guard-stop _ _ _ _ (rw p))
        ∙ rw convert-network_type_code)
      ∙ built

  -- For a well-formed header of the network protocol with a valid source, and a valid network
  -- type: a pack that ends before the payload that it states builds a message with no payload.
  pub cut_payload_built :
      (size : ℕ) (front : List ℕ)
      → h.protocol ≡ Protocol.network
      → size < 2 ^ 32
      → length front < size
      → validated_build (
          from_decoded_pack construct
            (packed_buffer h ++ (store_big 1 (network_type_code t) ++ (store_big 4 size ++ front)))
            fresh)
        ≡ some (build headed)
  unfolding unpack
  cut_payload_built size front p fits short =
      ap validated_build (
        from_decoded_pack_lem construct _ fresh (
          omega (
            arith,
            length-append (packed_buffer h)
                (store_big 1 (network_type_code t) ++ (store_big 4 size ++ front)),
            length-packed_buffer construct h w,
            pack_size_pos h,
          ))
        ∙ ap (λ r. r.1)
            (within-then _ _ (parse_buffer construct) _ fresh _ h _
                (parse-packed_buffer construct fresh.header h _ w)
              ∙ read_or_zero-then _ _ _ 1 (network_type_code t) (network_type_code-lt t)
              ∙ modify-then _ _ _ _
              ∙ guard-then _ _ _ _ (rw (convert-network_type_code t, type_valid))
              ∙ inspect-then _ _ _
              ∙ guard-then _ _ _ _ (rw p)
              ∙ read-then _ _ _ 4 size (omega arith)
              ∙ read_buffer-stop _ _ _ _ _ (omega arith))
        ∙ rw convert-network_type_code)
      ∙ built
