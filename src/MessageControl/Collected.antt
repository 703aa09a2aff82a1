-- ===== src/MessageControl/Collected.antt =====
-- What an authorized processor does with the packs that another node made.
use brypt_node.Common.{
  ℕ, ◌<◌, ◌≡◌, refl, ap, sym, ◌∙◌, inl, inr, true, false, List, [], ◌∷◌, ◌++◌, none, some, length,
  if◌then◌else◌, append_assoc, Bool-cases, arith,
}
use brypt_node.Z85.{encode}
use brypt_node.Z85.RoundTrip.{has_full_block}
use brypt_node.Message.Definitions.{Protocol}
use brypt_node.Message.Identifier.{Container}
use brypt_node.Message.Context.{Context, verify}
use brypt_node.Message.Peek.{peek_protocol, peek-packed_buffer}
use brypt_node.Message.Network as Network
use brypt_node.Message.Network.{NetworkMessage}
use brypt_node.Message.Network.RoundTrip as Sent
use brypt_node.Message.Network.Partial as Partial
use brypt_node.Message.Application.Defs as Application
use brypt_node.Message.Application.Defs.{ApplicationMessage}
use brypt_node.Message.Application.Unpack as Unpacked
use brypt_node.Message.Application.Extensions.{starts_extension}
use brypt_node.Message.Application.RoundTrip as Fit
use brypt_node.Message.Application.Delivery as Delivered
use brypt_node.MessageControl.Authorized.{
  Outside, Processor, answer, queue_message, handle_message, handle_if_built, build_if_read,
  queue_if_built, collect_by_protocol, collect_decoded, collect_message,
}

peek_protocol-nil : peek_protocol [] ≡ none
unfolding peek_protocol
peek_protocol-nil = refl

collect-nil :
    (o : Outside) (p : Processor) (peer : ℕ) (c : Context)
    → collect_decoded o p peer c [] ≡ some (answer p false [])
unfolding collect_decoded
collect-nil o p peer c = ap (collect_by_protocol o p peer c []) peek_protocol-nil

peeked-length :
    {protocol : Protocol} (buffer : List ℕ)
    → peek_protocol buffer ≡ some protocol
    → 0 < length buffer
peeked-length [] peeked = let h = sym peek_protocol-nil ∙ peeked in ground (arith, h)
peeked-length (b ∷ bs) peeked = omega arith

module _ (o : Outside) (m : NetworkMessage) (w : Sent.IsSendable o.construct m) where
  peek-network_pack : peek_protocol (Network.packed m) ≡ some Protocol.network
  unfolding Network.packed
  peek-network_pack =
      ap peek_protocol (Sent.sections_lem m _ w.payload_fits)
      ∙ (peek-packed_buffer o.construct m.header _ w.header_formed
          (λ e. absurd (omega (arith, Sent.get_pack_size_pos o.construct m w, w.size_stated, e)))
          w.source_valid).0
      ∙ ap some w.network

  length-network : 0 < length (Network.packed m)
  length-network = peeked-length (Network.packed m) peek-network_pack

  built_network :
      (c : Context)
      → Network.validated_build (
          Network.from_decoded_pack o.construct
            (Network.packed m)
            (Network.set_message_context c (Network.builder o.no_source)))
        ≡ some (record m { context = c })
  built_network c =
      ap Network.validated_build (
        Partial.from_decoded_pack_lem o.construct (Network.packed m) _ length-network
        ∙ Sent.unpack-packed o.construct m w _ refl)
      ∙ Sent.validated_build_lem o.construct m w c

  -- CollectMessage of the pack of a sendable network message handles that message, in the context
  -- that it came in, unless its packed bytes have four bytes 0xff at a multiple of four. Then the
  -- pack is refused.
  pub collect_message-network :
      (p : Processor) (peer : ℕ) (c : Context)
      → collect_message o p peer c (Network.get_pack m) ≡ (
          if has_full_block (Network.packed m)
          then some (answer p false [])
          else handle_message o p peer (record m { context = c }))
  unfolding collect_message
  collect_message-network p peer c =
      ap (collect_decoded o p peer c) (Sent.decode-get_pack o.construct m w)
      ∙ elim (Bool-cases (has_full_block (Network.packed m))) [
        | inl full ↦ rw full (collect-nil o p peer c)
        | inr other ↦ rw other (
            unfold collect_decoded in
            ap (collect_by_protocol o p peer c (Network.packed m)) peek-network_pack
            ∙ ap (handle_if_built o p peer) (built_network c))
      ]

decoded_lem :
    (construct : List ℕ → Container) (buffer : List ℕ) (start : ApplicationMessage)
    → 0 < length buffer
    → verify start.context buffer ≡ some true
    → Unpacked.from_decoded_pack construct buffer start
      ≡ some (Unpacked.unpack construct start buffer).1
unfolding Unpacked.from_decoded_pack
decoded_lem construct [] start h v = absurd (omega arith)
decoded_lem construct (b ∷ bs) start h v = rw v

module _ (o : Outside) (c : Context) (m : ApplicationMessage) (signature : List ℕ)
    (w : Fit.IsSendable o.construct (length signature) m)
    (s : Delivered.IsSigned c m signature) where
  peek-application_pack :
      peek_protocol (Application.packed m ++ signature) ≡ some Protocol.application
  unfolding Application.packed
  peek-application_pack =
      ap peek_protocol (
        append_assoc (Application.sections m) (Delivered.padding m) signature
        ∙ Fit.sections_lem m _ w.payload_fits)
      ∙ (peek-packed_buffer o.construct m.header _ w.header_formed
          (λ e. absurd (
            omega
              (arith, Delivered.get_pack_size_pos o.construct c m signature w s, w.size_stated, e)))
          w.source_valid).0
      ∙ ap some w.application

  built_application :
      starts_extension (Delivered.padding m ++ signature) ≡ false
      → build_if_read (
          Unpacked.from_decoded_pack o.construct
            (Application.packed m ++ signature)
            (Application.set_message_context c (Application.builder o.no_source o.now)))
        ≡ some (some (record m { context = c }))
  built_application ends =
      ap build_if_read (
        decoded_lem o.construct (Application.packed m ++ signature) _
          (peeked-length (Application.packed m ++ signature) peek-application_pack) s.verified
        ∙ ap some (Delivered.unpack-signed o.construct c m signature w s _ refl refl ends))
      ∙ Delivered.validated_build_lem o.construct c m signature w s

  -- CollectMessage of the signed pack of a sendable application message, where the context verifies
  -- the signature and the byte behind the sections is not that of an await tracker, puts the
  -- message, in the context that it came in, at the end of the queue, unless the signed bytes have
  -- four bytes 0xff at a multiple of four. Then the pack is refused and the message is lost.
  pub collect_message-application :
      (p : Processor) (peer : ℕ)
      → starts_extension (Delivered.padding m ++ signature) ≡ false
      → collect_message o p peer c (encode (Application.packed m ++ signature))
        ≡ some (
            if has_full_block (Application.packed m ++ signature)
            then answer p false []
            else queue_message p peer (record m { context = c }))
  unfolding collect_message
  collect_message-application p peer ends =
      ap (collect_decoded o p peer c) (Delivered.decode-signed o.construct c m signature w s)
      ∙ elim (Bool-cases (has_full_block (Application.packed m ++ signature))) [
        | inl full ↦ rw full (collect-nil o p peer c)
        | inr other ↦ rw other (
            unfold collect_decoded in
            ap (collect_by_protocol o p peer c (Application.packed m ++ signature))
              peek-application_pack
            ∙ ap (queue_if_built p peer) (built_application ends))
      ]
