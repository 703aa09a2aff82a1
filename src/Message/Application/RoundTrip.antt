-- ===== src/Message/Application/RoundTrip.antt =====
-- An application message sent and received.
use brypt_node.Common.{
  ℕ, suc, ◌+◌, ◌^◌, ◌<◌, ◌≡◌, sym, ap, ◌∙◌, ◌≢◌, true, false, List, [], ◌++◌, append_assoc,
  append-nil, Option, none, some, length, length-append, All, All-append, arith,
}
use mathlib.Core.Path.{subst}
use brypt_node.PackUtils.{IsByte, store_big, pack_chunk}
use brypt_node.PackUtils.RoundTrip.{length-store_big, store_big-IsByte, pack_buffer_lem}
use brypt_node.Message.Definitions.{
  Protocol, handler_type_code, is_handler_type_invalid, convert-handler_type_code,
  handler_type_code-lt,
}
use brypt_node.Message.Identifier.{Container}
use brypt_node.Message.Header.{packed_buffer, pack_size, parse_buffer}
use brypt_node.Message.Header.RoundTrip
use brypt_node.Message.Header.RoundTrip.{
  length-packed_buffer, packed_buffer-IsByte, parse-packed_buffer,
}
use brypt_node.Message.Parser.{
  done, within-then, inspect-then, modify-then, guard-then, read-then, read_or_zero-then,
  read_buffer-then,
}
use brypt_node.Message.Application.Defs.{
  ApplicationMessage, AwaitBinding, fixed_pack_size, extension_size, pack_extensions, sections,
  binding_code, get_pack_size,
}
use brypt_node.Message.Application.Unpack.{
  bound_tracker, extensions_loop, unpack_extensions, unpack, read_extensions,
}
use brypt_node.Message.Application.Extensions.{
  extension_bytes, Fits, extension_round, starts_extension, extensions_end, bound_tracker_lem,
}

-- A tracker that has a byte for its binding and four for its key.
abbrev pub TrackerFits : Option (AwaitBinding × ℕ) → Type 0
TrackerFits none = Unit
TrackerFits (some (binding, key)) = (binding ≢ AwaitBinding.invalid) × (key < 2 ^ 32)

-- A message that the sender may pack. The size of the pack counts a signature of that many bytes.
pub record IsSendable (construct : List ℕ → Container) (signature : ℕ) (m : ApplicationMessage)
    : Type 0 where
  pub header_formed : RoundTrip.IsWellFormed construct m.header
  pub application : m.header.protocol ≡ Protocol.application
  pub source_valid : m.header.source.valid ≡ true
  pub command_valid : is_handler_type_invalid m.command ≡ false
  pub phase_fits : m.phase < 256
  pub payload_bytes : All IsByte m.payload
  pub payload_fits : length m.payload < 2 ^ 30
  pub timestamp_set : m.timestamp ≢ 0
  pub timestamp_fits : m.timestamp < 2 ^ 64
  pub tracker_fits : TrackerFits m.tracker
  pub size_stated : m.header.size ≡ get_pack_size signature m

abbrev pub tracker_bytes : Option (AwaitBinding × ℕ) → List ℕ → List ℕ
tracker_bytes none rest = store_big 1 0 ++ rest
tracker_bytes (some (binding, key)) rest =
    store_big 1 1 ++ extension_bytes 8 (binding_code binding) key rest

abbrev pub body : ApplicationMessage → List ℕ → List ℕ
body m rest =
    store_big 1 (handler_type_code m.command)
    ++ (store_big 1 m.phase
        ++ (store_big 4 (length m.payload)
            ++ (m.payload ++ (store_big 8 m.timestamp ++ tracker_bytes m.tracker rest))))

pack_extensions_lem :
    (t : Option (AwaitBinding × ℕ)) (buffer rest : List ℕ)
    → pack_extensions t buffer ++ rest ≡ buffer ++ tracker_bytes t rest
unfolding pack_extensions pack_chunk
pack_extensions_lem none buffer rest = append_assoc buffer (store_big 1 0) rest
pack_extensions_lem (some (binding, key)) buffer rest = simp append_assoc

pub sections_lem :
    (m : ApplicationMessage) (rest : List ℕ)
    → length m.payload < 2 ^ 30
    → sections m ++ rest ≡ packed_buffer m.header ++ body m rest
unfolding sections pack_chunk
sections_lem m rest h =
    pack_extensions_lem m.tracker _ rest
    ∙ rw (pack_buffer_lem 4 m.payload _ (omega arith)) (simp append_assoc)

binding_code-lt : (b : AwaitBinding) → binding_code b < 256
binding_code-lt AwaitBinding.invalid = omega arith
binding_code-lt _ = omega arith

tracker_bytes-IsByte : (t : Option (AwaitBinding × ℕ)) → All IsByte (tracker_bytes t [])
tracker_bytes-IsByte none = All-append IsByte _ [] (store_big-IsByte 1 0) tt
tracker_bytes-IsByte (some (b, key)) = All-append IsByte _ _ (store_big-IsByte 1 1) (
    All-append IsByte _ _ (store_big-IsByte 1 1) (
      All-append IsByte _ _ (store_big-IsByte 2 8) (
        All-append IsByte _ _ (store_big-IsByte 1 _)
          (All-append IsByte _ [] (store_big-IsByte 4 key) tt))))

length-tracker_bytes :
    (t : Option (AwaitBinding × ℕ)) (rest : List ℕ)
    → length (tracker_bytes t rest) ≡ 1 + extension_size t + length rest
length-tracker_bytes none rest = simp (length-append, length-store_big) (omega arith)
length-tracker_bytes (some (b, key)) rest = simp (length-append, length-store_big) (omega arith)

own_extension :
    (b : AwaitBinding) (key : ℕ) → TrackerFits (some (b, key)) → Fits 8 (binding_code b) key
own_extension b key f = omega (arith, binding_code-lt b, f.1)

fueled :
    (m : ApplicationMessage) (begin : List ℕ) (fuel : ℕ)
    → length begin ≡ fuel
    → (unpack_extensions m begin).1 ≡ (extensions_loop fuel m begin).1
unfolding unpack_extensions
fueled m begin fuel e = ap (λ n. (extensions_loop n m begin).1) e

-- The extensions of a message that does not hold a tracker yet.
read_extensions_lem :
    (m : ApplicationMessage) (t : Option (AwaitBinding × ℕ)) (rest : List ℕ)
    → m.tracker ≡ none
    → TrackerFits t
    → starts_extension rest ≡ false
    → (read_extensions m (tracker_bytes t rest)).1 ≡ record m { tracker = t }
unfolding read_extensions
read_extensions_lem m none rest n f ends =
    ap (λ r. r.1) (read-then _ m rest 1 0 (omega arith))
    ∙ unfold done in ap (λ o. record m { tracker = o }) n
read_extensions_lem m (some (b, key)) rest n f ends =
    ap (λ r. r.1) (read-then _ m (extension_bytes 8 (binding_code b) key rest) 1 1 (omega arith))
    ∙ fueled m _ (suc (suc (length rest + 6)))
        (simp (length-append, length-store_big) (omega arith))
    ∙ ap (λ r. r.1)
        (extension_round (suc (length rest + 6)) 8 (binding_code b) key m rest
          (own_extension b key f))
    ∙ extensions_end (length rest + 6) _ rest ends
    ∙ ap (λ o. record m { tracker = o }) (bound_tracker_lem b key f.0)

-- The same where another extension follows.
read_extensions_reread :
    (m : ApplicationMessage) (t : AwaitBinding × ℕ) (rest : List ℕ) (size binding key : ℕ)
    → TrackerFits (some t)
    → Fits size binding key
    → starts_extension rest ≡ false
    → (read_extensions m (tracker_bytes (some t) (extension_bytes size binding key rest))).1
      ≡ record m { tracker = bound_tracker binding key }
unfolding read_extensions
read_extensions_reread m (b, own) rest size binding key f g ends =
    ap (λ r. r.1) (read-then _ m (extension_bytes 8 (binding_code b) own _) 1 1 (omega arith))
    ∙ fueled m _ (suc (suc (suc (length rest + 13))))
        (simp (length-append, length-store_big) (omega arith))
    ∙ ap (λ r. r.1)
        (extension_round (suc (suc (length rest + 13))) 8 (binding_code b) own m _
          (own_extension b own f))
    ∙ ap (λ r. r.1) (extension_round (suc (length rest + 13)) size binding key _ rest g)
    ∙ extensions_end (length rest + 13) _ rest ends

module _ (construct : List ℕ → Container) (signature : ℕ) (m : ApplicationMessage)
    (w : IsSendable construct signature m) where
  pub length-sections :
      length (sections m)
      ≡ fixed_pack_size + pack_size m.header + length m.payload + extension_size m.tracker
  length-sections =
      ap length (sym (append-nil (sections m)) ∙ sections_lem m [] w.payload_fits)
      ∙ simp (length-append, length-store_big, length-tracker_bytes)
          (omega (arith, length-packed_buffer construct m.header w.header_formed))

  pub sections-IsByte : All IsByte (sections m)
  sections-IsByte =
      subst (All IsByte) (sym (sections_lem m [] w.payload_fits) ∙ append-nil (sections m)) (
        All-append IsByte _ _ (packed_buffer-IsByte construct m.header w.header_formed) (
          All-append IsByte _ _ (store_big-IsByte 1 _) (
            All-append IsByte _ _ (store_big-IsByte 1 _) (
              All-append IsByte _ _ (store_big-IsByte 4 _) (
                All-append IsByte _ _ w.payload_bytes (
                  All-append IsByte _ _ (store_big-IsByte 8 _)
                    (tracker_bytes-IsByte m.tracker)))))))

  -- Unpacking as far as the extensions.
  unpack_head :
      (start : ApplicationMessage) (rest : List ℕ)
      → start.payload ≡ []
      → unpack construct start (sections m ++ rest)
        ≡ read_extensions
            (record m { context = start.context; tracker = start.tracker })
            (tracker_bytes m.tracker rest)
  unfolding unpack
  unpack_head start rest e =
      ap (unpack construct start) (sections_lem m rest w.payload_fits)
      ∙ within-then _ _ (parse_buffer construct) _ start _ m.header _
          (parse-packed_buffer construct start.header m.header _ w.header_formed)
      ∙ inspect-then _ _ _
      ∙ guard-then _ _ _ _ (rw w.application)
      ∙ read_or_zero-then _ _ _ 1 (handler_type_code m.command) (handler_type_code-lt m.command)
      ∙ modify-then _ _ _ _
      ∙ guard-then _ _ _ _ (rw (convert-handler_type_code m.command, w.command_valid))
      ∙ read-then _ _ _ 1 m.phase (omega (arith, w.phase_fits))
      ∙ modify-then _ _ _ _
      ∙ read-then _ _ _ 4 (length m.payload) (omega (arith, w.payload_fits))
      ∙ inspect-then _ _ _
      ∙ read_buffer-then _ _ m.payload start.payload _ _ (omega (arith, ap length e))
      ∙ modify-then _ _ _ _
      ∙ read-then _ _ _ 8 m.timestamp (omega (arith, w.timestamp_fits))
      ∙ modify-then _ _ _ _
      ∙ rw convert-handler_type_code (
          ap
            (λ p.
              read_extensions
                (record m { context = start.context; payload = p; tracker = start.tracker })
                (tracker_bytes m.tracker rest))
            (ap (λ q. m.payload ++ q) e ∙ append-nil m.payload))

  -- Unpacking the sections gives the message in the context of the message that they are read into,
  -- where the byte behind an await tracker's extension is not that of another.
  pub unpack-sections :
      (start : ApplicationMessage) (rest : List ℕ)
      → start.payload ≡ []
      → start.tracker ≡ none
      → starts_extension rest ≡ false
      → (unpack construct start (sections m ++ rest)).1 ≡ record m { context = start.context }
  unpack-sections start rest e n ends =
      ap (λ r. r.1) (unpack_head start rest e)
      ∙ read_extensions_lem _ m.tracker rest n w.tracker_fits ends

  -- For a sendable message with a tracker: when an extension of an await tracker stands behind
  -- its sections, in the place of the padding or the signature, a builder with no payload reads
  -- that extension's tracker in place of the message's.
  pub unpack_reread :
      (start : ApplicationMessage) (rest : List ℕ) (t : AwaitBinding × ℕ) (size binding key : ℕ)
      → start.payload ≡ []
      → m.tracker ≡ some t
      → Fits size binding key
      → starts_extension rest ≡ false
      → (unpack construct start (sections m ++ extension_bytes size binding key rest)).1
        ≡ record m { context = start.context; tracker = bound_tracker binding key }
  unpack_reread start rest t size binding key e has f ends =
      ap (λ r. r.1) (unpack_head start _ e)
      ∙ ap
          (λ o.
            (read_extensions (record m { context = start.context; tracker = start.tracker })
              (tracker_bytes o (extension_bytes size binding key rest))).1)
          has
      ∙ read_extensions_reread _ t rest size binding key (subst TrackerFits has w.tracker_fits) f
          ends
