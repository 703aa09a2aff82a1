-- ===== src/Message/Application/Unpack.antt =====
-- ApplicationBuilder::Unpack and what calls it, of src/BryptMessage/ApplicationMessage.cpp.
use brypt_node.Common.{
  ℕ, zero, suc, ◌%◌, ◌^◌, max, Bool, true, false, not, List, [], ◌∷◌, Option, none, some, length,
  ltb, ◌==◌, if◌then◌else◌,
}
use brypt_node.Z85.{decode}
use brypt_node.Message.Definitions.{Protocol, convert_to_handler_type, is_handler_type_invalid}
use brypt_node.Message.Identifier.{Container}
use brypt_node.Message.Context.{verify}
use brypt_node.Message.Header.{parse_buffer}
use brypt_node.Message.Parser.{
  Parser, ◌>>=◌, ◌>>◌, done, guard, modify, read, read_or_zero, read_buffer, within, inspect, call,
}
use brypt_node.Message.Application.Defs.{
  ApplicationMessage, AwaitBinding, get_pack_size, validate, fixed_await_extension_size,
  await_tracker,
}

-- The switch of UnpackAwaitTracker on the binding.
unfoldable pub bound_tracker : ℕ → ℕ → Option (AwaitBinding × ℕ)
bound_tracker binding tracker =
    if binding == 1
    then some (AwaitBinding.source, tracker)
    else if binding == 2
    then some (AwaitBinding.destination, tracker)
    else none

-- local::UnpackAwaitTracker. The result is `{}` until the last line.
unfoldable pub unpack_await_tracker : Parser (Option (AwaitBinding × ℕ)) (Unit {0})
unpack_await_tracker = do
  size ← read 2
  guard (not (ltb size fixed_await_extension_size))
  binding ← read 1
  tracker ← read 4
  modify (λ _. bound_tracker binding tracker)

-- A round of UnpackExtensions, and what follows if its extension is known.
unfoldable pub next_extension :
    Parser ApplicationMessage (Unit {0}) → Parser ApplicationMessage (Unit {0})
next_extension more = do
  extension ← read_or_zero 1
  if extension == await_tracker then await_tracker_extension else done
  where
    await_tracker_extension : Parser ApplicationMessage (Unit {0})
    await_tracker_extension = do
      tracker ← call unpack_await_tracker none
      modify (λ m. record m { tracker = tracker })
      more

-- UnpackExtensions: `while (begin != end)`, on fuel. Every round takes a byte at least.
unfoldable pub extensions_loop : ℕ → Parser ApplicationMessage (Unit {0})
extensions_loop zero m begin = done m begin
extensions_loop (suc fuel) m [] = done m []
extensions_loop (suc fuel) m (b ∷ bs) = next_extension (extensions_loop fuel) m (b ∷ bs)

unfoldable pub unpack_extensions : Parser ApplicationMessage (Unit {0})
unpack_extensions m begin = extensions_loop (length begin) m begin

-- The last lines of Unpack, from the extension count on.
unfoldable pub read_extensions : Parser ApplicationMessage (Unit {0})
read_extensions = do extensions ← read 1; if extensions == 0 then done else unpack_extensions

is_protocol_application : Protocol → Bool
is_protocol_application Protocol.application = true
is_protocol_application _ = false

-- The message as it was where the verification fails.
abbrev pub if_verified :
    Option Bool → ApplicationMessage → ApplicationMessage → Option ApplicationMessage
if_verified none m unpacked = none
if_verified (some false) m unpacked = some m
if_verified (some true) m unpacked = some unpacked

module _ (construct : List ℕ → Container) where
  -- Unpack. What was read before an early return stays in the message.
  unfoldable pub unpack : Parser ApplicationMessage (Unit {0})
  unfolding is_protocol_application
  unpack = do
    within (λ m. m.header) (λ m h. record m { header = h }) (parse_buffer construct)
    m ← inspect
    guard (is_protocol_application m.header.protocol)
    command ← read_or_zero 1
    modify (λ m. record m { command = convert_to_handler_type command })
    guard (not (is_handler_type_invalid (convert_to_handler_type command)))
    phase ← read 1
    modify (λ m. record m { phase = phase })
    data_size ← read 4
    m ← inspect
    payload ← read_buffer (max (length m.payload) data_size) m.payload
    modify (λ m. record m { payload = payload })
    timestamp ← read 8
    modify (λ m. record m { timestamp = timestamp })
    read_extensions

  -- FromDecodedPack. The outer `none` is the exception of a missing verifier.
  unfoldable pub from_decoded_pack : List ℕ → ApplicationMessage → Option ApplicationMessage
  from_decoded_pack [] m = some m
  from_decoded_pack (b ∷ bs) m = if_verified (verify m.context (b ∷ bs)) m (unpack m (b ∷ bs)).1

  -- FromEncodedPack.
  unfoldable pub from_encoded_pack : List ℕ → ApplicationMessage → Option ApplicationMessage
  from_encoded_pack [] m = some m
  from_encoded_pack (c ∷ cs) m =
      if_verified (verify m.context (decode (c ∷ cs))) m (unpack m (decode (c ∷ cs))).1

-- Build. The size is cast to uint32_t.
unfoldable pub build : ℕ → ApplicationMessage → ApplicationMessage
build signature m = record m {
  header = record (m.header) { size = get_pack_size signature m % 2 ^ 32 };
}

abbrev pub build_of_size : Option ℕ → ApplicationMessage → Option (Option ApplicationMessage)
build_of_size none m = none
build_of_size (some signature) m =
    some (if validate (build signature m) then some (build signature m) else none)

-- ValidatedBuild; the outer `none` is the exception of a missing size handler.
unfoldable pub validated_build : ApplicationMessage → Option (Option ApplicationMessage)
validated_build m = build_of_size m.context.signature_size m
