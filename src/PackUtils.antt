-- ===== src/PackUtils.antt =====
-- src/BryptMessage/PackUtils.hpp: integers and buffers packed into a byte vector, most significant
-- byte first. A byte is a number below 256. A cursor into a span is the list of what is left of it.
use brypt_node.Common.{
  ℕ, zero, suc, ◌+◌, ◌*◌, ◌/◌, ◌%◌, ◌^◌, ◌≤◌, ◌<◌, ◌≡◌, refl, List, [], ◌∷◌, ◌++◌, Option, none,
  some, length, length-append, take, drop, ltb, if◌then◌else◌, All, arith,
}
pub mod RoundTrip

abbrev pub IsByte : ℕ → Type 0
IsByte b = b < 256

-- endian_store<Source, SourceBytes, order::big>: the low `bytes` bytes of a value.
unfoldable pub store_big : ℕ → ℕ → List ℕ
store_big zero source = []
store_big (suc bytes) source = store_big bytes (source / 256) ++ (source % 256) ∷ []

-- PackChunk of an integer of `bytes` bytes: the destination grows at its end.
unfoldable pub pack_chunk : ℕ → ℕ → List ℕ → List ℕ
pack_chunk bytes source destination = destination ++ store_big bytes source

-- PackChunk<SizeField> of a buffer: its size in `field` bytes (a cast, so it wraps), then the bytes.
unfoldable pub pack_buffer : ℕ → List ℕ → List ℕ → List ℕ
pack_buffer field source destination =
    pack_chunk field (length source % 256 ^ field) destination ++ source

unfoldable pub load_big : ℕ → List ℕ → ℕ
load_big value [] = value
load_big value (b ∷ bs) = load_big (value * 256 + b) bs

-- UnpackChunk into an integer of `bytes` bytes. `none` is the result false, which moves no cursor.
unfoldable pub unpack_chunk : ℕ → List ℕ → Option (ℕ × List ℕ)
unpack_chunk bytes source =
    if ltb (length source) bytes
    then none
    else some (load_big 0 (take bytes source), drop bytes source)

-- UnpackChunk into a vector: as many bytes as its capacity are inserted at its front.
unfoldable pub unpack_buffer : ℕ → List ℕ → List ℕ → Option (List ℕ × List ℕ)
unpack_buffer capacity destination source =
    if ltb (length source) capacity
    then none
    else some (take capacity source ++ destination, drop capacity source)
