-- ===== src/PackUtils/RoundTrip.antt =====
-- What UnpackChunk reads back of what PackChunk wrote.
use brypt_node.Common.{
  ℕ, zero, suc, ◌+◌, ◌*◌, ◌/◌, ◌%◌, ◌^◌, ◌<◌, ◌≡◌, refl, List, [], ◌∷◌, ◌++◌, some, length,
  length-append, All, All-append, arith, append_assoc, append_assoc, take-append_length,
  drop-append_length,
}
use brypt_node.PackUtils.{
  IsByte, pack_buffer, pack_chunk, store_big, load_big, pack_chunk, pack_buffer, unpack_chunk,
  unpack_buffer,
}
use native.Mathlib.Nat.{pow-suc, mod-eq_of_lt}

pub length-store_big : (n v : ℕ) → length (store_big n v) ≡ n
unfolding store_big
length-store_big zero v = refl
length-store_big (suc n) v =
    omega
      (arith, length-append (store_big n (v / 256)) ((v % 256) ∷ []), length-store_big n (v / 256))

pub store_big-IsByte : (n v : ℕ) → All IsByte (store_big n v)
unfolding store_big
store_big-IsByte zero v = tt
store_big-IsByte (suc n) v =
    All-append IsByte (store_big n (v / 256)) _ (store_big-IsByte n (v / 256)) (omega arith, tt)

load_big-append : (a : ℕ) (xs ys : List ℕ) → load_big a (xs ++ ys) ≡ load_big (load_big a xs) ys
unfolding load_big
load_big-append a [] ys = refl
load_big-append a (x ∷ xs) ys = load_big-append (a * 256 + x) xs ys

load_big_snoc : (a b : ℕ) (xs : List ℕ) → load_big a (xs ++ b ∷ []) ≡ load_big a xs * 256 + b
unfolding load_big
load_big_snoc a b [] = refl
load_big_snoc a b (x ∷ xs) = load_big_snoc (a * 256 + x) b xs

pub load_big-store_big : (n v : ℕ) → v < 256 ^ n → load_big 0 (store_big n v) ≡ v
unfolding store_big load_big
load_big-store_big zero v h = omega arith
load_big-store_big (suc n) v h = omega (
  arith,
  load_big_snoc 0 (v % 256) (store_big n (v / 256)),
  load_big-store_big n (v / 256) (omega (arith, pow-suc 256 n)),
)

-- An integer that fits its field is read back, and the cursor stands behind it.
pub unpack-pack_chunk :
    (n v : ℕ) (rest : List ℕ)
    → v < 256 ^ n
    → unpack_chunk n (store_big n v ++ rest) ≡ some (v, rest)
unfolding unpack_chunk
unpack-pack_chunk n v rest h = ground (
  arith,
  length-append (store_big n v) rest,
  length-store_big n v,
  take-append_length n (store_big n v) rest,
  drop-append_length n (store_big n v) rest,
  load_big-store_big n v,
)

-- PackChunk of a buffer whose size fits its field.
pub pack_buffer_lem :
    (field : ℕ) (source destination : List ℕ)
    → length source < 256 ^ field
    → pack_buffer field source destination
      ≡ destination ++ (store_big field (length source) ++ source)
unfolding pack_buffer pack_chunk
pack_buffer_lem field source destination h = rw (mod-eq_of_lt h, append_assoc)

-- A buffer is read back by a vector that reserved its size, in front of what the vector held.
pub unpack_buffer-append :
    (source held rest : List ℕ)
    → unpack_buffer (length source) held (source ++ rest) ≡ some (source ++ held, rest)
unfolding unpack_buffer
unpack_buffer-append source held rest = ground (
  arith,
  length-append source rest,
  take-append_length (length source) source rest,
  drop-append_length (length source) source rest,
)
