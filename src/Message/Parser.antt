-- ===== src/Message/Parser.antt =====
-- The shape of the unpacking code: it writes into an object, moves a cursor over a buffer, and
-- may return early. What was written and read before an early return stays.
use brypt_node.Common.{
  ℕ, ◌≤◌, ◌<◌, ◌^◌, ◌≡◌, refl, Bool, true, false, List, ◌++◌, Option, none, some, length, ltb,
  if◌then◌else◌, arith,
}
use brypt_node.PackUtils.{store_big, unpack_chunk, unpack_buffer}
use brypt_node.PackUtils.RoundTrip.{unpack-pack_chunk, unpack_buffer-append}

-- `none` is an early return.
abbrev pub Parser : Type 0 → Type 0 → Type 0
Parser S A = S → List ℕ → Option A × S × List ℕ

abbrev after : {S A B : Type 0} → Option A → S → List ℕ → (A → Parser S B) → Option B × S × List ℕ
after none s begin f = (none, s, begin)
after (some a) s begin f = f a s begin

infixl 5 ◌>>=◌ ◌>>◌
unfoldable pub ◌>>=◌ : {S A B : Type 0} → Parser S A → (A → Parser S B) → Parser S B
◌>>=◌ m f s begin = after (m s begin).0 (m s begin).1 (m s begin).2 f

unfoldable pub ◌>>◌ : {S B : Type 0} → Parser S (Unit {0}) → Parser S B → Parser S B
unfolding ◌>>=◌
m >> k = m >>= λ _. k

-- The end of the function.
unfoldable pub done : {S : Type 0} → Parser S (Unit {0})
done s begin = (some tt, s, begin)

unfoldable pub guard : {S : Type 0} → Bool → Parser S (Unit {0})
guard test s begin = (if test then some tt else none, s, begin)

unfoldable pub modify : {S : Type 0} → (S → S) → Parser S (Unit {0})
modify f s begin = (some tt, f s, begin)

-- `if (std::distance(begin, end) < size) return`.
unfoldable pub require : {S : Type 0} → ℕ → Parser S (Unit {0})
require size s begin = (if ltb (length begin) size then none else some tt, s, begin)

abbrev chunk : {S : Type 0} → Option (ℕ × List ℕ) → S → List ℕ → Option ℕ × S × List ℕ
chunk none s begin = (none, s, begin)
chunk (some (value, begin')) s begin = (some value, s, begin')

-- `if (!UnpackChunk(begin, end, value)) return`, into an integer of `bytes` bytes.
unfoldable pub read : {S : Type 0} → ℕ → Parser S ℕ
read bytes s begin = chunk (unpack_chunk bytes begin) s begin

abbrev chunk_or_zero : {S : Type 0} → Option (ℕ × List ℕ) → S → List ℕ → Option ℕ × S × List ℕ
chunk_or_zero none s begin = (some 0, s, begin)
chunk_or_zero (some (value, begin')) s begin = (some value, s, begin')

-- `value = 0; UnpackChunk(begin, end, value)`, the result of which the code does not look at.
unfoldable pub read_or_zero : {S : Type 0} → ℕ → Parser S ℕ
read_or_zero bytes s begin = chunk_or_zero (unpack_chunk bytes begin) s begin

abbrev buffer_chunk :
    {S : Type 0} → Option (List ℕ × List ℕ) → S → List ℕ → Option (List ℕ) × S × List ℕ
buffer_chunk none s begin = (none, s, begin)
buffer_chunk (some (out, begin')) s begin = (some out, s, begin')

-- `if (!UnpackChunk(begin, end, buffer)) return`, into a vector of that capacity and contents.
unfoldable pub read_buffer : {S : Type 0} → ℕ → List ℕ → Parser S (List ℕ)
read_buffer capacity held s begin = buffer_chunk (unpack_buffer capacity held begin) s begin

-- A parser of a part of the object.
unfoldable pub within : {S T A : Type 0} → (S → T) → (S → T → S) → Parser T A → Parser S A
within part put m s begin = ((m (part s) begin).0, put s (m (part s) begin).1, (m (part s) begin).2)

-- The call of a function with early returns of its own, whose result starts as `start`.
unfoldable pub call : {S T : Type 0} → Parser T (Unit {0}) → T → Parser S T
call m start s begin = (some (m start begin).1, s, (m start begin).2)

-- The object as it stands.
unfoldable pub inspect : {S : Type 0} → Parser S S
inspect s begin = (some s, s, begin)

-- `if (!optional) return`.
unfoldable pub present : {S A : Type 0} → Option A → Parser S A
present optional s begin = (optional, s, begin)

module _ {S A B : Type 0} (m : Parser S A) (f : A → Parser S B) (s : S) (begin : List ℕ) where
  pub >>=-some :
      (a : A) (s' : S) (begin' : List ℕ)
      → m s begin ≡ (some a, s', begin')
      → (m >>= f) s begin ≡ f a s' begin'
  unfolding ◌>>=◌
  >>=-some a s' begin' e = rw e

  pub >>=-none :
      (s' : S) (begin' : List ℕ)
      → m s begin ≡ (none, s', begin')
      → (m >>= f) s begin ≡ (none, s', begin')
  unfolding ◌>>=◌
  >>=-none s' begin' e = rw e

module _ {S B : Type 0} (k : Parser S B) (s : S) (begin : List ℕ) where
  pub modify-then : (g : S → S) → (modify g >> k) s begin ≡ k (g s) begin
  unfolding modify ◌>>◌
  modify-then g = refl

  pub guard-then : (test : Bool) → test ≡ true → (guard test >> k) s begin ≡ k s begin
  unfolding guard ◌>>◌
  guard-then test e = rw e

  pub guard-stop : (test : Bool) → test ≡ false → (guard test >> k) s begin ≡ (none, s, begin)
  unfolding guard ◌>>◌
  guard-stop test e = rw e

  pub require-then : (size : ℕ) → size ≤ length begin → (require size >> k) s begin ≡ k s begin
  unfolding require ◌>>◌
  require-then size h = ground arith

  pub require-stop :
      (size : ℕ) → length begin < size → (require size >> k) s begin ≡ (none, s, begin)
  unfolding require ◌>>◌
  require-stop size h = ground arith

pub present-then :
    {S A B : Type 0} (a : A) (k : A → Parser S B) (s : S) (begin : List ℕ)
    → (present (some a) >>= k) s begin ≡ k a s begin
unfolding present ◌>>=◌
present-then a k s begin = refl

pub inspect-then :
    {S B : Type 0} (k : S → Parser S B) (s : S) (begin : List ℕ)
    → (inspect >>= k) s begin ≡ k s s begin
unfolding inspect ◌>>=◌
inspect-then k s begin = refl

module _ {S T B : Type 0} (part : S → T) (put : S → T → S) (m : Parser T (Unit {0}))
    (k : Parser S B) (s : S) (begin : List ℕ) (t : T) (begin' : List ℕ) where
  pub within-then :
      m (part s) begin ≡ (some tt, t, begin')
      → (within part put m >> k) s begin ≡ k (put s t) begin'
  unfolding within ◌>>◌
  within-then e = rw e

  pub within-stop :
      m (part s) begin ≡ (none, t, begin')
      → (within part put m >> k) s begin ≡ (none, put s t, begin')
  unfolding within ◌>>◌
  within-stop e = rw e

pub call-then :
    {S T B : Type 0} (m : Parser T (Unit {0})) (start : T) (k : T → Parser S B) (s : S)
    (begin : List ℕ) (o : Option (Unit {0})) (t : T) (begin' : List ℕ)
    → m start begin ≡ (o, t, begin')
    → (call m start >>= k) s begin ≡ k t s begin'
unfolding call ◌>>=◌
call-then m start k s begin o t begin' e = rw e

module _ {S B : Type 0} (k : ℕ → Parser S B) (s : S) (rest : List ℕ) where
  pub read-then : (n v : ℕ) → v < 256 ^ n → (read n >>= k) s (store_big n v ++ rest) ≡ k v s rest
  unfolding read ◌>>=◌
  read-then n v h = rw (unpack-pack_chunk n v rest h)

  pub read_or_zero-then :
      (n v : ℕ) → v < 256 ^ n → (read_or_zero n >>= k) s (store_big n v ++ rest) ≡ k v s rest
  unfolding read_or_zero ◌>>=◌
  read_or_zero-then n v h = rw (unpack-pack_chunk n v rest h)

  pub read-stop : (n : ℕ) → length rest < n → (read n >>= k) s rest ≡ (none, s, rest)
  unfolding read ◌>>=◌ unpack_chunk
  read-stop n h = ground arith

pub read_buffer-then :
    {S B : Type 0} (k : List ℕ → Parser S B) (s : S) (source held rest : List ℕ) (n : ℕ)
    → n ≡ length source
    → (read_buffer n held >>= k) s (source ++ rest) ≡ k (source ++ held) s rest
unfolding read_buffer ◌>>=◌
read_buffer-then k s source held rest n e = rw (e, unpack_buffer-append source held rest)

pub read_buffer-stop :
    {S B : Type 0} (k : List ℕ → Parser S B) (s : S) (held rest : List ℕ) (n : ℕ)
    → length rest < n
    → (read_buffer n held >>= k) s rest ≡ (none, s, rest)
unfolding read_buffer ◌>>=◌ unpack_buffer
read_buffer-stop k s held rest n h = ground arith
