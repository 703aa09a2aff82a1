-- ===== src/Base58/Bounds.antt =====
-- The size of what Encode of Utilities/Base58.hpp writes, and that it stays within its buffer.
use brypt_node.Common.{
  ℕ, zero, suc, ◌+◌, ◌*◌, ◌/◌, ◌^◌, ◌≤◌, ◌<◌, ◌≡◌, refl, sym, ap, ◌∙◌, List, [], ◌∷◌, ◌++◌, length,
  length-append, All, inl, inr, Bool-cases, leb, leb→le, ltb, ltb→lt, arith,
}
use brypt_node.PackUtils.{IsByte}
use brypt_node.Base58.{result_size}
use brypt_node.Base58.Digits.{digits_value, read_value, HasNoTopZero, IsDigit}
use brypt_node.Base58.Canonical.{IsCanonical, canonical_digits}
use brypt_node.Base58.RoundTrip.{encoded_digits, encoded_digits-IsCanonical, encoded_digits-value}
use native.Mathlib.Nat.{
  add-zero, add-suc, mul-zero, mul-le-mul_right, pow-zero, pow-suc, pow-le-pow_left,
  pow-le-pow_right, pow-lt-pow_left,
}

pow-add : (b m n : ℕ) → b ^ (m + n) ≡ b ^ m * b ^ n
pow-add b m zero = rw (add-zero m, pow-zero b) (omega arith)
pow-add b m (suc n) =
    ap (λ (t : ℕ). b ^ t) (add-suc m n)
    ∙ pow-suc b (m + n)
    ∙ omega (arith, ap (λ (t : ℕ). t * b) (pow-add b m n), ap (λ (t : ℕ). b ^ m * t) (pow-suc b n))

pow-mul : (b m n : ℕ) → b ^ (m * n) ≡ (b ^ m) ^ n
pow-mul b m zero = rw (mul-zero m, pow-zero b, pow-zero (b ^ m)) refl
pow-mul b m (suc n) =
    ap (λ (t : ℕ). b ^ t) (omega arith)
    ∙ pow-add b (m * n) m
    ∙ ap (λ (t : ℕ). t * b ^ m) (pow-mul b m n)
    ∙ sym (pow-suc (b ^ m) n)

value_below : (ds : List ℕ) → All (IsDigit 58) ds → digits_value 58 ds < 58 ^ length ds
unfolding digits_value
value_below [] h = omega arith
value_below (d ∷ ds) h = omega (arith, value_below ds h.1, h.0, pow-suc 58 (length ds))

value_above_tail :
    (d : ℕ) (ds : List ℕ) → HasNoTopZero 58 (d ∷ ds) → 58 ^ length ds ≤ digits_value 58 (d ∷ ds)
unfolding digits_value HasNoTopZero
value_above_tail d [] h = omega (arith, h.0)
value_above_tail d (e ∷ ds) h = omega (arith, value_above_tail e ds h.1, pow-suc 58 (length ds))

-- A value that has more than one digit has at least the power that its first digit stands for.
value_above :
    (d e : ℕ) (ds : List ℕ)
    → IsCanonical 58 (d ∷ e ∷ ds)
    → 58 ^ length (e ∷ ds) ≤ digits_value 58 (d ∷ e ∷ ds)
unfolding digits_value IsCanonical
value_above d e ds h = omega (arith, value_above_tail e ds h.1, pow-suc 58 (length ds))

read_below :
    (v : ℕ) (xs : List ℕ) → All IsByte xs → suc (read_value 256 v xs) ≤ suc v * 256 ^ length xs
unfolding read_value
read_below v [] h = omega arith
read_below v (x ∷ xs) h =
    let rest : suc (read_value 256 v (x ∷ xs)) ≤ suc (v * 256 + x) * 256 ^ length xs =
      read_below (v * 256 + x) xs h.1 in
    let more : suc (v * 256 + x) * 256 ^ length xs ≤ suc v * 256 * 256 ^ length xs =
      mul-le-mul_right (256 ^ length xs) (omega (arith, h.0)) in
    omega (arith, rest, more, ap (λ (t : ℕ). suc v * t) (pow-suc 256 (length xs)))

hundred_bytes : 256 ^ 100 ≤ 58 ^ 138
hundred_bytes = omega arith

too_many : (k n : ℕ) → 58 ^ k < 256 ^ n → 138 * n ≤ k * 100 → ⊥
too_many k n h more = omega (
  arith,
  pow-le-pow_right {n = 58} (omega arith) more,
  pow-le-pow_left hundred_bytes n,
  pow-lt-pow_left {n = 100} h (λ e. absurd (omega (arith, e))),
  pow-mul 58 138 n,
  pow-mul 58 k 100,
  pow-mul 256 100 n,
  pow-mul 256 n 100,
  ap (λ (t : ℕ). 256 ^ t) (the_same n),
)
  where
    the_same : (m : ℕ) → 100 * m ≡ m * 100
    the_same m = omega arith

-- One hundred bytes have at most 138 digits.
digits_bound : (k n : ℕ) → 58 ^ k < 256 ^ n → k ≤ n * 138 / 100
digits_bound k n h = elim (Bool-cases (leb k (n * 138 / 100))) [
  | inl e ↦ leb→le k (n * 138 / 100) e
  | inr e ↦ absurd (too_many k n h (ground (arith, e)))
]

digits_fit :
    (source ds : List ℕ)
    → All IsByte source
    → IsCanonical 58 ds
    → digits_value 58 ds ≡ read_value 256 0 source
    → length ds ≤ result_size (length source)
digits_fit source [] bytes canonical e = omega arith
digits_fit source (d ∷ []) bytes canonical e = omega arith
digits_fit source (d ∷ x ∷ ds) bytes canonical e = omega (
  arith,
  digits_bound (length (x ∷ ds)) (length source)
      (omega (arith, value_above d x ds canonical, read_below 0 source bytes, e)),
)

-- Of a source that begins with a list of bytes: after the rounds over that list, the digits that
-- Encode has computed fit the buffer that it allocated for the whole source.
pub encoded_digits_bound :
    (front back : List ℕ)
    → All IsByte front
    → length (encoded_digits front) ≤ result_size (length (front ++ back))
encoded_digits_bound front back bytes = omega (
  arith,
  digits_fit front (encoded_digits front) bytes (encoded_digits-IsCanonical front bytes)
      (encoded_digits-value front bytes),
  length-append front back,
)

pub read_above : (v : ℕ) (xs : List ℕ) → v * 256 ^ length xs ≤ read_value 256 v xs
unfolding read_value
read_above v [] = omega arith
read_above v (x ∷ xs) =
    let rest : (v * 256 + x) * 256 ^ length xs ≤ read_value 256 v (x ∷ xs) =
      read_above (v * 256 + x) xs in
    omega (arith, rest, ap (λ (t : ℕ). v * t) (pow-suc 256 (length xs)))

-- A source with a front that is not zero has a value of its own length.
pub front_above : (x : ℕ) (xs : List ℕ) → 0 < x → 256 ^ length xs ≤ read_value 256 0 (x ∷ xs)
unfolding read_value
front_above x xs h =
    let same : read_value 256 0 (x ∷ xs) ≡ read_value 256 x xs =
      ap (λ (v : ℕ). read_value 256 v xs) (omega arith) in
    omega (arith, same, read_above x xs, mul-le-mul_right {m = 1} {n = x} (256 ^ length xs) h)

pub read_below_power : (xs : List ℕ) → All IsByte xs → read_value 256 0 xs < 256 ^ length xs
read_below_power xs bytes = omega (arith, read_below 0 xs bytes)

pub exponent_below : (base a b : ℕ) → 0 < base → base ^ a < base ^ b → a < b
exponent_below base a b positive h = elim (Bool-cases (ltb a b)) [
  | inl e ↦ ltb→lt a b e
  | inr e ↦
      absurd
        (omega (arith, pow-le-pow_right {n = base} positive {i = b} {j = a} (ground (arith, e))))
]

-- The number of digits of a value between two powers of 58.
pub digits_between :
    (ds : List ℕ) (a b : ℕ)
    → IsCanonical 58 ds
    → 0 < b
    → 58 ^ a ≤ digits_value 58 ds
    → digits_value 58 ds < 58 ^ b
    → (a < length ds) × (length ds ≤ b)
unfolding IsCanonical
digits_between ds a b canonical positive low high = (
  exponent_below 58 a (length ds) (omega arith)
      (omega (arith, low, value_below ds (canonical_digits 58 ds canonical))),
  at_most ds canonical high,
)
  where
    at_most : (es : List ℕ) → IsCanonical 58 es → digits_value 58 es < 58 ^ b → length es ≤ b
    at_most [] c h = omega arith
    at_most (d ∷ []) c h = omega arith
    at_most (d ∷ e ∷ es) c h =
        exponent_below 58 (length (e ∷ es)) b (omega arith) (omega (arith, value_above d e es c, h))
