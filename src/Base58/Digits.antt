-- ===== src/Base58/Digits.antt =====
-- The value of a list of digits, least significant first, and what a round of Base58.hpp does to it.
use brypt_node.Common.{
  ℕ, zero, suc, ◌+◌, ◌*◌, ◌/◌, ◌%◌, ◌^◌, ◌<◌, ◌≡◌, sym, ap, inl, inr, List, [], ◌∷◌, All,
  Bool-cases, ◌==◌, ==_iff, arith,
}
use brypt_node.Base58.{flush, carry_into}
use native.Mathlib.Nat.{pow-suc}

unfoldable pub digits_value : ℕ → List ℕ → ℕ
digits_value base [] = 0
digits_value base (d ∷ ds) = d + base * digits_value base ds

-- The value of a list read from its front, in the base `factor`.
unfoldable pub read_value : ℕ → ℕ → List ℕ → ℕ
read_value factor value [] = value
read_value factor value (x ∷ xs) = read_value factor (value * factor + x) xs

abbrev pub IsDigit : ℕ → ℕ → Type 0
IsDigit base d = d < base

abbrev pub IsCarry : ℕ → Type 0
IsCarry c = c < 512

-- No digit but the first is a superfluous zero on top.
unfoldable pub HasNoTopZero : ℕ → List ℕ → Type 0
HasNoTopZero base [] = Unit
HasNoTopZero base (d ∷ ds) = (0 < digits_value base (d ∷ ds)) × HasNoTopZero base ds

-- What is used of the two pairs of a base and a factor.
pub record IsRadix (base factor : ℕ) : Type 0 where
  pub positive : 0 < factor
  pub divides : (x : ℕ) → x < 2 ^ 32 → x % base + base * (x / base) ≡ x
  pub remains : (x : ℕ) → x % base < base
  pub shrinks : (x k : ℕ) → x < 58 * k → x / base < k
  pub fits : (c d : ℕ) → IsCarry c → d < base → c + d * factor < 15360
  pub unique : (d e v w : ℕ) → d < base → e < base → d + base * v ≡ e + base * w → (d ≡ e) × (v ≡ w)

pub encode-IsRadix : IsRadix 58 256
encode-IsRadix = record {
  positive = omega arith;
  divides = λ x h. omega arith;
  remains = λ x. omega arith;
  shrinks = λ x k h. omega arith;
  fits = λ c d h k. omega arith;
  unique = λ d e v w h k e'. (omega arith, omega arith);
}

pub decode-IsRadix : IsRadix 256 58
decode-IsRadix = record {
  positive = omega arith;
  divides = λ x h. omega arith;
  remains = λ x. omega arith;
  shrinks = λ x k h. omega arith;
  fits = λ c d h k. omega arith;
  unique = λ d e v w h k e'. (omega arith, omega arith);
}

module _ {base factor : ℕ} (radix : IsRadix base factor) where
  -- What a round of the loop on the carry writes, when the rounds after it are right.
  digit_and_rest : (c w : ℕ) → c < 2 ^ 32 → w ≡ c / base → c % base + base * w ≡ c
  digit_and_rest c w h e = rw e (radix.divides c h)

  flush_value :
      (fuel c : ℕ) → c < 58 ^ fuel → c < 2 ^ 32 → digits_value base (flush base fuel c) ≡ c
  unfolding flush digits_value
  flush_value zero c h k = omega arith
  flush_value (suc fuel) c h k =
      let rest : digits_value base (flush base fuel (c / base)) ≡ c / base =
        flush_value fuel (c / base) (radix.shrinks c (58 ^ fuel) (omega (arith, pow-suc 58 fuel)))
          (radix.shrinks c (2 ^ 32) (omega arith)) in
      elim (Bool-cases (c == 0)) [
        | inl e ↦ rw e (sym ((==_iff c 0).0 e))
        | inr e ↦ rw e (digit_and_rest c _ k rest)
      ]

  pub sum_fits : (c d : ℕ) → IsCarry c → d < base → (c + d * factor) % 2 ^ 32 ≡ c + d * factor
  sum_fits c d h k = omega (arith, radix.fits c d h k)

  pub next-IsCarry : (c d : ℕ) → IsCarry c → d < base → IsCarry ((c + d * factor) / base)
  next-IsCarry c d h k = radix.shrinks (c + d * factor) 512 (omega (arith, radix.fits c d h k))

  -- A round multiplies the value by the factor and adds the carry.
  pub value-carry_into :
      (c : ℕ) (ds : List ℕ)
      → IsCarry c
      → All (IsDigit base) ds
      → digits_value base (carry_into base factor c ds) ≡ c + factor * digits_value base ds
  unfolding carry_into digits_value
  value-carry_into c [] h digits = omega (arith, flush_value 6 c (omega arith) (omega arith))
  value-carry_into c (d ∷ ds) h digits = rw (sum_fits c d h digits.0) (
      omega (
        arith,
        radix.divides (c + d * factor) (omega (arith, radix.fits c d h digits.0)),
        ap (λ (v : ℕ). base * v)
            (value-carry_into ((c + d * factor) / base) ds (next-IsCarry c d h digits.0) digits.1),
      ))

  flush_digits : (fuel c : ℕ) → All (IsDigit base) (flush base fuel c)
  unfolding flush
  flush_digits zero c = tt
  flush_digits (suc fuel) c = elim (Bool-cases (c == 0)) [
    | inl e ↦ rw e tt
    | inr e ↦ rw e (radix.remains c, flush_digits fuel (c / base))
  ]

  pub carry_into_digits : (ds : List ℕ) (c : ℕ) → All (IsDigit base) (carry_into base factor c ds)
  unfolding carry_into
  carry_into_digits [] c = flush_digits 6 c
  carry_into_digits (d ∷ ds) c = (radix.remains _, carry_into_digits ds _)

  flush-HasNoTopZero :
      (fuel c : ℕ) → c < 58 ^ fuel → c < 2 ^ 32 → HasNoTopZero base (flush base fuel c)
  unfolding flush HasNoTopZero
  flush-HasNoTopZero zero c h k = tt
  flush-HasNoTopZero (suc fuel) c h k =
      let value : digits_value base (flush base (suc fuel) c) ≡ c = flush_value (suc fuel) c h k in
      let rest : HasNoTopZero base (flush base fuel (c / base)) =
        flush-HasNoTopZero fuel (c / base)
          (radix.shrinks c (58 ^ fuel) (omega (arith, pow-suc 58 fuel)))
          (radix.shrinks c (2 ^ 32) (omega arith)) in
      elim (Bool-cases (c == 0)) [ inl e ↦ rw e tt | inr e ↦ rw e (ground (arith, value, e), rest) ]

  carried_positive : (c v w : ℕ) → 0 < v → w ≡ c + factor * v → 0 < w
  carried_positive c zero w h e = absurd (omega arith)
  carried_positive c (suc v) w h e = omega (arith, radix.positive)

  pub carry_into-HasNoTopZero :
      (ds : List ℕ) (c : ℕ)
      → IsCarry c
      → All (IsDigit base) ds
      → HasNoTopZero base ds
      → HasNoTopZero base (carry_into base factor c ds)
  unfolding carry_into HasNoTopZero
  carry_into-HasNoTopZero [] c h digits top = flush-HasNoTopZero 6 c (omega arith) (omega arith)
  carry_into-HasNoTopZero (d ∷ ds) c h digits top = (
    carried_positive c _ _ top.0 (value-carry_into c (d ∷ ds) h digits),
    rw (sum_fits c d h digits.0) (
        carry_into-HasNoTopZero ds ((c + d * factor) / base) (next-IsCarry c d h digits.0) digits.1
          top.1),
  )
