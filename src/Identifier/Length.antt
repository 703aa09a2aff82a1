-- ===== src/Identifier/Length.antt =====
-- The length of an identifier's text, which MessageHeader.cpp compares with MinimumLength and
-- MaximumLength of BryptIdentifier/IdentifierDefinitions.hpp.
use brypt_node.Common.{
  ℕ, suc, ◌+◌, ◌-◌, ◌^◌, ◌≤◌, ◌<◌, ◌≡◌, refl, sym, ap, ◌∙◌, inl, inr, List, [], ◌∷◌, ◌++◌, map,
  length, replicate, length-append, length-replicate, length-map, All, false, Bool-cases, ◌==◌,
  ==_iff, arith,
}
use brypt_node.PackUtils.{IsByte}
use brypt_node.Base58.{leading, encode_digit}
use brypt_node.Base58.Digits.{digits_value, read_value}
use brypt_node.Base58.Canonical.{IsCanonical, IsFront}
use brypt_node.Base58.Reading.{read_value-zeros, leading_split}
use brypt_node.Base58.RoundTrip.{
  All_back, encoded_digits, encoded_digits-IsCanonical, encoded_digits-value,
}
use brypt_node.Base58.Bounds.{exponent_below, digits_between, front_above, read_below_power}
use brypt_node.Identifier.Conversion.{payload_text}
use mathlib.Core.Path.{subst}
use mathlib.Core.List.{reverse, reverse-cons}

length-reverse : (xs : List ℕ) → length (reverse xs) ≡ length xs
length-reverse [] = refl
length-reverse (x ∷ xs) =
    ap length (reverse-cons x xs)
    ∙ omega (arith, length-append (reverse xs) (x ∷ []), length-reverse xs)

length-payload_text :
    (source : List ℕ)
    → length (payload_text source) ≡ leading 0 source + length (encoded_digits source)
length-payload_text source = omega (
  arith,
  length-append (replicate (leading 0 source) (encode_digit 0))
      (map encode_digit (reverse (encoded_digits source))),
  length-replicate (leading 0 source) (encode_digit 0),
  length-map (reverse (encoded_digits source)) encode_digit,
  length-reverse (encoded_digits source),
)

abbrev pub IsTextLength : ℕ → Type 0
IsTextLength size = (26 ≤ size) × (size ≤ 28)

module _ (ds : List ℕ) (canonical : IsCanonical 58 ds) where
  sized_at :
      (m a b : ℕ)
      → 0 < b
      → 58 ^ a ≤ 256 ^ m
      → 256 ^ suc m ≤ 58 ^ b
      → 26 ≤ 19 - m + suc a
      → 19 - m + b ≤ 28
      → 256 ^ m ≤ digits_value 58 ds
      → digits_value 58 ds < 256 ^ suc m
      → IsTextLength (19 - m + length ds)
  sized_at m a b positive from to least most low high =
      let r =
        digits_between ds a b canonical positive (omega (arith, from, low))
          (omega (arith, to, high)) in
      (omega (arith, r.0, least), omega (arith, r.1, most))

  -- Twenty bytes whose front, which is not zero, stands `m` bytes before the end.
  sized :
      (m : ℕ)
      → m < 20
      → 17 ≤ m
      → 256 ^ m ≤ digits_value 58 ds
      → digits_value 58 ds < 256 ^ suc m
      → IsTextLength (19 - m + length ds)
  sized m below above low high = elim (Bool-cases (m == 19)) [
    | inl e ↦
        ((subst Sized (sym ((==_iff m 19).0 e)) (
            sized_at 19 25 28 (omega arith) (omega arith) (omega arith) (omega arith)
              (omega arith)))
          low high)
    | inr e ↦ elim (Bool-cases (m == 18)) [
      | inl e' ↦
          ((subst Sized (sym ((==_iff m 18).0 e')) (
              sized_at 18 24 26 (omega arith) (omega arith) (omega arith) (omega arith)
                (omega arith)))
            low high)
      | inr e' ↦
          ((subst Sized (seventeen m below above e e') (
              sized_at 17 23 25 (omega arith) (omega arith) (omega arith) (omega arith)
                (omega arith)))
            low high)
    ]
  ]
    where
      Sized : ℕ → Type 0
      Sized k =
          256 ^ k ≤ digits_value 58 ds
          → digits_value 58 ds < 256 ^ suc k
          → IsTextLength (19 - k + length ds)

      seventeen : (k : ℕ) → k < 20 → 17 ≤ k → (k == 19) ≡ false → (k == 18) ≡ false → 17 ≡ k
      seventeen k h l e e' = ground (arith, e, e')

-- Twenty bytes as their leading zeros and a front.
module _ (source : List ℕ) (bytes : All IsByte source) (size : length source ≡ 20)
    (large : 256 ^ 17 ≤ read_value 256 0 source) (y : ℕ) (ys : List ℕ)
    (split : source ≡ replicate (leading 0 source) 0 ++ y ∷ ys) (front : IsFront 0 y ys) where
  front_value : read_value 256 0 source ≡ read_value 256 0 (y ∷ ys)
  front_value = ap (read_value 256 0) split ∙ read_value-zeros 256 (leading 0 source) (y ∷ ys)

  front_place : 19 ≡ leading 0 source + length ys
  front_place = omega (
    arith,
    size,
    ap length split,
    length-append (replicate (leading 0 source) 0) (y ∷ ys),
    length-replicate {A = ℕ} (leading 0 source) 0,
  )

  value_below_place : read_value 256 0 source < 256 ^ suc (length ys)
  value_below_place = omega (
    arith,
    front_value,
    read_below_power (y ∷ ys) (
        All_back (replicate (leading 0 source) 0) (y ∷ ys)
          (subst (λ (l : List ℕ). All IsByte l) split bytes)),
  )

  place_large : 17 ≤ length ys
  place_large = omega (
    arith,
    exponent_below 256 17 (suc (length ys)) (omega arith) (omega (arith, large, value_below_place)),
  )

  value_above_place : 256 ^ length ys ≤ read_value 256 0 source
  value_above_place = elim front [
    | inl e ↦ absurd (omega (arith, place_large, ap length e))
    | inr h ↦ omega (arith, front_value, front_above y ys (omega (arith, h)))
  ]

  split_sized : IsTextLength (length (payload_text source))
  split_sized =
      let same = encoded_digits-value source bytes in
      let r =
        sized (encoded_digits source) (encoded_digits-IsCanonical source bytes) (length ys)
          (omega (arith, front_place)) place_large (omega (arith, same, value_above_place))
          (omega (arith, same, value_below_place)) in
      (
        omega (arith, r.0, length-payload_text source, front_place),
        omega (arith, r.1, length-payload_text source, front_place),
      )

-- The text of twenty bytes with at most two zeros in front has 26 to 28 characters.
pub payload_text-IsTextLength :
    (source : List ℕ)
    → All IsByte source
    → length source ≡ 20
    → 256 ^ 17 ≤ read_value 256 0 source
    → IsTextLength (length (payload_text source))
payload_text-IsTextLength [] bytes size large = absurd (omega (arith, size))
payload_text-IsTextLength (b ∷ bs) bytes size large =
    let r = leading_split 0 b bs in split_sized (b ∷ bs) bytes size large r.0 r.1 r.2 r.3
