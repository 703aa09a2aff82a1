-- ===== src/Base58/Reading.antt =====
-- Lists read from their front: their value, their leading marks, and the two tables of Base58.hpp.
use brypt_node.Common.{
  ℕ, zero, suc, ◌+◌, ◌*◌, ◌<◌, ◌≡◌, refl, ap, ◌∙◌, ◌≢◌, inl, inr, Bool, true, false, List, [], ◌∷◌,
  ◌++◌, map, replicate, length, if◌then◌else◌, All, Bool-cases, ◌==◌, ==_iff, arith,
}
use brypt_node.Base58.{encode_mapping, decode_mapping, leading, encode_digit, decode_character}
use brypt_node.Base58.Digits.{digits_value, read_value, IsDigit}
use brypt_node.Base58.Canonical.{IsFront}
use mathlib.Core.List.{reverse, reverse-cons}

module _ (base : ℕ) where
  pub read_value-append :
      (v : ℕ) (xs ys : List ℕ)
      → read_value base v (xs ++ ys) ≡ read_value base (read_value base v xs) ys
  unfolding read_value
  read_value-append v [] ys = refl
  read_value-append v (x ∷ xs) ys = read_value-append (v * base + x) xs ys

  read_value-snoc :
      (v x : ℕ) (xs : List ℕ) → read_value base v (xs ++ x ∷ []) ≡ read_value base v xs * base + x
  unfolding read_value
  read_value-snoc v x [] = refl
  read_value-snoc v x (y ∷ ys) = read_value-snoc (v * base + y) x ys

  -- Digits read from their front have the value of the reversed list.
  pub value-reverse : (ds : List ℕ) → digits_value base ds ≡ read_value base 0 (reverse ds)
  unfolding digits_value read_value
  value-reverse [] = refl
  value-reverse (d ∷ ds) =
      rw (reverse-cons d ds) (
        omega
          (arith, read_value-snoc 0 d (reverse ds), ap (λ (v : ℕ). base * v) (value-reverse ds)))

  pub read_value-zeros :
      (n : ℕ) (xs : List ℕ) → read_value base 0 (replicate n 0 ++ xs) ≡ read_value base 0 xs
  unfolding read_value
  read_value-zeros zero xs = refl
  read_value-zeros (suc n) xs =
      ap (λ (v : ℕ). read_value base v (replicate n 0 ++ xs)) (omega arith) ∙ read_value-zeros n xs

module _ (mark : ℕ) where
  -- A list is its leading marks and a front that is no mark, or is the last element.
  pub leading_split :
      (x : ℕ) (xs : List ℕ)
      → (y : ℕ) × (ys : List ℕ) × (x ∷ xs ≡ replicate (leading mark (x ∷ xs)) mark ++ y ∷ ys)
        × IsFront mark y ys
  unfolding leading
  leading_split x [] = (x, [], refl, inl refl)
  leading_split x (z ∷ xs) = elim (Bool-cases (x == mark)) [
    | inl e ↦ rw e (
        let r = leading_split z xs in
        (
          r.0,
          r.1,
          ap (λ (l : List ℕ). x ∷ l) r.2
              ∙ ap (λ (h : ℕ). h ∷ (replicate (leading mark (z ∷ xs)) mark ++ r.0 ∷ r.1))
                  ((==_iff x mark).0 e),
          r.3,
        ))
    | inr e ↦ rw e (x, z ∷ xs, refl, inr (ground (arith, e)))
  ]

  pub leading_front : (y : ℕ) (ys : List ℕ) → IsFront mark y ys → leading mark (y ∷ ys) ≡ 0
  unfolding leading
  leading_front y [] front = refl
  leading_front y (z ∷ ys) (inl e) = absurd (omega (arith, ap length e))
  leading_front y (z ∷ ys) (inr h) = ground (arith, h)

  pub leading-replicate :
      (n y : ℕ) (ys : List ℕ) → IsFront mark y ys → leading mark (replicate n mark ++ y ∷ ys) ≡ n
  unfolding leading
  leading-replicate zero y ys front = leading_front y ys front
  leading-replicate (suc zero) y ys front = ground (arith, leading_front y ys front)
  leading-replicate (suc (suc n)) y ys front = ground (arith, leading-replicate (suc n) y ys front)

replicate-snoc : (n x : ℕ) → replicate n x ++ x ∷ [] ≡ x ∷ replicate n x
replicate-snoc zero x = refl
replicate-snoc (suc n) x = ap (λ (l : List ℕ). x ∷ l) (replicate-snoc n x)

pub reverse-replicate : (n x : ℕ) → reverse (replicate n x) ≡ replicate n x
reverse-replicate zero x = refl
reverse-replicate (suc n) x =
    reverse-cons x (replicate n x)
    ∙ ap (λ (l : List ℕ). l ++ x ∷ []) (reverse-replicate n x)
    ∙ replicate-snoc n x

-- Every character of a digit stands for the digit, and only the first digit's is the first character.
abbrev reads_back : ℕ → Bool
reads_back d = (decode_character (encode_digit d) == d)

digits_read_back : ℕ → Bool
digits_read_back zero = true
digits_read_back (suc d) = if reads_back d then digits_read_back d else false

reads_back_digit :
    (bound d : ℕ)
    → d < bound
    → digits_read_back bound ≡ true
    → decode_character (encode_digit d) ≡ d
unfolding digits_read_back
reads_back_digit zero d below table = absurd (omega arith)
reads_back_digit (suc last) d below table = elim (Bool-cases (d == last)) [
  | inl same ↦ rw ((==_iff d last).0 same) (ground (arith, table))
  | inr smaller ↦ reads_back_digit last d (ground arith) (ground (arith, table))
]

digit_table : digits_read_back 58 ≡ true
unfolding digits_read_back encode_mapping decode_mapping
digit_table = refl

pub decode-encode_digit : (d : ℕ) → d < 58 → decode_character (encode_digit d) ≡ d
decode-encode_digit d h = reads_back_digit 58 d h digit_table

pub encode_digit_ne : (d : ℕ) → d < 58 → 0 < d → encode_digit d ≢ encode_digit 0
encode_digit_ne d h positive e =
    omega
      (arith, decode-encode_digit d h, decode-encode_digit 0 (omega arith), ap decode_character e)

pub decode-encode_digits :
    (ds : List ℕ) → All (IsDigit 58) ds → map decode_character (map encode_digit ds) ≡ ds
decode-encode_digits [] h = refl
decode-encode_digits (d ∷ ds) h = rw (decode-encode_digit d h.0, decode-encode_digits ds h.1)
