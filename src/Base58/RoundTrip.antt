-- ===== src/Base58/RoundTrip.antt =====
-- Encode and Decode of Utilities/Base58.hpp undo each other.
use brypt_node.Common.{
  ℕ, zero, suc, ◌<◌, ◌≡◌, refl, sym, ap, ◌∙◌, inl, inr, List, [], ◌∷◌, ◌++◌, map, some, or_same,
  replicate, length, length-append, All, All-append, List-cases, arith,
}
use brypt_node.PackUtils.{IsByte}
use brypt_node.Base58.{
  encode_mapping, decode_mapping, carry_all, leading, encode, decode, encode_digit,
  decode_character, character_space,
}
use brypt_node.Base58.Digits.{
  digits_value, read_value, IsDigit, IsCarry, encode-IsRadix, decode-IsRadix, HasNoTopZero,
}
use brypt_node.Base58.Canonical.{
  IsCanonical, IsFront, canonical_digits, canonical_top, canonical_unique, reverse-IsCanonical,
  carry_all-IsCanonical, value-carry_all, All-reverse,
}
use brypt_node.Base58.Reading.{
  value-reverse, read_value-zeros, leading_split, leading-replicate, reverse-replicate,
  decode-encode_digits, encode_digit_ne,
}
use mathlib.Core.Path.{subst}
use mathlib.Core.List.{reverse, reverse-cons, reverse-append, reverse-reverse, map-append}

-- The digits that Encode computes of its source.
abbrev pub encoded_digits : List ℕ → List ℕ
encoded_digits source = carry_all character_space 256 source (0 ∷ [])

byte_carries : (source : List ℕ) → All IsByte source → All IsCarry source
byte_carries [] h = tt
byte_carries (b ∷ bs) h = (omega (arith, h.0), byte_carries bs h.1)

zero-IsCanonical : (base : ℕ) → 0 < base → IsCanonical base (0 ∷ [])
unfolding IsCanonical HasNoTopZero
zero-IsCanonical base h = ((h, tt), tt)

pub encoded_digits-IsCanonical :
    (source : List ℕ) → All IsByte source → IsCanonical 58 (encoded_digits source)
encoded_digits-IsCanonical source bytes =
    carry_all-IsCanonical encode-IsRadix source (0 ∷ []) (byte_carries source bytes)
      (zero-IsCanonical 58 (omega arith))

pub encoded_digits-value :
    (source : List ℕ)
    → All IsByte source
    → digits_value 58 (encoded_digits source) ≡ read_value 256 0 source
unfolding digits_value
encoded_digits-value source bytes =
    value-carry_all encode-IsRadix source (0 ∷ []) (byte_carries source bytes) (omega arith, tt)

digit_carries : (ds : List ℕ) → All (IsDigit 58) ds → All IsCarry ds
digit_carries [] h = tt
digit_carries (d ∷ ds) h = (omega (arith, h.0), digit_carries ds h.1)

-- Decode of the text of a list of digits and of `n` first characters before it.
abbrev text_of : ℕ → List ℕ → List ℕ
text_of n digits = replicate n (encode_digit 0) ++ map encode_digit digits

decode_nonempty :
    (text : List ℕ)
    → 0 < length text
    → decode text
      ≡ some (
          reverse (
            carry_all 256 character_space (map decode_character text) (0 ∷ [])
            ++ replicate (leading (encode_digit 0) text) 0))
unfolding decode
decode_nonempty [] h = absurd (omega arith)
decode_nonempty (c ∷ text) h = refl

map-replicate : (n : ℕ) → map decode_character (replicate n (encode_digit 0)) ≡ replicate n 0
unfolding encode_mapping decode_mapping
map-replicate zero = refl
map-replicate (suc n) = ap (λ (l : List ℕ). 0 ∷ l) (map-replicate n)

zero_carries : (n : ℕ) → All IsCarry (replicate n 0)
zero_carries zero = tt
zero_carries (suc n) = (omega arith, zero_carries n)

-- Digits that stand for a value, most significant first, are a front and what follows it.
digits-IsFront :
    (ds xs : List ℕ) (x : ℕ)
    → reverse ds ≡ x ∷ xs
    → IsCanonical 58 ds
    → IsFront (encode_digit 0) (encode_digit x) (map encode_digit xs)
digits-IsFront ds xs x e canonical =
    let turned : ds ≡ reverse xs ++ x ∷ [] =
      sym (reverse-reverse ds) ∙ ap reverse e ∙ reverse-cons x xs in
    let known : IsCanonical 58 (reverse xs ++ x ∷ []) = rw turned at canonical in
    let digits : All (IsDigit 58) (reverse xs ++ x ∷ []) = canonical_digits 58 _ known in
    elim (canonical_top 58 (reverse xs) x known) [
      | inl none_before ↦
          inl (ap (map encode_digit) (sym (reverse-reverse xs) ∙ ap reverse none_before))
      | inr positive ↦ inr (encode_digit_ne x (last_digit (reverse xs) x digits) positive)
    ]
  where
    last_digit : (front : List ℕ) (y : ℕ) → All (IsDigit 58) (front ++ y ∷ []) → y < 58
    last_digit [] y h = h.0
    last_digit (z ∷ front) y h = last_digit front y h.1

module _ (n : ℕ) (ds source : List ℕ) (canonical : IsCanonical 58 ds)
    (source_canonical : IsCanonical 256 (reverse source))
    (same : digits_value 58 ds ≡ read_value 256 0 source) where
  read_text : map decode_character (text_of n (reverse ds)) ≡ replicate n 0 ++ reverse ds
  read_text =
      map-append decode_character (replicate n (encode_digit 0)) (map encode_digit (reverse ds))
      ∙ rw
          (
            map-replicate n,
            decode-encode_digits (reverse ds)
                (All-reverse (IsDigit 58) ds (canonical_digits 58 ds canonical)),
          )
          refl

  text_carries : All IsCarry (replicate n 0 ++ reverse ds)
  text_carries =
      All-append IsCarry (replicate n 0) (reverse ds) (zero_carries n) (
        digit_carries (reverse ds) (All-reverse (IsDigit 58) ds (canonical_digits 58 ds canonical)))

  -- What Decode computes of the digits, least significant first.
  decoded_digits :
      carry_all 256 character_space (map decode_character (text_of n (reverse ds))) (0 ∷ [])
      ≡ reverse source
  unfolding digits_value
  decoded_digits = rw read_text (
      canonical_unique decode-IsRadix _ (reverse source)
        (carry_all-IsCanonical decode-IsRadix _ (0 ∷ []) text_carries
          (zero-IsCanonical 256 (omega arith)))
        source_canonical
        (value-carry_all decode-IsRadix _ (0 ∷ []) text_carries (omega arith, tt)
          ∙ read_value-zeros 58 n (reverse ds)
          ∙ sym (value-reverse 58 ds)
          ∙ same
          ∙ ap (read_value 256 0) (sym (reverse-reverse source))
          ∙ sym (value-reverse 256 (reverse source))))

  decode_digits :
      (x : ℕ) (xs : List ℕ)
      → reverse ds ≡ x ∷ xs
      → decode (text_of n (reverse ds)) ≡ some (replicate n 0 ++ source)
  decode_digits x xs e =
      let text = text_of n (reverse ds) in
      let marks : leading (encode_digit 0) text ≡ n = rw e (
        leading-replicate (encode_digit 0) n (encode_digit x) (map encode_digit xs)
          (digits-IsFront ds xs x e canonical)) in
      decode_nonempty text (
        rw e
          (omega (arith, length-append (replicate n (encode_digit 0)) (map encode_digit (x ∷ xs)))))
      ∙ ap some (
          rw (decoded_digits, marks)
            (reverse-append (reverse source) (replicate n 0)
              ∙ rw (reverse-replicate n 0, reverse-reverse source) refl))

reversed_front : (ds : List ℕ) → IsCanonical 58 ds → (x : ℕ) × (xs : List ℕ) × (reverse ds ≡ x ∷ xs)
unfolding IsCanonical
reversed_front ds canonical = elim (List-cases (reverse ds)) [
  | inl e ↦ absurd (rw (sym (reverse-reverse ds) ∙ ap reverse e) at canonical)
  | inr front ↦ front
]

pub All_back : (front back : List ℕ) → All IsByte (front ++ back) → All IsByte back
All_back [] back h = h
All_back (x ∷ front) back h = All_back front back h.1

decode_encoded :
    (byte : ℕ) (bytes : List ℕ)
    → All IsByte (byte ∷ bytes)
    → decode (text_of (leading 0 (byte ∷ bytes)) (reverse (encoded_digits (byte ∷ bytes))))
      ≡ some (byte ∷ bytes)
decode_encoded byte bytes h =
    let source : List ℕ = byte ∷ bytes in
    let r = leading_split 0 byte bytes in
    let canonical : IsCanonical 58 (encoded_digits source) = encoded_digits-IsCanonical source h in
    let d = reversed_front (encoded_digits source) canonical in
    let front_bytes : All IsByte (r.0 ∷ r.1) =
      All_back (replicate (leading 0 source) 0) (r.0 ∷ r.1)
        (subst (λ (l : List ℕ). All IsByte l) r.2 h) in
    decode_digits (leading 0 source) (encoded_digits source) (r.0 ∷ r.1) canonical
      (reverse-IsCanonical 256 r.0 r.1 (omega arith) r.3 front_bytes)
      (encoded_digits-value source h
        ∙ ap (read_value 256 0) r.2
        ∙ read_value-zeros 256 (leading 0 source) (r.0 ∷ r.1))
      d.0 d.1 d.2
    ∙ ap some (sym r.2)

-- Of every list of bytes with an element: Decode reads it back from the text that Encode has written
-- to an empty destination.
pub decode-encode_nonempty :
    (byte : ℕ) (bytes text : List ℕ)
    → All IsByte (byte ∷ bytes)
    → encode (byte ∷ bytes) [] ≡ some text
    → decode text ≡ some (byte ∷ bytes)
unfolding encode
decode-encode_nonempty byte bytes text h e =
    let written : text_of (leading 0 (byte ∷ bytes)) (reverse (encoded_digits (byte ∷ bytes)))
        ≡ text =
      ap (or_same text) e in
    ap decode (sym written) ∙ decode_encoded byte bytes h
