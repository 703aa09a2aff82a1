-- ===== src/Base58/Canonical.antt =====
-- Lists of digits without superfluous zeros: a value has one of them, and the rounds of Base58.hpp
-- keep to them.
use brypt_node.Common.{
  ℕ, ◌+◌, ◌*◌, ◌/◌, ◌<◌, ◌≡◌, refl, ap, ◌∙◌, ◌≢◌, ◌⊎◌, inl, inr, List, [], ◌∷◌, ◌++◌, length, All,
  All-append, arith,
}
use brypt_node.Base58.{carry_into, carry_all}
use brypt_node.Base58.Digits.{
  digits_value, read_value, HasNoTopZero, IsRadix, IsDigit, IsCarry, carry_into_digits,
  value-carry_into, sum_fits, next-IsCarry, carry_into-HasNoTopZero,
}
use mathlib.Core.List.{reverse, reverse-cons}
use native.Mathlib.Nat.{mul-pos}

unfoldable pub IsCanonical : ℕ → List ℕ → Type 0
IsCanonical base [] = ⊥
IsCanonical base (d ∷ ds) = All (IsDigit base) (d ∷ ds) × HasNoTopZero base ds

pub canonical_digits : (base : ℕ) (ds : List ℕ) → IsCanonical base ds → All (IsDigit base) ds
unfolding IsCanonical
canonical_digits base [] c = elim c [ ]
canonical_digits base (d ∷ ds) c = c.0

top_positive : (base : ℕ) (ds : List ℕ) (x : ℕ) → HasNoTopZero base (ds ++ x ∷ []) → 0 < x
unfolding HasNoTopZero digits_value
top_positive base [] x top = omega (arith, top.0)
top_positive base (d ∷ ds) x top = top_positive base ds x top.1

-- The last digit is zero only where it is the only one.
pub canonical_top :
    (base : ℕ) (ds : List ℕ) (x : ℕ) → IsCanonical base (ds ++ x ∷ []) → (ds ≡ []) ⊎ (0 < x)
unfolding IsCanonical
canonical_top base [] x c = inl refl
canonical_top base (d ∷ ds) x c = inr (top_positive base ds x c.1)

append_positive :
    (base : ℕ) (ds : List ℕ) (x : ℕ) → 0 < base → 0 < x → 0 < digits_value base (ds ++ x ∷ [])
unfolding digits_value
append_positive base [] x b h = omega arith
append_positive base (d ∷ ds) x b h = omega (arith, mul-pos b (append_positive base ds x b h))

append-HasNoTopZero :
    (base : ℕ) (ds : List ℕ) (x : ℕ) → 0 < base → 0 < x → HasNoTopZero base (ds ++ x ∷ [])
unfolding HasNoTopZero
append-HasNoTopZero base [] x b h = (append_positive base [] x b h, tt)
append-HasNoTopZero base (d ∷ ds) x b h =
    (append_positive base (d ∷ ds) x b h, append-HasNoTopZero base ds x b h)

-- What a list of digits begins with, read from its front, when it stands for its value.
abbrev pub IsFront : ℕ → ℕ → List ℕ → Type 0
IsFront mark x xs = (xs ≡ []) ⊎ (x ≢ mark)

append-IsCanonical :
    (base : ℕ) (ds : List ℕ) (x : ℕ)
    → 0 < base
    → (ds ≡ []) ⊎ (0 < x)
    → All (IsDigit base) (ds ++ x ∷ [])
    → IsCanonical base (ds ++ x ∷ [])
unfolding IsCanonical HasNoTopZero
append-IsCanonical base [] x b front digits = (digits, tt)
append-IsCanonical base (d ∷ ds) x b (inl e) digits = absurd (omega (arith, ap length e))
append-IsCanonical base (d ∷ ds) x b (inr h) digits = (digits, append-HasNoTopZero base ds x b h)

pub All-reverse {κ} : (P : ℕ → Type κ) (xs : List ℕ) → All P xs → All P (reverse xs)
All-reverse P [] h = h
All-reverse P (x ∷ xs) h =
    rw (reverse-cons x xs) (All-append P (reverse xs) (x ∷ []) (All-reverse P xs h.1) (h.0, tt))

pub reverse-IsCanonical :
    (base x : ℕ) (xs : List ℕ)
    → 0 < base
    → IsFront 0 x xs
    → All (IsDigit base) (x ∷ xs)
    → IsCanonical base (reverse (x ∷ xs))
reverse-IsCanonical base x xs b front digits = rw (reverse-cons x xs) (
    append-IsCanonical base (reverse xs) x b
      (elim front [ inl e ↦ inl (ap reverse e) | inr h ↦ inr (omega (arith, h)) ])
      (All-append (IsDigit base) (reverse xs) (x ∷ []) (All-reverse (IsDigit base) xs digits.1)
        (digits.0, tt)))

module _ {base factor : ℕ} (radix : IsRadix base factor) where
  unique_tail :
      (ds es : List ℕ)
      → All (IsDigit base) ds
      → All (IsDigit base) es
      → HasNoTopZero base ds
      → HasNoTopZero base es
      → digits_value base ds ≡ digits_value base es
      → ds ≡ es
  unfolding digits_value HasNoTopZero
  unique_tail [] [] dd de td te e = refl
  unique_tail [] (x ∷ es) dd de td te e = absurd (omega (arith, te.0, e))
  unique_tail (d ∷ ds) [] dd de td te e = absurd (omega (arith, td.0, e))
  unique_tail (d ∷ ds) (x ∷ es) dd de td te e =
      let same : (d ≡ x) × (digits_value base ds ≡ digits_value base es) =
        radix.unique d x _ _ dd.0 de.0 e in
      rw (same.0, unique_tail ds es dd.1 de.1 td.1 te.1 same.1)

  -- Two canonical lists with the same value are the same.
  pub canonical_unique :
      (ds es : List ℕ)
      → IsCanonical base ds
      → IsCanonical base es
      → digits_value base ds ≡ digits_value base es
      → ds ≡ es
  unfolding IsCanonical digits_value
  canonical_unique [] es cd ce e = elim cd [ ]
  canonical_unique (d ∷ ds) [] cd ce e = elim ce [ ]
  canonical_unique (d ∷ ds) (x ∷ es) cd ce e =
      let same : (d ≡ x) × (digits_value base ds ≡ digits_value base es) =
        radix.unique d x _ _ cd.0.0 ce.0.0 e in
      rw (same.0, unique_tail ds es cd.0.1 ce.0.1 cd.1 ce.1 same.1)

  carry_into-IsCanonical :
      (ds : List ℕ) (c : ℕ)
      → IsCarry c
      → IsCanonical base ds
      → IsCanonical base (carry_into base factor c ds)
  unfolding IsCanonical carry_into
  carry_into-IsCanonical [] c h canonical = elim canonical [ ]
  carry_into-IsCanonical (d ∷ ds) c h canonical = (
    (radix.remains _, carry_into_digits radix ds _),
    rw (sum_fits radix c d h canonical.0.0) (
        carry_into-HasNoTopZero radix ds ((c + d * factor) / base)
          (next-IsCarry radix c d h canonical.0.0) canonical.0.1 canonical.1),
  )

  pub carry_all-IsCanonical :
      (cs ds : List ℕ)
      → All IsCarry cs
      → IsCanonical base ds
      → IsCanonical base (carry_all base factor cs ds)
  unfolding carry_all
  carry_all-IsCanonical [] ds carries canonical = canonical
  carry_all-IsCanonical (c ∷ cs) ds carries canonical =
      carry_all-IsCanonical cs (carry_into base factor c ds) carries.1
        (carry_into-IsCanonical ds c carries.0 canonical)

  -- The rounds over a source read it in the base `factor`.
  pub value-carry_all :
      (cs ds : List ℕ)
      → All IsCarry cs
      → All (IsDigit base) ds
      → digits_value base (carry_all base factor cs ds)
        ≡ read_value factor (digits_value base ds) cs
  unfolding carry_all read_value
  value-carry_all [] ds carries digits = refl
  value-carry_all (c ∷ cs) ds carries digits =
      value-carry_all cs (carry_into base factor c ds) carries.1 (carry_into_digits radix ds c)
      ∙ ap (λ (v : ℕ). read_value factor v cs)
          (omega (arith, value-carry_into radix c ds carries.0 digits))
