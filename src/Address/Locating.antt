-- ===== src/Address/Locating.antt =====
-- The searches of Address.cpp: what the positions that they return say of the text.
use brypt_node.Common.{
  ℕ, zero, suc, ◌+◌, ◌≡◌, ◌≢◌, refl, inl, inr, true, List, [], ◌∷◌, ◌++◌, none, some, length, take,
  drop, All, arith, Bool-cases, Option-cases,
}
use brypt_node.Address.{scheme_separator, component_separator, at_separator, find_scheme, find_last}

-- A text in which no character is the separator of the components.
abbrev pub HasNoColon : List ℕ → Type 0
HasNoColon = All (λ c. c ≢ component_separator)

at_separator_lem : (u : List ℕ) → at_separator u ≡ true → u ≡ scheme_separator ++ drop 3 u
at_separator_lem [] h = cc
at_separator_lem (a ∷ []) h = cc
at_separator_lem (a ∷ b ∷ []) h = cc
at_separator_lem (a ∷ b ∷ c ∷ rest) h = ground arith

pub find_scheme-splits :
    (u : List ℕ) {n : ℕ}
    → find_scheme u ≡ some n
    → u ≡ take n u ++ (scheme_separator ++ drop (n + 3) u)
unfolding find_scheme
find_scheme-splits [] e = cc
find_scheme-splits (c ∷ cs) {n = n} e = elim (Bool-cases (at_separator (c ∷ cs))) [
  | inl here ↦ ground (arith, at_separator_lem (c ∷ cs) here)
  | inr not_here ↦ elim (Option-cases (find_scheme cs)) [
    | inl nowhere ↦ ground arith
    | inr (m, later) ↦ ground (arith, find_scheme-splits cs later)
  ]
]

pub find_last-splits :
    (u : List ℕ) {p : ℕ}
    → find_last u ≡ some p
    → (u ≡ take p u ++ component_separator ∷ drop (suc p) u) × (find_last (drop (suc p) u) ≡ none)
unfolding find_last
find_last-splits [] e = cc
find_last-splits (c ∷ cs) {p = p} e = elim (Option-cases (find_last cs)) [
  | inl nowhere ↦ ground arith
  | inr (m, later) ↦ ground (arith, find_last-splits cs later)
]

pub find_last-HasNoColon : (u : List ℕ) → find_last u ≡ none → HasNoColon u
unfolding find_last
find_last-HasNoColon [] e = tt
find_last-HasNoColon (c ∷ cs) e = elim (Option-cases (find_last cs)) [
  | inl nowhere ↦ let rest = find_last-HasNoColon cs nowhere in ground arith
  | inr (m, later) ↦ ground arith
]

pub HasNoColon-find_last : (u : List ℕ) → HasNoColon u → find_last u ≡ none
unfolding find_last
HasNoColon-find_last [] h = refl
HasNoColon-find_last (c ∷ cs) h = ground (arith, HasNoColon-find_last cs h.1)

pub find_last-drop :
    (k : ℕ) (u : List ℕ) (j : ℕ) → find_last u ≡ some (k + j) → find_last (drop k u) ≡ some j
unfolding find_last
find_last-drop zero u j e = ground arith
find_last-drop (suc k) [] j e = cc
find_last-drop (suc k) (c ∷ cs) j e = elim (Option-cases (find_last cs)) [
  | inl nowhere ↦ ground arith
  | inr (m, later) ↦ find_last-drop k cs j (ground arith)
]

pub find_last_of_drop :
    (k : ℕ) (u : List ℕ) (j : ℕ) → find_last (drop k u) ≡ some j → find_last u ≡ some (k + j)
unfolding find_last
find_last_of_drop zero u j e = ground arith
find_last_of_drop (suc k) [] j e = cc
find_last_of_drop (suc k) (c ∷ cs) j e = ground (arith, find_last_of_drop k cs j e)

-- A text with a scheme has a separator of components: that of the scheme.
pub find_scheme-find_last : (u : List ℕ) {n : ℕ} → find_scheme u ≡ some n → find_last u ≢ none
unfolding find_scheme find_last
find_scheme-find_last [] e h = cc
find_scheme-find_last (c ∷ cs) e h = elim (Option-cases (find_scheme cs)) [
  | inl nowhere ↦ ground (arith, at_separator_lem (c ∷ cs))
  | inr (m, later) ↦ ground (arith, find_scheme-find_last cs later)
]

-- The last separator of a text stands in its back part, where that has one.
pub find_last-append :
    (front back : List ℕ) (k : ℕ)
    → find_last back ≡ some k
    → find_last (front ++ back) ≡ some (length front + k)
unfolding find_last
find_last-append [] back k e = ground arith
find_last-append (c ∷ front) back k e = ground (arith, find_last-append front back k e)

-- The first scheme separator stays the first where what follows it is replaced.
pub find_scheme-take :
    (u rest : List ℕ) (n : ℕ)
    → find_scheme u ≡ some n
    → (find_scheme (take (suc (suc (suc n))) u ++ rest) ≡ some n)
      × (length (take (suc (suc (suc n))) u) ≡ n + 3)
unfolding find_scheme
find_scheme-take [] rest n e = cc
find_scheme-take (c ∷ []) rest n e = cc
find_scheme-take (c ∷ d ∷ []) rest n e = cc
find_scheme-take (c ∷ d ∷ f ∷ cs) rest zero e = elim (Bool-cases (at_separator (c ∷ d ∷ f ∷ cs))) [
  | inl here ↦ ground arith
  | inr not_here ↦ elim (Option-cases (find_scheme (d ∷ f ∷ cs))) [
    | inl nowhere ↦ ground arith
    | inr (m, later) ↦ ground arith
  ]
]
find_scheme-take (c ∷ d ∷ f ∷ cs) rest (suc n) e =
    elim (Bool-cases (at_separator (c ∷ d ∷ f ∷ cs))) [
      | inl here ↦ ground arith
      | inr not_here ↦ elim (Option-cases (find_scheme (d ∷ f ∷ cs))) [
        | inl nowhere ↦ ground arith
        | inr (m, later) ↦ ground (arith, find_scheme-take (d ∷ f ∷ cs) rest n)
      ]
    ]

pub find_last-here :
    (u : List ℕ) {p : ℕ} → find_last u ≡ some p → drop p u ≡ component_separator ∷ drop (suc p) u
unfolding find_last
find_last-here [] e = cc
find_last-here (c ∷ cs) {p = p} e = elim (Option-cases (find_last cs)) [
  | inl nowhere ↦ ground arith
  | inr (m, later) ↦ ground (arith, find_last-here cs later)
]
