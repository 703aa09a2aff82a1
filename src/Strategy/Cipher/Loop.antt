-- ===== src/Strategy/Cipher/Loop.antt =====
-- The rounds of the loop over a buffer: that they end, and what they leave of it.
use brypt_node.Common.{
  ℕ, zero, suc, ◌-◌, ◌≤◌, ◌<◌, ◌≡◌, ◌≢◌, refl, sym, ap, ◌∙◌, inl, inr, true, false, List, [], ◌∷◌,
  none, some, length, take, drop, replicate, ◌==◌, arith, Bool-cases, Option-cases,
  length-replicate, append-nil,
}
use brypt_node.Strategy.Cipher.{
  CipherFunctions, Rounds, cipher_rounds, run_cipher, overwrite, smaller,
}

smaller_fits : (a b : ℕ) → a ≤ b → smaller a b ≡ a
smaller_fits a b h = ground arith

drop_short : (k : ℕ) (xs : List ℕ) → length xs ≤ k → drop k xs ≡ []
drop_short zero [] h = refl
drop_short zero (x ∷ xs) h = absurd (omega arith)
drop_short (suc k) [] h = refl
drop_short (suc k) (x ∷ xs) h = drop_short k xs (omega arith)

pub take_whole : (k : ℕ) (xs : List ℕ) → length xs ≤ k → take k xs ≡ xs
take_whole zero [] h = refl
take_whole zero (x ∷ xs) h = absurd (omega arith)
take_whole (suc k) [] h = refl
take_whole (suc k) (x ∷ xs) h = rw (take_whole k xs (omega arith))

module _ {State : Type 0} (c : CipherFunctions State) (maximum : ℕ) where
  -- A round that feeds a block.
  round_fed :
      (rounds : ℕ) (state next : State) (buffer out bytes : List ℕ) (left block : ℕ)
      → (left == 0) ≡ false
      → c.update state (take block buffer) ≡ some (next, bytes)
      → cipher_rounds c maximum (suc rounds) state buffer out left block
        ≡ cipher_rounds c maximum rounds next buffer
            (overwrite bytes out)
            (left - smaller left maximum)
            (smaller left maximum)
  unfolding cipher_rounds
  round_fed rounds state next buffer out bytes left block more fed = ground (arith, more, fed)

  round_broken :
      (rounds : ℕ) (state : State) (buffer out : List ℕ) (left block : ℕ)
      → (left == 0) ≡ false
      → c.update state (take block buffer) ≡ none
      → cipher_rounds c maximum (suc rounds) state buffer out left block ≡ Rounds.failed
  unfolding cipher_rounds
  round_broken rounds state buffer out left block more broken = ground (arith, more, broken)

  round_over :
      (rounds : ℕ) (state : State) (buffer out : List ℕ) (left block : ℕ)
      → (left == 0) ≡ true
      → cipher_rounds c maximum (suc rounds) state buffer out left block ≡ Rounds.finished state out
  unfolding cipher_rounds
  round_over rounds state buffer out left block over = ground (arith, over)

  -- With more rounds than there are bytes left, the loop over a buffer ends, if a block may hold a
  -- byte.
  pub cipher_rounds_end :
      (rounds : ℕ) (state : State) (buffer out : List ℕ) (left block : ℕ)
      → 0 < maximum
      → left < rounds
      → cipher_rounds c maximum rounds state buffer out left block ≢ Rounds.unfinished
  cipher_rounds_end zero state buffer out left block some_room enough e = absurd (omega arith)
  cipher_rounds_end (suc rounds) state buffer out left block some_room enough e =
      elim (Bool-cases (left == 0)) [
        | inl over ↦ let no = round_over rounds state buffer out left block over in cc
        | inr more ↦ elim (Option-cases (c.update state (take block buffer))) [
          | inl broken ↦ let no = round_broken rounds state buffer out left block more broken in cc
          | inr (pair, fed) ↦
              let step = round_fed rounds state pair.0 buffer out pair.1 left block more fed in
              cipher_rounds_end rounds pair.0 buffer (overwrite pair.1 out)
                (left - smaller left maximum) (smaller left maximum) some_room (ground arith)
                (sym step ∙ e)
        ]
      ]

  -- One call of the update takes the whole of a buffer that fits a block.
  pub run_cipher_once :
      (key iv : List ℕ) (byte : ℕ) (bytes : List ℕ) {state next : State} {out : List ℕ}
      → length (byte ∷ bytes) ≤ maximum
      → c.start key iv ≡ some state
      → c.update state (byte ∷ bytes) ≡ some (next, out)
      → c.finish next ≡ true
      → length out ≡ length (byte ∷ bytes)
      → run_cipher c maximum key iv (byte ∷ bytes) ≡ some out
  unfolding run_cipher
  run_cipher_once key iv byte bytes {state} {next} {out} fits start update finish size =
      let n : ℕ = suc (length bytes) in
      let block : smaller n maximum ≡ n = smaller_fits n maximum fits in
      let whole : take (smaller n maximum) (byte ∷ bytes) ≡ byte ∷ bytes =
        take_whole (smaller n maximum) (byte ∷ bytes) (ground arith) in
      let fed : c.update state (take (smaller n maximum) (byte ∷ bytes)) ≡ some (next, out) =
        ap (c.update state) whole ∙ update in
      let first =
        round_fed n state next (byte ∷ bytes) (replicate n 0) out n (smaller n maximum)
          (ground arith) fed in
      let second =
        round_over (length bytes) next (byte ∷ bytes) (overwrite out (replicate n 0))
          (n - smaller n maximum) (smaller n maximum) (ground arith) in
      let full : overwrite out (replicate n 0) ≡ out =
        rw (drop_short (length out) (replicate n 0) (omega (arith, length-replicate {A = ℕ} n 0)))
          (append-nil out) in
      let all : cipher_rounds c maximum (suc n) state (byte ∷ bytes) (replicate n 0) n
            (smaller n maximum)
          ≡ Rounds.finished next out =
        first ∙ second ∙ ap (Rounds.finished next) full in
      simp (start, all, finish)
