-- ===== src/Strategy/Cipher.antt =====
-- Strategy::Encrypt and Decrypt of Components/Security/PostQuantum/NISTSecurityLevelThree.cpp: the
-- loop that feeds a buffer to a cipher of OpenSSL.
use brypt_node.Common.{
  ℕ, zero, suc, ◌+◌, ◌-◌, ◌/◌, ◌%◌, Bool, true, false, List, [], ◌∷◌, ◌++◌, Option, none, some,
  length, take, drop, replicate, ltb, ◌==◌, if◌then◌else◌,
}
use brypt_node.SecurityMediator.{Outcome, returned, thrown}
use brypt_node.KeyStore.{Store}
pub mod Loop

-- EVP_EncryptInit_ex, EVP_EncryptUpdate and EVP_EncryptFinal_ex with AES-256-CTR, or their
-- counterparts for decryption: `none` and `false` are failures. The end of this mode writes no byte.
pub record CipherFunctions (State : Type 0) : Type 0 where
  pub start : List ℕ → List ℕ → Option State
  pub update : State → List ℕ → Option (State × List ℕ)
  pub finish : State → Bool

-- How the loop ends: with the state and the output buffer, by a failure, or not within its rounds.
pub data Rounds (State : Type 0) : Type 0 where
  finished : State → List ℕ → Rounds State
  failed unfinished : Rounds State

-- The bytes are written to the front of the buffer.
abbrev pub overwrite : List ℕ → List ℕ → List ℕ
overwrite bytes out = bytes ++ drop (length bytes) out

abbrev pub smaller : ℕ → ℕ → ℕ
smaller a b = if ltb a b then a else b

abbrev pub maximum_block_size : ℕ
maximum_block_size = 2147483647

module _ {State : Type 0} (c : CipherFunctions State) (maximum : ℕ) where
  -- The pointers into both buffers stay at their fronts. A block is as long as what was left before
  -- the round that has ended, and is then subtracted. The rounds are the fuel.
  unfoldable pub cipher_rounds : ℕ → State → List ℕ → List ℕ → ℕ → ℕ → Rounds State
  cipher_rounds zero state buffer out left block = Rounds.unfinished
  cipher_rounds (suc rounds) state buffer out left block = elim (left == 0) [
    | true ↦ Rounds.finished state out
    | false ↦ elim (c.update state (take block buffer)) [
      | none ↦ Rounds.failed
      | some (next, bytes) ↦
          cipher_rounds rounds next buffer (overwrite bytes out) (left - smaller left maximum)
            (smaller left maximum)
    ]
  ]

  abbrev pub ended : Rounds State → Option (List ℕ)
  ended (Rounds.finished state out) = if c.finish state then some out else none
  ended Rounds.failed = none
  ended Rounds.unfinished = none

  abbrev started : List ℕ → Option State → Option (List ℕ)
  started buffer none = none
  started buffer (some state) = ended (
      cipher_rounds (suc (length buffer)) state buffer (replicate (length buffer) 0) (length buffer)
        (smaller (length buffer) maximum))

  -- What Encrypt and Decrypt do with a key, an initialization vector and a buffer.
  unfoldable pub run_cipher : List ℕ → List ℕ → List ℕ → Option (List ℕ)
  unfolding cipher_rounds
  run_cipher key iv buffer = started buffer (c.start key iv)

-- The bytes of an integer, least significant first, as memcpy copies them.
abbrev pub store_little : ℕ → ℕ → List ℕ
store_little zero value = []
store_little (suc bytes) value = (value % 256) ∷ store_little bytes (value / 256)

abbrev pub iv_of_nonce : ℕ → List ℕ
iv_of_nonce nonce = store_little 8 nonce ++ replicate 8 0

module _ {State : Type 0} (c : CipherFunctions State) where
  abbrev with_key : ℕ → List ℕ → Option (List ℕ) → Option (List ℕ)
  with_key nonce buffer none = none
  with_key nonce buffer (some key) = run_cipher c maximum_block_size key (iv_of_nonce nonce) buffer

  abbrev pub unless_empty : ℕ → Option (List ℕ) → List ℕ → Option (List ℕ)
  unless_empty nonce key [] = none
  unless_empty nonce key (byte ∷ bytes) = with_key nonce (byte ∷ bytes) key

  unfoldable pub encrypt : Store → List ℕ → ℕ → Outcome (Option (List ℕ))
  encrypt store buffer nonce =
      if store.has_generated_keys
      then returned (unless_empty nonce store.content_key buffer)
      else thrown

  unfoldable pub decrypt : Store → List ℕ → ℕ → Outcome (Option (List ℕ))
  decrypt store buffer nonce =
      if store.has_generated_keys
      then returned (unless_empty nonce store.peer_content_key buffer)
      else thrown
