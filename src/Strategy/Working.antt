-- ===== src/Strategy/Working.antt =====
-- What the strategy relies on of OpenSSL and liboqs where they do not fail, and what its own functions
-- then give.
use mathlib.Core.Path.{subst}
use brypt_node.Common.{
  ℕ, suc, ◌≤◌, ◌≡◌, refl, ap, ◌∙◌, true, List, [], ◌∷◌, ◌++◌, some, length, arith, append-nil,
}
use brypt_node.PackUtils.{pack_chunk, unpack_chunk, unpack_buffer, store_big, load_big}
use brypt_node.PackUtils.RoundTrip.{unpack_buffer-append}
use brypt_node.SecurityMediator.{returned}
use brypt_node.KeyStore.Cordons.{HasSize}
use brypt_node.Strategy.{
  Primitives, SessionContext, strategy_code, unpack_strategy, equal_range, signature_size,
  public_key_size, encapsulation_size,
}
use brypt_node.Strategy.Cipher.{CipherFunctions, run_cipher, maximum_block_size}
use brypt_node.Strategy.Cipher.Loop.{run_cipher_once}

-- The encryption of a buffer by one call of each function, and its decryption.
pub record Enciphers {State : Type 0} (e d : CipherFunctions State) (key iv buffer : List ℕ)
    : Type 0 where
  pub out : List ℕ
  pub opened : State
  pub closed : State
  pub reopened : State
  pub reclosed : State
  pub start : e.start key iv ≡ some opened
  pub update : e.update opened buffer ≡ some (closed, out)
  pub finish : e.finish closed ≡ true
  pub size : length out ≡ length buffer
  pub back_start : d.start key iv ≡ some reopened
  pub back_update : d.update reopened out ≡ some (reclosed, buffer)
  pub back_finish : d.finish reclosed ≡ true

-- OpenSSL where no call fails. The decryptor is the inverse of the encryptor.
pub record IsWorking {State : Type 0} (p : Primitives State) : Type 0 where
  pub sized : HasSize p.digest
  pub digested : (text : List ℕ) (size : ℕ) → (bytes : List ℕ) × (p.digest text size ≡ some bytes)
  pub authenticated :
      (key text : List ℕ)
      → (code : List ℕ) × ((p.hmac key text ≡ some code) × (length code ≡ signature_size))
  pub enciphered : (key iv buffer : List ℕ) → Enciphers p.encryptor p.decryptor key iv buffer

-- liboqs with a pair of keys: what is encapsulated for the public key is decapsulated.
pub record IsPair (one other : SessionContext) : Type 0 where
  pub encapsulation : List ℕ
  pub secret : List ℕ
  pub made : other.encapsulate one.public_key ≡ some (encapsulation, secret)
  pub opened : one.decapsulate encapsulation ≡ some secret
  pub key_size : length one.public_key ≡ public_key_size
  pub size : length encapsulation ≡ encapsulation_size

-- The type of the strategy is read where it was packed.
pub unpack_strategy_packed :
    (rest : List ℕ) → unpack_strategy (pack_chunk 2 strategy_code [] ++ rest) ≡ some rest
unfolding unpack_strategy unpack_chunk pack_chunk store_big load_big
unpack_strategy_packed rest = ground arith

pub unpack_buffer-front :
    (n : ℕ) (front rest : List ℕ)
    → length front ≡ n
    → unpack_buffer n [] (front ++ rest) ≡ some (front, rest)
unpack_buffer-front n front rest e =
    subst (λ (k : ℕ). unpack_buffer k [] (front ++ rest) ≡ some (front, rest)) e
      (unpack_buffer-append front [] rest ∙ ap (λ (f : List ℕ). some (f, rest)) (append-nil front))

pub equal_range_refl : (text : List ℕ) → equal_range text text ≡ returned true
unfolding equal_range
equal_range_refl [] = refl
equal_range_refl (a ∷ text) = ground (arith, equal_range_refl text)

module _ {State : Type 0} (p : Primitives State) (works : IsWorking p) where
  -- A buffer that is not empty and fits a block, encrypted with a key, and decrypted with it.
  pub cipher_pair :
      (key iv : List ℕ) (byte : ℕ) (bytes : List ℕ)
      → length (byte ∷ bytes) ≤ maximum_block_size
      → let out = (works.enciphered key iv (byte ∷ bytes)).out in
        (run_cipher p.encryptor maximum_block_size key iv (byte ∷ bytes) ≡ some out)
        × (run_cipher p.decryptor maximum_block_size key iv out ≡ some (byte ∷ bytes))
  cipher_pair key iv byte bytes fits =
      let w = works.enciphered key iv (byte ∷ bytes) in
      (
        run_cipher_once p.encryptor maximum_block_size key iv byte bytes fits w.start w.update
            w.finish w.size,
        back w.out w.size w.back_start w.back_update w.back_finish,
      )
    where
      back :
          (out : List ℕ) {opened closed : State}
          → length out ≡ suc (length bytes)
          → p.decryptor.start key iv ≡ some opened
          → p.decryptor.update opened out ≡ some (closed, byte ∷ bytes)
          → p.decryptor.finish closed ≡ true
          → run_cipher p.decryptor maximum_block_size key iv out ≡ some (byte ∷ bytes)
      back [] size start update finish = absurd (omega arith)
      back (first ∷ out) size start update finish =
          run_cipher_once p.decryptor maximum_block_size key iv first out (omega arith) start update
            finish (omega arith)
