-- ===== src/Strategy/Messages.antt =====
-- Messages between two sides that have each other's keys.
use brypt_node.Common.{ℕ, ◌≤◌, ◌<◌, ◌≡◌, true, List, [], ◌∷◌, ◌++◌, some, length, arith}
use brypt_node.SecurityMediator.{returned}
use brypt_node.KeyStore.{Store}
use brypt_node.Strategy.{Primitives, sign, verify}
use brypt_node.Strategy.Cipher.{maximum_block_size, encrypt, decrypt}
use brypt_node.Strategy.Working.{IsWorking}
use brypt_node.Strategy.Sealing.{
  IsKeyed, sealed, code_of, encrypt-sealed, decrypt-sealed, sign-code, verify-code,
}

-- A buffer that one store encrypts and signs, and another decrypts and verifies.
pub record IsDelivered {State : Type 0} (p : Primitives State) (x y : Store) (buffer : List ℕ)
    (nonce : ℕ) : Type 0 where
  pub encrypted : List ℕ
  pub code : List ℕ
  pub sent : encrypt p.encryptor x buffer nonce ≡ returned (some encrypted)
  pub received : decrypt p.decryptor y encrypted nonce ≡ returned (some buffer)
  pub signed : sign p x buffer buffer ≡ returned (some (length code), buffer ++ code)
  pub verified : verify p y (buffer ++ code) ≡ returned true

-- Where no call of OpenSSL fails, a buffer that is not empty and fits a block is encrypted with the
-- keys of the one side and decrypted with those of the other; what the one signs the other verifies.
pub decrypt-encrypt :
    {State : Type 0} (p : Primitives State) {x y : Store} (buffer : List ℕ) (nonce : ℕ)
    → IsWorking p
    → IsKeyed x y
    → 0 < length buffer
    → length buffer ≤ maximum_block_size
    → IsDelivered p x y buffer nonce
decrypt-encrypt p [] nonce works k some_byte fits = absurd (omega arith)
decrypt-encrypt p (byte ∷ bytes) nonce works k some_byte fits = record {
  encrypted = sealed p works k (byte ∷ bytes) nonce;
  code = code_of p works k (byte ∷ bytes);
  sent = encrypt-sealed p works k byte bytes nonce fits;
  received = decrypt-sealed p works k byte bytes nonce fits;
  signed = sign-code p works k byte bytes (byte ∷ bytes);
  verified = verify-code p works k byte bytes;
}
