-- ===== src/Strategy/Sealing.antt =====
-- What one side encrypts or signs, the other decrypts and verifies.

use brypt_node.Common.{
  ℕ, suc, ◌+◌, ◌-◌, ◌≤◌, ◌≡◌, ap, ◌∙◌, true, false, List, [], ◌∷◌, ◌++◌, some, length, take, drop,
  leb, arith, length-append, take-append_length, drop-append_length,
}
use brypt_node.Identifier.{same_bytes}
use brypt_node.Identifier.Comparison.{same_bytes_refl}
use brypt_node.SecurityMediator.{returned}
use brypt_node.KeyStore.{Store}
use brypt_node.Strategy.{
  Primitives, sign, verify, verify_with, same_signature, generate_signature, signature_size,
  verify_key_share,
}
use brypt_node.Strategy.Cipher.{run_cipher, maximum_block_size, encrypt, decrypt, iv_of_nonce}
use brypt_node.Strategy.Cipher.Loop.{take_whole}
use brypt_node.Strategy.Working.{IsWorking, equal_range_refl, cipher_pair}

-- Stores with keys, where what one has for itself the other has for its peer.
pub record IsKeyed (x y : Store) : Type 0 where
  pub own : x.has_generated_keys ≡ true
  pub peer : y.has_generated_keys ≡ true
  pub content : List ℕ
  pub signature : List ℕ
  pub content_held : x.content_key ≡ some content
  pub peer_content_held : y.peer_content_key ≡ some content
  pub signature_held : x.signature_key ≡ some signature
  pub peer_signature_held : y.peer_signature_key ≡ some signature

module _ {State : Type 0} (p : Primitives State) (works : IsWorking p) {x y : Store}
    (k : IsKeyed x y) where
  -- The encryption of a buffer.
  abbrev pub sealed : List ℕ → ℕ → List ℕ
  sealed buffer nonce = (works.enciphered k.content (iv_of_nonce nonce) buffer).out

  pub encrypt-sealed :
      (byte : ℕ) (bytes : List ℕ) (nonce : ℕ)
      → length (byte ∷ bytes) ≤ maximum_block_size
      → encrypt p.encryptor x (byte ∷ bytes) nonce ≡ returned (some (sealed (byte ∷ bytes) nonce))
  unfolding encrypt
  encrypt-sealed byte bytes nonce fits =
      simp (
        k.own,
        k.content_held,
        (cipher_pair p works k.content (iv_of_nonce nonce) byte bytes fits).0,
      )

  decrypt_nonempty :
      (out : List ℕ) (nonce n : ℕ) {text : List ℕ}
      → length out ≡ suc n
      → run_cipher p.decryptor maximum_block_size k.content (iv_of_nonce nonce) out ≡ some text
      → decrypt p.decryptor y out nonce ≡ returned (some text)
  unfolding decrypt
  decrypt_nonempty [] nonce n size e = absurd (omega arith)
  decrypt_nonempty (first ∷ out) nonce n size e = simp (k.peer, k.peer_content_held, e)

  -- A buffer that is not empty and fits a block is encrypted into as many bytes, and the other side
  -- decrypts them into the buffer.
  pub decrypt-sealed :
      (byte : ℕ) (bytes : List ℕ) (nonce : ℕ)
      → length (byte ∷ bytes) ≤ maximum_block_size
      → decrypt p.decryptor y (sealed (byte ∷ bytes) nonce) nonce ≡ returned (some (byte ∷ bytes))
  decrypt-sealed byte bytes nonce fits =
      decrypt_nonempty _ nonce (length bytes)
        (works.enciphered k.content (iv_of_nonce nonce) (byte ∷ bytes)).size
        (cipher_pair p works k.content (iv_of_nonce nonce) byte bytes fits).1

  -- Verification data that both have is accepted where it was encrypted by the other side.
  pub verify_key_share-sealed :
      (byte : ℕ) (bytes : List ℕ)
      → length (byte ∷ bytes) ≤ maximum_block_size
      → y.verification_data ≡ some (byte ∷ bytes)
      → verify_key_share p y (sealed (byte ∷ bytes) 0) ≡ returned true
  unfolding verify_key_share
  verify_key_share-sealed byte bytes fits held =
      simp (held, decrypt-sealed byte bytes 0 fits, equal_range_refl (byte ∷ bytes))

  -- The signature of a text.
  abbrev pub code_of : List ℕ → List ℕ
  code_of text = (works.authenticated k.signature text).0

  pub sign-code :
      (byte : ℕ) (bytes destination : List ℕ)
      → sign p x (byte ∷ bytes) destination
        ≡ returned (some (length (code_of (byte ∷ bytes))), destination ++ code_of (byte ∷ bytes))
  unfolding sign generate_signature
  sign-code byte bytes destination =
      simp (k.own, k.signature_held, (works.authenticated k.signature (byte ∷ bytes)).1.0)

  pub verify-code :
      (byte : ℕ) (bytes : List ℕ)
      → verify p y ((byte ∷ bytes) ++ code_of (byte ∷ bytes)) ≡ returned true
  unfolding verify generate_signature
  verify-code byte bytes =
      let text : List ℕ = byte ∷ bytes in
      let code : List ℕ = code_of text in
      let size : length code ≡ signature_size = (works.authenticated k.signature text).1.1 in
      let whole : length (text ++ code) ≡ length text + length code = length-append text code in
      let content : length text ≡ length (text ++ code) - signature_size = omega arith in
      let long : leb (length (text ++ code)) signature_size ≡ false = ground arith in
      let front : take (length (text ++ code) - signature_size) (text ++ code) ≡ text =
        take-append_length _ text code content in
      let back : drop (length (text ++ code) - signature_size) (text ++ code) ≡ code =
        drop-append_length _ text code content in
      let made : generate_signature p k.signature
            (take (length (text ++ code) - signature_size) (text ++ code))
          ≡ some code =
        ap (generate_signature p k.signature) front ∙ (works.authenticated k.signature text).1.0 in
      let joined : same_signature p (drop (length (text ++ code) - signature_size) (text ++ code)) (
            generate_signature p k.signature
              (take (length (text ++ code) - signature_size) (text ++ code)))
          ≡ same_signature p code (some code) =
        λ i. same_signature p (back i) (made i) in
      let whole_code : take (length code) code ≡ code =
        take_whole (length code) code (omega arith) in
      let checked : verify_with p (text ++ code) (some k.signature) ≡ true =
        joined ∙ (ap (same_bytes code) whole_code ∙ same_bytes_refl code) in
      simp (k.peer, k.peer_signature_held, long, checked)
