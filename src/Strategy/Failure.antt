-- ===== src/Strategy/Failure.antt =====
-- A confirmation whose code cannot be made.
use brypt_node.Common.{
  ℕ, ◌≡◌, refl, ap, ◌∙◌, inl, inr, true, false, List, [], ◌∷◌, ◌++◌, Option, none, some, length,
  leb, Bool-cases, Option-cases, arith, length-append,
}
use brypt_node.MessageControl.Exchange.{SynchronizationStatus}
use brypt_node.SecurityMediator.{returned, initiator, acceptor}
use brypt_node.KeyStore.{Store, verification_size}
use brypt_node.Strategy.{
  Strategy, Primitives, generate_signature, sign, verify, finalize, set_error, update_transaction,
  generate_verification_data, signature_size,
}
use brypt_node.Strategy.Steps.{◌>>=◌, ◌>>◌, give, modify, consult}
use brypt_node.Strategy.Synchronization.{
  handle_initialization_response, generate_verification_request, handle_verification_request,
  acceptor_verification, synchronize, synchronize_as, told,
}
use brypt_node.Strategy.Stages.{head, head_size, initiator_answers}
use brypt_node.Strategy.Authentic.{handled-IsAccepted}

module _ {State : Type 0} (p : Primitives State) where
  -- What is verified is verified with keys.
  verified_keyed :
      (store : Store) (buffer : List ℕ)
      → verify p store buffer ≡ returned true
      → store.has_generated_keys ≡ true
  unfolding verify
  verified_keyed store buffer e = elim (Bool-cases store.has_generated_keys) [
    | inl keyed ↦ keyed
    | inr unkeyed ↦ let bad = rw unkeyed at e in ground (arith, bad)
  ]

  -- A missing key and a failure of HMAC on the text give the result -1.
  sign_unmade :
      (store : Store) (source destination : List ℕ)
      → store.has_generated_keys ≡ true
      → ((key : List ℕ) → p.hmac key source ≡ none)
      → sign p store source destination ≡ returned (none, destination)
  unfolding sign generate_signature
  sign_unmade store source destination keyed fails = elim (Option-cases store.signature_key) [
    | inl no_key ↦ simp (keyed, no_key)
    | inr (key, held) ↦ simp (keyed, held, unmade key source (fails key))
  ]
    where
      unmade : (key text : List ℕ) → p.hmac key text ≡ none → generate_signature p key text ≡ none
      unmade key [] e = refl
      unmade key (byte ∷ bytes) e = e

  unsigned_confirmation :
      (verification : List ℕ) (s : Strategy)
      → s.store.has_generated_keys ≡ true
      → ((key : List ℕ) → p.hmac key (head ++ verification) ≡ none)
      → generate_verification_data p s ≡ returned (some verification, s)
      → generate_verification_request p s ≡ returned (some (head ++ verification), finalize 1 s)
  unfolding generate_verification_request ◌>>=◌ ◌>>◌ give modify consult
  unsigned_confirmation verification s keyed fails made =
      simp (made, sign_unmade s.store (head ++ verification) (head ++ verification) keyed fails)

  -- A buffer that is not longer than a signature.
  verify_short :
      (store : Store) (buffer : List ℕ)
      → store.has_generated_keys ≡ true
      → leb (length buffer) signature_size ≡ true
      → verify p store buffer ≡ returned false
  unfolding verify
  verify_short store buffer keyed short = simp (keyed, short)

  acceptor_refuses :
      (random : Option (List ℕ)) (buffer : List ℕ) (s : Strategy)
      → s.role ≡ acceptor
      → s.stage ≡ 1
      → verify p s.store buffer ≡ returned false
      → synchronize p random buffer s ≡ returned ((SynchronizationStatus.error, []), set_error s)
  unfolding synchronize acceptor_verification handle_verification_request ◌>>=◌ ◌>>◌ consult
  acceptor_refuses random buffer s role stage unverified =
      let whole : acceptor_verification p buffer s ≡ returned (none, s) = simp unverified in
      (λ k. synchronize_as p (role k) (stage k) random buffer s) ∙ ap told whole

  -- Where an initiator in its first stage accepts a response, and HMAC fails on the text of the
  -- confirmation, the call returns ready with a confirmation that has no code, and the initiator is
  -- final; an acceptor with keys, in its last stage, answers that confirmation with an error.
  pub sent_unsigned :
      (random other : Option (List ℕ)) (pack verification : List ℕ) (s middle t : Strategy)
      → s.role ≡ initiator
      → s.stage ≡ 0
      → handle_initialization_response p pack s ≡ returned (some tt, middle)
      → generate_verification_data p middle ≡ returned (some verification, middle)
      → length verification ≡ verification_size
      → ((key : List ℕ) → p.hmac key (head ++ verification) ≡ none)
      → t.role ≡ acceptor
      → t.stage ≡ 1
      → t.store.has_generated_keys ≡ true
      → (synchronize p random pack s
          ≡ returned ((SynchronizationStatus.ready, head ++ verification), finalize 1 middle))
        × (synchronize p other (head ++ verification) t
            ≡ returned ((SynchronizationStatus.error, []), set_error t))
  unfolding finalize update_transaction
  sent_unsigned random other pack verification s middle t role stage handled made size fails role'
        stage' keyed =
      let accepted = handled-IsAccepted p pack s handled in
      let keys : middle.store.has_generated_keys ≡ true =
        ap (λ (m : Strategy). m.store.has_generated_keys) accepted.finished
        ∙ verified_keyed accepted.keyed.store _ accepted.authentic in
      (
        initiator_answers p random pack s middle (finalize 1 middle) (head ++ verification) role
            stage handled (unsigned_confirmation verification middle keys fails made),
        acceptor_refuses other (head ++ verification) t role' stage' (
            verify_short t.store (head ++ verification) keyed
              (ground (arith, size, length-append head verification, head_size))),
      )
