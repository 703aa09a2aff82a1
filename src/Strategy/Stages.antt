-- ===== src/Strategy/Stages.antt =====
-- The functions of the stages where their steps succeed.
use brypt_node.Common.{
  ℕ, suc, ◌≤◌, ◌≡◌, append-nil, refl, sym, ap, ◌∙◌, true, not, List, [], ◌∷◌, ◌++◌, Option, some,
  length, ◌==◌, arith, length-append, ==_iff,
}
use brypt_node.PackUtils.{pack_chunk, unpack_buffer, store_big}
use brypt_node.SecurityMediator.{returned, initiator, acceptor}
use brypt_node.KeyStore.{verification_size}
use brypt_node.Strategy.{
  Strategy, Primitives, strategy_code, public_key_size, encapsulation_size, principal_random_size,
  signature_size, set_stage, update_transaction, finalize, expand_seed, reset_tracker, sign,
  sign_transaction, verify, verify_transaction, encapsulate_shared_secret,
  decapsulate_shared_secret, generate_verification_data, verify_key_share,
}
use brypt_node.Strategy.Steps.{◌>>=◌, ◌>>◌, give, modify, require, demand, consult}
use brypt_node.Strategy.Synchronization.{
  request_size, response_size, confirmation_size, set_peer_key, is_full,
  generate_initialization_request, handle_initialization_response, generate_verification_request,
  handle_initialization_request, generate_initialization_response, handle_verification_request,
  initiator_initialization, acceptor_initialization, acceptor_verification, synchronize,
  synchronize_as, prepare_synchronization, prepare_role, told, prepared_store,
}
use brypt_node.Strategy.Working.{unpack_strategy_packed, unpack_buffer-front}

-- The type of the strategy, as it is packed.
abbrev pub head : List ℕ
head = pack_chunk 2 strategy_code []

is_full_long : (s : Strategy) (key : List ℕ) → 1 ≤ length key → is_full s key ≡ some key
is_full_long s [] h = absurd (omega arith)
is_full_long s (byte ∷ bytes) h = refl

unpack_all :
    (n : ℕ) (bytes : List ℕ) → length bytes ≡ n → unpack_buffer n [] bytes ≡ some (bytes, [])
unpack_all n bytes e =
    ap (unpack_buffer n []) (sym (append-nil bytes)) ∙ unpack_buffer-front n bytes [] e

equal_test : (a b : ℕ) → a ≡ b → (a == b) ≡ true
equal_test a b e = (==_iff a b).1 e

pub head_size : length head ≡ 2
unfolding pack_chunk store_big
head_size = refl

-- The strategy after the reset that begins a synchronization.
abbrev pub fresh : Strategy → Strategy
fresh s = reset_tracker (record s { store = prepared_store s.store })

module _ {State : Type 0} (p : Primitives State) where
  pub request_made :
      (seed : List ℕ) (s : Strategy)
      → length s.session.public_key ≡ public_key_size
      → let request = head ++ (seed ++ s.session.public_key) in
        generate_initialization_request p (some seed) s
        ≡ returned (some request, update_transaction request (expand_seed seed s))
  unfolding generate_initialization_request ◌>>=◌ ◌>>◌ give modify demand expand_seed
      update_transaction
  request_made seed s size = simp (is_full_long _ s.session.public_key (omega arith))

  pub request_handled :
      (seed key : List ℕ) (s : Strategy)
      → length seed ≡ principal_random_size
      → length key ≡ public_key_size
      → let request = head ++ (seed ++ key) in
        handle_initialization_request p request s
        ≡ returned (some tt, update_transaction request (set_peer_key key (expand_seed seed s)))
  unfolding handle_initialization_request ◌>>=◌ ◌>>◌ modify require demand
  request_handled seed key s seed_size key_size =
      let size : length (head ++ (seed ++ key)) ≡ request_size =
        omega (arith, length-append head (seed ++ key), length-append seed key, head_size) in
      simp (
        unpack_strategy_packed (seed ++ key),
        equal_test _ _ size,
        unpack_buffer-front principal_random_size seed key seed_size,
        unpack_all public_key_size key key_size,
      )

  pub response_made :
      (seed encapsulation verification code : List ℕ) (n : ℕ) (s next : Strategy)
      → encapsulate_shared_secret p (expand_seed seed s) ≡ returned (some encapsulation, next)
      → generate_verification_data p next ≡ returned (some verification, next)
      → let body = head ++ (seed ++ (encapsulation ++ verification)) in
        sign p next.store (next.transaction ++ body) body ≡ returned (some (suc n), body ++ code)
        → generate_initialization_response p (some seed) s
          ≡ returned (some (body ++ code), update_transaction body (set_stage 1 next))
  unfolding generate_initialization_response ◌>>=◌ ◌>>◌ give modify demand consult set_stage
      update_transaction sign_transaction
  response_made seed encapsulation verification code n s next kept made signed =
      let not_zero : not (suc n == 0) ≡ true = ground arith in simp (kept, made, signed, not_zero)

  pub response_handled :
      (seed encapsulation verification code : List ℕ) (s next : Strategy)
      → length seed ≡ principal_random_size
      → length encapsulation ≡ encapsulation_size
      → length verification ≡ verification_size
      → length code ≡ signature_size
      → decapsulate_shared_secret p encapsulation (expand_seed seed s) ≡ returned (some tt, next)
      → verify_key_share p next.store verification ≡ returned true
      → let response = head ++ (seed ++ (encapsulation ++ (verification ++ code))) in
        verify p next.store (next.transaction ++ response) ≡ returned true
        → handle_initialization_response p response s
          ≡ returned (some tt, update_transaction response next)
  unfolding handle_initialization_response ◌>>=◌ ◌>>◌ modify require demand consult
      update_transaction verify_transaction
  response_handled seed encapsulation verification code s next a b c d kept shared verified =
      let size : length (head ++ (seed ++ (encapsulation ++ (verification ++ code))))
          ≡ response_size =
        omega (
          arith,
          length-append head (seed ++ (encapsulation ++ (verification ++ code))),
          length-append seed (encapsulation ++ (verification ++ code)),
          length-append encapsulation (verification ++ code),
          length-append verification code,
          head_size,
        ) in
      simp (
        unpack_strategy_packed (seed ++ (encapsulation ++ (verification ++ code))),
        equal_test _ _ size,
        unpack_buffer-front principal_random_size seed (encapsulation ++ (verification ++ code)) a,
        kept,
        unpack_buffer-front encapsulation_size encapsulation (verification ++ code) b,
        unpack_buffer-front verification_size verification code c,
        shared,
        verified,
      )

  pub confirmation_made :
      (verification code : List ℕ) (n : ℕ) (s : Strategy)
      → generate_verification_data p s ≡ returned (some verification, s)
      → sign p s.store (head ++ verification) (head ++ verification)
        ≡ returned (some (suc n), (head ++ verification) ++ code)
      → generate_verification_request p s
        ≡ returned (some ((head ++ verification) ++ code), finalize 1 s)
  unfolding generate_verification_request ◌>>=◌ ◌>>◌ give modify consult
  confirmation_made verification code n s made signed =
      let not_zero : not (suc n == 0) ≡ true = ground arith in simp (made, signed, not_zero)

  pub confirmation_handled :
      (verification code : List ℕ) (s : Strategy)
      → length verification ≡ verification_size
      → length code ≡ signature_size
      → verify p s.store (head ++ (verification ++ code)) ≡ returned true
      → verify_key_share p s.store verification ≡ returned true
      → handle_verification_request p (head ++ (verification ++ code)) s
        ≡ returned (some tt, finalize 2 s)
  unfolding handle_verification_request ◌>>=◌ ◌>>◌ modify require demand consult
  confirmation_handled verification code s a b verified shared =
      let size : length (head ++ (verification ++ code)) ≡ confirmation_size = omega (
        arith,
        length-append head (verification ++ code),
        length-append verification code,
        head_size,
      ) in
      simp (
        verified,
        unpack_strategy_packed (verification ++ code),
        equal_test _ _ size,
        unpack_buffer-front verification_size verification code a,
        shared,
      )

  -- What the calls of the strategy return where their two halves succeed.
  module _ (random : Option (List ℕ)) (buffer : List ℕ) (s middle last : Strategy)
      (message : List ℕ) where
    pub acceptor_answers :
        s.role ≡ acceptor
        → s.stage ≡ 0
        → handle_initialization_request p buffer s ≡ returned (some tt, middle)
        → generate_initialization_response p random middle ≡ returned (some message, last)
        → synchronize p random buffer s ≡ returned ((last.status, message), last)
    unfolding synchronize acceptor_initialization ◌>>=◌ ◌>>◌
    acceptor_answers role stage handled made =
        let both : acceptor_initialization p random buffer s ≡ returned (some message, last) =
          simp (handled, made) in
        (λ k. synchronize_as p (role k) (stage k) random buffer s) ∙ ap told both

    pub initiator_answers :
        s.role ≡ initiator
        → s.stage ≡ 0
        → handle_initialization_response p buffer s ≡ returned (some tt, middle)
        → generate_verification_request p middle ≡ returned (some message, last)
        → synchronize p random buffer s ≡ returned ((last.status, message), last)
    unfolding synchronize initiator_initialization ◌>>=◌ ◌>>◌
    initiator_answers role stage handled made =
        let both : initiator_initialization p buffer s ≡ returned (some message, last) =
          simp (handled, made) in
        (λ k. synchronize_as p (role k) (stage k) random buffer s) ∙ ap told both

  pub acceptor_settles :
      (random : Option (List ℕ)) (buffer : List ℕ) (s last : Strategy)
      → s.role ≡ acceptor
      → s.stage ≡ 1
      → handle_verification_request p buffer s ≡ returned (some tt, last)
      → synchronize p random buffer s ≡ returned ((last.status, []), last)
  unfolding synchronize acceptor_verification ◌>>=◌ ◌>>◌ give
  acceptor_settles random buffer s last role stage handled =
      let whole : acceptor_verification p buffer s ≡ returned (some [], last) = simp handled in
      (λ k. synchronize_as p (role k) (stage k) random buffer s) ∙ ap told whole

  pub initiator_prepares :
      (random : Option (List ℕ)) (s last : Strategy) (message : List ℕ)
      → s.role ≡ initiator
      → generate_initialization_request p random (fresh s) ≡ returned (some message, last)
      → prepare_synchronization p random s ≡ returned ((last.status, message), last)
  unfolding prepare_synchronization
  initiator_prepares random s last message role made =
      ap (prepare_role p random (fresh s)) role ∙ ap told made

  pub acceptor_prepares :
      (random : Option (List ℕ)) (s : Strategy)
      → s.role ≡ acceptor
      → prepare_synchronization p random s ≡ returned (((fresh s).status, []), fresh s)
  unfolding prepare_synchronization
  acceptor_prepares random s role = ap (prepare_role p random (fresh s)) role
