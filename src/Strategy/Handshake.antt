-- ===== src/Strategy/Handshake.antt =====
-- The whole synchronization of an initiator and an acceptor.
use mathlib.Core.Path.{subst}
use brypt_node.Common.{
  ℕ, ◌≤◌, ◌≡◌, refl, ap, ◌∙◌, true, List, [], ◌∷◌, ◌++◌, none, some, length, arith, append_assoc,
  length-append,
}
use brypt_node.MessageControl.Exchange.{SynchronizationStatus}
use brypt_node.SecurityMediator.{returned, Role, initiator, acceptor}
use brypt_node.KeyStore.{
  Store, get_cordon, verification_text, verification_size, expand_session_seed, set_peer_public_key,
}
use brypt_node.KeyStore.Generation.{IsMirrored, keyed_store, generate-keyed}
use brypt_node.Strategy.{
  Strategy, Primitives, principal_random_size, set_stage, update_transaction, finalize, expand_seed,
  reset_tracker, encapsulate_shared_secret, decapsulate_shared_secret, generate_verification_data,
  sign, verify, verify_key_share,
}
use brypt_node.Strategy.Synchronization.{
  prepare_synchronization, synchronize, set_peer_key, generate_initialization_response,
  handle_initialization_response, generate_verification_request, handle_verification_request,
}
use brypt_node.Strategy.Working.{IsWorking, IsPair}
use brypt_node.Strategy.Sealing.{
  IsKeyed, sealed, code_of, encrypt-sealed, sign-code, verify-code, verify_key_share-sealed,
}
use brypt_node.Strategy.Stages.{
  head, head_size, request_made, request_handled, response_made, response_handled,
  confirmation_made, confirmation_handled, acceptor_answers, initiator_answers, acceptor_settles,
  fresh, initiator_prepares, acceptor_prepares,
}

-- A synchronization that has come to its end: the packs that were exchanged, and what each call
-- returned. The random seeds are those of the initiator and of the acceptor.
pub record IsEstablished {State : Type 0} (p : Primitives State) (own other : List ℕ)
    (i a : Strategy) : Type 0 where
  pub request : List ℕ
  pub response : List ℕ
  pub confirmation : List ℕ
  pub i_prepared : Strategy
  pub a_prepared : Strategy
  pub a_answered : Strategy
  pub i_ready : Strategy
  pub a_ready : Strategy
  pub requested :
      prepare_synchronization p (some own) i
      ≡ returned ((SynchronizationStatus.processing, request), i_prepared)
  pub awaited :
      prepare_synchronization p none a
      ≡ returned ((SynchronizationStatus.processing, []), a_prepared)
  pub answered :
      synchronize p (some other) request a_prepared
      ≡ returned ((SynchronizationStatus.processing, response), a_answered)
  pub confirmed :
      synchronize p none response i_prepared
      ≡ returned ((SynchronizationStatus.ready, confirmation), i_ready)
  pub settled :
      synchronize p none confirmation a_answered
      ≡ returned ((SynchronizationStatus.ready, []), a_ready)
  pub a_role : a_answered.role ≡ acceptor
  pub a_stage : a_answered.stage ≡ 1
  pub i_keyed : i_ready.store.has_generated_keys ≡ true
  pub a_keyed : a_ready.store.has_generated_keys ≡ true
  pub mirrored : IsMirrored i_ready.store a_ready.store

-- The strategy with the keys that are derived from a secret.
abbrev with_keys : Role → List ℕ → List ℕ → Strategy → Strategy
with_keys role principal verification s = record s {
  store = keyed_store role principal verification 32 48 s.store;
}

module _ {State : Type 0} (p : Primitives State) (secret principal verification : List ℕ) where
  abbrev IsFrom : Type 0
  IsFrom =
      (p.digest secret 192 ≡ some principal)
      × (p.digest (get_cordon principal 160 32 ++ verification_text) 32 ≡ some verification)

  encapsulate_keyed :
      (s : Strategy) (key encapsulation : List ℕ)
      → IsFrom
      → s.role ≡ acceptor
      → s.store.peer_public_key ≡ some key
      → s.session.encapsulate key ≡ some (encapsulation, secret)
      → encapsulate_shared_secret p s
        ≡ returned (some encapsulation, with_keys acceptor principal verification s)
  unfolding encapsulate_shared_secret
  encapsulate_keyed s key encapsulation from role held made = simp (
    held,
    made,
    role,
    generate-keyed p.digest acceptor secret 32 48 s.store principal verification refl from.0 from.1,
  )

  decapsulate_keyed :
      (s : Strategy) (encapsulation : List ℕ)
      → IsFrom
      → s.role ≡ initiator
      → s.session.decapsulate encapsulation ≡ some secret
      → decapsulate_shared_secret p encapsulation s
        ≡ returned (some tt, with_keys initiator principal verification s)
  unfolding decapsulate_shared_secret
  decapsulate_keyed s encapsulation from role opened = simp (
    opened,
    role,
    generate-keyed p.digest initiator secret 32 48 s.store principal verification refl from.0
        from.1,
  )

module _ {State : Type 0} (p : Primitives State) (works : IsWorking p) {x y : Store}
    (k : IsKeyed x y) where
  data_made :
      (s : Strategy) (verification : List ℕ)
      → s.store ≡ x
      → x.verification_data ≡ some verification
      → length verification ≡ verification_size
      → generate_verification_data p s ≡ returned (some (sealed p works k verification 0), s)
  unfolding generate_verification_data
  data_made s [] at held size = absurd (omega arith)
  data_made s (byte ∷ bytes) at held size =
      simp (at, held, encrypt-sealed p works k byte bytes 0 (omega arith))

  share_accepted :
      (verification : List ℕ)
      → y.verification_data ≡ some verification
      → length verification ≡ verification_size
      → verify_key_share p y (sealed p works k verification 0) ≡ returned true
  share_accepted [] held size = absurd (omega arith)
  share_accepted (byte ∷ bytes) held size =
      verify_key_share-sealed p works k byte bytes (omega arith) held

  text_signed :
      (text destination : List ℕ)
      → 1 ≤ length text
      → sign p x text destination ≡ returned (some 48, destination ++ code_of p works k text)
  text_signed [] destination size = absurd (omega arith)
  text_signed (byte ∷ bytes) destination size =
      sign-code p works k byte bytes destination
      ∙ ap (λ (n : ℕ). returned (some n, destination ++ code_of p works k (byte ∷ bytes)))
          (works.authenticated k.signature (byte ∷ bytes)).1.1

  text_verified :
      (text : List ℕ)
      → 1 ≤ length text
      → verify p y (text ++ code_of p works k text) ≡ returned true
  text_verified [] size = absurd (omega arith)
  text_verified (byte ∷ bytes) size = verify-code p works k byte bytes

nonempty_head : (rest more : List ℕ) → 1 ≤ length ((head ++ rest) ++ more)
nonempty_head rest more =
    omega (arith, head_size, length-append head rest, length-append (head ++ rest) more)

-- The states of a synchronization and its packs, one after the other.
module _ {State : Type 0} (p : Primitives State) (works : IsWorking p) (own other : List ℕ)
    (i a : Strategy) (pair : IsPair i.session a.session) where
  abbrev principal_of : List ℕ
  principal_of = (works.digested pair.secret 192).0

  abbrev data_of : List ℕ
  data_of = (works.digested (get_cordon principal_of 160 32 ++ verification_text) 32).0

  abbrev request_of : List ℕ
  request_of = head ++ (own ++ i.session.public_key)

  abbrev i_asking : Strategy
  i_asking = update_transaction request_of (expand_seed own (fresh i))

  abbrev a_asked : Strategy
  a_asked =
      update_transaction request_of (set_peer_key i.session.public_key (expand_seed own (fresh a)))

  abbrev a_keys : Strategy
  a_keys = with_keys acceptor principal_of data_of (expand_seed other a_asked)

  abbrev i_keys : Strategy
  i_keys = with_keys initiator principal_of data_of (expand_seed other i_asking)

  abbrev a_to_i : IsKeyed a_keys.store i_keys.store
  a_to_i = record {
    own = refl;
    peer = refl;
    content = get_cordon principal_of 32 32;
    signature = get_cordon principal_of 112 48;
    content_held = refl;
    peer_content_held = refl;
    signature_held = refl;
    peer_signature_held = refl;
  }

  abbrev i_to_a : IsKeyed i_keys.store a_keys.store
  i_to_a = record {
    own = refl;
    peer = refl;
    content = get_cordon principal_of 0 32;
    signature = get_cordon principal_of 64 48;
    content_held = refl;
    peer_content_held = refl;
    signature_held = refl;
    peer_signature_held = refl;
  }

  abbrev answer_of : List ℕ
  answer_of = head ++ (other ++ (pair.encapsulation ++ sealed p works a_to_i data_of 0))

  abbrev answer_code : List ℕ
  answer_code = code_of p works a_to_i (request_of ++ answer_of)

  abbrev confirmation_of : List ℕ
  confirmation_of = head ++ sealed p works i_to_a data_of 0

  abbrev confirmation_code : List ℕ
  confirmation_code = code_of p works i_to_a confirmation_of

  abbrev a_answered_of : Strategy
  a_answered_of = update_transaction answer_of (set_stage 1 a_keys)

  from_secret : IsFrom p pair.secret principal_of data_of
  from_secret = (
    (works.digested pair.secret 192).1,
    (works.digested (get_cordon principal_of 160 32 ++ verification_text) 32).1,
  )

  data_size : length data_of ≡ verification_size
  data_size = works.sized _ 32 data_of from_secret.1

  request_long : 1 ≤ length (request_of ++ answer_of)
  request_long = nonempty_head (own ++ i.session.public_key) answer_of

  -- The acceptor's answer.
  answer_made :
      a.role ≡ acceptor
      → generate_initialization_response p (some other) a_asked
        ≡ returned (some (answer_of ++ answer_code), a_answered_of)
  unfolding expand_seed expand_session_seed update_transaction set_stage reset_tracker
      set_peer_public_key
  answer_made role =
      response_made p other pair.encapsulation _ answer_code 47 a_asked a_keys
        (encapsulate_keyed p pair.secret principal_of data_of (expand_seed other a_asked)
          i.session.public_key pair.encapsulation from_secret role refl pair.made)
        (data_made p works a_to_i a_keys data_of refl refl data_size)
        (text_signed p works a_to_i (request_of ++ answer_of) answer_of request_long)

  abbrev answer_data : List ℕ
  answer_data = sealed p works a_to_i data_of 0

  abbrev confirmation_data : List ℕ
  confirmation_data = sealed p works i_to_a data_of 0

  -- The two packs with codes, in the order of their parts.
  abbrev response_of : List ℕ
  response_of = head ++ (other ++ (pair.encapsulation ++ (answer_data ++ answer_code)))

  abbrev confirmed_of : List ℕ
  confirmed_of = head ++ (confirmation_data ++ confirmation_code)

  answer_parts : answer_of ++ answer_code ≡ response_of
  answer_parts = simp append_assoc

  confirmation_parts : confirmation_of ++ confirmation_code ≡ confirmed_of
  confirmation_parts = simp append_assoc

  transaction_parts : (request_of ++ answer_of) ++ answer_code ≡ request_of ++ response_of
  transaction_parts =
      append_assoc request_of answer_of answer_code
      ∙ ap (λ (r : List ℕ). request_of ++ r) answer_parts

  abbrev i_confirming : Strategy
  i_confirming = update_transaction response_of i_keys

  answer_handled :
      length other ≡ principal_random_size
      → i.role ≡ initiator
      → handle_initialization_response p response_of i_asking ≡ returned (some tt, i_confirming)
  unfolding expand_seed expand_session_seed update_transaction reset_tracker
  answer_handled other_size role =
      response_handled p other pair.encapsulation answer_data answer_code i_asking i_keys other_size
        pair.size ((works.enciphered a_to_i.content _ data_of).size ∙ data_size)
        (works.authenticated a_to_i.signature (request_of ++ answer_of)).1.1
        (decapsulate_keyed p pair.secret principal_of data_of (expand_seed other i_asking)
          pair.encapsulation from_secret role pair.opened)
        (share_accepted p works a_to_i data_of refl data_size)
        (subst (λ (t : List ℕ). verify p i_keys.store t ≡ returned true) transaction_parts
          (text_verified p works a_to_i (request_of ++ answer_of) request_long))

  confirmation_long : 1 ≤ length confirmation_of
  confirmation_long = omega (arith, head_size, length-append head confirmation_data)

  confirmation_sent :
      generate_verification_request p i_confirming
      ≡ returned (some (confirmation_of ++ confirmation_code), finalize 1 i_confirming)
  unfolding update_transaction
  confirmation_sent =
      confirmation_made p confirmation_data confirmation_code 47 i_confirming
        (data_made p works i_to_a i_confirming data_of refl refl data_size)
        (text_signed p works i_to_a confirmation_of confirmation_of confirmation_long)

  confirmation_accepted :
      handle_verification_request p confirmed_of a_answered_of
      ≡ returned (some tt, finalize 2 a_answered_of)
  unfolding update_transaction set_stage
  confirmation_accepted =
      confirmation_handled p confirmation_data confirmation_code a_answered_of
        ((works.enciphered i_to_a.content _ data_of).size ∙ data_size)
        (works.authenticated i_to_a.signature confirmation_of).1.1
        (subst (λ (t : List ℕ). verify p a_keys.store t ≡ returned true) confirmation_parts
          (text_verified p works i_to_a confirmation_of confirmation_long))
        (share_accepted p works i_to_a data_of refl data_size)

-- Where no call of OpenSSL or liboqs fails and the two have a pair of keys, a synchronization of an
-- initiator and an acceptor, whatever they did before, ends after the request, the response and the
-- confirmation with both ready, and each has the other's keys as its peer's.
pub synchronization_established :
    {State : Type 0} (p : Primitives State) (own other : List ℕ) (i a : Strategy)
    → IsWorking p
    → IsPair i.session a.session
    → i.role ≡ initiator
    → a.role ≡ acceptor
    → length own ≡ principal_random_size
    → length other ≡ principal_random_size
    → IsEstablished p own other i a
unfolding update_transaction set_stage finalize expand_seed reset_tracker
synchronization_established p own other i a works pair i_role a_role own_size other_size = record {
  request = request_of p works own other i a pair;
  response = response_of p works own other i a pair;
  confirmation = confirmed_of p works own other i a pair;
  i_prepared = i_asking p works own other i a pair;
  a_prepared = fresh a;
  a_answered = a_answered_of p works own other i a pair;
  i_ready = finalize 1 (i_confirming p works own other i a pair);
  a_ready = finalize 2 (a_answered_of p works own other i a pair);
  requested =
      initiator_prepares p (some own) i _ _ i_role (request_made p own (fresh i) pair.key_size);
  awaited = acceptor_prepares p none a a_role;
  answered =
      subst
        (λ (r : List ℕ).
          synchronize p (some other) (request_of p works own other i a pair) (fresh a)
          ≡ returned
              ((SynchronizationStatus.processing, r), a_answered_of p works own other i a pair))
        (answer_parts p works own other i a pair)
        (acceptor_answers p (some other) _ (fresh a) _ _ _ a_role refl
          (request_handled p own i.session.public_key (fresh a) own_size pair.key_size)
          (answer_made p works own other i a pair a_role));
  confirmed =
      subst
        (λ (r : List ℕ).
          synchronize p none (response_of p works own other i a pair)
            (i_asking p works own other i a pair)
          ≡ returned (
            (SynchronizationStatus.ready, r),
            finalize 1 (i_confirming p works own other i a pair),
          ))
        (confirmation_parts p works own other i a pair)
        (initiator_answers p none _ (i_asking p works own other i a pair) _ _ _ i_role refl
          (answer_handled p works own other i a pair other_size i_role)
          (confirmation_sent p works own other i a pair));
  settled =
      acceptor_settles p none _ (a_answered_of p works own other i a pair) _ a_role refl
        (confirmation_accepted p works own other i a pair);
  a_role = a_role;
  a_stage = refl;
  i_keyed = refl;
  a_keyed = refl;
  mirrored = record {
    content = refl;
    peer_content = refl;
    signature = refl;
    peer_signature = refl;
    verification = refl;
  };
}
