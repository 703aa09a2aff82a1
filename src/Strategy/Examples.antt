-- ===== src/Strategy/Examples.antt =====
-- A synchronization with simple primitives, and a cipher over small blocks.
use brypt_node.Common.{
  ℕ, ◌+◌, ◌≡◌, ◌≢◌, refl, true, List, [], ◌∷◌, none, some, length, replicate, arith, ap, ◌∙◌, sym,
  ◌++◌, ◌==◌, if◌then◌else◌,
}
use brypt_node.SecurityMediator.{initiator, acceptor, returned}
use brypt_node.KeyStore.{
  Store, key_store, generate_session_keys, expand_session_seed, derive_secure_key,
  set_initiator_key_cordons,
}
use brypt_node.KeyStore
use brypt_node.PackUtils.{pack_chunk, store_big}
use brypt_node.KeyStore.Generation.{keyed_store}
use brypt_node.KeyStore.Examples.{counting, counting-HasSize}
use brypt_node.MessageControl.Exchange.{SynchronizationStatus}
use brypt_node.Strategy.{
  Primitives, SessionContext, Strategy, strategy, generate_verification_data, update_transaction,
  finalize, set_error, expand_seed, decapsulate_shared_secret, verify_key_share, equal_range,
  verify, generate_signature,
}
use brypt_node.Strategy.Synchronization.{handle_initialization_response, synchronize}
use brypt_node.Strategy.Stages.{head, response_handled}
use brypt_node.Strategy.Failure.{sent_unsigned}
use brypt_node.Strategy.Authentic.{IsVerified, last_stage, verified_before_ready}
use brypt_node.Strategy.Cipher.{
  CipherFunctions, Rounds, cipher_rounds, run_cipher, encrypt, decrypt,
}
use brypt_node.Identifier.{same_bytes}
use brypt_node.Strategy.Cipher.Loop.{cipher_rounds_end}
use brypt_node.Strategy.Working.{IsWorking, IsPair}
use brypt_node.Strategy.Sealing.{IsKeyed}
use brypt_node.Strategy.Messages.{IsDelivered, decrypt-encrypt}
use brypt_node.Strategy.Handshake.{IsEstablished, synchronization_established}

-- A cipher that gives each block back.
abbrev copying : CipherFunctions ℕ
copying = record {
  start = λ key iv. some 0;
  update = λ state block. some (state + 1, block);
  finish = λ state. true;
}

abbrev simple : Primitives ℕ
simple = record {
  digest = counting;
  hmac = λ key text. some (replicate 48 (length text));
  encryptor = copying;
  decryptor = copying;
}

simple-IsWorking : IsWorking simple
simple-IsWorking = record {
  sized = counting-HasSize;
  digested = λ text size. (_, refl);
  authenticated = λ key text. (_, (refl, refl));
  enciphered = λ key iv buffer. record {
    out = buffer;
    opened = 0;
    closed = 1;
    reopened = 0;
    reclosed = 1;
    start = refl;
    update = refl;
    finish = refl;
    size = refl;
    back_start = refl;
    back_update = refl;
    back_finish = refl;
  };
}

-- Contexts that agree on one secret.
abbrev context : SessionContext
context = record {
  public_key = replicate 930 1;
  encapsulate = λ key. some (replicate 930 2, 5 ∷ []);
  decapsulate = λ encapsulation. some (5 ∷ []);
}

context-IsPair : IsPair context context
context-IsPair = record {
  encapsulation = replicate 930 2;
  secret = 5 ∷ [];
  made = refl;
  opened = refl;
  key_size = refl;
  size = refl;
}

abbrev own_seed : List ℕ
own_seed = replicate 32 6

abbrev other_seed : List ℕ
other_seed = replicate 32 8

synchronization_established_example :
    IsEstablished simple own_seed other_seed
      (strategy initiator context)
      (strategy acceptor context)
unfolding strategy
synchronization_established_example =
    synchronization_established simple own_seed other_seed (strategy initiator context)
      (strategy acceptor context) simple-IsWorking context-IsPair refl refl refl refl

-- The synchronization above, whose last call returned ready.
established :
    IsEstablished simple own_seed other_seed
      (strategy initiator context)
      (strategy acceptor context)
unfolding strategy
established =
    synchronization_established simple own_seed other_seed (strategy initiator context)
      (strategy acceptor context) simple-IsWorking context-IsPair refl refl refl refl

verified_before_ready_example :
    IsVerified simple established.confirmation established.a_answered established.a_ready
verified_before_ready_example =
    verified_before_ready simple none established.confirmation established.a_answered
      (established.a_stage ∙ ap last_stage (sym established.a_role)) established.settled

-- Primitives whose HMAC fails on texts of the length of a confirmation.
abbrev mute : Primitives ℕ
mute = record simple {
  hmac = λ key text. if length text == 34 then none else some (replicate 48 (length text));
}

abbrev data_bytes : List ℕ
data_bytes = replicate 32 38

abbrev response_body : List ℕ
response_body = other_seed ++ (replicate 930 2 ++ (data_bytes ++ replicate 48 996))

-- An initiator, and the keys that it has derived from the response's encapsulation.
abbrev asking : Strategy
asking = strategy initiator context

abbrev asking_keyed : Strategy
asking_keyed = record asking {
  store =
      keyed_store initiator (replicate 192 1) data_bytes 32 48
        (record key_store { seed = asking.store.seed ++ other_seed });
}

abbrev answering : Strategy
answering = record (strategy acceptor context) {
  stage = 1;
  store = keyed_store acceptor (replicate 192 1) data_bytes 32 48 key_store;
}

derived :
    decapsulate_shared_secret mute (replicate 930 2) (expand_seed other_seed asking)
    ≡ returned (some tt, asking_keyed)
unfolding decapsulate_shared_secret generate_session_keys expand_seed expand_session_seed strategy
    derive_secure_key KeyStore.generate_verification_data set_initiator_key_cordons
derived = refl

shared : verify_key_share mute asking_keyed.store data_bytes ≡ returned true
unfolding verify_key_share decrypt run_cipher equal_range strategy
shared = refl

authentic :
    verify mute asking_keyed.store (asking_keyed.transaction ++ (head ++ response_body))
    ≡ returned true
unfolding verify generate_signature same_bytes strategy pack_chunk store_big
authentic = refl

answered :
    handle_initialization_response mute (head ++ response_body) asking
    ≡ returned (some tt, update_transaction (head ++ response_body) asking_keyed)
answered =
    response_handled mute other_seed (replicate 930 2) data_bytes (replicate 48 996) asking
      asking_keyed refl refl refl refl derived shared authentic

data_made :
    generate_verification_data mute (update_transaction (head ++ response_body) asking_keyed)
    ≡ returned (some data_bytes, update_transaction (head ++ response_body) asking_keyed)
unfolding generate_verification_data encrypt run_cipher update_transaction strategy
data_made = refl

sent_unsigned_example :
    (synchronize mute none (head ++ response_body) asking
      ≡ returned (
        (SynchronizationStatus.ready, head ++ data_bytes),
        finalize 1 (update_transaction (head ++ response_body) asking_keyed),
      ))
    × (synchronize mute none (head ++ data_bytes) answering
        ≡ returned ((SynchronizationStatus.error, []), set_error answering))
unfolding strategy pack_chunk store_big
sent_unsigned_example =
    sent_unsigned mute none none (head ++ response_body) data_bytes asking
      (update_transaction (head ++ response_body) asking_keyed) answering refl refl answered
      data_made refl (λ key. refl) refl refl refl

-- Two stores with the keys of one principal key.
abbrev asking_store : Store
asking_store = keyed_store initiator (replicate 192 3) (replicate 32 4) 32 48 key_store

abbrev answering_store : Store
answering_store = keyed_store acceptor (replicate 192 3) (replicate 32 4) 32 48 key_store

stores-IsKeyed : IsKeyed asking_store answering_store
stores-IsKeyed = record {
  own = refl;
  peer = refl;
  content = replicate 32 3;
  signature = replicate 48 3;
  content_held = refl;
  peer_content_held = refl;
  signature_held = refl;
  peer_signature_held = refl;
}

decrypt-encrypt_example : IsDelivered simple asking_store answering_store (1 ∷ 2 ∷ []) 7
decrypt-encrypt_example =
    decrypt-encrypt simple (1 ∷ 2 ∷ []) 7 simple-IsWorking stores-IsKeyed (omega arith)
      (omega arith)

-- Blocks of two bytes: the third byte of the buffer is lost.
copied_three : run_cipher copying 2 [] [] (7 ∷ 8 ∷ 9 ∷ []) ≡ some (7 ∷ 8 ∷ 0 ∷ [])
unfolding run_cipher
copied_three = refl

cipher_rounds_end_example :
    cipher_rounds copying 2 4 0 (7 ∷ 8 ∷ 9 ∷ []) (0 ∷ 0 ∷ 0 ∷ []) 3 2 ≢ Rounds.unfinished
cipher_rounds_end_example =
    cipher_rounds_end copying 2 4 0 (7 ∷ 8 ∷ 9 ∷ []) (0 ∷ 0 ∷ 0 ∷ []) 3 2 (omega arith)
      (omega arith)
