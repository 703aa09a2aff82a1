-- ===== src/Strategy/Synchronization.antt =====
-- The stages of the synchronization, for the initiator and for the acceptor.
use brypt_node.Common.{ℕ, ◌+◌, List, [], ◌∷◌, ◌++◌, Option, none, some, length, ◌==◌, if◌then◌else◌}
use brypt_node.PackUtils.{pack_chunk, unpack_buffer}
use brypt_node.MessageControl.Exchange.{SynchronizationStatus}
use brypt_node.SecurityMediator.{Outcome, returned, thrown, undefined, Role, initiator, acceptor}
use brypt_node.KeyStore.{Store, set_peer_public_key, reset_state, verification_size}
use brypt_node.Strategy.{
  Strategy, Primitives, strategy_code, public_key_size, encapsulation_size, principal_random_size,
  signature_size, set_error, set_stage, update_transaction, finalize, reset_tracker, expand_seed,
  unpack_strategy, if_signed, sign, sign_transaction, verify, verify_transaction, passed,
  encapsulate_shared_secret, decapsulate_shared_secret, generate_verification_data,
  verify_key_share,
}
use brypt_node.Strategy.Steps.{Attempt, ◌>>=◌, ◌>>◌, give, modify, require, demand, consult}

-- Three sizes of packs: the strategy's type has two bytes.
abbrev pub request_size : ℕ
request_size = 2 + principal_random_size + public_key_size

abbrev pub response_size : ℕ
response_size = 2 + principal_random_size + encapsulation_size + verification_size + signature_size

abbrev pub confirmation_size : ℕ
confirmation_size = 2 + verification_size + signature_size

abbrev pub set_peer_key : List ℕ → Strategy → Strategy
set_peer_key key s = record s { store = set_peer_public_key key s.store }

abbrev pub is_full : Strategy → List ℕ → Option (List ℕ)
is_full s [] = none
is_full s (byte ∷ bytes) = some (byte ∷ bytes)

-- A step that fails sets the error; either way the status is told.
abbrev pub told :
    Outcome (Option (List ℕ) × Strategy) → Outcome ((SynchronizationStatus × List ℕ) × Strategy)
told (returned (some message, s)) = returned ((s.status, message), s)
told (returned (none, s)) = returned ((SynchronizationStatus.error, []), set_error s)
told thrown = thrown
told undefined = undefined

abbrev pub failing : Strategy → Outcome ((SynchronizationStatus × List ℕ) × Strategy)
failing s = returned ((SynchronizationStatus.error, []), set_error s)

abbrev pub prepared_store : Store → Store
prepared_store store = if store.has_generated_keys then reset_state store else store

-- What RAND_bytes gives is an argument; `none` is its failure.
module _ {State : Type 0} (p : Primitives State) where
  -- Initiator::GenerateInitializationRequest. It fails where the public key is empty.
  unfoldable pub generate_initialization_request : Option (List ℕ) → Attempt Strategy (List ℕ)
  unfolding ◌>>=◌ ◌>>◌ give modify demand expand_seed update_transaction pack_chunk
  generate_initialization_request random = do
    seed ← demand (λ s. random)
    modify (expand_seed seed)
    key ← demand (λ s. is_full s s.session.public_key)
    modify (update_transaction (pack_chunk 2 strategy_code [] ++ (seed ++ key)))
    give (pack_chunk 2 strategy_code [] ++ (seed ++ key))

  -- Initiator::HandleInitializationResponse.
  unfoldable pub handle_initialization_response : List ℕ → Attempt Strategy (Unit {0})
  unfolding ◌>>=◌ ◌>>◌ modify require demand consult unpack_strategy unpack_buffer expand_seed
      decapsulate_shared_secret verify_key_share update_transaction verify_transaction
  handle_initialization_response request = do
    rest ← demand (λ s. unpack_strategy request)
    require (length request == response_size)
    seed ← demand (λ s. unpack_buffer principal_random_size [] rest)
    modify (expand_seed seed.0)
    encapsulation ← demand (λ s. unpack_buffer encapsulation_size [] seed.1)
    decapsulate_shared_secret p encapsulation.0
    verification ← demand (λ s. unpack_buffer verification_size [] encapsulation.1)
    consult (λ s. passed (verify_key_share p s.store verification.0))
    modify (update_transaction request)
    verify_transaction p

  -- Initiator::GeneratVerificationRequest.
  unfoldable pub generate_verification_request : Attempt Strategy (List ℕ)
  unfolding ◌>>=◌ ◌>>◌ give modify consult generate_verification_data sign finalize pack_chunk
  generate_verification_request = do
    verification ← generate_verification_data p
    request ← consult (λ s. if_signed (
        sign p s.store (pack_chunk 2 strategy_code [] ++ verification)
          (pack_chunk 2 strategy_code [] ++ verification)))
    modify (finalize 1)
    give request

  -- Acceptor::HandleInitializationRequest.
  unfoldable pub handle_initialization_request : List ℕ → Attempt Strategy (Unit {0})
  unfolding ◌>>=◌ ◌>>◌ modify require demand unpack_strategy unpack_buffer expand_seed
      set_peer_public_key update_transaction
  handle_initialization_request request = do
    rest ← demand (λ s. unpack_strategy request)
    require (length request == request_size)
    seed ← demand (λ s. unpack_buffer principal_random_size [] rest)
    modify (expand_seed seed.0)
    key ← demand (λ s. unpack_buffer public_key_size [] seed.1)
    modify (set_peer_key key.0)
    modify (update_transaction request)

  -- Acceptor::GenerateInitializationResponse.
  unfoldable pub generate_initialization_response : Option (List ℕ) → Attempt Strategy (List ℕ)
  unfolding ◌>>=◌ ◌>>◌ give modify demand expand_seed encapsulate_shared_secret
      generate_verification_data set_stage sign_transaction pack_chunk
  generate_initialization_response random = do
    seed ← demand (λ s. random)
    modify (expand_seed seed)
    encapsulation ← encapsulate_shared_secret p
    verification ← generate_verification_data p
    modify (set_stage 1)
    sign_transaction p (pack_chunk 2 strategy_code [] ++ (seed ++ (encapsulation ++ verification)))

  -- Acceptor::HandleVerificationRequest.
  unfoldable pub handle_verification_request : List ℕ → Attempt Strategy (Unit {0})
  unfolding ◌>>=◌ ◌>>◌ modify require demand consult verify unpack_strategy unpack_buffer
      verify_key_share finalize
  handle_verification_request request = do
    consult (λ s. passed (verify p s.store request))
    rest ← demand (λ s. unpack_strategy request)
    require (length request == confirmation_size)
    verification ← demand (λ s. unpack_buffer verification_size [] rest)
    consult (λ s. passed (verify_key_share p s.store verification.0))
    modify (finalize 2)

  unfoldable pub initiator_initialization : List ℕ → Attempt Strategy (List ℕ)
  unfolding ◌>>=◌ ◌>>◌ handle_initialization_response generate_verification_request
  initiator_initialization buffer = do
    handle_initialization_response buffer
    generate_verification_request

  unfoldable pub acceptor_initialization : Option (List ℕ) → List ℕ → Attempt Strategy (List ℕ)
  unfolding ◌>>=◌ ◌>>◌ handle_initialization_request generate_initialization_response
  acceptor_initialization random buffer = do
    handle_initialization_request buffer
    generate_initialization_response random

  unfoldable pub acceptor_verification : List ℕ → Attempt Strategy (List ℕ)
  unfolding ◌>>=◌ ◌>>◌ give handle_verification_request
  acceptor_verification buffer = do handle_verification_request buffer; give []

  -- A stage that is none of the role's gives an error and changes nothing.
  unfoldable pub synchronize_as :
      Role
      → ℕ
      → Option (List ℕ)
      → List ℕ
      → Strategy
      → Outcome ((SynchronizationStatus × List ℕ) × Strategy)
  unfolding initiator_initialization acceptor_initialization acceptor_verification set_error
  synchronize_as initiator stage random buffer s =
      if stage == 0
      then told (initiator_initialization buffer s)
      else if stage == 1
      then failing s
      else returned ((SynchronizationStatus.error, []), s)
  synchronize_as acceptor stage random buffer s =
      if stage == 0
      then told (acceptor_initialization random buffer s)
      else if stage == 1
      then told (acceptor_verification buffer s)
      else if stage == 2
      then failing s
      else returned ((SynchronizationStatus.error, []), s)

  unfoldable pub synchronize :
      Option (List ℕ) → List ℕ → Strategy → Outcome ((SynchronizationStatus × List ℕ) × Strategy)
  unfolding synchronize_as
  synchronize random buffer s = synchronize_as s.role s.stage random buffer s

  abbrev pub prepare_role :
      Option (List ℕ) → Strategy → Role → Outcome ((SynchronizationStatus × List ℕ) × Strategy)
  prepare_role random s initiator = told (generate_initialization_request random s)
  prepare_role random s acceptor = returned ((s.status, []), s)

  unfoldable pub prepare_synchronization :
      Option (List ℕ) → Strategy → Outcome ((SynchronizationStatus × List ℕ) × Strategy)
  unfolding reset_tracker reset_state generate_initialization_request set_error
  prepare_synchronization random s =
      let fresh : Strategy = reset_tracker (record s { store = prepared_store s.store }) in
      prepare_role random fresh s.role
