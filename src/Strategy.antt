-- ===== src/Strategy.antt =====
-- Components/Security/PostQuantum/NISTSecurityLevelThree.cpp: the strategy that exchanges the keys of
-- a session and encrypts and signs with them.
use brypt_node.Common.{
  ℕ, ◌+◌, ◌-◌, Bool, true, false, not, List, [], ◌∷◌, ◌++◌, Option, none, some, length, take, drop,
  ltb, leb, ◌==◌, if◌then◌else◌,
}
use brypt_node.PackUtils.{pack_chunk, unpack_chunk, unpack_buffer, store_big, load_big}
use brypt_node.Identifier.{same_bytes}
use brypt_node.MessageControl.Exchange.{SynchronizationStatus}
use brypt_node.SecurityMediator.{Outcome, returned, thrown, undefined, Role, initiator, acceptor}
use brypt_node.KeyStore.{
  Store, Generated, key_store, set_peer_public_key, expand_session_seed, reset_state,
  generate_session_keys, verification_size,
}
pub mod Steps
pub mod Cipher
pub mod Synchronization
mod Working
mod Sealing
mod Stages
mod Handshake
mod Messages
mod Authentic
mod Failure
mod Examples
use brypt_node.Strategy.Cipher.{CipherFunctions, encrypt, decrypt}
use brypt_node.Strategy.Steps.{Attempt, ◌>>=◌, ◌>>◌, give, modify, require, demand, consult}

-- The Context of a session: its public key, and what liboqs does with the key pair. `none` is an
-- exception of liboqs. An encapsulation comes with the secret that is in it.
pub record SessionContext : Type 0 where
  pub public_key : List ℕ
  pub encapsulate : List ℕ → Option (List ℕ × List ℕ)
  pub decapsulate : List ℕ → Option (List ℕ)

-- What OpenSSL does: SHAKE256, HMAC with SHA384, and AES-256-CTR in the two directions.
pub record Primitives (State : Type 0) : Type 0 where
  pub digest : List ℕ → ℕ → Option (List ℕ)
  pub hmac : List ℕ → List ℕ → Option (List ℕ)
  pub encryptor : CipherFunctions State
  pub decryptor : CipherFunctions State

-- A strategy with its synchronization tracker, whose signator and verifier are the strategy's own.
pub record Strategy : Type 0 where
  pub role : Role
  pub status : SynchronizationStatus
  pub stage : ℕ
  pub transaction : List ℕ
  pub session : SessionContext
  pub store : Store

abbrev pub strategy_code : ℕ
strategy_code = 4099

abbrev pub public_key_size : ℕ
public_key_size = 930

abbrev pub encapsulation_size : ℕ
encapsulation_size = 930

abbrev pub principal_random_size : ℕ
principal_random_size = 32

abbrev pub signature_size : ℕ
signature_size = 48

abbrev pub encryption_key_size : ℕ
encryption_key_size = 32

unfoldable pub strategy : Role → SessionContext → Strategy
strategy role session = record {
  role = role;
  status = SynchronizationStatus.processing;
  stage = 0;
  transaction = [];
  session = session;
  store = key_store;
}

-- The synchronization tracker.
unfoldable pub set_error : Strategy → Strategy
set_error s = record s { status = SynchronizationStatus.error }

unfoldable pub set_stage : ℕ → Strategy → Strategy
set_stage stage s = record s { stage = stage }

unfoldable pub update_transaction : List ℕ → Strategy → Strategy
update_transaction buffer s = record s { transaction = s.transaction ++ buffer }

unfoldable pub finalize : ℕ → Strategy → Strategy
finalize stage s = record s {
  status = SynchronizationStatus.ready;
  transaction = [];
  stage = stage;
}

unfoldable pub reset_tracker : Strategy → Strategy
reset_tracker s = record s {
  status = SynchronizationStatus.processing;
  stage = 0;
  transaction = [];
}

unfoldable pub expand_seed : List ℕ → Strategy → Strategy
unfolding expand_session_seed
expand_seed buffer s = record s { store = expand_session_seed buffer s.store }

-- UnpackStrategy: whether the type is the one of this strategy, and the rest of the buffer.
abbrev is_strategy : Option (ℕ × List ℕ) → Option (List ℕ)
is_strategy none = none
is_strategy (some (code, rest)) = if code == strategy_code then some rest else none

unfoldable pub unpack_strategy : List ℕ → Option (List ℕ)
unfolding unpack_chunk
unpack_strategy request = is_strategy (unpack_chunk 2 request)

-- std::equal over the length of the first range.
unfoldable pub equal_range : List ℕ → List ℕ → Outcome Bool
equal_range [] other = returned true
equal_range (a ∷ as') [] = undefined
equal_range (a ∷ as') (b ∷ bs) =
    let rest = equal_range as' bs in if a == b then rest else returned false

abbrev pub passed : Outcome Bool → Outcome (Option (Unit {0}))
passed (returned true) = returned (some tt)
passed (returned false) = returned none
passed thrown = thrown
passed undefined = undefined

-- A result of 0 is a failure; -1 is not.
abbrev is_not_zero : Option ℕ → Bool
is_not_zero none = true
is_not_zero (some n) = not (n == 0)

abbrev if_signed : Outcome (Option ℕ × List ℕ) → Outcome (Option (List ℕ))
if_signed (returned (result, message)) =
    returned (if is_not_zero result then some message else none)
if_signed thrown = thrown
if_signed undefined = undefined

abbrev store_generated : {A : Type 0} → A → Strategy → Generated → Outcome (Option A × Strategy)
store_generated result s g =
    returned (if g.success then some result else none, record s { store = g.store })

-- GenerateVerficationData sets the error itself.
abbrev or_error : Strategy → Outcome (Option (List ℕ)) → Outcome (Option (List ℕ) × Strategy)
or_error s (returned (some encrypted)) = returned (some encrypted, s)
or_error s (returned none) = returned (none, set_error s)
or_error s thrown = thrown
or_error s undefined = undefined

abbrev same_data : List ℕ → Outcome (Option (List ℕ)) → Outcome Bool
same_data verification (returned none) = returned false
same_data verification (returned (some decrypted)) = equal_range verification decrypted
same_data verification thrown = thrown
same_data verification undefined = undefined

module _ {State : Type 0} (p : Primitives State) where
  -- GenerateSignature.
  unfoldable pub generate_signature : List ℕ → List ℕ → Option (List ℕ)
  generate_signature key [] = none
  generate_signature key (byte ∷ bytes) = p.hmac key (byte ∷ bytes)

  -- The result of Sign, where `none` is -1, and the destination.
  abbrev signed : List ℕ → Option (List ℕ) → Option ℕ × List ℕ
  signed destination none = (none, destination)
  signed destination (some signature) = (some (length signature), destination ++ signature)

  abbrev pub sign_with : List ℕ → List ℕ → Option (List ℕ) → Option ℕ × List ℕ
  sign_with source destination none = (none, destination)
  sign_with source destination (some key) = signed destination (generate_signature key source)

  unfoldable pub sign : Store → List ℕ → List ℕ → Outcome (Option ℕ × List ℕ)
  unfolding generate_signature
  sign store source destination =
      if store.has_generated_keys
      then returned (sign_with source destination store.signature_key)
      else thrown

  abbrev pub same_signature : List ℕ → Option (List ℕ) → Bool
  same_signature attached none = false
  same_signature attached (some signature) = same_bytes signature (take (length signature) attached)

  abbrev pub verify_with : List ℕ → Option (List ℕ) → Bool
  verify_with buffer none = false
  verify_with buffer (some key) =
      same_signature (drop (length buffer - signature_size) buffer)
        (generate_signature key (take (length buffer - signature_size) buffer))

  unfoldable pub verify : Store → List ℕ → Outcome Bool
  unfolding generate_signature same_bytes
  verify store buffer =
      if not store.has_generated_keys
      then thrown
      else if leb (length buffer) signature_size
      then returned false
      else returned (verify_with buffer store.peer_signature_key)

  unfoldable pub sign_transaction : List ℕ → Attempt Strategy (List ℕ)
  unfolding ◌>>=◌ ◌>>◌ modify consult update_transaction sign
  sign_transaction message = do
    modify (update_transaction message)
    consult (λ s. if_signed (sign s.store s.transaction message))

  unfoldable pub verify_transaction : Attempt Strategy (Unit {0})
  unfolding consult verify
  verify_transaction = consult (λ s. passed (verify s.store s.transaction))

  abbrev keep_encapsulated :
      Strategy → Option (List ℕ × List ℕ) → Outcome (Option (List ℕ) × Strategy)
  keep_encapsulated s none = returned (none, s)
  keep_encapsulated s (some (encapsulation, secret)) =
      store_generated encapsulation s
        (generate_session_keys p.digest s.role secret encryption_key_size signature_size s.store)

  abbrev encapsulate_for : Strategy → Option (List ℕ) → Outcome (Option (List ℕ) × Strategy)
  encapsulate_for s none = returned (none, s)
  encapsulate_for s (some key) = keep_encapsulated s (s.session.encapsulate key)

  unfoldable pub encapsulate_shared_secret : Attempt Strategy (List ℕ)
  unfolding generate_session_keys
  encapsulate_shared_secret s = encapsulate_for s s.store.peer_public_key

  abbrev keep_decapsulated : Strategy → Option (List ℕ) → Outcome (Option (Unit {0}) × Strategy)
  keep_decapsulated s none = returned (none, s)
  keep_decapsulated s (some secret) =
      store_generated tt s
        (generate_session_keys p.digest s.role secret encryption_key_size signature_size s.store)

  unfoldable pub decapsulate_shared_secret : List ℕ → Attempt Strategy (Unit {0})
  unfolding generate_session_keys
  decapsulate_shared_secret encapsulation s =
      keep_decapsulated s (s.session.decapsulate encapsulation)

  abbrev encrypt_data : Strategy → Option (List ℕ) → Outcome (Option (List ℕ) × Strategy)
  encrypt_data s none = returned (none, set_error s)
  encrypt_data s (some verification) = or_error s (encrypt p.encryptor s.store verification 0)

  unfoldable pub generate_verification_data : Attempt Strategy (List ℕ)
  unfolding encrypt set_error
  generate_verification_data s = encrypt_data s s.store.verification_data

  abbrev verify_share : Store → List ℕ → Option (List ℕ) → Outcome Bool
  verify_share store buffer none = returned false
  verify_share store buffer (some verification) =
      same_data verification (decrypt p.decryptor store buffer 0)

  unfoldable pub verify_key_share : Store → List ℕ → Outcome Bool
  unfolding decrypt equal_range
  verify_key_share store buffer = verify_share store buffer store.verification_data
