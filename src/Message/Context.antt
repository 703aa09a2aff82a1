-- ===== src/Message/Context.antt =====
-- src/BryptMessage/MessageContext.hpp and MessageContext.cpp: the endpoint that a message belongs
-- to, and the handlers of its peer's security strategy.
use brypt_node.Common.{ℕ, ◌^◌, ◌≡◌, refl, Bool, true, false, ◌&&◌, List, Option, none, some}

-- Network::Protocol of src/Components/Network/Protocol.hpp.
pub data EndpointProtocol : Type 0 where
  lora tcp invalid : EndpointProtocol

-- An int32_t endpoint identifier is its bit pattern. An empty handler is `none`. A signator returns
-- whether its result is negative, and the buffer as it leaves it. A verifier returns whether its
-- status is Success.
pub record Context : Type 0 where
  pub endpoint_identifier : ℕ
  pub endpoint_protocol : EndpointProtocol
  pub encryptor : Option (List ℕ → ℕ → Option (List ℕ))
  pub decryptor : Option (List ℕ → ℕ → Option (List ℕ))
  pub signator : Option (List ℕ → Bool × List ℕ)
  pub verifier : Option (List ℕ → Bool)
  pub signature_size : Option ℕ

-- std::numeric_limits<int32_t>::min().
abbrev pub invalid_identifier : ℕ
invalid_identifier = 2 ^ 31

abbrev pub make_context : ℕ → EndpointProtocol → Context
make_context identifier protocol = record {
  endpoint_identifier = identifier;
  endpoint_protocol = protocol;
  encryptor = none;
  decryptor = none;
  signator = none;
  verifier = none;
  signature_size = none;
}

abbrev pub default_context : Context
default_context = make_context invalid_identifier EndpointProtocol.invalid

abbrev pub is_some {ℓ} : {A : Type ℓ} → Option A → Bool
is_some none = false
is_some (some a) = true

unfoldable pub has_security_handlers : Context → Bool
has_security_handlers c =
    is_some c.encryptor
    && is_some c.decryptor
    && is_some c.signator
    && is_some c.verifier
    && is_some c.signature_size

unfoldable pub bind_encryption_handlers :
    Context → (List ℕ → ℕ → Option (List ℕ)) → (List ℕ → ℕ → Option (List ℕ)) → Context
bind_encryption_handlers c encryptor decryptor = record c {
  encryptor = some encryptor;
  decryptor = some decryptor;
}

unfoldable pub bind_signature_handlers :
    Context → (List ℕ → Bool × List ℕ) → (List ℕ → Bool) → ℕ → Context
bind_signature_handlers c signator verifier getter = record c {
  signator = some signator;
  verifier = some verifier;
  signature_size = some getter;
}

-- A call of a handler. The outer `none` is the exception that an empty std::function throws.
abbrev pub encrypt : Context → List ℕ → ℕ → Option (Option (List ℕ))
encrypt c buffer timestamp = elim c.encryptor [ none ↦ none | some f ↦ some (f buffer timestamp) ]

abbrev pub decrypt : Context → List ℕ → ℕ → Option (Option (List ℕ))
decrypt c buffer timestamp = elim c.decryptor [ none ↦ none | some f ↦ some (f buffer timestamp) ]

abbrev pub sign : Context → List ℕ → Option (Bool × List ℕ)
sign c buffer = elim c.signator [ none ↦ none | some f ↦ some (f buffer) ]

abbrev pub verify : Context → List ℕ → Option Bool
verify c buffer = elim c.verifier [ none ↦ none | some f ↦ some (f buffer) ]

-- Both bindings give a context all its handlers, and leave its endpoint alone.
pub bound_handlers :
    (c : Context) (e d : List ℕ → ℕ → Option (List ℕ)) (s : List ℕ → Bool × List ℕ)
    (v : List ℕ → Bool) (size : ℕ)
    → (has_security_handlers (bind_signature_handlers (bind_encryption_handlers c e d) s v size)
        ≡ true)
      × ((bind_signature_handlers (bind_encryption_handlers c e d) s v size).endpoint_identifier
          ≡ c.endpoint_identifier)
unfolding has_security_handlers bind_signature_handlers bind_encryption_handlers
bound_handlers c e d s v size = (refl, refl)
