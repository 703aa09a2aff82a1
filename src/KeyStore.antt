-- ===== src/KeyStore.antt =====
-- Components/Security/KeyStore.cpp and SecureBuffer.cpp: the keys of a session, which are parts of one
-- derived key.
use brypt_node.Common.{
  ℕ, ◌+◌, ◌*◌, ◌%◌, ◌^◌, Bool, true, false, ◌||◌, List, [], ◌∷◌, ◌++◌, Option, none, some, take,
  drop, ltb, if◌then◌else◌,
}
use brypt_node.SecurityMediator.{Role, initiator, acceptor}
pub mod Generation
pub mod Cordons
pub mod Examples

-- A cordon is a view into the principal key, here the bytes that it shows.
pub record Store : Type 0 where
  pub peer_public_key : Option (List ℕ)
  pub seed : List ℕ
  pub principal_key : Option (List ℕ)
  pub verification_data : Option (List ℕ)
  pub content_key : Option (List ℕ)
  pub peer_content_key : Option (List ℕ)
  pub signature_key : Option (List ℕ)
  pub peer_signature_key : Option (List ℕ)
  pub has_generated_keys : Bool

-- std::size_t has 64 bits.
abbrev pub wrap_size : ℕ → ℕ
wrap_size n = n % 2 ^ 64

abbrev pub minimum_key_size : ℕ
minimum_key_size = 16

abbrev pub verification_key_size : ℕ
verification_key_size = 32

abbrev pub verification_size : ℕ
verification_size = 32

-- The texts "expansion-seed" and "verify".
abbrev pub base_expansion_seed : List ℕ
base_expansion_seed =
    101 ∷ 120 ∷ 112 ∷ 97 ∷ 110 ∷ 115 ∷ 105 ∷ 111 ∷ 110 ∷ 45 ∷ 115 ∷ 101 ∷ 101 ∷ 100 ∷ []

abbrev pub verification_text : List ℕ
verification_text = 118 ∷ 101 ∷ 114 ∷ 105 ∷ 102 ∷ 121 ∷ []

abbrev pub key_store : Store
key_store = record {
  peer_public_key = none;
  seed = base_expansion_seed;
  principal_key = none;
  verification_data = none;
  content_key = none;
  peer_content_key = none;
  signature_key = none;
  peer_signature_key = none;
  has_generated_keys = false;
}

unfoldable pub set_peer_public_key : List ℕ → Store → Store
set_peer_public_key buffer store = record store { peer_public_key = some buffer }

unfoldable pub expand_session_seed : List ℕ → Store → Store
expand_session_seed buffer store = record store { seed = store.seed ++ buffer }

-- ResetState leaves an empty seed, not the one of the constructor.
unfoldable pub reset_state : Store → Store
reset_state store = record key_store { seed = [] }

-- SecureBuffer::GetCordon.
abbrev pub get_cordon : List ℕ → ℕ → ℕ → List ℕ
get_cordon buffer offset size = take size (drop offset buffer)

-- The two functions that set the cordons return how much of the principal key they have set.
unfoldable pub set_initiator_key_cordons : List ℕ → ℕ → ℕ → Store → ℕ × Store
set_initiator_key_cordons principal content signature store = (
  wrap_size (content + content + signature + signature),
  record store {
    content_key = some (get_cordon principal 0 content);
    peer_content_key = some (get_cordon principal content content);
    signature_key = some (get_cordon principal (wrap_size (content + content)) signature);
    peer_signature_key =
        some (get_cordon principal (wrap_size (content + content + signature)) signature);
  },
)

unfoldable pub set_acceptor_key_cordons : List ℕ → ℕ → ℕ → Store → ℕ × Store
set_acceptor_key_cordons principal content signature store = (
  wrap_size (content + content + signature + signature),
  record store {
    peer_content_key = some (get_cordon principal 0 content);
    content_key = some (get_cordon principal content content);
    peer_signature_key = some (get_cordon principal (wrap_size (content + content)) signature);
    signature_key =
        some (get_cordon principal (wrap_size (content + content + signature)) signature);
  },
)

abbrev set_key_cordons : Role → List ℕ → ℕ → ℕ → Store → ℕ × Store
set_key_cordons initiator = set_initiator_key_cordons
set_key_cordons acceptor = set_acceptor_key_cordons

-- The result of the generation, with the caller's buffer, which was handed over by reference.
pub record Generated : Type 0 where
  pub success : Bool
  pub buffer : List ℕ
  pub store : Store

-- SHAKE256 of OpenSSL: the digest of a text with a number of bytes, or a failure.
module _ (digest : List ℕ → ℕ → Option (List ℕ)) where
  unfoldable pub derive_secure_key : List ℕ → ℕ → Option (List ℕ)
  derive_secure_key key size = digest key size

  unfoldable pub generate_verification_data : List ℕ → ℕ → Option (List ℕ)
  generate_verification_data key size = digest (key ++ verification_text) size

  abbrev with_verification : List ℕ → Store → Option (List ℕ) → Generated
  with_verification buffer store none = record {
    success = false;
    buffer = buffer;
    store = record store { verification_data = none };
  }
  with_verification buffer store (some verification) = record {
    success = true;
    buffer = buffer;
    store = record store { verification_data = some verification; has_generated_keys = true };
  }

  abbrev verified : List ℕ → List ℕ → ℕ × Store → Generated
  verified buffer principal (partitioned, store) = with_verification buffer store (
      generate_verification_data (get_cordon principal partitioned verification_key_size)
        verification_size)

  abbrev with_principal : Role → ℕ → ℕ → List ℕ → Store → Option (List ℕ) → Generated
  with_principal role content signature buffer store none = record {
    success = false;
    buffer = buffer;
    store = store;
  }
  with_principal role content signature buffer store (some principal) = verified buffer principal (
      set_key_cordons role principal content signature
        (record store { principal_key = some principal }))

  -- The secret is moved out of the caller's buffer before the seed is appended to that buffer.
  unfoldable pub generate_session_keys : Role → List ℕ → ℕ → ℕ → Store → Generated
  unfolding derive_secure_key generate_verification_data set_initiator_key_cordons
      set_acceptor_key_cordons
  generate_session_keys role buffer content signature store =
      if ltb content minimum_key_size || ltb signature minimum_key_size
      then record { success = false; buffer = buffer; store = store }
      else let derivation : List ℕ = buffer in
        with_principal role content signature ([] ++ store.seed) store (
          derive_secure_key derivation
            (wrap_size (2 * content + 2 * signature + verification_key_size)))
