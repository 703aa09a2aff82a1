-- ===== src/KeyStore/Generation.antt =====
-- GenerateSessionKeys: the keys of the two roles, their sizes, and what they do not depend on.
use mathlib.Core.Path.{subst}
use brypt_node.Common.{
  ℕ, ◌+◌, ◌*◌, ◌≡◌, refl, sym, ap, inl, inr, true, false, ◌||◌, List, ◌++◌, Option, none, some, ltb,
  Bool-cases, Option-cases,
}
use brypt_node.SecurityMediator.{Role, initiator, acceptor}
use brypt_node.KeyStore.{
  Store, Generated, generate_session_keys, get_cordon, wrap_size, minimum_key_size,
  verification_key_size, verification_size, verification_text,
}

-- The store that a generation leaves, from the principal key and the verification data.
abbrev pub keyed_store : Role → List ℕ → List ℕ → ℕ → ℕ → Store → Store
keyed_store initiator principal verification c s store = record store {
  principal_key = some principal;
  verification_data = some verification;
  content_key = some (get_cordon principal 0 c);
  peer_content_key = some (get_cordon principal c c);
  signature_key = some (get_cordon principal (wrap_size (c + c)) s);
  peer_signature_key = some (get_cordon principal (wrap_size (c + c + s)) s);
  has_generated_keys = true;
}
keyed_store acceptor principal verification c s store = record store {
  principal_key = some principal;
  verification_data = some verification;
  peer_content_key = some (get_cordon principal 0 c);
  content_key = some (get_cordon principal c c);
  peer_signature_key = some (get_cordon principal (wrap_size (c + c)) s);
  signature_key = some (get_cordon principal (wrap_size (c + c + s)) s);
  has_generated_keys = true;
}

-- A store of the one role and a store of the other that hold each other's keys.
pub record IsMirrored (a b : Store) : Type 0 where
  pub content : a.content_key ≡ b.peer_content_key
  pub peer_content : a.peer_content_key ≡ b.content_key
  pub signature : a.signature_key ≡ b.peer_signature_key
  pub peer_signature : a.peer_signature_key ≡ b.signature_key
  pub verification : a.verification_data ≡ b.verification_data

module _ (digest : List ℕ → ℕ → Option (List ℕ)) where
  -- What a generation that succeeds has derived.
  pub record IsDerived (role : Role) (secret : List ℕ) (c s : ℕ) (store after : Store)
      : Type 0 where
    pub principal : List ℕ
    pub data_bytes : List ℕ
    pub derived : digest secret (wrap_size (2 * c + 2 * s + verification_key_size)) ≡ some principal
    pub digested :
        digest
          (get_cordon principal (wrap_size (c + c + s + s)) verification_key_size
            ++ verification_text)
          verification_size
        ≡ some data_bytes
    pub kept : after ≡ keyed_store role principal data_bytes c s store

  pub generate-keyed :
      (role : Role) (secret : List ℕ) (c s : ℕ) (store : Store) (principal verification : List ℕ)
      → (ltb c minimum_key_size || ltb s minimum_key_size) ≡ false
      → digest secret (wrap_size (2 * c + 2 * s + verification_key_size)) ≡ some principal
      → digest
          (get_cordon principal (wrap_size (c + c + s + s)) verification_key_size
            ++ verification_text)
          verification_size
        ≡ some verification
      → generate_session_keys digest role secret c s store ≡ record {
        success = true;
        buffer = store.seed;
        store = keyed_store role principal verification c s store;
      }
  unfolding generate_session_keys
  generate-keyed initiator secret c s store principal verification wide derived digested =
      simp (wide, derived, digested)
  generate-keyed acceptor secret c s store principal verification wide derived digested =
      simp (wide, derived, digested)

  refused_small :
      (role : Role) (secret : List ℕ) (c s : ℕ) (store : Store)
      → (ltb c minimum_key_size || ltb s minimum_key_size) ≡ true
      → (generate_session_keys digest role secret c s store).success ≡ false
  unfolding generate_session_keys
  refused_small role secret c s store narrow = simp narrow

  refused_derivation :
      (role : Role) (secret : List ℕ) (c s : ℕ) (store : Store)
      → (ltb c minimum_key_size || ltb s minimum_key_size) ≡ false
      → digest secret (wrap_size (2 * c + 2 * s + verification_key_size)) ≡ none
      → (generate_session_keys digest role secret c s store).success ≡ false
  unfolding generate_session_keys
  refused_derivation role secret c s store wide none_derived = simp (wide, none_derived)

  refused_verification :
      (role : Role) (secret : List ℕ) (c s : ℕ) (store : Store) (principal : List ℕ)
      → (ltb c minimum_key_size || ltb s minimum_key_size) ≡ false
      → digest secret (wrap_size (2 * c + 2 * s + verification_key_size)) ≡ some principal
      → digest
          (get_cordon principal (wrap_size (c + c + s + s)) verification_key_size
            ++ verification_text)
          verification_size
        ≡ none
      → (generate_session_keys digest role secret c s store).success ≡ false
  unfolding generate_session_keys
  refused_verification initiator secret c s store principal wide derived undigested =
      simp (wide, derived, undigested)
  refused_verification acceptor secret c s store principal wide derived undigested =
      simp (wide, derived, undigested)

  pub generate-IsDerived :
      (role : Role) (secret : List ℕ) (c s : ℕ) (store : Store)
      → (generate_session_keys digest role secret c s store).success ≡ true
      → IsDerived role secret c s store (generate_session_keys digest role secret c s store).store
        × ((ltb c minimum_key_size || ltb s minimum_key_size) ≡ false)
  generate-IsDerived role secret c s store ok =
      elim (Bool-cases (ltb c minimum_key_size || ltb s minimum_key_size)) [
        | inl narrow ↦ let no = refused_small role secret c s store narrow in cc
        | inr wide ↦
            elim (Option-cases
              (digest secret (wrap_size (2 * c + 2 * s + verification_key_size)))) [
                | inl underived ↦
                    let no = refused_derivation role secret c s store wide underived in cc
                | inr (principal, derived) ↦
                    elim (Option-cases (
                      digest
                        (get_cordon principal (wrap_size (c + c + s + s)) verification_key_size
                          ++ verification_text)
                        verification_size)) [
                          | inl undigested ↦
                              let no =
                                refused_verification role secret c s store principal wide derived
                                  undigested in
                              cc
                          | inr (verification, digested) ↦ (
                            record {
                              principal = principal;
                              data_bytes = verification;
                              derived = derived;
                              digested = digested;
                              kept =
                                  ap (λ (g : Generated). g.store)
                                    (generate-keyed role secret c s store principal verification
                                      wide derived digested);
                            },
                            wide,
                          )
                        ]
              ]
      ]

  keyed-IsMirrored :
      (principal verification : List ℕ) (c s : ℕ) (x y : Store)
      → IsMirrored
          (keyed_store initiator principal verification c s x)
          (keyed_store acceptor principal verification c s y)
  keyed-IsMirrored principal verification c s x y = record {
    content = refl;
    peer_content = refl;
    signature = refl;
    peer_signature = refl;
    verification = refl;
  }

  -- Where an initiator has generated keys from a secret, an acceptor with the same secret and sizes
  -- generates keys too, whatever the two stores held, and each has the other's keys as its peer's.
  pub generate-IsMirrored :
      (secret : List ℕ) (c s : ℕ) (x y : Store)
      → (generate_session_keys digest initiator secret c s x).success ≡ true
      → ((generate_session_keys digest acceptor secret c s y).success ≡ true)
        × IsMirrored
            (generate_session_keys digest initiator secret c s x).store
            (generate_session_keys digest acceptor secret c s y).store
  generate-IsMirrored secret c s x y ok =
      let both = generate-IsDerived initiator secret c s x ok in
      let d = both.0 in
      let other =
        generate-keyed acceptor secret c s y d.principal d.data_bytes both.1 d.derived d.digested in
      (
        ap (λ (g : Generated). g.success) other,
        subst
            (λ (t : Store). IsMirrored t (generate_session_keys digest acceptor secret c s y).store)
            (sym d.kept)
            (subst
              (λ (g : Generated).
                IsMirrored (keyed_store initiator d.principal d.data_bytes c s x) g.store)
              (sym other) (keyed-IsMirrored d.principal d.data_bytes c s x y)),
      )

  -- The seed of a session has no part in its keys: the generation succeeds with one seed if with
  -- any other, and leaves the same store but for the seed.
  pub generate-seed :
      (role : Role) (secret : List ℕ) (c s : ℕ) (store : Store) (seed : List ℕ)
      → let one = generate_session_keys digest role secret c s store in
        let other = generate_session_keys digest role secret c s (record store { seed = seed }) in
        (other.success ≡ one.success) × (other.store ≡ record (one.store) { seed = seed })
  unfolding generate_session_keys
  generate-seed initiator secret c s store seed =
      elim (Bool-cases (ltb c minimum_key_size || ltb s minimum_key_size)) [
        | inl narrow ↦ (simp narrow, simp narrow)
        | inr wide ↦
            elim (Option-cases
              (digest secret (wrap_size (2 * c + 2 * s + verification_key_size)))) [
                | inl underived ↦ (simp (wide, underived), simp (wide, underived))
                | inr (principal, derived) ↦
                    elim (Option-cases (
                      digest
                        (get_cordon principal (wrap_size (c + c + s + s)) verification_key_size
                          ++ verification_text)
                        verification_size)) [
                          | inl undigested ↦
                              (simp (wide, derived, undigested), simp (wide, derived, undigested))
                          | inr (verification, digested) ↦
                              (simp (wide, derived, digested), simp (wide, derived, digested))
                        ]
              ]
      ]
  generate-seed acceptor secret c s store seed =
      elim (Bool-cases (ltb c minimum_key_size || ltb s minimum_key_size)) [
        | inl narrow ↦ (simp narrow, simp narrow)
        | inr wide ↦
            elim (Option-cases
              (digest secret (wrap_size (2 * c + 2 * s + verification_key_size)))) [
                | inl underived ↦ (simp (wide, underived), simp (wide, underived))
                | inr (principal, derived) ↦
                    elim (Option-cases (
                      digest
                        (get_cordon principal (wrap_size (c + c + s + s)) verification_key_size
                          ++ verification_text)
                        verification_size)) [
                          | inl undigested ↦
                              (simp (wide, derived, undigested), simp (wide, derived, undigested))
                          | inr (verification, digested) ↦
                              (simp (wide, derived, digested), simp (wide, derived, digested))
                        ]
              ]
      ]
