-- ===== src/KeyStore/Cordons.antt =====
-- The keys of a session as the parts of the derived key.
use mathlib.Core.Path.{subst}
use brypt_node.Common.{
  ℕ, zero, suc, ◌+◌, ◌*◌, ◌≡◌, refl, sym, ap, ◌∙◌, ◌≤◌, ◌<◌, ◌^◌, true, List, [], ◌∷◌, ◌++◌, Option,
  some, length, drop, arith, take-append-drop, length-take, length-drop,
}
use native.Mathlib.Nat.{zero-add, mod-eq_of_lt}
use brypt_node.SecurityMediator.{initiator}
use brypt_node.KeyStore.{Store, generate_session_keys, get_cordon, verification_key_size}
use brypt_node.KeyStore.Generation.{keyed_store, generate-IsDerived}

-- The keys of an initiator's store: the parts of the principal key, in the order of the sectors,
-- and the rest, from which the verification data is made.
pub record IsCut (c s : ℕ) (store : Store) : Type 0 where
  pub principal : List ℕ
  pub content : List ℕ
  pub peer_content : List ℕ
  pub signature : List ℕ
  pub peer_signature : List ℕ
  pub rest : List ℕ
  pub held : store.principal_key ≡ some principal
  pub content_held : store.content_key ≡ some content
  pub peer_content_held : store.peer_content_key ≡ some peer_content
  pub signature_held : store.signature_key ≡ some signature
  pub peer_signature_held : store.peer_signature_key ≡ some peer_signature
  pub whole : principal ≡ content ++ (peer_content ++ (signature ++ (peer_signature ++ rest)))
  pub content_size : length content ≡ c
  pub peer_content_size : length peer_content ≡ c
  pub signature_size : length signature ≡ s
  pub peer_signature_size : length peer_signature ≡ s
  pub rest_size : length rest ≡ verification_key_size

moved : (k : ℕ) (xs : List ℕ) → xs ≡ [] → xs ≡ drop k xs
moved zero xs e = refl
moved (suc k) [] e = refl
moved (suc k) (x ∷ xs) e = cc

drop-drop : (n m : ℕ) (xs : List ℕ) → drop m (drop n xs) ≡ drop (n + m) xs
drop-drop zero m xs = rw zero-add refl
drop-drop (suc n) zero [] = moved (suc n + 0) [] refl
drop-drop (suc n) (suc m) [] = moved (suc n + suc m) [] refl
drop-drop (suc n) m (x ∷ xs) =
    let one_more : suc (n + m) ≡ suc n + m = omega arith in
    drop-drop n m xs ∙ ap (λ (k : ℕ). drop k (x ∷ xs)) one_more

-- A cordon, and what stands behind it.
cordon-append-drop : (n m : ℕ) (xs : List ℕ) → get_cordon xs n m ++ drop (n + m) xs ≡ drop n xs
cordon-append-drop n m xs =
    ap (λ (rest : List ℕ). get_cordon xs n m ++ rest) (sym (drop-drop n m xs))
    ∙ take-append-drop m (drop n xs)

length-cordon : (n m : ℕ) (xs : List ℕ) → n + m ≤ length xs → length (get_cordon xs n m) ≡ m
length-cordon n m xs h = omega (arith, length-take m (drop n xs), length-drop n xs)

cordons_whole :
    (c s : ℕ) (xs : List ℕ)
    → xs
      ≡ get_cordon xs 0 c
        ++ (get_cordon xs c c
            ++ (get_cordon xs (c + c) s
                ++ (get_cordon xs (c + c + s) s ++ drop (c + c + s + s) xs)))
cordons_whole c s xs = sym (
    rw
      (
        cordon-append-drop (c + c + s) s xs,
        cordon-append-drop (c + c) s xs,
        cordon-append-drop c c xs,
      )
      (take-append-drop c xs))

-- A digest of OpenSSL has the size that is asked for.
abbrev pub HasSize : (List ℕ → ℕ → Option (List ℕ)) → Type 0
HasSize digest =
    (text : List ℕ) (size : ℕ) (bytes : List ℕ)
    → digest text size ≡ some bytes
    → length bytes ≡ size

keyed-IsCut :
    (principal verification : List ℕ) (c s : ℕ) (store : Store)
    → length principal ≡ 2 * c + 2 * s + verification_key_size
    → 2 * c + 2 * s + verification_key_size < 2 ^ 64
    → IsCut c s (keyed_store initiator principal verification c s store)
keyed-IsCut principal verification c s store size fits = record {
  principal = principal;
  content = get_cordon principal 0 c;
  peer_content = get_cordon principal c c;
  signature = get_cordon principal (c + c) s;
  peer_signature = get_cordon principal (c + c + s) s;
  rest = drop (c + c + s + s) principal;
  held = refl;
  content_held = refl;
  peer_content_held = refl;
  signature_held = ap (λ (k : ℕ). some (get_cordon principal k s)) (mod-eq_of_lt (omega arith));
  peer_signature_held =
      ap (λ (k : ℕ). some (get_cordon principal k s)) (mod-eq_of_lt (omega arith));
  whole = cordons_whole c s principal;
  content_size = length-cordon 0 c principal (omega arith);
  peer_content_size = length-cordon c c principal (omega arith);
  signature_size = length-cordon (c + c) s principal (omega arith);
  peer_signature_size = length-cordon (c + c + s) s principal (omega arith);
  rest_size = omega (arith, length-drop (c + c + s + s) principal);
}

module _ (digest : List ℕ → ℕ → Option (List ℕ)) where
  -- Where the digest has the size that is asked for, and the sizes of the keys with the 32 bytes of
  -- the verification key add up to less than 2^64, the four keys of an initiator that has generated
  -- its keys have the sizes that were asked for and stand in the principal key one behind
  -- the other, with the 32 bytes of the verification key behind them.
  pub generate-IsCut :
      (secret : List ℕ) (c s : ℕ) (store : Store)
      → HasSize digest
      → 2 * c + 2 * s + verification_key_size < 2 ^ 64
      → (generate_session_keys digest initiator secret c s store).success ≡ true
      → IsCut c s (generate_session_keys digest initiator secret c s store).store
  generate-IsCut secret c s store sized fits ok =
      let d = (generate-IsDerived digest initiator secret c s store ok).0 in
      subst (IsCut c s) (sym d.kept) (
        keyed-IsCut d.principal d.data_bytes c s store
          (sized _ _ d.principal d.derived ∙ mod-eq_of_lt fits) fits)
