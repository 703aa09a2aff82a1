-- ===== src/KeyStore/Examples.antt =====
-- Keys of a session from a digest that counts.
use brypt_node.Common.{
  ℕ, ◌%◌, ◌≡◌, refl, sym, ap, ◌∙◌, true, List, [], ◌∷◌, Option, some, length, replicate,
  length-replicate, or_same, arith,
}
use brypt_node.SecurityMediator.{initiator, acceptor}
use brypt_node.KeyStore.{key_store, generate_session_keys}
use brypt_node.KeyStore.Generation.{IsMirrored, generate-IsMirrored, generate-seed}
use brypt_node.KeyStore.Cordons.{HasSize, IsCut, generate-IsCut}

-- As many bytes as are asked for, each the length of the text.
abbrev pub counting : List ℕ → ℕ → Option (List ℕ)
counting text size = some (replicate size (length text % 256))

pub counting-HasSize : HasSize counting
counting-HasSize text size bytes e =
    ap length (sym (ap (or_same []) e)) ∙ length-replicate size (length text % 256)

counted : (generate_session_keys counting initiator (3 ∷ 4 ∷ []) 16 20 key_store).success ≡ true
unfolding generate_session_keys
counted = refl

generate-IsMirrored_example :
    ((generate_session_keys counting acceptor (3 ∷ 4 ∷ []) 16 20 key_store).success ≡ true)
    × IsMirrored
        (generate_session_keys counting initiator (3 ∷ 4 ∷ []) 16 20 key_store).store
        (generate_session_keys counting acceptor (3 ∷ 4 ∷ []) 16 20 key_store).store
generate-IsMirrored_example =
    generate-IsMirrored counting (3 ∷ 4 ∷ []) 16 20 key_store key_store counted

generate-IsCut_example :
    IsCut 16 20 (generate_session_keys counting initiator (3 ∷ 4 ∷ []) 16 20 key_store).store
generate-IsCut_example =
    generate-IsCut counting (3 ∷ 4 ∷ []) 16 20 key_store counting-HasSize (omega arith) counted

generate-seed_example :
    let one = generate_session_keys counting acceptor (3 ∷ 4 ∷ []) 16 20 key_store in
    let other =
      generate_session_keys counting acceptor
        (3 ∷ 4 ∷ [])
        16
        20
        (record key_store { seed = 9 ∷ [] }) in
    (other.success ≡ one.success) × (other.store ≡ record (one.store) { seed = 9 ∷ [] })
generate-seed_example = generate-seed counting acceptor (3 ∷ 4 ∷ []) 16 20 key_store (9 ∷ [])
