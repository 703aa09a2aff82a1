-- ===== src/Identifier/Comparison.antt =====
-- The comparison of byte sequences.
use brypt_node.Common.{ℕ, ◌≡◌, refl, true, List, [], ◌∷◌, ◌==◌, ==_iff}
use brypt_node.Identifier.{same_bytes}

pub same_bytes_refl : (bytes : List ℕ) → same_bytes bytes bytes ≡ true
unfolding same_bytes
same_bytes_refl [] = refl
same_bytes_refl (b ∷ bytes) =
    let same : (b == b) ≡ true = (==_iff b b).1 refl in rw same (same_bytes_refl bytes)
