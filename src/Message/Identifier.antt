-- ===== src/Message/Identifier.antt =====
-- BryptIdentifier::Container of src/BryptIdentifier/BryptIdentifier.hpp, as messages see it.
use brypt_node.Common.{ℕ, Bool, false, not, List, ◌==◌, if◌then◌else◌, ◌&&◌}

pub record Container : Type 0 where
  pub internal_representation : ℕ
  pub network_representation : List ℕ
  pub valid : Bool

-- operator==.
unfoldable pub same_identifier : Container → Container → Bool
same_identifier a b =
    if not a.valid && not b.valid
    then false
    else a.internal_representation == b.internal_representation
