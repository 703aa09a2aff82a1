-- ===== src/Identifier/Examples.antt =====
-- The theorems on identifiers at a concrete library and a concrete number.
use brypt_node.Common.{
  ℕ, ◌+◌, ◌*◌, ◌^◌, ◌≡◌, refl, sym, ap, ◌∙◌, true, List, [], ◌∷◌, ◌++◌, Option, none, some, or_same,
  length, replicate, All, arith,
}
use brypt_node.PackUtils.{IsByte, store_big, load_big}
use brypt_node.PackUtils.RoundTrip.{length-store_big, store_big-IsByte, load_big-store_big}
use brypt_node.Message.Identifier.{Container}
use brypt_node.Message.Header.RoundTrip.{Travels}
use brypt_node.Base58.Digits.{read_value}
use brypt_node.Identifier.{
  Library, metadata, padded_bytes, default_container, container_of_internal, container_of_network,
}
use brypt_node.Identifier.Conversion.{IsLibrary}
use brypt_node.Identifier.Travel.{Constructs, container_rebuilt, container-Travels}
use mathlib.Core.Path.{subst}
use brypt_node.Identifier.Failure.{container_of_network_undefined}

read_value-load_big : (v : ℕ) (bytes : List ℕ) → read_value 256 v bytes ≡ load_big v bytes
unfolding read_value load_big
read_value-load_big v [] = refl
read_value-load_big v (b ∷ bytes) = read_value-load_big (v * 256 + b) bytes

-- A digest of the last bytes.
abbrev library : Library
library = record {
  import_bits = read_value 256 0;
  export_bits = store_big 16;
  digest_context = true;
  shake128 = λ bytes k. some (store_big k (read_value 256 0 bytes));
}

library-IsLibrary : IsLibrary library
library-IsLibrary = record {
  export_length = λ n h. omega (arith, length-store_big 16 n);
  export_bytes = λ n h. store_big-IsByte 16 n;
  export_value =
      λ n h. read_value-load_big 0 (store_big 16 n) ∙ load_big-store_big 16 n (omega (arith, h));
  import_value = λ bytes h small. refl;
  digest_length = λ bytes digest k e. digest_length bytes digest k e;
  digest_bytes = λ bytes digest k e. digest_bytes bytes digest k e;
}
  where
    digest_length :
        (bytes digest : List ℕ) (k : ℕ)
        → some (store_big k (read_value 256 0 bytes)) ≡ some digest
        → length digest ≡ k
    digest_length bytes digest k e =
        ap (λ (o : Option (List ℕ)). length (or_same digest o)) (sym e)
        ∙ length-store_big k (read_value 256 0 bytes)

    digest_bytes :
        (bytes digest : List ℕ) (k : ℕ)
        → some (store_big k (read_value 256 0 bytes)) ≡ some digest
        → All IsByte digest
    digest_bytes bytes digest k e =
        subst (λ (o : Option (List ℕ)). All IsByte (or_same digest o)) e
          (store_big-IsByte k (read_value 256 0 bytes))

abbrev undigested : Library
undigested = record library { shake128 = λ bytes k. none }

abbrev number : ℕ
number = 2 ^ 127 + 5

abbrev construct : List ℕ → Container
construct text = or_same default_container (container_of_network library text)

construct-Constructs : Constructs library construct
construct-Constructs text c e = ap (or_same default_container) e

container_rebuilt_example :
    (c : Container) × (container_of_internal library number ≡ some c)
    × (container_of_network library c.network_representation ≡ some c)
    × (c.internal_representation ≡ number)
    × (c.valid ≡ true)
container_rebuilt_example =
    container_rebuilt library library-IsLibrary number (omega arith)
      (store_big 4 (read_value 256 0 (padded_bytes library number))) refl refl (omega arith)

built : (c : Container) × (container_of_internal library number ≡ some c)
built =
    let r =
      container_rebuilt library library-IsLibrary number (omega arith)
        (store_big 4 (read_value 256 0 (padded_bytes library number))) refl refl (omega arith) in
    (r.0, r.1)

container-Travels_example : Travels construct built.0
container-Travels_example =
    container-Travels library library-IsLibrary number (omega arith)
      (store_big 4 (read_value 256 0 (padded_bytes library number))) refl refl (omega arith)
      construct built.0 construct-Constructs (omega arith) built.1

container_of_network_undefined_example :
    container_of_network library (metadata ++ replicate 26 177) ≡ none
container_of_network_undefined_example = container_of_network_undefined library 25
