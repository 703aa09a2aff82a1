-- ===== src/Message/Application/Extensions.antt =====
-- The extensions of an application message as ApplicationBuilder::UnpackExtensions reads them.
use brypt_node.Common.{
  ℕ, suc, ◌≤◌, ◌<◌, ◌^◌, ◌≡◌, ◌≢◌, refl, ◌∙◌, Bool, false, List, [], ◌∷◌, ◌++◌, none, some, length,
  ◌==◌, arith,
}
use brypt_node.PackUtils.{store_big, unpack_chunk, load_big}
use brypt_node.Message.Parser.{
  ◌>>=◌, done, modify, read_or_zero, modify-then, guard-then, read-then, read_or_zero-then,
  call-then,
}
use brypt_node.Message.Application.Defs.{
  ApplicationMessage, AwaitBinding, fixed_await_extension_size, await_tracker, binding_code,
}
use brypt_node.Message.Application.Unpack.{
  bound_tracker, next_extension, unpack_await_tracker, extensions_loop,
}

-- The bytes of an await tracker's extension that states the size `size`.
abbrev pub extension_bytes : ℕ → ℕ → ℕ → List ℕ → List ℕ
extension_bytes size binding key rest =
    store_big 1 await_tracker
    ++ (store_big 2 size ++ (store_big 1 binding ++ (store_big 4 key ++ rest)))

pub record Fits (size binding key : ℕ) : Type 0 where
  pub large : fixed_await_extension_size ≤ size
  pub size_fits : size < 2 ^ 16
  pub binding_fits : binding < 256
  pub key_fits : key < 2 ^ 32

unpack_await_tracker_lem :
    (size binding key : ℕ) (rest : List ℕ)
    → Fits size binding key
    → unpack_await_tracker none
        (store_big 2 size ++ (store_big 1 binding ++ (store_big 4 key ++ rest)))
      ≡ (some tt, bound_tracker binding key, rest)
unfolding unpack_await_tracker
unpack_await_tracker_lem size binding key rest f =
    read-then _ none _ 2 size (omega arith)
    ∙ guard-then _ none _ _ (ground arith)
    ∙ read-then _ none _ 1 binding (omega arith)
    ∙ read-then _ none _ 4 key (omega arith)
    ∙ unfold modify in refl

extensions_loop_step :
    (fuel : ℕ) (m : ApplicationMessage) (begin : List ℕ)
    → 0 < length begin
    → extensions_loop (suc fuel) m begin ≡ next_extension (extensions_loop fuel) m begin
unfolding extensions_loop
extensions_loop_step fuel m [] h = absurd (omega arith)
extensions_loop_step fuel m (b ∷ bs) h = refl

-- A round of the loop at an await tracker's extension.
pub extension_round :
    (fuel size binding key : ℕ) (m : ApplicationMessage) (rest : List ℕ)
    → Fits size binding key
    → extensions_loop (suc fuel) m (extension_bytes size binding key rest)
      ≡ extensions_loop fuel (record m { tracker = bound_tracker binding key }) rest
unfolding next_extension
extension_round fuel size binding key m rest f =
    extensions_loop_step fuel m (extension_bytes size binding key rest)
      (unfold store_big in omega arith)
    ∙ read_or_zero-then _ m _ 1 await_tracker (omega arith)
    ∙ call-then _ none _ m _ _ _ _ (unpack_await_tracker_lem size binding key rest f)
    ∙ modify-then _ _ _ _

-- The next byte is that of an await tracker.
unfoldable pub starts_extension : List ℕ → Bool
starts_extension [] = false
starts_extension (b ∷ bs) = b == await_tracker

-- At any other byte, and at the end, the loop is over.
pub extensions_end :
    (fuel : ℕ) (m : ApplicationMessage) (rest : List ℕ)
    → starts_extension rest ≡ false
    → (extensions_loop (suc fuel) m rest).1 ≡ m
unfolding extensions_loop starts_extension next_extension ◌>>=◌ read_or_zero unpack_chunk load_big
    done
extensions_end fuel m [] h = refl
extensions_end fuel m (b ∷ bs) h = ground arith

-- The binding that is written is read.
pub bound_tracker_lem :
    (b : AwaitBinding) (key : ℕ)
    → b ≢ AwaitBinding.invalid
    → bound_tracker (binding_code b) key ≡ some (b, key)
unfolding bound_tracker
bound_tracker_lem AwaitBinding.invalid key h = absurd (h refl)
bound_tracker_lem AwaitBinding.source key h = refl
bound_tracker_lem AwaitBinding.destination key h = refl
