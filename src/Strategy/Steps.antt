-- ===== src/Strategy/Steps.antt =====
-- The shape of the synchronization's functions: they change the strategy as they go, return early
-- where a step fails, and pass exceptions on. What was changed before an early return stays.
use brypt_node.Common.{Bool, Option, none, some, if◌then◌else◌}
use brypt_node.SecurityMediator.{Outcome, returned, thrown, undefined}

-- `none` is an early return.
abbrev pub Attempt : Type 0 → Type 0 → Type 0
Attempt S A = S → Outcome (Option A × S)

abbrev pub resume :
    {S A B : Type 0} → Outcome (Option A × S) → (A → Attempt S B) → Outcome (Option B × S)
resume (returned (some a, s)) f = f a s
resume (returned (none, s)) f = returned (none, s)
resume thrown f = thrown
resume undefined f = undefined

infixl 5 ◌>>=◌ ◌>>◌
unfoldable pub ◌>>=◌ : {S A B : Type 0} → Attempt S A → (A → Attempt S B) → Attempt S B
◌>>=◌ m f s = resume (m s) f

unfoldable pub ◌>>◌ : {S B : Type 0} → Attempt S (Unit {0}) → Attempt S B → Attempt S B
unfolding ◌>>=◌
m >> k = m >>= λ _. k

unfoldable pub give : {S A : Type 0} → A → Attempt S A
give a s = returned (some a, s)

unfoldable pub modify : {S : Type 0} → (S → S) → Attempt S (Unit {0})
modify f s = returned (some tt, f s)

unfoldable pub require : {S : Type 0} → Bool → Attempt S (Unit {0})
require test s = returned (if test then some tt else none, s)

-- A value that may be missing, computed from the state.
unfoldable pub demand : {S A : Type 0} → (S → Option A) → Attempt S A
demand f s = returned (f s, s)

abbrev pub within : {S A : Type 0} → S → Outcome (Option A) → Outcome (Option A × S)
within s (returned a) = returned (a, s)
within s thrown = thrown
within s undefined = undefined

-- A function that reads the state and may throw.
unfoldable pub consult : {S A : Type 0} → (S → Outcome (Option A)) → Attempt S A
consult f s = within s (f s)
