-- ===== src/Strategy/Authentic.antt =====
-- What a synchronization that ends ready has verified.
use mathlib.Core.Path.{subst}
use brypt_node.Common.{
  ℕ, ◌≡◌, refl, sym, ap, ◌∙◌, Bool, true, false, List, [], ◌++◌, Option, none, some, length, ==_iff,
  arith,
}
use brypt_node.PackUtils.{unpack_buffer}
use brypt_node.MessageControl.Exchange.{SynchronizationStatus}
use brypt_node.SecurityMediator.{Outcome, returned, thrown, undefined, Role, initiator, acceptor}
use brypt_node.KeyStore.{verification_size}
use brypt_node.Strategy.{
  Strategy, Primitives, unpack_strategy, finalize, verify, verify_key_share, passed, expand_seed,
  update_transaction, decapsulate_shared_secret, verify_transaction, principal_random_size,
  encapsulation_size,
}
use brypt_node.Strategy.Steps.{
  Attempt, ◌>>=◌, ◌>>◌, resume, within, give, modify, require, demand, consult,
}
use brypt_node.Strategy.Synchronization.{
  confirmation_size, response_size, handle_initialization_response, handle_verification_request,
  initiator_initialization, generate_verification_request, acceptor_verification, synchronize,
  synchronize_as, told,
}

-- The first step of a sequence that succeeds, and the rest of the sequence.
module _ {S B : Type 0} where
  checked :
      (f : S → Outcome Bool) (k : Attempt S B) (s : S) {b : B} {last : S}
      → (consult (λ t. passed (f t)) >> k) s ≡ returned (some b, last)
      → (f s ≡ returned true) × (k s ≡ returned (some b, last))
  unfolding ◌>>=◌ ◌>>◌ consult
  checked f k s e = by_outcome (f s) k e
    where
      by_outcome :
          (o : Outcome Bool) (k : Attempt S B) {b : B} {last : S}
          → resume (within s (passed o)) (λ _. k) ≡ returned (some b, last)
          → (o ≡ returned true) × (k s ≡ returned (some b, last))
      by_outcome (returned true) k e = (refl, e)
      by_outcome (returned false) k e = ground arith
      by_outcome thrown k e = ground arith
      by_outcome undefined k e = ground arith

  demanded :
      {A : Type 0} (f : S → Option A) (k : A → Attempt S B) (s : S) {b : B} {last : S}
      → (demand f >>= k) s ≡ returned (some b, last)
      → (a : A) × (f s ≡ some a) × (k a s ≡ returned (some b, last))
  unfolding ◌>>=◌ demand
  demanded f k s e = by_option (f s) k e
    where
      by_option :
          {A : Type 0} (o : Option A) (k : A → Attempt S B) {b : B} {last : S}
          → resume (returned (o, s)) k ≡ returned (some b, last)
          → (a : A) × (o ≡ some a) × (k a s ≡ returned (some b, last))
      by_option (some a) k e = (a, refl, e)
      by_option none k e = ground arith

  required :
      (test : Bool) (k : Attempt S B) (s : S) {b : B} {last : S}
      → (require test >> k) s ≡ returned (some b, last)
      → (test ≡ true) × (k s ≡ returned (some b, last))
  unfolding ◌>>=◌ ◌>>◌ require
  required true k s e = (refl, e)
  required false k s e = ground arith

  modified_then :
      (f : S → S) (k : Attempt S B) (s : S) {b : B} {last : S}
      → (modify f >> k) s ≡ returned (some b, last)
      → k (f s) ≡ returned (some b, last)
  unfolding ◌>>=◌ ◌>>◌ modify
  modified_then f k s e = e

  followed :
      {A : Type 0} (m : Attempt S A) (k : A → Attempt S B) (s : S) {b : B} {last : S}
      → (m >>= k) s ≡ returned (some b, last)
      → (a : A) × (middle : S) × (m s ≡ returned (some a, middle))
        × (k a middle ≡ returned (some b, last))
  unfolding ◌>>=◌
  followed m k s e = by_run (m s) k e
    where
      by_run :
          {A : Type 0} (o : Outcome (Option A × S)) (k : A → Attempt S B) {b : B} {last : S}
          → resume o k ≡ returned (some b, last)
          → (a : A) × (middle : S) × (o ≡ returned (some a, middle))
            × (k a middle ≡ returned (some b, last))
      by_run (returned (some a, middle)) k e = (a, middle, refl, e)
      by_run (returned (none, middle)) k e = ground arith
      by_run thrown k e = ground arith
      by_run undefined k e = ground arith

  followed_then :
      (m : Attempt S (Unit {0})) (k : Attempt S B) (s : S) {b : B} {last : S}
      → (m >> k) s ≡ returned (some b, last)
      → (middle : S) × (m s ≡ returned (some tt, middle)) × (k middle ≡ returned (some b, last))
  unfolding ◌>>◌
  followed_then m k s e = let h = followed m (λ _. k) s e in (h.1, h.2, h.3)

-- The state that a run has left, or another one.
abbrev left_state : {S A : Type 0} → S → Outcome (Option A × S) → S
left_state other (returned (a, s)) = s
left_state other _ = other

modified :
    {S : Type 0} (f : S → S) (s : S) {last : S} → modify f s ≡ returned (some tt, last) → last ≡ f s
unfolding modify
modified f s {last} e = ap (left_state last) (sym e)

abbrev told_state : {A S : Type 0} → S → Outcome (A × S) → S
told_state other (returned (a, s)) = s
told_state other _ = other

-- The last check of a function.
checked_last :
    {S : Type 0} (f : S → Outcome Bool) (s : S) {last : S}
    → consult (λ t. passed (f t)) s ≡ returned (some tt, last)
    → (f s ≡ returned true) × (last ≡ s)
unfolding consult
checked_last f s e = by_outcome (f s) s e
  where
    by_outcome :
        {S : Type 0} (o : Outcome Bool) (s : S) {last : S}
        → within s (passed o) ≡ returned (some tt, last)
        → (o ≡ returned true) × (last ≡ s)
    by_outcome (returned true) s {last} e = (refl, ap (left_state last) (sym e))
    by_outcome (returned false) s e = ground arith
    by_outcome thrown s e = ground arith
    by_outcome undefined s e = ground arith

-- The confirmation of an initiator, as the acceptor has verified it.
pub record IsConfirmed {State : Type 0} (p : Primitives State) (request : List ℕ)
    (s last : Strategy) : Type 0 where
  pub rest : List ℕ
  pub verification : List ℕ
  pub remaining : List ℕ
  pub authentic : verify p s.store request ≡ returned true
  pub typed : unpack_strategy request ≡ some rest
  pub sized : length request ≡ confirmation_size
  pub unpacked : unpack_buffer verification_size [] rest ≡ some (verification, remaining)
  pub shared : verify_key_share p s.store verification ≡ returned true
  pub finished : last ≡ finalize 2 s

-- The response of an acceptor, as the initiator has verified it with the keys that it has derived.
pub record IsAccepted {State : Type 0} (p : Primitives State) (response : List ℕ)
    (s last : Strategy) : Type 0 where
  pub body : List ℕ
  pub seed : List ℕ
  pub after_seed : List ℕ
  pub encapsulation : List ℕ
  pub after_encapsulation : List ℕ
  pub verification : List ℕ
  pub remaining : List ℕ
  pub keyed : Strategy
  pub typed : unpack_strategy response ≡ some body
  pub sized : length response ≡ response_size
  pub seeded : unpack_buffer principal_random_size [] body ≡ some (seed, after_seed)
  pub encapsulated :
      unpack_buffer encapsulation_size [] after_seed ≡ some (encapsulation, after_encapsulation)
  pub verifiable :
      unpack_buffer verification_size [] after_encapsulation ≡ some (verification, remaining)
  pub decapsulated :
      decapsulate_shared_secret p encapsulation (expand_seed seed s) ≡ returned (some tt, keyed)
  pub shared : verify_key_share p keyed.store verification ≡ returned true
  pub authentic : verify p keyed.store (keyed.transaction ++ response) ≡ returned true
  pub finished : last ≡ update_transaction response keyed

-- The stage at which a role's synchronization can become ready.
abbrev pub last_stage : Role → ℕ
last_stage initiator = 0
last_stage acceptor = 1

-- The last steps of the handling of a response.
module _ {State : Type 0} (p : Primitives State) (response : List ℕ) where
  abbrev transaction_steps : Attempt Strategy (Unit {0})
  transaction_steps = modify (update_transaction response) >> verify_transaction p

  abbrev share_steps : List ℕ × List ℕ → Attempt Strategy (Unit {0})
  share_steps verification =
      consult (λ s. passed (verify_key_share p s.store verification.0)) >> transaction_steps

  abbrev data_steps : List ℕ → Attempt Strategy (Unit {0})
  data_steps rest = demand (λ s. unpack_buffer verification_size [] rest) >>= share_steps

  abbrev key_steps : List ℕ × List ℕ → Attempt Strategy (Unit {0})
  key_steps encapsulation =
      decapsulate_shared_secret p encapsulation.0 >> data_steps encapsulation.1

  abbrev secret_steps : List ℕ → Attempt Strategy (Unit {0})
  secret_steps rest = demand (λ s. unpack_buffer encapsulation_size [] rest) >>= key_steps

module _ {State : Type 0} (p : Primitives State) where
  pub handled-IsAccepted :
      (response : List ℕ) (s : Strategy) {last : Strategy}
      → handle_initialization_response p response s ≡ returned (some tt, last)
      → IsAccepted p response s last
  unfolding handle_initialization_response verify_transaction
  handled-IsAccepted response s {last} e =
      let h1 = demanded (λ (t : Strategy). unpack_strategy response) _ s e in
      let h2 = required _ _ s h1.2 in
      let h3 = demanded (λ (t : Strategy). unpack_buffer principal_random_size [] h1.0) _ s h2.1 in
      let seeded : Strategy = expand_seed h3.0.0 s in
      let h4 = modified_then (expand_seed h3.0.0) (secret_steps p response h3.0.1) s h3.2 in
      let h5 =
        demanded (λ (t : Strategy). unpack_buffer encapsulation_size [] h3.0.1)
          (key_steps p response) seeded h4 in
      let h6 =
        followed_then (decapsulate_shared_secret p h5.0.0) (data_steps p response h5.0.1) seeded
          h5.2 in
      let h7 =
        demanded (λ (t : Strategy). unpack_buffer verification_size [] h5.0.1)
          (share_steps p response) h6.0 h6.2 in
      let h8 =
        checked (λ (t : Strategy). verify_key_share p t.store h7.0.0) (transaction_steps p response)
          h6.0 h7.2 in
      let h9 = modified_then (update_transaction response) (verify_transaction p) h6.0 h8.1 in
      let h10 =
        checked_last (λ (t : Strategy). verify p t.store t.transaction)
          (update_transaction response h6.0) h9 in
      record {
        body = h1.0;
        seed = h3.0.0;
        after_seed = h3.0.1;
        encapsulation = h5.0.0;
        after_encapsulation = h5.0.1;
        verification = h7.0.0;
        remaining = h7.0.1;
        keyed = h6.0;
        typed = h1.1;
        seeded = h3.1;
        encapsulated = h5.1;
        verifiable = h7.1;
        sized = (==_iff (length response) response_size).0 h2.0;
        decapsulated = h6.1;
        shared = h8.0;
        authentic = unfold update_transaction in h10.0;
        finished = h10.1;
      }

  handled-IsConfirmed :
      (request : List ℕ) (s : Strategy) {last : Strategy}
      → handle_verification_request p request s ≡ returned (some tt, last)
      → IsConfirmed p request s last
  unfolding handle_verification_request
  handled-IsConfirmed request s {last} e =
      let h1 = checked (λ (t : Strategy). verify p t.store request) _ s e in
      let h2 = demanded (λ (t : Strategy). unpack_strategy request) _ s h1.1 in
      let h3 = required _ _ s h2.2 in
      let h4 = demanded (λ (t : Strategy). unpack_buffer verification_size [] h2.0) _ s h3.1 in
      let h5 = checked (λ (t : Strategy). verify_key_share p t.store h4.0.0) _ s h4.2 in
      record {
        rest = h2.0;
        verification = h4.0.0;
        remaining = h4.0.1;
        authentic = h1.0;
        typed = h2.1;
        sized = (==_iff (length request) confirmation_size).0 h3.0;
        unpacked = h4.1;
        shared = h5.0;
        finished = modified (finalize 2) s h5.1;
      }

  -- What a role has verified of a pack.
  pub data IsVerified (pack : List ℕ) (s last : Strategy) : Type 0 where
    accepted :
        (middle : Strategy)
        → s.role ≡ initiator
        → IsAccepted p pack s middle
        → (message : List ℕ)
        → generate_verification_request p middle ≡ returned (some message, last)
        → IsVerified pack s last
    confirmed : s.role ≡ acceptor → IsConfirmed p pack s last → IsVerified pack s last

  told_ready :
      (run : Outcome (Option (List ℕ) × Strategy)) {message : List ℕ} {last : Strategy}
      → told run ≡ returned ((SynchronizationStatus.ready, message), last)
      → (sent : List ℕ) × (run ≡ returned (some sent, last))
  told_ready (returned (some sent, s)) {message} {last} e = (
    sent,
    ap
        (λ (o : Outcome ((SynchronizationStatus × List ℕ) × Strategy)).
          returned (some sent, told_state last o))
        e,
  )
  told_ready (returned (none, s)) e = ground arith
  told_ready thrown e = ground arith
  told_ready undefined e = ground arith

  ready_by_role :
      (role : Role) (random : Option (List ℕ)) (pack : List ℕ) (s : Strategy) {message : List ℕ}
      {last : Strategy}
      → s.role ≡ role
      → synchronize_as p role (last_stage role) random pack s
        ≡ returned ((SynchronizationStatus.ready, message), last)
      → IsVerified pack s last
  unfolding synchronize_as initiator_initialization acceptor_verification give
  ready_by_role initiator random pack s at e =
      let run = told_ready (initiator_initialization p pack s) e in
      let h = followed_then (handle_initialization_response p pack) _ s run.1 in
      IsVerified.accepted h.0 at (handled-IsAccepted pack s h.1) run.0 h.2
  ready_by_role acceptor random pack s {last = last} at e =
      let run = told_ready (acceptor_verification p pack s) e in
      let h = followed_then (handle_verification_request p pack) _ s run.1 in
      let same : h.0 ≡ last = ap (left_state last) h.2 in
      IsVerified.confirmed at (subst (IsConfirmed p pack s) same (handled-IsConfirmed pack s h.1))

  -- A call in a role's last stage that returns ready has verified the pack. It has the strategy's
  -- type and its size. For the initiator, what follows the type is unpacked as a seed, an
  -- encapsulation and verification data, in that order; the keys are derived from that
  -- encapsulation with the seed expanded by that seed, and with them the verification data and the
  -- code over all that was exchanged, the pack included, hold; the new state is the one of the keys,
  -- from which the confirmation is generated. For the acceptor, the code over the pack holds,
  -- and what follows the type is unpacked as verification data, which holds too.
  pub verified_before_ready :
      (random : Option (List ℕ)) (pack : List ℕ) (s : Strategy) {message : List ℕ} {last : Strategy}
      → s.stage ≡ last_stage s.role
      → synchronize p random pack s ≡ returned ((SynchronizationStatus.ready, message), last)
      → IsVerified pack s last
  unfolding synchronize
  verified_before_ready random pack s stage e =
      ready_by_role s.role random pack s refl
        (ap (λ (k : ℕ). synchronize_as p s.role k random pack s) (sym stage) ∙ e)
