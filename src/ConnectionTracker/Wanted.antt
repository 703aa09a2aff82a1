-- ===== src/ConnectionTracker/Wanted.antt =====
-- Which entries the filters of ConnectionTracker.hpp want, told without its functions, and the rounds
-- of Filters against them.
use brypt_node.Common.{
  ℕ, zero, suc, ◌/◌, ◌%◌, ◌^◌, ◌<◌, ◌≡◌, refl, ap, ◌∙◌, inl, inr, Bool, true, false, not, ◌&&◌,
  Option, none, some, ◌==◌, if◌then◌else◌, Bool-cases, ==_iff, arith,
}
use brypt_node.Message.Context.{is_some}
use brypt_node.ConnectionTracker.Entries.{
  ConnectionState, connected, disconnected, resolving, unknown, Peer, Details, has_associated_peer,
  connection_state_to_filter, flag_is_set, PromotionStateFilter, unpromoted, promoted,
}
use brypt_node.ConnectionTracker.{CallbackIteration, Update, Read}
use brypt_node.ConnectionTracker.Filters.{
  update_with_state, update_with_sequence, update_with_timepoint, update_with_promotion,
  read_with_state, read_with_sequence, read_with_timepoint, read_with_promotion,
}

-- The binary digit of a mask that stands for a state.
abbrev pub is_listed : ℕ → ConnectionState → Bool
is_listed mask connected = mask % 2 == 1
is_listed mask disconnected = mask / 2 % 2 == 1
is_listed mask resolving = mask / 8 % 2 == 1
is_listed mask unknown = mask / 16 % 2 == 1

abbrev pub in_state : ℕ → Option Details → Bool
in_state mask none = false
in_state mask (some details) = is_listed mask details.connection_state

abbrev pub in_sequence : (ℕ → Bool) → Option Details → Bool
in_sequence predicate none = false
in_sequence predicate (some details) = predicate details.sequence_number

abbrev pub in_time : (ℕ → Bool) → Option Details → Bool
in_time predicate none = false
in_time predicate (some details) = predicate details.update_timepoint

abbrev peer_of : Option Details → Option Peer
peer_of none = none
peer_of (some details) = details.peer

abbrev pub in_promotion : PromotionStateFilter → Option Details → Bool
in_promotion promoted details = is_some (peer_of details)
in_promotion unpromoted details = not (is_some (peer_of details))

-- A test of all numbers below one.
abbrev all_below : ℕ → (ℕ → Bool) → Bool
all_below zero test = true
all_below (suc n) test = let rest = all_below n test in test n && rest

all_below-holds :
    (n : ℕ) (test : ℕ → Bool) → all_below n test ≡ true → (m : ℕ) → m < n → test m ≡ true
all_below-holds zero test e m h = absurd (omega arith)
all_below-holds (suc n) test e m h = elim (Bool-cases (m == n)) [
  | inl same ↦ ap test ((==_iff m n).0 same) ∙ ground (arith, e)
  | inr other ↦ all_below-holds n test (ground (arith, e)) m (ground (arith, other, h))
]

abbrev agree : Bool → Bool → Bool
agree true b = b
agree false b = not b

agree_same : (a b : Bool) → agree a b ≡ true → a ≡ b
agree_same true true e = refl
agree_same true false e = ground (arith, e)
agree_same false true e = ground (arith, e)
agree_same false false e = refl

flags_agree :
    (state : ConnectionState)
    → all_below 256
        (λ mask. agree (flag_is_set (connection_state_to_filter state) mask) (is_listed mask state))
      ≡ true
flags_agree connected = refl
flags_agree disconnected = refl
flags_agree resolving = refl
flags_agree unknown = refl

-- Of a mask of eight bits, FlagIsSet with the flag of a state is the state's digit.
flag_is_listed :
    (state : ConnectionState) (mask : ℕ)
    → mask < 2 ^ 8
    → flag_is_set (connection_state_to_filter state) mask ≡ is_listed mask state
flag_is_listed state mask small = agree_same _ _ (
    all_below-holds 256
      (λ (n : ℕ). agree (flag_is_set (connection_state_to_filter state) n) (is_listed n state))
      (flags_agree state) mask small)

peer_lem : (details : Details) → has_associated_peer details ≡ is_some details.peer
peer_lem details = by_peer details.peer
  where
    by_peer : (peer : Option Peer) → (elim peer [ none ↦ false | some p ↦ true ]) ≡ is_some peer
    by_peer none = refl
    by_peer (some p) = refl

-- The rounds.
module _ {I S : Type 0} where
  pub update_with_state_lem :
      (update : Update I S) (mask : ℕ) (s : S) (i : I) (details : Option Details)
      → mask < 2 ^ 8
      → update_with_state update mask s i details ≡ (
          if in_state mask details
          then update s i details
          else (s, details, CallbackIteration.continue))
  unfolding update_with_state
  update_with_state_lem update mask s i none small = refl
  update_with_state_lem update mask s i (some details) small =
      rw (flag_is_listed details.connection_state mask small) refl

  pub update_with_sequence_lem :
      (update : Update I S) (predicate : (ℕ → Bool)) (s : S) (i : I) (details : Option Details)
      → update_with_sequence update predicate s i details ≡ (
          if in_sequence predicate details
          then update s i details
          else (s, details, CallbackIteration.continue))
  unfolding update_with_sequence
  update_with_sequence_lem update predicate s i none = refl
  update_with_sequence_lem update predicate s i (some details) = refl

  pub update_with_timepoint_lem :
      (update : Update I S) (predicate : (ℕ → Bool)) (s : S) (i : I) (details : Option Details)
      → update_with_timepoint update predicate s i details ≡ (
          if in_time predicate details
          then update s i details
          else (s, details, CallbackIteration.continue))
  unfolding update_with_timepoint
  update_with_timepoint_lem update predicate s i none = refl
  update_with_timepoint_lem update predicate s i (some details) = refl

  pub update_with_promotion_lem :
      (update : Update I S) (filter : PromotionStateFilter) (s : S) (i : I)
      (details : Option Details)
      → update_with_promotion update filter s i details ≡ (
          if in_promotion filter details
          then update s i details
          else (s, details, CallbackIteration.continue))
  unfolding update_with_promotion
  update_with_promotion_lem update promoted s i none = refl
  update_with_promotion_lem update promoted s i (some details) = rw (peer_lem details) refl
  update_with_promotion_lem update unpromoted s i none = refl
  update_with_promotion_lem update unpromoted s i (some details) = rw (peer_lem details) refl

  pub read_with_state_lem :
      (read : Read I S) (mask : ℕ) (s : S) (i : I) (details : Option Details)
      → mask < 2 ^ 8
      → read_with_state read mask s i details
        ≡ (if in_state mask details then read s i details else (s, CallbackIteration.continue))
  unfolding read_with_state
  read_with_state_lem read mask s i none small = refl
  read_with_state_lem read mask s i (some details) small =
      rw (flag_is_listed details.connection_state mask small) refl

  pub read_with_sequence_lem :
      (read : Read I S) (predicate : (ℕ → Bool)) (s : S) (i : I) (details : Option Details)
      → read_with_sequence read predicate s i details ≡ (
          if in_sequence predicate details
          then read s i details
          else (s, CallbackIteration.continue))
  unfolding read_with_sequence
  read_with_sequence_lem read predicate s i none = refl
  read_with_sequence_lem read predicate s i (some details) = refl

  pub read_with_timepoint_lem :
      (read : Read I S) (predicate : (ℕ → Bool)) (s : S) (i : I) (details : Option Details)
      → read_with_timepoint read predicate s i details
        ≡ (if in_time predicate details then read s i details else (s, CallbackIteration.continue))
  unfolding read_with_timepoint
  read_with_timepoint_lem read predicate s i none = refl
  read_with_timepoint_lem read predicate s i (some details) = refl

  pub read_with_promotion_lem :
      (read : Read I S) (filter : PromotionStateFilter) (s : S) (i : I) (details : Option Details)
      → read_with_promotion read filter s i details ≡ (
          if in_promotion filter details then read s i details else (s, CallbackIteration.continue))
  unfolding read_with_promotion
  read_with_promotion_lem read promoted s i none = refl
  read_with_promotion_lem read promoted s i (some details) = rw (peer_lem details) refl
  read_with_promotion_lem read unpromoted s i none = refl
  read_with_promotion_lem read unpromoted s i (some details) = rw (peer_lem details) refl
