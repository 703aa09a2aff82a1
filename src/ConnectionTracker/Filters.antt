-- ===== src/ConnectionTracker/Filters.antt =====
-- The filtered loops of ConnectionTracker.hpp: UpdateEachConnection and ReadEachConnection with a
-- filter on the connection's state, the sequence number, the promotion or the time of the update.
-- A round whose details do not pass leaves the result at Continue.
use brypt_node.Common.{ℕ, Bool, not, List, [], ◌∷◌, Option, none, some, if◌then◌else◌}
use brypt_node.ConnectionTracker.Entries.{
  Details, Entry, has_associated_peer, connection_state_to_filter, flag_is_set,
  PromotionStateFilter, unpromoted, promoted,
}
use brypt_node.ConnectionTracker.{Key, CallbackIteration, Update, Read, update_next, read_next}

-- The rounds.
module _ {I S : Type 0} where
  unfoldable pub update_with_state :
      Update I S → ℕ → S → I → Option Details → S × Option Details × CallbackIteration
  update_with_state update mask s connection none = (s, none, CallbackIteration.continue)
  update_with_state update mask s connection (some details) =
      if flag_is_set (connection_state_to_filter details.connection_state) mask
      then update s connection (some details)
      else (s, some details, CallbackIteration.continue)

  unfoldable pub update_with_sequence :
      Update I S → (ℕ → Bool) → S → I → Option Details → S × Option Details × CallbackIteration
  update_with_sequence update predicate s connection none = (s, none, CallbackIteration.continue)
  update_with_sequence update predicate s connection (some details) =
      if predicate details.sequence_number
      then update s connection (some details)
      else (s, some details, CallbackIteration.continue)

  unfoldable pub update_with_timepoint :
      Update I S → (ℕ → Bool) → S → I → Option Details → S × Option Details × CallbackIteration
  update_with_timepoint update predicate s connection none = (s, none, CallbackIteration.continue)
  update_with_timepoint update predicate s connection (some details) =
      if predicate details.update_timepoint
      then update s connection (some details)
      else (s, some details, CallbackIteration.continue)

  unfoldable pub update_with_promotion :
      Update I S
      → PromotionStateFilter
      → S
      → I
      → Option Details
      → S × Option Details × CallbackIteration
  update_with_promotion update promoted s connection none = (s, none, CallbackIteration.continue)
  update_with_promotion update promoted s connection (some details) =
      if has_associated_peer details
      then update s connection (some details)
      else (s, some details, CallbackIteration.continue)
  update_with_promotion update unpromoted s connection none = update s connection none
  update_with_promotion update unpromoted s connection (some details) =
      if not (has_associated_peer details)
      then update s connection (some details)
      else (s, some details, CallbackIteration.continue)

  unfoldable pub read_with_state : Read I S → ℕ → S → I → Option Details → S × CallbackIteration
  read_with_state read mask s connection none = (s, CallbackIteration.continue)
  read_with_state read mask s connection (some details) =
      if flag_is_set (connection_state_to_filter details.connection_state) mask
      then read s connection (some details)
      else (s, CallbackIteration.continue)

  unfoldable pub read_with_sequence :
      Read I S → (ℕ → Bool) → S → I → Option Details → S × CallbackIteration
  read_with_sequence read predicate s connection none = (s, CallbackIteration.continue)
  read_with_sequence read predicate s connection (some details) =
      if predicate details.sequence_number
      then read s connection (some details)
      else (s, CallbackIteration.continue)

  unfoldable pub read_with_timepoint :
      Read I S → (ℕ → Bool) → S → I → Option Details → S × CallbackIteration
  read_with_timepoint read predicate s connection none = (s, CallbackIteration.continue)
  read_with_timepoint read predicate s connection (some details) =
      if predicate details.update_timepoint
      then read s connection (some details)
      else (s, CallbackIteration.continue)

  unfoldable pub read_with_promotion :
      Read I S → PromotionStateFilter → S → I → Option Details → S × CallbackIteration
  read_with_promotion read promoted s connection none = (s, CallbackIteration.continue)
  read_with_promotion read promoted s connection (some details) =
      if has_associated_peer details
      then read s connection (some details)
      else (s, CallbackIteration.continue)
  read_with_promotion read unpromoted s connection none = read s connection none
  read_with_promotion read unpromoted s connection (some details) =
      if not (has_associated_peer details)
      then read s connection (some details)
      else (s, CallbackIteration.continue)

-- The loops.
module _ {I : Type 0} (key : Key I) where
  module _ {S : Type 0} where
    unfoldable pub update_each_with_state : Update I S → ℕ → S → List (Entry I) → S × List (Entry I)
    unfolding update_with_state
    update_each_with_state update mask s [] = (s, [])
    update_each_with_state update mask s (entry ∷ entries) =
        let result = update_with_state update mask s entry.connection entry.details in
        update_next key entry entries result (update_each_with_state update mask result.0 entries)

    unfoldable pub update_each_with_sequence :
        Update I S → (ℕ → Bool) → S → List (Entry I) → S × List (Entry I)
    unfolding update_with_sequence
    update_each_with_sequence update predicate s [] = (s, [])
    update_each_with_sequence update predicate s (entry ∷ entries) =
        let result = update_with_sequence update predicate s entry.connection entry.details in
        update_next key entry entries result
          (update_each_with_sequence update predicate result.0 entries)

    unfoldable pub update_each_with_promotion :
        Update I S → PromotionStateFilter → S → List (Entry I) → S × List (Entry I)
    unfolding update_with_promotion
    update_each_with_promotion update filter s [] = (s, [])
    update_each_with_promotion update filter s (entry ∷ entries) =
        let result = update_with_promotion update filter s entry.connection entry.details in
        update_next key entry entries result
          (update_each_with_promotion update filter result.0 entries)

    unfoldable pub update_each_with_timepoint :
        Update I S → (ℕ → Bool) → S → List (Entry I) → S × List (Entry I)
    unfolding update_with_timepoint
    update_each_with_timepoint update predicate s [] = (s, [])
    update_each_with_timepoint update predicate s (entry ∷ entries) =
        let result = update_with_timepoint update predicate s entry.connection entry.details in
        update_next key entry entries result
          (update_each_with_timepoint update predicate result.0 entries)

    unfoldable pub read_each_with_state : Read I S → ℕ → S → List (Entry I) → S
    unfolding read_with_state
    read_each_with_state read mask s [] = s
    read_each_with_state read mask s (entry ∷ entries) =
        let result = read_with_state read mask s entry.connection entry.details in
        read_next key result (read_each_with_state read mask result.0 entries)

    unfoldable pub read_each_with_sequence : Read I S → (ℕ → Bool) → S → List (Entry I) → S
    unfolding read_with_sequence
    read_each_with_sequence read predicate s [] = s
    read_each_with_sequence read predicate s (entry ∷ entries) =
        let result = read_with_sequence read predicate s entry.connection entry.details in
        read_next key result (read_each_with_sequence read predicate result.0 entries)

    unfoldable pub read_each_with_promotion :
        Read I S → PromotionStateFilter → S → List (Entry I) → S
    unfolding read_with_promotion
    read_each_with_promotion read filter s [] = s
    read_each_with_promotion read filter s (entry ∷ entries) =
        let result = read_with_promotion read filter s entry.connection entry.details in
        read_next key result (read_each_with_promotion read filter result.0 entries)

    unfoldable pub read_each_with_timepoint : Read I S → (ℕ → Bool) → S → List (Entry I) → S
    unfolding read_with_timepoint
    read_each_with_timepoint read predicate s [] = s
    read_each_with_timepoint read predicate s (entry ∷ entries) =
        let result = read_with_timepoint read predicate s entry.connection entry.details in
        read_next key result (read_each_with_timepoint read predicate result.0 entries)
