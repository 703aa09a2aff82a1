-- ===== src/ConnectionTracker/Rounds.antt =====
-- The loops of Filters against loops over an arbitrary condition.
use brypt_node.Common.{
  ℕ, ◌^◌, ◌<◌, ◌≡◌, refl, ap, ◌∙◌, Bool, true, List, [], ◌∷◌, Option, if◌then◌else◌,
}
use brypt_node.ConnectionTracker.Entries.{Details, Entry, PromotionStateFilter}
use brypt_node.ConnectionTracker.{
  Key, CallbackIteration, Update, Read, update_next, read_next, update_each_connection,
}
use brypt_node.ConnectionTracker.Filters.{
  update_each_with_state, update_each_with_sequence, update_each_with_timepoint,
  update_each_with_promotion, read_each_with_state, read_each_with_sequence,
  read_each_with_timepoint, read_each_with_promotion,
}
use brypt_node.ConnectionTracker.Wanted.{
  in_state, in_sequence, in_time, in_promotion, update_with_state_lem, update_with_sequence_lem,
  update_with_timepoint_lem, update_with_promotion_lem, read_with_state_lem, read_with_sequence_lem,
  read_with_timepoint_lem, read_with_promotion_lem,
}

-- The loops over the entries that a condition lets through.
module _ {I : Type 0} (key : Key I) where
  module _ {S : Type 0} where
    -- A round and the rounds behind it, where these are the same.
    update_round :
        (entry : Entry I) (entries : List (Entry I)) (f g : S → S × List (Entry I))
        {r r' : S × Option Details × CallbackIteration}
        → r ≡ r'
        → ((s : S) → f s ≡ g s)
        → update_next key entry entries r (f r.0) ≡ update_next key entry entries r' (g r'.0)
    update_round entry entries f g {r} {r'} e h =
        ap (λ (q : S × Option Details × CallbackIteration). update_next key entry entries q (f q.0))
          e
        ∙ ap (update_next key entry entries r') (h r'.0)

    read_round :
        (f g : S → S) {r r' : S × CallbackIteration}
        → r ≡ r'
        → ((s : S) → f s ≡ g s)
        → read_next key r (f r.0) ≡ read_next key r' (g r'.0)
    read_round f g {r} {r'} e h =
        ap (λ (q : S × CallbackIteration). read_next key q (f q.0)) e
        ∙ ap (read_next key r') (h r'.0)

    unfoldable pub update_each_where :
        (Option Details → Bool) → Update I S → S → List (Entry I) → S × List (Entry I)
    update_each_where wanted update s [] = (s, [])
    update_each_where wanted update s (entry ∷ entries) =
        let result =
          if wanted entry.details
          then update s entry.connection entry.details
          else (s, entry.details, CallbackIteration.continue) in
        update_next key entry entries result (update_each_where wanted update result.0 entries)

    unfoldable pub read_each_where : (Option Details → Bool) → Read I S → S → List (Entry I) → S
    read_each_where wanted read s [] = s
    read_each_where wanted read s (entry ∷ entries) =
        let result =
          if wanted entry.details
          then read s entry.connection entry.details
          else (s, CallbackIteration.continue) in
        read_next key result (read_each_where wanted read result.0 entries)

    pub update_each_with_state_lem :
        (update : Update I S) (mask : ℕ) (s : S) (entries : List (Entry I))
        → mask < 2 ^ 8
        → update_each_with_state key update mask s entries
          ≡ update_each_where (in_state mask) update s entries
    unfolding update_each_with_state update_each_where
    update_each_with_state_lem update mask s [] small = refl
    update_each_with_state_lem update mask s (entry ∷ entries) small =
        update_round entry entries (λ (t : S). update_each_with_state key update mask t entries)
          (λ (t : S). update_each_where (in_state mask) update t entries)
          (update_with_state_lem update mask s entry.connection entry.details small)
          (λ t. update_each_with_state_lem update mask t entries small)

    pub update_each_with_sequence_lem :
        (update : Update I S) (predicate : (ℕ → Bool)) (s : S) (entries : List (Entry I))
        → update_each_with_sequence key update predicate s entries
          ≡ update_each_where (in_sequence predicate) update s entries
    unfolding update_each_with_sequence update_each_where
    update_each_with_sequence_lem update predicate s [] = refl
    update_each_with_sequence_lem update predicate s (entry ∷ entries) =
        update_round entry entries
          (λ (t : S). update_each_with_sequence key update predicate t entries)
          (λ (t : S). update_each_where (in_sequence predicate) update t entries)
          (update_with_sequence_lem update predicate s entry.connection entry.details)
          (λ t. update_each_with_sequence_lem update predicate t entries)

    pub update_each_with_timepoint_lem :
        (update : Update I S) (predicate : (ℕ → Bool)) (s : S) (entries : List (Entry I))
        → update_each_with_timepoint key update predicate s entries
          ≡ update_each_where (in_time predicate) update s entries
    unfolding update_each_with_timepoint update_each_where
    update_each_with_timepoint_lem update predicate s [] = refl
    update_each_with_timepoint_lem update predicate s (entry ∷ entries) =
        update_round entry entries
          (λ (t : S). update_each_with_timepoint key update predicate t entries)
          (λ (t : S). update_each_where (in_time predicate) update t entries)
          (update_with_timepoint_lem update predicate s entry.connection entry.details)
          (λ t. update_each_with_timepoint_lem update predicate t entries)

    pub update_each_with_promotion_lem :
        (update : Update I S) (filter : PromotionStateFilter) (s : S) (entries : List (Entry I))
        → update_each_with_promotion key update filter s entries
          ≡ update_each_where (in_promotion filter) update s entries
    unfolding update_each_with_promotion update_each_where
    update_each_with_promotion_lem update filter s [] = refl
    update_each_with_promotion_lem update filter s (entry ∷ entries) =
        update_round entry entries
          (λ (t : S). update_each_with_promotion key update filter t entries)
          (λ (t : S). update_each_where (in_promotion filter) update t entries)
          (update_with_promotion_lem update filter s entry.connection entry.details)
          (λ t. update_each_with_promotion_lem update filter t entries)

    pub read_each_with_state_lem :
        (read : Read I S) (mask : ℕ) (s : S) (entries : List (Entry I))
        → mask < 2 ^ 8
        → read_each_with_state key read mask s entries
          ≡ read_each_where (in_state mask) read s entries
    unfolding read_each_with_state read_each_where
    read_each_with_state_lem read mask s [] small = refl
    read_each_with_state_lem read mask s (entry ∷ entries) small =
        read_round (λ (t : S). read_each_with_state key read mask t entries)
          (λ (t : S). read_each_where (in_state mask) read t entries)
          (read_with_state_lem read mask s entry.connection entry.details small)
          (λ t. read_each_with_state_lem read mask t entries small)

    pub read_each_with_sequence_lem :
        (read : Read I S) (predicate : (ℕ → Bool)) (s : S) (entries : List (Entry I))
        → read_each_with_sequence key read predicate s entries
          ≡ read_each_where (in_sequence predicate) read s entries
    unfolding read_each_with_sequence read_each_where
    read_each_with_sequence_lem read predicate s [] = refl
    read_each_with_sequence_lem read predicate s (entry ∷ entries) =
        read_round (λ (t : S). read_each_with_sequence key read predicate t entries)
          (λ (t : S). read_each_where (in_sequence predicate) read t entries)
          (read_with_sequence_lem read predicate s entry.connection entry.details)
          (λ t. read_each_with_sequence_lem read predicate t entries)

    pub read_each_with_timepoint_lem :
        (read : Read I S) (predicate : (ℕ → Bool)) (s : S) (entries : List (Entry I))
        → read_each_with_timepoint key read predicate s entries
          ≡ read_each_where (in_time predicate) read s entries
    unfolding read_each_with_timepoint read_each_where
    read_each_with_timepoint_lem read predicate s [] = refl
    read_each_with_timepoint_lem read predicate s (entry ∷ entries) =
        read_round (λ (t : S). read_each_with_timepoint key read predicate t entries)
          (λ (t : S). read_each_where (in_time predicate) read t entries)
          (read_with_timepoint_lem read predicate s entry.connection entry.details)
          (λ t. read_each_with_timepoint_lem read predicate t entries)

    pub read_each_with_promotion_lem :
        (read : Read I S) (filter : PromotionStateFilter) (s : S) (entries : List (Entry I))
        → read_each_with_promotion key read filter s entries
          ≡ read_each_where (in_promotion filter) read s entries
    unfolding read_each_with_promotion read_each_where
    read_each_with_promotion_lem read filter s [] = refl
    read_each_with_promotion_lem read filter s (entry ∷ entries) =
        read_round (λ (t : S). read_each_with_promotion key read filter t entries)
          (λ (t : S). read_each_where (in_promotion filter) read t entries)
          (read_with_promotion_lem read filter s entry.connection entry.details)
          (λ t. read_each_with_promotion_lem read filter t entries)

    pub update_each_connection_lem :
        (update : Update I S) (s : S) (entries : List (Entry I))
        → update_each_connection key update s entries
          ≡ update_each_where (λ details. true) update s entries
    unfolding update_each_connection update_each_where
    update_each_connection_lem update s [] = refl
    update_each_connection_lem update s (entry ∷ entries) =
        update_round entry entries (λ (t : S). update_each_connection key update t entries)
          (λ (t : S). update_each_where (λ details. true) update t entries)
          {r = update s entry.connection entry.details} refl
          (λ t. update_each_connection_lem update t entries)
