-- ===== src/ConnectionTracker/Iteration.antt =====
-- The loops over all connections of ConnectionTracker.hpp against each other and against the filters.
use brypt_node.Common.{
  ℕ, ◌^◌, ◌<◌, ◌≡◌, refl, ◌∙◌, inl, inr, Bool, List, [], ◌∷◌, Option, if◌then◌else◌, Bool-cases,
}
use brypt_node.ConnectionTracker.Entries.{Details, Entry, PromotionStateFilter}
use brypt_node.ConnectionTracker.{
  Key, CallbackIteration, Update, Read, update_next, read_each_connection, read_next,
}
use brypt_node.ConnectionTracker.Filters.{
  update_each_with_state, update_each_with_sequence, update_each_with_promotion,
  update_each_with_timepoint, read_each_with_state, read_each_with_sequence,
  read_each_with_promotion, read_each_with_timepoint,
}
use brypt_node.ConnectionTracker.Wanted.{in_state, in_sequence, in_time, in_promotion}
use brypt_node.ConnectionTracker.Rounds.{
  update_each_where, read_each_where, update_each_with_state_lem, update_each_with_sequence_lem,
  update_each_with_promotion_lem, update_each_with_timepoint_lem, read_each_with_state_lem,
  read_each_with_sequence_lem, read_each_with_promotion_lem, read_each_with_timepoint_lem,
}

-- The entries that a filter lets through.
unfoldable pub matching : {I : Type 0} → (Option Details → Bool) → List (Entry I) → List (Entry I)
matching matches [] = []
matching matches (entry ∷ entries) =
    let rest = matching matches entries in if matches entry.details then entry ∷ rest else rest

module _ {I : Type 0} (key : Key I) where
  -- A callback that reads, as one that could update.
  abbrev pub reading : {S : Type 0} → Read I S → Update I S
  reading read s connection details =
      let result = read s connection details in (result.0, details, result.1)

  module _ {S : Type 0} (matches : Option Details → Bool) (read : Read I S) where
    read_step :
        (entry : Entry I) (entries : List (Entry I)) (r : S × CallbackIteration) (x y : S)
        (u : S × List (Entry I))
        → x ≡ y
        → u ≡ (x, entries)
        → (read_next key r x ≡ read_next key r y)
          × (update_next key entry entries (r.0, entry.details, r.1) u
              ≡ (read_next key r x, entry ∷ entries))
    read_step entry entries (s, CallbackIteration.stop) x y u e e' = (refl, refl)
    read_step entry entries (s, CallbackIteration.continue) x y u e e' = (e, rw e' refl)

    read_each_where-matching :
        (entries : List (Entry I)) (s : S)
        → (read_each_where key matches read s entries
            ≡ read_each_connection key read s (matching matches entries))
          × (update_each_where key matches (reading read) s entries
              ≡ (read_each_where key matches read s entries, entries))
    unfolding read_each_where read_each_connection update_each_where matching
    read_each_where-matching [] s = (refl, refl)
    read_each_where-matching (entry ∷ entries) s = elim (Bool-cases (matches entry.details)) [
      | inl m ↦
          let r = read s entry.connection entry.details in
          let rest = read_each_where-matching entries r.0 in
          rw m (read_step entry entries r _ _ _ rest.0 rest.1)
      | inr m ↦ let rest = read_each_where-matching entries s in rw m (rest.0, rw rest.1 refl)
    ]

  -- A reading loop reaches the state that the loop without a filter reaches over the entries that are
  -- wanted, and an updating loop that only reads reaches it too and leaves the entries.
  abbrev pub IsFiltered :
      {S : Type 0}
      → (Option Details → Bool)
      → Read I S
      → S
      → List (Entry I)
      → S
      → S × List (Entry I)
      → Type 0
  IsFiltered wanted read s entries reads updates =
      (reads ≡ read_each_connection key read s (matching wanted entries))
      × (updates ≡ (reads, entries))

  module _ {S : Type 0} (read : Read I S) where
    filtered :
        (wanted : Option Details → Bool) (s : S) (entries : List (Entry I)) {r : S}
        {u : S × List (Entry I)}
        → r ≡ read_each_where key wanted read s entries
        → u ≡ update_each_where key wanted (reading read) s entries
        → IsFiltered wanted read s entries r u
    filtered wanted s entries e e' =
        let both = read_each_where-matching wanted read entries s in
        (e ∙ both.0, e' ∙ both.1 ∙ rw e refl)

    -- Each of the four filtered reading loops reaches the state that the loop without a filter reaches
    -- over the entries that are wanted, early stops included: the ones whose state's digit is set in a
    -- mask of eight bits, whose sequence number or update time the predicate admits, and who have a
    -- peer, or have none or no details. The filtered updating loop with a callback that only reads
    -- reaches the same state and changes no entry.
    pub loops-IsFiltered :
        (mask : ℕ) (predicate : ℕ → Bool) (filter : PromotionStateFilter) (s : S)
        (entries : List (Entry I))
        → mask < 2 ^ 8
        → IsFiltered
            (in_state mask)
            read
            s
            entries
            (read_each_with_state key read mask s entries)
            (update_each_with_state key (reading read) mask s entries)
          × IsFiltered
              (in_sequence predicate)
              read
              s
              entries
              (read_each_with_sequence key read predicate s entries)
              (update_each_with_sequence key (reading read) predicate s entries)
          × IsFiltered
              (in_promotion filter)
              read
              s
              entries
              (read_each_with_promotion key read filter s entries)
              (update_each_with_promotion key (reading read) filter s entries)
          × IsFiltered
              (in_time predicate)
              read
              s
              entries
              (read_each_with_timepoint key read predicate s entries)
              (update_each_with_timepoint key (reading read) predicate s entries)
    loops-IsFiltered mask predicate filter s entries small = (
      filtered (in_state mask) s entries (read_each_with_state_lem key read mask s entries small)
          (update_each_with_state_lem key (reading read) mask s entries small),
      filtered (in_sequence predicate) s entries
          (read_each_with_sequence_lem key read predicate s entries)
          (update_each_with_sequence_lem key (reading read) predicate s entries),
      filtered (in_promotion filter) s entries
          (read_each_with_promotion_lem key read filter s entries)
          (update_each_with_promotion_lem key (reading read) filter s entries),
      filtered (in_time predicate) s entries
          (read_each_with_timepoint_lem key read predicate s entries)
          (update_each_with_timepoint_lem key (reading read) predicate s entries),
    )
