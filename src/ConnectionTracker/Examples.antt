-- ===== src/ConnectionTracker/Examples.antt =====
-- The theorems on trackers at concrete connections, which are numbers.
use brypt_node.Common.{
  arith, ℕ, ◌+◌, ◌≡◌, refl, true, false, List, [], ◌∷◌, none, some, ◌==◌, ==_iff,
}
use brypt_node.Message.Identifier.{Container}
use brypt_node.ConnectionTracker.Entries.{
  Details, details_of_address, details_of_peer, Entry, unpromoted, promoted,
}
use brypt_node.ConnectionTracker.{Key, CallbackIteration, Read, find}
use brypt_node.ConnectionTracker.Store.{
  Operation, track, track_to, track_with, update_promotion, update_state, untrack, update,
  update_or_make, perform_all,
}
use brypt_node.ConnectionTracker.Unique.{IsUnique, connections, perform_all-IsUnique}
use brypt_node.ConnectionTracker.Iteration.{IsFiltered, reading, loops-IsFiltered}
use brypt_node.ConnectionTracker.Filters.{
  update_each_with_state, update_each_with_sequence, update_each_with_promotion,
  update_each_with_timepoint, read_each_with_state, read_each_with_sequence,
  read_each_with_promotion, read_each_with_timepoint,
}
use brypt_node.ConnectionTracker.Wanted.{in_state, in_sequence, in_time, in_promotion}

abbrev key : Key ℕ
key = record { same = λ a b. a == b; same_iff = ==_iff; nothing = 0 }

abbrev identifier : Container
identifier = record { internal_representation = 9; network_representation = 98 ∷ []; valid = true }

abbrev nobody : Container
nobody = record { internal_representation = 0; network_representation = []; valid = false }

abbrev known : Details
known = details_of_peer (some record { identifier = some identifier })

abbrev entries : List (Entry ℕ)
entries =
    record { connection = 4; details = none } ∷ record { connection = 7; details = some known } ∷ []

abbrev operations : List (Operation ℕ)
operations =
    track 1
    ∷ track_to 2 record { uri = 116 ∷ [] }
    ∷ update_or_make 2 (λ d. d) (λ a. details_of_address a)
    ∷ track_with 3 known
    ∷ update_promotion promoted (λ i d. none)
    ∷ update_state 9 (λ i d. d)
    ∷ update 1 (λ d. d)
    ∷ untrack 1
    ∷ []

perform_all-IsUnique_example : IsUnique key (connections (perform_all key operations []).1)
perform_all-IsUnique_example = perform_all-IsUnique key operations [] (unfold IsUnique in tt)

-- Counts the entries, and stops at the second.
abbrev count_two : Read ℕ ℕ
count_two s i details =
    (s + 1, elim (s == 1) [ true ↦ CallbackIteration.stop | false ↦ CallbackIteration.continue ])

loops-IsFiltered_example :
    IsFiltered key
      (in_state 8)
      count_two
      0
      entries
      (read_each_with_state key count_two 8 0 entries)
      (update_each_with_state key (reading key count_two) 8 0 entries)
    × IsFiltered key
        (in_sequence (λ n. n == 0))
        count_two
        0
        entries
        (read_each_with_sequence key count_two (λ n. n == 0) 0 entries)
        (update_each_with_sequence key (reading key count_two) (λ n. n == 0) 0 entries)
    × IsFiltered key
        (in_promotion unpromoted)
        count_two
        0
        entries
        (read_each_with_promotion key count_two unpromoted 0 entries)
        (update_each_with_promotion key (reading key count_two) unpromoted 0 entries)
    × IsFiltered key
        (in_time (λ n. n == 0))
        count_two
        0
        entries
        (read_each_with_timepoint key count_two (λ n. n == 0) 0 entries)
        (update_each_with_timepoint key (reading key count_two) (λ n. n == 0) 0 entries)
loops-IsFiltered_example =
    loops-IsFiltered key count_two 8 (λ n. n == 0) unpromoted 0 entries (omega arith)

found : find key 7 entries ≡ some (some known)
unfolding find
found = refl
