-- ===== src/ConnectionTracker/Unique.antt =====
-- The first index of ConnectionTracker.hpp: no two entries have the same connection.
use brypt_node.Common.{
  ◌%◌, ◌^◌, ◌≡◌, refl, ap, ◌∙◌, inl, inr, Bool, false, List, [], ◌∷◌, Option, none, some, All,
  Bool-cases, arith,
}
use brypt_node.ConnectionTracker.Entries.{Address, is_valid, Details, has_associated_peer, Entry}
use brypt_node.ConnectionTracker.{
  Key, CallbackIteration, Update, find, modify, untrack_connection, track_connection,
  track_connection_to, track_connection_with, emplace_unless_found, update_one_connection,
  update_found, update_or_make_connection, update_either, update_next, reset_connections,
}
use brypt_node.ConnectionTracker.Rounds.{
  update_each_where, update_each_connection_lem, update_each_with_state_lem,
  update_each_with_sequence_lem, update_each_with_promotion_lem, update_each_with_timepoint_lem,
}
use brypt_node.ConnectionTracker.Store.{
  Operation, track, track_to, track_with, untrack, update, update_or_make, update_every,
  update_state, update_sequence, update_promotion, update_timepoint, always, reset, perform,
  perform_all,
}

abbrev pub connections : {I : Type 0} → List (Entry I) → List I
connections [] = []
connections (entry ∷ entries) = entry.connection ∷ connections entries

module _ {I : Type 0} (key : Key I) where
  unfoldable pub IsUnique : List I → Type 0
  IsUnique [] = Unit
  IsUnique (i ∷ rest) = All (λ j. key.same j i ≡ false) rest × IsUnique rest

  connections-modify :
      (i : I) (details : Option Details) (entries : List (Entry I))
      → connections (modify key i details entries) ≡ connections entries
  unfolding modify
  connections-modify i details [] = refl
  connections-modify i details (entry ∷ entries) = elim (Bool-cases (key.same entry.connection i)) [
    | inl e ↦ rw e refl
    | inr e ↦
        rw e (ap (λ (l : List I). entry.connection ∷ l) (connections-modify i details entries))
  ]

  module _ {S : Type 0} where
    connections-update_next :
        (entry : Entry I) (entries : List (Entry I))
        (result : S × Option Details × CallbackIteration) (rest : S × List (Entry I))
        → connections rest.1 ≡ connections entries
        → connections (update_next key entry entries result rest).1
          ≡ entry.connection ∷ connections entries
    connections-update_next entry entries (s, details, CallbackIteration.stop) rest e = refl
    connections-update_next entry entries (s, details, CallbackIteration.continue) rest e =
        ap (λ (l : List I). entry.connection ∷ l) e

    -- Whatever the callback does, no connection comes, goes or moves.
    pub connections-update_each :
        (matches : Option Details → Bool) (callback : Update I S) (entries : List (Entry I)) (s : S)
        → connections (update_each_where key matches callback s entries).1 ≡ connections entries
    unfolding update_each_where
    connections-update_each matches callback [] s = refl
    connections-update_each matches callback (entry ∷ entries) s =
        connections-update_next entry entries _ _
          (connections-update_each matches callback entries _)

  absent :
      (i : I) (entries : List (Entry I))
      → find key i entries ≡ none
      → All (λ j. key.same j i ≡ false) (connections entries)
  unfolding find
  absent i [] e = tt
  absent i (entry ∷ entries) e = elim (Bool-cases (key.same entry.connection i)) [
    | inl here ↦ absurd (ground (arith, e, here))
    | inr there ↦ (there, absent i entries (ground (arith, e, there)))
  ]

  emplace-IsUnique :
      (i : I) (details : Option Details) (entries : List (Entry I))
      → IsUnique (connections entries)
      → (o : Option (Option Details)) → find key i entries ≡ o
      → IsUnique (connections (emplace_unless_found key i details entries o))
  unfolding IsUnique
  emplace-IsUnique i details entries unique none e = (absent i entries e, unique)
  emplace-IsUnique i details entries unique (some found) e = unique

  untrack_others :
      (i k : I) (entries : List (Entry I))
      → All (λ j. key.same j k ≡ false) (connections entries)
      → All (λ j. key.same j k ≡ false) (connections (untrack_connection key i entries))
  unfolding untrack_connection
  untrack_others i k [] h = tt
  untrack_others i k (entry ∷ entries) h = elim (Bool-cases (key.same entry.connection i)) [
    | inl e ↦ rw e (untrack_others i k entries h.1)
    | inr e ↦ rw e (h.0, untrack_others i k entries h.1)
  ]

  untrack-IsUnique :
      (i : I) (entries : List (Entry I))
      → IsUnique (connections entries)
      → IsUnique (connections (untrack_connection key i entries))
  unfolding untrack_connection IsUnique
  untrack-IsUnique i [] h = tt
  untrack-IsUnique i (entry ∷ entries) h = elim (Bool-cases (key.same entry.connection i)) [
    | inl e ↦ rw e (untrack-IsUnique i entries h.1)
    | inr e ↦ rw e (untrack_others i entry.connection entries h.0, untrack-IsUnique i entries h.1)
  ]

  update-IsUnique :
      (i : I) (f : Details → Details) (entries : List (Entry I)) (o : Option (Option Details))
      → IsUnique (connections entries)
      → IsUnique (connections (update_found key {S = Unit} i (λ s d. (s, f d)) tt entries o).2)
  update-IsUnique i f entries none h = h
  update-IsUnique i f entries (some none) h = h
  update-IsUnique i f entries (some (some details)) h = rw (connections-modify i _ entries) h

  make-IsUnique :
      (i : I) (f : Details → Details) (g : Address → Details) (entries : List (Entry I))
      (o : Option (Option Details))
      → IsUnique (connections entries)
      → IsUnique (
          connections
            (update_either key {S = Unit} i (λ s d. (s, f d)) (λ s a. (s, g a)) tt entries o).2)
  make-IsUnique i f g entries none h = h
  make-IsUnique i f g entries (some none) h = rw (connections-modify i _ entries) h
  make-IsUnique i f g entries (some (some details)) h =
      elim (Bool-cases (has_associated_peer details)) [
        | inl e ↦ rw (e, connections-modify i _ entries) h
        | inr e ↦ rw (e, connections-modify i _ entries) h
      ]

  wanted-IsUnique :
      (wanted : Option Details → Bool) (f : I → Option Details → Option Details)
      (entries : List (Entry I)) (r : Unit × List (Entry I))
      → IsUnique (connections entries)
      → r ≡ update_each_where key wanted (always f) tt entries
      → IsUnique (connections r.1)
  wanted-IsUnique wanted f entries r h e =
      let same : connections r.1 ≡ connections entries =
        ap (λ (q : Unit × List (Entry I)). connections q.1) e
        ∙ connections-update_each wanted (always f) entries tt in
      rw same h

  perform-IsUnique :
      (operation : Operation I) (entries : List (Entry I))
      → IsUnique (connections entries)
      → IsUnique (connections (perform key operation entries).1)
  unfolding perform track_connection track_connection_to track_connection_with update_one_connection
      update_or_make_connection reset_connections
  perform-IsUnique (track i) entries h = emplace-IsUnique i none entries h (find key i entries) refl
  perform-IsUnique (track_to i address) entries h = elim (Bool-cases (is_valid address)) [
    | inl e ↦ rw e (emplace-IsUnique i _ entries h (find key i entries) refl)
    | inr e ↦ rw e h
  ]
  perform-IsUnique (track_with i details) entries h =
      emplace-IsUnique i (some details) entries h (find key i entries) refl
  perform-IsUnique (untrack i) entries h = untrack-IsUnique i entries h
  perform-IsUnique (update i f) entries h = update-IsUnique i f entries (find key i entries) h
  perform-IsUnique (update_or_make i f g) entries h =
      make-IsUnique i f g entries (find key i entries) h
  perform-IsUnique (update_every f) entries h =
      wanted-IsUnique _ f entries _ h (update_each_connection_lem key (always f) tt entries)
  perform-IsUnique (update_state mask f) entries h =
      wanted-IsUnique _ f entries _ h
        (update_each_with_state_lem key (always f) (mask % 2 ^ 8) tt entries (omega arith))
  perform-IsUnique (update_sequence predicate f) entries h =
      wanted-IsUnique _ f entries _ h
        (update_each_with_sequence_lem key (always f) predicate tt entries)
  perform-IsUnique (update_promotion filter f) entries h =
      wanted-IsUnique _ f entries _ h
        (update_each_with_promotion_lem key (always f) filter tt entries)
  perform-IsUnique (update_timepoint predicate f) entries h =
      wanted-IsUnique _ f entries _ h
        (update_each_with_timepoint_lem key (always f) predicate tt entries)
  perform-IsUnique reset entries h = unfold IsUnique in tt

  -- After every sequence of operations on a tracker whose connections differ, they still differ.
  pub perform_all-IsUnique :
      (operations : List (Operation I)) (entries : List (Entry I))
      → IsUnique (connections entries)
      → IsUnique (connections (perform_all key operations entries).1)
  unfolding perform_all
  perform_all-IsUnique [] entries h = h
  perform_all-IsUnique (operation ∷ operations) entries h =
      perform_all-IsUnique operations (perform key operation entries).1
        (perform-IsUnique operation entries h)
