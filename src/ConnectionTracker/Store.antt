-- ===== src/ConnectionTracker/Store.antt =====
-- What ConnectionTracker.hpp promises: a map from connections to what is known of them.
use brypt_node.Common.{
  ℕ, ◌%◌, ◌^◌, ◌≡◌, Bool, true, false, List, [], ◌∷◌, Option, none, some, if◌then◌else◌,
}
use brypt_node.ConnectionTracker.Entries.{
  Address, Details, resolving, Entry, PromotionStateFilter, Peer,
}
use brypt_node.ConnectionTracker.{
  Key, CallbackIteration, Update, find, untrack_connection, track_connection, track_connection_to,
  track_connection_with, update_one_connection, update_or_make_connection, update_each_connection,
  reset_connections,
}
use brypt_node.ConnectionTracker.Filters.{
  update_each_with_state, update_each_with_sequence, update_each_with_promotion,
  update_each_with_timepoint,
}
use brypt_node.ConnectionTracker.Wanted.{in_state, in_sequence, in_time, in_promotion}

-- The abstract view: what is known of each connection that is tracked.
abbrev pub Store : Type 0 → Type 0
Store I = I → Option (Option Details)

-- The operations that change entries, with callbacks that keep no state and never stop. A mask of
-- states has eight bits.
pub data Operation (I : Type 0) : Type 0 where
  track : I → Operation I
  track_to : I → Address → Operation I
  track_with : I → Details → Operation I
  untrack : I → Operation I
  update : I → (Details → Details) → Operation I
  update_or_make : I → (Details → Details) → (Address → Details) → Operation I
  update_every : (I → Option Details → Option Details) → Operation I
  update_state : ℕ → (I → Option Details → Option Details) → Operation I
  update_sequence : (ℕ → Bool) → (I → Option Details → Option Details) → Operation I
  update_promotion : PromotionStateFilter → (I → Option Details → Option Details) → Operation I
  update_timepoint : (ℕ → Bool) → (I → Option Details → Option Details) → Operation I
  reset : Operation I

abbrev pub change_if :
    (Option Details → Bool)
    → (Option Details → Option Details)
    → Option (Option Details)
    → Option (Option Details)
change_if matches f none = none
change_if matches f (some details) = if matches details then some (f details) else some details

-- A callback without state that goes on.
abbrev pub always : {I : Type 0} → (I → Option Details → Option Details) → Update I Unit
always f s connection details = (s, f connection details, CallbackIteration.continue)

-- What is known of a connection to an address at first.
abbrev pub fresh_details : Address → Details
fresh_details address = record {
  address = address;
  update_timepoint = 0;
  sequence_number = 0;
  connection_state = resolving;
  peer = none;
}

-- What is known after details were made for a connection: the address that was known stays where the
-- new one has no text.
abbrev pub known_address : Address → List ℕ → Address
known_address known [] = known
known_address known (c ∷ rest) = record { uri = c ∷ rest }

abbrev pub made_over : Details → Details → Details
made_over known made = record {
  address = known_address known.address made.address.uri;
  update_timepoint = made.update_timepoint;
  sequence_number = made.sequence_number;
  connection_state = made.connection_state;
  peer = made.peer;
}

module _ {I : Type 0} (key : Key I) where
  -- An operation on the entries, with what UpdateOneConnection with one callback returns; false for
  -- every other operation.
  unfoldable pub perform : Operation I → List (Entry I) → Bool × List (Entry I)
  perform (track i) entries = (false, track_connection key i entries)
  perform (track_to i address) entries = (false, track_connection_to key i address entries)
  perform (track_with i details) entries = (false, track_connection_with key i details entries)
  perform (untrack i) entries = (false, untrack_connection key i entries)
  perform (update i f) entries =
      let r = update_one_connection key {S = Unit} i (λ s d. (s, f d)) tt entries in (r.0, r.2)
  perform (update_or_make i f g) entries =
      let r =
        update_or_make_connection key {S = Unit} i (λ s d. (s, f d)) (λ s a. (s, g a)) tt entries in
      (false, r.2)
  perform (update_every f) entries = (false, (update_each_connection key (always f) tt entries).1)
  perform (update_state mask f) entries =
      (false, (update_each_with_state key (always f) (mask % 2 ^ 8) tt entries).1)
  perform (update_sequence predicate f) entries =
      (false, (update_each_with_sequence key (always f) predicate tt entries).1)
  perform (update_promotion filter f) entries =
      (false, (update_each_with_promotion key (always f) filter tt entries).1)
  perform (update_timepoint predicate f) entries =
      (false, (update_each_with_timepoint key (always f) predicate tt entries).1)
  perform reset entries = (false, (reset_connections key {S = Unit} none tt entries).1)

  unfoldable pub put : I → Option Details → Store I → Store I
  put i details store j = if key.same i j then some details else store j

  unfoldable pub remove : I → Store I → Store I
  remove i store j = if key.same i j then none else store j

  abbrev pub put_if_absent : I → Option Details → Store I → Option (Option Details) → Store I
  put_if_absent i details store (some found) = store
  put_if_absent i details store none = put i details store

  -- A connection to an address without a text is not tracked.
  abbrev pub track_by_text : I → Address → List ℕ → Store I → Store I
  track_by_text i address [] store = store
  track_by_text i address (c ∷ rest) store =
      put_if_absent i (some (fresh_details address)) store (store i)

  abbrev pub update_if_known :
      I → (Details → Details) → Store I → Option (Option Details) → Bool × Store I
  update_if_known i f store none = (false, store)
  update_if_known i f store (some none) = (false, store)
  update_if_known i f store (some (some details)) = (true, put i (some (f details)) store)

  abbrev pub update_by_peer :
      I → (Details → Details) → (Address → Details) → Store I → Details → Option Peer → Store I
  update_by_peer i f g store details none =
      put i (some (made_over details (g details.address))) store
  update_by_peer i f g store details (some peer) = put i (some (f details)) store

  abbrev pub make_or_update :
      I → (Details → Details) → (Address → Details) → Store I → Option (Option Details) → Store I
  make_or_update i f g store none = store
  make_or_update i f g store (some none) = put i (some (g record { uri = [] })) store
  make_or_update i f g store (some (some details)) = update_by_peer i f g store details details.peer

  -- The same operation on the abstract view.
  unfoldable pub specify : Operation I → Store I → Bool × Store I
  specify (track i) store = (false, put_if_absent i none store (store i))
  specify (track_to i address) store = (false, track_by_text i address address.uri store)
  specify (track_with i details) store = (false, put_if_absent i (some details) store (store i))
  specify (untrack i) store = (false, remove i store)
  specify (update i f) store = update_if_known i f store (store i)
  specify (update_or_make i f g) store = (false, make_or_update i f g store (store i))
  specify (update_every f) store = (false, λ i. change_if (λ details. true) (f i) (store i))
  specify (update_state mask f) store =
      (false, λ i. change_if (in_state (mask % 2 ^ 8)) (f i) (store i))
  specify (update_sequence predicate f) store =
      (false, λ i. change_if (in_sequence predicate) (f i) (store i))
  specify (update_promotion filter f) store =
      (false, λ i. change_if (in_promotion filter) (f i) (store i))
  specify (update_timepoint predicate f) store =
      (false, λ i. change_if (in_time predicate) (f i) (store i))
  specify reset store = (false, λ i. none)

  unfoldable pub perform_all : List (Operation I) → List (Entry I) → List Bool × List (Entry I)
  perform_all [] entries = ([], entries)
  perform_all (operation ∷ operations) entries =
      let first = perform operation entries in
      let rest = perform_all operations first.1 in (first.0 ∷ rest.0, rest.1)

  unfoldable pub specify_all : List (Operation I) → Store I → List Bool × Store I
  specify_all [] store = ([], store)
  specify_all (operation ∷ operations) store =
      let first = specify operation store in
      let rest = specify_all operations first.1 in (first.0 ∷ rest.0, rest.1)

  abbrev pub Implements : List (Entry I) → Store I → Type 0
  Implements entries store = (i : I) → find key i entries ≡ store i
