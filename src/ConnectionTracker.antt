-- ===== src/ConnectionTracker.antt =====
-- Components/Network/ConnectionTracker.hpp: the connections of an endpoint, with what is known of the
-- peer at their other end. The list of entries is in the order in which the container is iterated,
-- which Boost leaves open; `emplace` puts an entry in front.
use brypt_node.Common.{
  ℕ, ◌≡◌, ◌↔◌, Bool, true, false, not, List, [], ◌∷◌, Option, none, some, length, ◌==◌,
  if◌then◌else◌,
}
use brypt_node.Message.Identifier.{Container}
use brypt_node.Identifier.{same_bytes}
pub mod Entries
use Entries.{
  Address, is_valid, Details, details_of_address, has_associated_peer, get_brypt_identifier,
  assign_any, Entry, peer_identifier_of, uri_of,
}
mod Filters
mod Wanted
mod Rounds
mod Store
mod Unique
mod Refinement
mod Iteration
mod Translation
mod Examples

-- What is asked of a type of connection identifiers; `nothing` is the value-initialised one.
pub record Key (I : Type 0) : Type 0 where
  pub same : I → I → Bool
  pub same_iff : (a b : I) → (same a b ≡ true) ↔ (a ≡ b)
  pub nothing : I

pub data CallbackIteration : Type 0 where
  continue stop : CallbackIteration

-- The callbacks on several connections are functions of a state of the caller's as well.
abbrev pub Update : Type 0 → Type 0 → Type 0
Update I S = S → I → Option Details → S × Option Details × CallbackIteration

abbrev pub Read : Type 0 → Type 0 → Type 0
Read I S = S → I → Option Details → S × CallbackIteration

-- IsUriTracked looks up a C string: the bytes of the view, and of what stands behind it, before the
-- first zero byte. A zero byte is taken to stand behind the view.
abbrev until_zero : List ℕ → List ℕ
until_zero [] = []
until_zero (c ∷ cs) = let rest = until_zero cs in if c == 0 then [] else c ∷ rest

module _ {I : Type 0} (key : Key I) where
  unfoldable pub find : I → List (Entry I) → Option (Option Details)
  find connection [] = none
  find connection (entry ∷ entries) =
      let others = find connection entries in
      if key.same entry.connection connection then some entry.details else others

  -- modify of the entry that find gives.
  unfoldable pub modify : I → Option Details → List (Entry I) → List (Entry I)
  modify connection details [] = []
  modify connection details (entry ∷ entries) =
      let others = modify connection details entries in
      if key.same entry.connection connection
      then record entry { details = details } ∷ entries
      else entry ∷ others

  unfoldable pub untrack_connection : I → List (Entry I) → List (Entry I)
  untrack_connection connection [] = []
  untrack_connection connection (entry ∷ entries) =
      let others = untrack_connection connection entries in
      if key.same entry.connection connection then others else entry ∷ others

  abbrev emplace_unless_found :
      I → Option Details → List (Entry I) → Option (Option Details) → List (Entry I)
  emplace_unless_found connection details entries (some found) = entries
  emplace_unless_found connection details entries none =
      record { connection = connection; details = details } ∷ entries

  -- TrackConnection of a connection, of one with an address, and of one with its details.
  unfoldable pub track_connection : I → List (Entry I) → List (Entry I)
  track_connection connection entries =
      emplace_unless_found connection none entries (find connection entries)

  unfoldable pub track_connection_to : I → Address → List (Entry I) → List (Entry I)
  track_connection_to connection address entries =
      if not (is_valid address)
      then entries
      else emplace_unless_found connection (some (details_of_address address)) entries
          (find connection entries)

  unfoldable pub track_connection_with : I → Details → List (Entry I) → List (Entry I)
  track_connection_with connection details entries =
      emplace_unless_found connection (some details) entries (find connection entries)

  -- The callbacks of the functions below are functions of a state of the caller's.
  module _ {S : Type 0} where
    abbrev update_found :
        I
        → (S → Details → S × Details)
        → S
        → List (Entry I)
        → Option (Option Details)
        → Bool × S × List (Entry I)
    update_found connection update s entries none = (false, s, entries)
    update_found connection update s entries (some none) = (false, s, entries)
    update_found connection update s entries (some (some details)) =
        let updated = update s details in
        (true, updated.0, modify connection (some updated.1) entries)

    unfoldable pub update_one_connection :
        I → (S → Details → S × Details) → S → List (Entry I) → Bool × S × List (Entry I)
    update_one_connection connection update s entries =
        update_found connection update s entries (find connection entries)

    -- UpdateOneConnection with a function for connections that have no peer yet.
    abbrev update_promoted :
        I
        → (S → Details → S × Details)
        → (S → Address → S × Details)
        → S
        → List (Entry I)
        → Details
        → Bool × S × List (Entry I)
    update_promoted connection promoted unpromoted s entries details =
        if has_associated_peer details
        then (let updated = promoted s details in
            (true, updated.0, modify connection (some updated.1) entries))
        else (let made = unpromoted s details.address in
            (false, made.0, modify connection (assign_any (some details) made.1) entries))

    abbrev update_either :
        I
        → (S → Details → S × Details)
        → (S → Address → S × Details)
        → S
        → List (Entry I)
        → Option (Option Details)
        → Bool × S × List (Entry I)
    update_either connection promoted unpromoted s entries none = (true, s, entries)
    update_either connection promoted unpromoted s entries (some none) =
        let made = unpromoted s record { uri = [] } in
        (false, made.0, modify connection (assign_any none made.1) entries)
    update_either connection promoted unpromoted s entries (some (some details)) =
        update_promoted connection promoted unpromoted s entries details

    unfoldable pub update_or_make_connection :
        I
        → (S → Details → S × Details)
        → (S → Address → S × Details)
        → S
        → List (Entry I)
        → Bool × S × List (Entry I)
    update_or_make_connection connection promoted unpromoted s entries =
        update_either connection promoted unpromoted s entries (find connection entries)

    -- A round of UpdateEachConnection, with the entries that follow and what the rounds on them do.
    abbrev pub update_next :
        (Entry I)
        → List (Entry I)
        → S × Option Details × CallbackIteration
        → S × List (Entry I)
        → S × List (Entry I)
    update_next entry entries (s, details, CallbackIteration.stop) rest =
        (s, record entry { details = details } ∷ entries)
    update_next entry entries (s, details, CallbackIteration.continue) rest =
        (rest.0, record entry { details = details } ∷ rest.1)

    unfoldable pub update_each_connection : Update I S → S → List (Entry I) → S × List (Entry I)
    update_each_connection update s [] = (s, [])
    update_each_connection update s (entry ∷ entries) =
        let result = update s entry.connection entry.details in
        update_next entry entries result (update_each_connection update result.0 entries)

    abbrev pub read_next : S × CallbackIteration → S → S
    read_next (s, CallbackIteration.stop) rest = s
    read_next (s, CallbackIteration.continue) rest = rest

    unfoldable pub read_each_connection : Read I S → S → List (Entry I) → S
    read_each_connection read s [] = s
    read_each_connection read s (entry ∷ entries) =
        let result = read s entry.connection entry.details in
        read_next result (read_each_connection read result.0 entries)

    unfoldable pub for_each_connection : (S → I → S × CallbackIteration) → S → List (Entry I) → S
    for_each_connection call s [] = s
    for_each_connection call s (entry ∷ entries) =
        let result = call s entry.connection in
        read_next result (for_each_connection call result.0 entries)

    abbrev read_found : (S → Details → S) → S → Option (Option Details) → Bool × S
    read_found read s none = (false, s)
    read_found read s (some none) = (true, s)
    read_found read s (some (some details)) = (true, read s details)

    unfoldable pub read_one_connection : I → (S → Details → S) → S → List (Entry I) → Bool × S
    read_one_connection connection read s entries = read_found read s (find connection entries)

    -- ResetConnections with a callback or none.
    unfoldable pub reset_connections : Option (Update I S) → S → List (Entry I) → S × List (Entry I)
    reset_connections none s entries = (s, [])
    reset_connections (some callback) s entries =
        ((update_each_connection callback s entries).0, [])

  abbrev identifier_of_found : Option (Option Details) → Option Container
  identifier_of_found none = none
  identifier_of_found (some none) = none
  identifier_of_found (some (some details)) = get_brypt_identifier details

  -- Translate of a connection, and of an identifier by the index of the peers' identifiers.
  unfoldable pub translate_connection : I → List (Entry I) → Option Container
  translate_connection connection entries = identifier_of_found (find connection entries)

  unfoldable pub translate_identifier : Container → List (Entry I) → I
  translate_identifier identifier [] = key.nothing
  translate_identifier identifier (entry ∷ entries) =
      let others = translate_identifier identifier entries in
      if peer_identifier_of entry.details == identifier.internal_representation
      then entry.connection
      else others

  unfoldable find_uri : List ℕ → List (Entry I) → Bool
  find_uri uri [] = false
  find_uri uri (entry ∷ entries) =
      let others = find_uri uri entries in
      if same_bytes (uri_of entry.details) uri then true else others

  unfoldable pub is_uri_tracked : List ℕ → List (Entry I) → Bool
  unfolding find_uri
  is_uri_tracked uri entries = find_uri (until_zero uri) entries

  abbrev pub get_size : List (Entry I) → ℕ
  get_size entries = length entries

  abbrev pub is_empty : List (Entry I) → Bool
  is_empty entries = elim entries [ [] ↦ true | ◌∷◌ entry rest ↦ false ]
