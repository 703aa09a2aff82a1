-- ===== src/Await/Manager.antt =====
-- src/Components/Await/TrackingManager.cpp: the trackers of the requests that wait, by their keys.
-- The MD5 key of a pack is a parameter. An exception of a message context's handler is `none`. What
-- the logger is given is left out.
use brypt_node.Common.{ℕ, Bool, true, false, List, [], ◌∷◌, Option, none, some, ◌==◌, if◌then◌else◌}
use brypt_node.Message.Identifier.{Container}
use brypt_node.Message.Application.Defs.{ApplicationMessage, get_await_tracker_key, get_pack}
use brypt_node.Await.Tracker.{
  UpdateStatus, expired, unexpected, success, ResponseStatus, unfulfilled, fulfilled, completed,
  ResponseTracker, find, has_room, refuse, tracker_for_one, tracker_for_many, update_response,
  check_response_status, Outside, Sent, fault, returned, send_fulfilled_response,
}

-- An entry of the map. The map's keys are unique, and its order is the one the loop visits.
pub record Awaiting : Type 0 where
  pub key : ℕ
  pub tracker : ResponseTracker

unfoldable pub find_tracker : ℕ → List Awaiting → Option ResponseTracker
find_tracker key [] = none
find_tracker key (a ∷ awaiting) = if a.key == key then some a.tracker else find_tracker key awaiting

unfoldable pub emplace_tracker : ℕ → ResponseTracker → List Awaiting → List Awaiting
emplace_tracker key t [] = record { key = key; tracker = t } ∷ []
emplace_tracker key t (a ∷ awaiting) =
    if a.key == key then a ∷ awaiting else a ∷ emplace_tracker key t awaiting

unfoldable pub set_tracker : ℕ → ResponseTracker → List Awaiting → List Awaiting
set_tracker key t [] = []
set_tracker key t (a ∷ awaiting) =
    if a.key == key
    then record { key = key; tracker = t } ∷ awaiting
    else a ∷ set_tracker key t awaiting

-- The two PushRequest functions: the key, and the map.
unfoldable pub push_request_for_one :
    (List ℕ → ℕ)
    → ℕ
    → ApplicationMessage
    → Option Container
    → ℕ
    → List Awaiting
    → Option (ℕ × List Awaiting)
unfolding emplace_tracker
push_request_for_one key_of requestor message peer now awaiting = elim (get_pack message) [
  | none ↦ none
  | some pack ↦ some (
    key_of pack,
    emplace_tracker (key_of pack) (tracker_for_one requestor message peer now) awaiting,
  )
]

unfoldable pub push_request_for_many :
    (List ℕ → ℕ)
    → ℕ
    → ApplicationMessage
    → List (Option Container)
    → ℕ
    → List Awaiting
    → Option (ℕ × List Awaiting)
unfolding emplace_tracker
push_request_for_many key_of requestor message peers now awaiting = elim (get_pack message) [
  | none ↦ none
  | some pack ↦ some (
    key_of pack,
    emplace_tracker (key_of pack) (tracker_for_many requestor message peers now) awaiting,
  )
]

-- UpdateResponse with a message, whose GetPack runs only for an entry that has room.
unfoldable pub update_by_message :
    ResponseTracker → ApplicationMessage → ℕ → Option (UpdateStatus × ResponseTracker)
update_by_message t response now = elim (get_pack response) [
  | some pack ↦ some (update_response t response.header.source pack now)
  | none ↦
      if has_room (find response.header.source.internal_representation t.responses)
      then none
      else some (refuse t now)
]

-- The switch on the update's status.
abbrev pub is_accepted : UpdateStatus → Bool
is_accepted success = true
is_accepted UpdateStatus.fulfilled = true
is_accepted expired = false
is_accepted unexpected = false

-- PushResponse.
abbrev pub store_update :
    ℕ → List Awaiting → Option (UpdateStatus × ResponseTracker) → Option (Bool × List Awaiting)
store_update key awaiting none = none
store_update key awaiting (some update) =
    some (is_accepted update.0, set_tracker key update.1 awaiting)

abbrev pub push_by_key :
    ApplicationMessage → ℕ → List Awaiting → Option ℕ → Option (Bool × List Awaiting)
push_by_key message now awaiting none = some (false, awaiting)
push_by_key message now awaiting (some key) = elim (find_tracker key awaiting) [
  | none ↦ some (false, awaiting)
  | some t ↦ store_update key awaiting (update_by_message t message now)
]

unfoldable pub push_response :
    ApplicationMessage → ℕ → List Awaiting → Option (Bool × List Awaiting)
unfolding find_tracker set_tracker update_by_message
push_response message now awaiting =
    push_by_key message now awaiting (get_await_tracker_key message)

-- One call of ProcessFulfilledRequests: whether an exception ended it, what was sent for which key,
-- and the map after it. The calls of one run read one time.
pub record Processed : Type 0 where
  pub is_faulted : Bool
  pub sent : List (ℕ × Bool)
  pub awaiting : List Awaiting

abbrev pub after_send : ℕ → List Awaiting → Processed → Sent × ResponseTracker → Processed
after_send key rest processed (fault, t) = record {
  is_faulted = true;
  sent = [];
  awaiting = record { key = key; tracker = t } ∷ rest;
}
after_send key rest processed (returned is_sent, t) = record processed {
  sent = (key, is_sent) ∷ processed.sent;
}

abbrev pub process_one :
    Outside → ℕ → ℕ → List Awaiting → Processed → ResponseStatus × ResponseTracker → Processed
process_one o now key rest processed (fulfilled, t) =
    after_send key rest processed (send_fulfilled_response o t now)
process_one o now key rest processed (unfulfilled, t) = record processed {
  awaiting = record { key = key; tracker = t } ∷ processed.awaiting;
}
process_one o now key rest processed (completed, t) = record processed {
  awaiting = record { key = key; tracker = t } ∷ processed.awaiting;
}

unfoldable pub process_fulfilled_requests : Outside → ℕ → List Awaiting → Processed
process_fulfilled_requests o now [] = record { is_faulted = false; sent = []; awaiting = [] }
process_fulfilled_requests o now (a ∷ rest) =
    process_one o now a.key rest (process_fulfilled_requests o now rest)
      (check_response_status a.tracker now)
