-- ===== src/ConnectionTracker/Entries.antt =====
-- Components/Network/ConnectionDetails.hpp and the entries and filters of ConnectionTracker.hpp.
use brypt_node.Common.{
  ℕ, ◌+◌, ◌%◌, ◌^◌, Bool, true, false, List, [], ◌∷◌, Option, none, some, ◌==◌, if◌then◌else◌,
}
use brypt_node.Message.Identifier.{Container}
use brypt_node.Identifier.{invalid_internal}
use Prim.Native.Nat.{bit_and}

pub data ConnectionState : Type 0 where
  connected disconnected resolving unknown : ConnectionState

-- What a tracker sees of a peer: the identifier that it shares, if any.
pub record Peer : Type 0 where
  pub identifier : Option Container

-- What a tracker sees of a RemoteAddress: its text, which is empty where the address is not valid.
pub record Address : Type 0 where
  pub uri : List ℕ

abbrev pub is_valid : Address → Bool
is_valid address = elim address.uri [ [] ↦ false | ◌∷◌ c rest ↦ true ]

-- ConnectionDetails<void>.
pub record Details : Type 0 where
  pub address : Address
  pub update_timepoint : ℕ
  pub sequence_number : ℕ
  pub connection_state : ConnectionState
  pub peer : Option Peer

abbrev pub details_of_address : Address → Details
details_of_address address = record {
  address = address;
  update_timepoint = 0;
  sequence_number = 0;
  connection_state = ConnectionState.resolving;
  peer = none;
}

abbrev pub details_of_peer : Option Peer → Details
details_of_peer peer = record {
  address = record { uri = [] };
  update_timepoint = 0;
  sequence_number = 0;
  connection_state = ConnectionState.resolving;
  peer = peer;
}

abbrev pub has_associated_peer : Details → Bool
has_associated_peer details = elim details.peer [ none ↦ false | some peer ↦ true ]

abbrev pub get_brypt_identifier : Details → Option Container
get_brypt_identifier details = elim details.peer [ none ↦ none | some peer ↦ peer.identifier ]

abbrev pub increment_message_sequence : Details → Details
increment_message_sequence details = record details {
  sequence_number = (details.sequence_number + 1) % 2 ^ 32;
}

-- SetConnectionState, which takes the time as well.
abbrev pub set_connection_state : ConnectionState → ℕ → Details → Details
set_connection_state state now details = record details {
  connection_state = state;
  update_timepoint = now;
}

-- operator=, which keeps the address where the other one is not valid.
abbrev pub assign : Details → Details → Details
assign details other =
    if is_valid other.address then other else record other { address = details.address }

-- The assignment of details to an optional.
abbrev pub assign_any : Option Details → Details → Option Details
assign_any none other = some other
assign_any (some details) other = some (assign details other)

pub record Entry (I : Type 0) : Type 0 where
  pub connection : I
  pub details : Option Details

abbrev pub identifier_or_invalid : Option Container → ℕ
identifier_or_invalid none = invalid_internal
identifier_or_invalid (some identifier) = identifier.internal_representation

abbrev pub peer_identifier_of : Option Details → ℕ
peer_identifier_of none = invalid_internal
peer_identifier_of (some details) = identifier_or_invalid (get_brypt_identifier details)

abbrev pub uri_of : Option Details → List ℕ
uri_of none = []
uri_of (some details) = details.address.uri

-- ConnectionStateFilter: the values of MaskLevel. A mask is a union of them.
abbrev pub mask_level : ℕ → ℕ
mask_level exponent = 2 ^ exponent % 2 ^ 8

abbrev pub connection_state_to_filter : ConnectionState → ℕ
connection_state_to_filter ConnectionState.connected = mask_level 0
connection_state_to_filter ConnectionState.disconnected = mask_level 1
connection_state_to_filter ConnectionState.resolving = mask_level 3
connection_state_to_filter ConnectionState.unknown = mask_level 4

abbrev pub flag_is_set : ℕ → ℕ → Bool
flag_is_set flag mask = bit_and flag mask == flag

pub data PromotionStateFilter : Type 0 where
  unpromoted promoted : PromotionStateFilter
