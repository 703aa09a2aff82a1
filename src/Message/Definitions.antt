-- ===== src/Message/Definitions.antt =====
-- The enumerations of src/BryptMessage/MessageDefinitions.hpp, NetworkMessage.hpp and of
-- src/Components/Handler/HandlerDefinitions.hpp, with the byte of each value.
use brypt_node.Common.{ℕ, ◌<◌, arith, ◌≡◌, refl, Bool, true, false, ◌==◌, if◌then◌else◌}

pub data Protocol : Type 0 where
  invalid network application : Protocol

pub data Destination : Type 0 where
  invalid node cluster network : Destination

-- Message::Network::Type.
pub data NetworkType : Type 0 where
  invalid handshake heartbeat_request heartbeat_response : NetworkType

-- Handler::Type.
pub data HandlerType : Type 0 where
  invalid connect information query election : HandlerType

abbrev pub protocol_code : Protocol → ℕ
protocol_code Protocol.invalid = 0x00
protocol_code Protocol.network = 0x01
protocol_code Protocol.application = 0x10

abbrev pub destination_code : Destination → ℕ
destination_code Destination.invalid = 0x00
destination_code Destination.node = 0x01
destination_code Destination.cluster = 0x02
destination_code Destination.network = 0x03

abbrev pub network_type_code : NetworkType → ℕ
network_type_code NetworkType.invalid = 0
network_type_code NetworkType.handshake = 1
network_type_code NetworkType.heartbeat_request = 2
network_type_code NetworkType.heartbeat_response = 3

abbrev pub handler_type_code : HandlerType → ℕ
handler_type_code HandlerType.invalid = 0
handler_type_code HandlerType.connect = 1
handler_type_code HandlerType.information = 2
handler_type_code HandlerType.query = 3
handler_type_code HandlerType.election = 4

-- Message::ConvertToProtocol.
unfoldable pub convert_to_protocol : ℕ → Protocol
convert_to_protocol code =
    if code == 0x10
    then Protocol.application
    else if code == 0x01
    then Protocol.network
    else Protocol.invalid

-- The switch of local::UnpackDestination.
unfoldable pub convert_to_destination : ℕ → Destination
convert_to_destination code =
    if code == 0x02
    then Destination.cluster
    else if code == 0x03
    then Destination.network
    else if code == 0x01
    then Destination.node
    else Destination.invalid

-- The switch of local::UnpackMessageType.
unfoldable pub convert_to_network_type : ℕ → NetworkType
convert_to_network_type code =
    if code == 1
    then NetworkType.handshake
    else if code == 2
    then NetworkType.heartbeat_request
    else if code == 3
    then NetworkType.heartbeat_response
    else NetworkType.invalid

-- The switch of local::UnpackCommand.
unfoldable pub convert_to_handler_type : ℕ → HandlerType
convert_to_handler_type code =
    if code == 1
    then HandlerType.connect
    else if code == 4
    then HandlerType.election
    else if code == 2
    then HandlerType.information
    else if code == 3
    then HandlerType.query
    else HandlerType.invalid

abbrev pub is_protocol_invalid : Protocol → Bool
is_protocol_invalid Protocol.invalid = true
is_protocol_invalid _ = false

abbrev pub is_destination_invalid : Destination → Bool
is_destination_invalid Destination.invalid = true
is_destination_invalid _ = false

abbrev pub is_network_type_invalid : NetworkType → Bool
is_network_type_invalid NetworkType.invalid = true
is_network_type_invalid _ = false

abbrev pub is_handler_type_invalid : HandlerType → Bool
is_handler_type_invalid HandlerType.invalid = true
is_handler_type_invalid _ = false

-- Every byte that is written for a value is read as the value.
pub convert-protocol_code : (p : Protocol) → convert_to_protocol (protocol_code p) ≡ p
unfolding convert_to_protocol
convert-protocol_code Protocol.invalid = refl
convert-protocol_code Protocol.network = refl
convert-protocol_code Protocol.application = refl

pub convert-destination_code : (d : Destination) → convert_to_destination (destination_code d) ≡ d
unfolding convert_to_destination
convert-destination_code Destination.invalid = refl
convert-destination_code Destination.node = refl
convert-destination_code Destination.cluster = refl
convert-destination_code Destination.network = refl

pub convert-network_type_code :
    (t : NetworkType) → convert_to_network_type (network_type_code t) ≡ t
unfolding convert_to_network_type
convert-network_type_code NetworkType.invalid = refl
convert-network_type_code NetworkType.handshake = refl
convert-network_type_code NetworkType.heartbeat_request = refl
convert-network_type_code NetworkType.heartbeat_response = refl

pub convert-handler_type_code :
    (t : HandlerType) → convert_to_handler_type (handler_type_code t) ≡ t
unfolding convert_to_handler_type
convert-handler_type_code HandlerType.invalid = refl
convert-handler_type_code HandlerType.connect = refl
convert-handler_type_code HandlerType.information = refl
convert-handler_type_code HandlerType.query = refl
convert-handler_type_code HandlerType.election = refl

pub protocol_code-lt : (p : Protocol) → protocol_code p < 256
protocol_code-lt Protocol.invalid = omega arith
protocol_code-lt _ = omega arith

pub destination_code-lt : (d : Destination) → destination_code d < 256
destination_code-lt Destination.invalid = omega arith
destination_code-lt _ = omega arith

pub network_type_code-lt : (t : NetworkType) → network_type_code t < 256
network_type_code-lt NetworkType.invalid = omega arith
network_type_code-lt _ = omega arith

pub handler_type_code-lt : (t : HandlerType) → handler_type_code t < 256
handler_type_code-lt HandlerType.invalid = omega arith
handler_type_code-lt _ = omega arith
