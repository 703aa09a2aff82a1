-- ===== src/Lib.antt =====
-- The messages of a Brypt node, its identifiers, connections and peers, and the requests that it awaits.
--
-- A node packs a message into bytes, signs it if it is an application message, and writes the bytes
-- as Z85 text. The endpoint of the receiver peeks at the text's header, decodes the text and builds
-- the message from it. A request that other nodes must answer waits in the tracking manager, which
-- gathers the responses and sends the aggregate when the request is fulfilled or expires.
--
-- An endpoint tracks its connections and asks the peer manager to link the peer at the other end; the
-- peer's mediator decides which sink collects the peer's packs while keys are exchanged and after that.
--
-- - Common: the native numbers, lists, Boolean tests and case lemmas that the modules share.
-- - PackUtils (src/BryptMessage/PackUtils.hpp): big-endian fields (PackChunk, UnpackChunk) and
--   buffers behind their length. A byte is a number below 256, a buffer a list of numbers.
-- - Z85 (src/Utilities/Z85.hpp): Encode and Decode by characters, as the macros write them; the
--   tables, the block arithmetic on 32 bits and the padding of the last block.
-- - Base58 (src/Utilities/Base58.hpp): Encode and Decode. The digits in use of the buffer are a list,
--   least significant first; the loop on the carry has six rounds of fuel, since a carry has 32 bits.
--   Base58/Digits, Canonical and Reading have the value of such a list.
-- - Identifier (src/BryptIdentifier/BryptIdentifier.cpp, ReservedIdentifiers.cpp): the conversions of
--   an identifier between a number and a text, and the constructors of the container. What C++
--   leaves undefined (Decode of an empty text, a checksum of fewer than four bytes) is an outer
--   `none`. Identifier/Travel is the interface to the messages: it fills the record Travels, which
--   the theorems on headers ask of the identifiers of a message.
-- - Message/Definitions, Message/Identifier, Message/Header, Message/Peek
--   (src/BryptMessage/MessageDefinitions.hpp, MessageHeader.cpp, MessageUtils.cpp and
--   src/BryptIdentifier/BryptIdentifier.hpp): the enumerations with their codes, the header, and
--   what is peeked at in a pack. ParseBuffer and the Unpack functions change a header or a message
--   in place and return early: they are programs of the monad of Message/Parser, which passes the
--   object under construction and the rest of the buffer on, and stops at an early return with what
--   has been written.
-- - Message/Context (src/BryptMessage/MessageContext.cpp): the handlers that are bound to a message.
--   A handler is a function or missing; the call of a missing one is an exception, `none`.
-- - Message/Network (src/BryptMessage/NetworkMessage.cpp) and Message/Application
--   (src/BryptMessage/ApplicationMessage.cpp): the messages, GetPack, and the builders. The loop over
--   the extensions takes the length of what is left as fuel, which is enough since a round reads at
--   least the extension's type.
-- - Await/Tracker and Await/Manager (src/Components/Await/ResponseTracker.cpp and
--   TrackingManager.cpp): the trackers of requests, and the map of those that wait. The entries of a
--   container with unique keys are a list in which the first entry of a key counts. Time is an
--   argument.
-- - MessageControl/Authorized and MessageControl/Exchange
--   (src/Components/MessageControl/AuthorizedProcessor.cpp and ExchangeProcessor.cpp): the sinks of
--   a peer's packs, with a session and before it. They return what is told to the peer and to the
--   observer. MessageControl/Authorization has the security state that OnExchangeClose of
--   src/Components/Security/SecurityMediator.cpp sets, and that the mediator deletes the processor with
--   the first close: an event after it is undefined, `none`.
-- - ConnectionTracker (src/Components/Network/ConnectionTracker.hpp, ConnectionDetails.hpp,
--   src/Utilities/EnumMaskUtils.hpp): the tracker of an endpoint's connections as a list of entries,
--   over any type of connections with an equality. ConnectionTracker/Store is its contract, a map
--   from connections to what is known of them, and ConnectionTracker/Refinement relates the two.
--   ConnectionTracker/Filters has the loops with a filter, and ConnectionTracker/Wanted and Rounds
--   which entries these filters mean. PromoteConnection is left out: it does not compile where it is used.
-- - SecurityMediator (src/Components/Security/SecurityMediator.cpp): a peer's mediator as a state
--   machine over an abstract strategy, with the exchange processor of MessageControl/Exchange.
--   Its mutex is not in the state: where a function locks it again, which is undefined, the result is
--   the Outcome undefined.
--   SecurityMediator/Reachable is the relation of the mediators that can come about.
-- - PeerManager (src/Components/BryptPeer/PeerManager.cpp): the peers that are tracked and the
--   addresses that are resolved, with the mediators of SecurityMediator.
-- - Address (src/Components/Network/Address.cpp): an address with the views into its uri, as the texts
--   that they show; what the code leaves undefined is a value of Run. Address/Binding has the uri that
--   an interface of the host is bound to.
-- - KeyStore (src/Components/Security/KeyStore.cpp, SecureBuffer.cpp): the session's keys as parts of one
--   derived key. The sizes wrap around at 64 bits.
-- - Strategy (src/Components/Security/PostQuantum/NISTSecurityLevelThree.cpp): the strategy that
--   exchanges keys. Its functions are programs of the monad of Strategy/Steps, which keeps what was
--   changed before an early return and passes exceptions on. Strategy/Cipher has the loop that feeds
--   a buffer to a cipher; its fuel is one round more than the buffer has bytes, which is enough since
--   a round takes at least one. Strategy/Synchronization has the stages of the initiator and of the
--   acceptor, and Strategy/Working is what the theorems ask of OpenSSL and liboqs.
--
-- Parameters: `construct`, which makes an identifier from its network bytes, where a message is
-- concerned; Boost's bits of a number and OpenSSL's digest; the handlers of a
-- context; the MD5 key of a request; the JSON text of responses, and a peer's ScheduleSend; the
-- security strategy and the connect protocol of an exchange; SHAKE256, HMAC and AES-256-CTR of OpenSSL,
-- liboqs with a key pair, and random bytes; boost's parsers of ports and addresses, and the host's
-- interfaces.
--
-- Not modelled: the generation of identifiers, a peer's endpoints and counters, the
-- discovery protocol, the erasure of memory, endpoints, configuration, the command handlers and the node's loop.
-- Sockets, files, logging and third-party code are input and output.
pub mod Common
pub mod PackUtils
pub mod Z85
pub mod ConnectionTracker
pub mod Base58
pub mod Identifier
pub mod Message
pub mod Await
pub mod MessageControl
pub mod SecurityMediator
pub mod PeerManager
pub mod Address
pub mod KeyStore
pub mod Strategy
