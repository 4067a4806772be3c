-- ===== src/Lib.antt =====
-- Husarnet client: a verification library of the core in core/husarnet.
--
-- The program is a peer-to-peer network: a stack of layers between a network device, which takes and
-- gives IPv6 packets, and UDP and TCP sockets. From the top, MulticastLayer turns IPv6 packets into
-- short ones for one peer or for all, CompressionLayer passes them on, SecurityLayer encrypts them
-- with keys that it negotiates, and NgSocket finds the peers and carries the packets, directly or
-- through the base server. The layers share one PeerContainer, whose peers they look up by id, and
-- ConfigManager says which peers are allowed. Beside the layers a WebSocket, on a TCP connection of
-- its own and opened by an HTTP handshake, carries messages of the event bus.
--
-- Files and sources, all in core/husarnet:
--   Common: lists, byte strings and tests on numbers that the parts share.
--   Util: util.h, util.cpp, string_view.h. Pack: pack, unpack. View: the guarded accessors of
--     string_view. Text: hexadecimal, base64, split, trim, padding. Decimal: std::to_string.
--   IpAddress: ipaddress.h, ipaddress.cpp. The kinds of addresses; Order: operator<; Text: toString
--     and str; Parse: the two aton functions and parse; Parse.RoundTrip: text of IPv4
--     addresses; Parse.Groups and Parse.DeviceId: text of Husarnet addresses.
--   PeerFlags: peer_flags.h, peer_flags.cpp.
--   ConfigManager: isPeerAllowed, the whitelist, and the lists of config_manager.cpp.
--   Crypto: identity.cpp, ngsocket_crypto.cpp.
--   Identity: identity.cpp, the identity's file, create and init; RoundTrip: the file read back.
--   Peer, PeerContainer: peer.h, peer.cpp, peer_container.h, peer_container.cpp.
--   NgSocket: ngsocket.h, ngsocket.cpp, ngsocket_messages.h. Messages: the messages and
--     serialize...; Parse: parse...; State: the fields of the class and sendTo...; Sources:
--     addSourceAddress and its kin; Answers: helloReplyReceived; Peers: sendDataToPeer, attemptReestablish, helloReceived,
--     helloReplyReceived, periodicPeer; Base: sendNatInitToBase, connectToBase,
--     baseMessageReceived...; Worker: periodic, workerLoop, refresh, udpPacketReceived,
--     multicastPacketReceived; Entries: all of these entry points in any order; Frame: which fields
--     a handler leaves alone.
--   SecurityLayer: security_layer.h, security_layer.cpp. Data: data packets; Upward: what goes up;
--     Queue: the packets that wait for keys; Hello, Agreement: the key exchange.
--   MulticastLayer: multicast_layer.cpp, and compression_layer.cpp as it is built without zstd.
--   TcpConnection: the class of that name in ports/sockets.h and ports/sockets.cpp: connect, write,
--     _handleRead, close. Frames: the inner loop of _handleRead; Reading: the outer one; Ending: that
--     it ends; Writing: both forms of write; Delivery: both ends together, with _handleRead called
--     again and again.
--   Http: http.h, http.cpp. HTTPMessage with parse and encode.
--   WebSocket: websocket.h. Message: websocket_message.cpp; Handshake: _verifyServerHandshake and the
--     request; Session: the other methods of websocket.cpp, with Invariant, Calls and Stream.
--   EventBus: eventbus.h, eventbus.cpp; Reconnection: when periodic connects.
--   HooksManager: hooks_manager.h, hooks_manager.cpp; Timing: when a hook runs.
--   Tests: runs at concrete inputs.
-- Functions have the names of the code in lower case with underscores.
--
-- How the program is modelled. A class is a record of its fields, and a method a function from the
-- record before to the record after. What leaves a layer is a list in the record, newest first
-- (MulticastLayer, which has no state, gives its list in order). A Peer* is the number of a cell of
-- the container's heap, so two names of one peer are the same number. A failed assertion, an
-- abort(), and a division by zero are the output `aborted`, or `none` in parsers and serializers.
-- Bytes are numbers below 256. Times are milliseconds of a clock that does not go back; a handler
-- sees one time, and a difference of times is compared by moving the subtrahend over. Integers of a
-- fixed width have their wrap-around written out where it can happen; the counters of attempts are
-- unbounded. Unordered containers are lists, and their iteration order is the order of the list.
-- Integers in packets are little-endian, as on all targets.
--
-- Parameters. libsodium and the random generators are the record `Sodium`; what libsodium documents
-- is assumed, where it is needed, as `SigningLaws`, `BoxLaws` and `KxAgrees`. A failed key exchange is
-- assumed to leave the output keys as they were. `Env` has the user agent, whether the n-th connection
-- succeeds, and rand().
--
-- The system's calls on a socket are the record `Socket`, and what it documents of a stream is
-- `StreamLaws`. `Context` has what the WebSocket calls: a socket, SHA-1, the base64 encoding, random
-- bytes, the conversions of text to numbers, and whether `char` is signed.
--
-- Fuel. `read_addresses` has the length of the packet as fuel, more than the addresses that fit in
-- it; `read_udp_addresses` has 6, one more than the addresses that the code takes.
-- The loops over data that was received have its size as fuel, since each round uses some of it:
-- `split_packets`, `handle_data`, `parse_lines`. `handle_read` has a number of rounds as fuel, and
-- is `none` when they are used up; more rounds than there are bytes to read are enough. `send_all`
-- has the number of bytes to send; `to_string` twenty digits, enough for 64 bits. `read_blocks`
-- has the length of the text and one more, `zero_fill` nine, since it ends when the eighth block
-- is passed, and `read_parts` the four parts that the code takes. The loop of `create` has no
-- bound in the code; its fuel is the number of key pairs that are tried.
--
-- Not modelled: threads and locks (each entry runs to its end), logging, json documents, files, the
-- operating system's UDP sockets and its poll loop, the API server,
-- licensing, and vendored code. A callback that closes the connection it is called
-- from is not modelled either.
pub mod Common
pub mod Util
pub mod IpAddress
pub mod PeerFlags
pub mod ConfigManager
pub mod Crypto
pub mod Identity
pub mod Peer
pub mod PeerContainer
pub mod NgSocket
pub mod SecurityLayer
pub mod MulticastLayer
pub mod TcpConnection
pub mod Http
pub mod WebSocket
pub mod EventBus
pub mod HooksManager
pub mod Tests
