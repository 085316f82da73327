-- ===== src/Lib.antt =====
-- ObscuraProto: an encrypted protocol over WebSockets, with a handshake that agrees on a version
-- and on session keys. This library models it in layers, from the bytes up.
--
-- Errors    include/obscuraproto/errors.hpp. A method that throws returns `err`; a method of an
--           object also returns the object as the call leaves it, so that a partial update by a
--           call that throws is visible.
-- Endian    the conversions between host and network order, htonll_local and ntohll_local. The
--           byte order of the machine is a parameter (`Host`), so a sender and a receiver may
--           differ, and both branches of the #if are modelled.
-- Packet    src/packet.cpp: Payload::serialize and deserialize (serialize, deserialize);
--           PayloadBuilder (Packet/Builder: add_param, add_c_string, and add_scalar for the
--           arithmetic overloads); PayloadReader (Packet/Reader: read_param_bytes, read_scalar
--           for read_param<T>, peek_next_param_size, has_more).
-- Handshake src/handshake_messages.cpp and include/obscuraproto/keys.hpp: ClientHello and
--           ServerHello with serialize (serialize_client, serialize_server) and deserialize.
-- Version   src/version.cpp: VersionNegotiator::negotiate.
-- Crypto    src/crypto.cpp: the size checks and the envelope around libsodium. libsodium is the
--           parameter `Sodium` (Crypto/Libsodium); `SodiumLaws` states its documented behaviour:
--           sizes, that a signature verifies, that a key exchange agrees, that an authenticated
--           decryption inverts the encryption and accepts nothing else. That last law is the
--           ideal of an authenticated cipher, true of the real one for a ciphertext that holds
--           its tag. Crypto/Toy is a libsodium without secrets that meets the laws, to which the
--           theorems are applied.
-- Session   src/session.cpp: each method of Session is a function with the method's name; the
--           random ephemeral key pair and the nonce are arguments. Session/Reach closes the
--           methods under any sequence of calls.
-- RateLimiter  src/rate_limiter.cpp: each method is a function with its name, with the time as an
--           argument. Floating-point arithmetic is the parameter `Double` (RateLimiter/Floats)
--           with its laws on whole numbers. RateLimiter/History and RateLimiter/Burst put the
--           checks and records in the order of src/ws_server.cpp; whether what lies between a check
--           and its record succeeds is an argument there.
-- Config    src/config.cpp: trim, parse_yaml_line, parse_uint32 and from_yaml on the lines of a
--           file (Config/Text, Config/Numbers), with std::stoul for an unsigned long of 64 bits.
--           Config/Settings and Config/Printing print a configuration in the form of
--           config_example.yml.
-- Stream    src/stream.cpp: the packets that write, end and cancel send, and the handler calls. What
--           a wrapper does with such a packet is in WsServer/Messaging and WsClient/Messages.
-- Handlers  the handler tables of both wrappers and dispatch_payload of src/ws_server.cpp, which
--           src/ws_client.cpp repeats in on_message. A callback is a function of its arguments.
-- WsServer  src/ws_server.cpp. The state of WsServerWrapper is the record Server (WsServer/State);
--           on_open, on_close, check_timeouts and stop are in WsServer/Lifecycle, on_message is in
--           WsServer/Connections, what it does with a packet and with a decrypted payload in
--           WsServer/Packets and WsServer/Messaging, send, the requests and start_stream in
--           WsServer/Sending, the register_ and set_ methods in WsServer/Registration, the promises
--           and deadlines in WsServer/Requests, the payloads in WsServer/Messages, the identities
--           in WsServer/Identities. WsServer/Service closes the methods under any sequence of calls.
-- WsClient  src/ws_client.cpp: the state with connect and disconnect (WsClient/State), the sends,
--           requests and streams (WsClient/Sending), on_open and on_message (WsClient/Messages),
--           the requests and one round of watchdog_loop (WsClient/Requests). WsClient/Reconnect
--           closes the methods under any sequence of calls.
-- Exchange  a client and a server together: a request and its response over the wire, the ids of
--           the streams that both start, and the packets of a stream at the other side.
-- SecureBuffer  include/obscuraproto/secure_buffer.hpp: each method on a heap of objects and
--           blocks. The memory of libsodium is the parameter `Pages`; `PagesLaws` says that
--           sodium_malloc gives a block that is not in use, of the size asked for, and that
--           sodium_memzero zeroes.
--
-- The layers meet as in the code: Session calls negotiate, sign, verify, the two key
-- computations, encrypt and decrypt; encrypt and decrypt call serialize and deserialize; the
-- hellos travel as the bytes of Handshake. Session/Negotiation composes both ends of a handshake
-- over the wire, Session/Channel the two ends of the data phase, Session/Delivery both. The
-- wrappers hold sessions: on_message of the server makes one for a ClientHello and the client has
-- one from its constructor; send and on_message call encrypt_payload and decrypt_packet, and the
-- server asks RateLimiter first. What a wrapper does to the network and the callbacks that it calls
-- are effects, a list in its state, newest first.
--
-- Bytes are numbers below 256; integers keep their width by `% 2 ^ w`. The send counter wraps at
-- 2 ^ 64, and the theorems on delivery name the room below it. All loops are structural
-- recursions on a list or on a count read from the wire, so there is no fuel. A vector is taken
-- to be shorter than 2 ^ 63, so that offsets do not wrap.
--
-- Not modelled: the threads and the io loop of websocketpp (run, run_client, the joins, the timer of
-- schedule_timeout_check, get_remote_ip), the waits of sync_request on a condition variable, the
-- opening of the configuration file, and the generation of random keys, which is a call of
-- libsodium. Mutexes make each modelled section one step; races between such sections are not
-- modelled, so the check of readiness and the send of async_request see the same session. A call
-- that a callback makes on the wrapper while it runs is a later call of the model. A close of
-- websocketpp is taken not to throw.
pub mod Common
pub mod Config
pub mod Crypto
pub mod Endian
pub mod Errors
pub mod Exchange
pub mod Handlers
pub mod Handshake
pub mod Packet
pub mod RateLimiter
pub mod SecureBuffer
pub mod Session
pub mod Stream
pub mod Version
pub mod WsClient
pub mod WsServer
