-- ===== src/WsServer.antt =====
-- WsServerWrapper of include/obscuraproto/ws_server.hpp and src/ws_server.cpp: its state (State), the
-- connections and the timer (Lifecycle), a message (Connections), a packet and a decrypted payload
-- (Packets, Messaging), the methods that send (Sending) and register (Registration), and the parts
-- that these stand on: the requests and their promises (Requests), the payloads of requests and
-- responses (Messages), the table of connected identities (Identities). A connection handle is a
-- number.
pub mod Requests
pub mod Completion
pub mod Expiry
pub mod Messages
pub mod Identities
pub mod Packets
pub mod State
pub mod Sending
pub mod Messaging
pub mod Lifecycle
pub mod Connections
pub mod Attempts
pub mod Registration
pub mod Keeping
pub mod Counting
pub mod Talking
pub mod Asking
pub mod Safety
pub mod Closes
pub mod Timeouts
pub mod Accepting
pub mod Hellos
pub mod Service
pub mod Holding
pub mod Promises
mod Tests
pub mod PacketTests
pub mod ServiceTests
mod PromiseTests
mod AttemptTests
