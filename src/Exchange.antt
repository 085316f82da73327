-- ===== src/Exchange.antt =====
-- A request of WsClientWrapper of src/ws_client.cpp that WsServerWrapper of src/ws_server.cpp
-- answers: the frames of one side are the messages of the other.
pub mod Asking
pub mod Answering
pub mod RoundTrip
pub mod StreamIds
pub mod Streaming
mod StreamTests
pub mod Tests
