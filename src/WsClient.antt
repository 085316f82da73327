-- ===== src/WsClient.antt =====
-- WsClientWrapper of include/obscuraproto/ws_client.hpp and src/ws_client.cpp. A method takes the
-- client and returns it as the call leaves it, with its result or exception; what the client does
-- to the network and the callbacks that it calls are the effects, newest first. The nonce, the
-- ephemeral key pair and the time are arguments. The client's thread is the io loop of websocketpp;
-- whether a call of disconnect comes from it is an argument.
pub mod Requests
pub mod State
pub mod Sending
pub mod Messages
pub mod Simulation
pub mod Watchdog
pub mod Keys
pub mod Reconnect
pub mod Registration
mod Tests
