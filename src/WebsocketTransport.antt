-- ===== src/WebsocketTransport.antt =====
-- src/websocket_transport.cpp and src/websocket_transport.hpp: the WebSocket transport. Boost's
-- operations are effects that start them and events that complete them.
pub mod State
pub mod Connect
pub mod Write
pub mod Steps
pub mod Quiet
pub mod Flow
pub mod Fifo
pub mod Refinement
pub mod Counts
pub mod Notices
pub mod Silence
