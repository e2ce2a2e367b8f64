-- ===== src/HttpPollingTransport.antt =====
-- src/http_polling_transport.cpp and src/http_polling_transport.hpp: the transport by HTTP
-- long-polling, with threads of its own or on a context of the caller.
pub mod Blocking
pub mod State
pub mod Request
pub mod Polling
pub mod Writing
pub mod Operation
pub mod Steps
pub mod Fifo
pub mod Refinement
pub mod Notices
