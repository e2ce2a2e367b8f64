-- ===== src/Client.antt =====
-- src/client.cpp and src/client_impl.hpp: the client. The engines, the fallback to polling and the
-- reconnection are in Engine, the frames and the sockets of the namespaces in Dispatch.
pub mod State
pub mod Engine
pub mod Dispatch
pub mod Total
pub mod Reconnection
pub mod Attempts
pub mod Construction
pub mod Handlers
pub mod Session
pub mod Shutdown
