-- ===== src/Socket.antt =====
-- src/socket.cpp and include/sioxx/socket.hpp: the namespace socket.
pub mod Flush
pub mod State
pub mod Listeners
pub mod Emission
pub mod Acks
pub mod Connection
pub mod Steps
pub mod AtMostOnce
pub mod Order
pub mod Threads
