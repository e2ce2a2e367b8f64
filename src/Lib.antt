-- ===== src/Lib.antt =====
-- sioxx, a Socket.IO client library in C++.
--
-- The program. `client` (src/client.cpp) owns an Engine.IO session (src/engineio_client.cpp) over a
-- transport, a packet parser (src/json_parser.cpp or src/msgpack_parser.cpp) and one socket for each
-- namespace (src/socket.cpp).
-- A frame that arrives goes from the transport to the session, which answers pings and hands messages
-- to the client, where the parser turns them into packets and the socket of the packet's namespace
-- takes them. A socket buffers its events until it is connected, and its acks with a timeout are
-- watched by a scheduler (src/ack_scheduler.hpp). When the session closes, the client starts a thread
-- that waits and opens a new one; when a WebSocket fails it falls back to polling.
--
-- The files.
--   Prelude: names of the libraries passed on; Boolean tests, lists, byte strings, signed integers and
--     association lists for `std::map`.
--   Message, Packet: include/sioxx/message.hpp and packet.hpp.
--   JsonParser: src/json_parser.cpp. Binary has deconstruct_binary, has_valid_placeholders and
--     reconstruct_binary; Numbers parse_nonnegative_int; Encode and Decode the two methods. A state of
--     the decoder is pending_binary_packet_ with pending_attachments_.
--   MsgpackParser: src/msgpack_parser.cpp. What is decoded keeps its type as a number, since the code
--     casts any number to packet_type.
--   AckScheduler: src/ack_scheduler.hpp; `round` is one pass of the worker's loop.
--   Socket: src/socket.cpp. State has the fields of the class, Listeners, Emission, Acks and Connection
--     the methods. In Steps a step is one critical section under the mutex with its immediate effect,
--     so that a list of steps is an interleaving of threads. Threads puts the sending of a packet
--     behind the section that decided on it, so that other sections come between the two; a sending
--     that throws loses its packet.
--   EngineIoClient: src/engineio_client.cpp. `open_url` is `open`.
--   Client: src/client.cpp. Engine has connecting, the fallback and reconnecting, Dispatch the packets,
--     and Attempts the machine of what the engines report. Session binds an Engine.IO session to the
--     client as bind_engineio_callbacks does, so that what is sent and received are messages of the
--     transport; Shutdown has close and sync_close with the exceptions of what they call,
--     Construction the parser and the transport that the options choose, and Handlers those of the
--     user, which the effects of a client are calls of.
--   Reconnection: src/reconnection.cpp. The arithmetic of `double` and `long double` is a parameter;
--     IsIeee and IsExact in Reconnection/Float say what is relied on of it, for the integers up to 2^53.
--   Url, EngineIoUrl, Proxy: src/url_parse.cpp, src/engineio_url.cpp, src/proxy.cpp.
--   Base64, Polling: base64 of src/proxy.cpp and src/http_polling_transport.cpp, and the encoding of
--     polling payloads of the latter.
--   Transport: src/transport.hpp, and the channel, which is what both transports promise for the
--     messages that they are given.
--   WebsocketTransport: src/websocket_transport.cpp. State has the fields and the operations of Boost,
--     Connect the way from connect to the loop that reads, Write the write queue and closing, and Steps
--     the machine. The code for a stream with TLS and the code for one without are one function with a
--     Boolean.
--   HttpPollingTransport: the transport of src/http_polling_transport.cpp. Request has the requests,
--     Polling run and poll_external, Writing the writes and closing, and Steps the machine. `external`
--     says whether the context is the caller's. Operation is async_request_operation, whose operations
--     of Boost complete one after the other; what it calls its handler with is an answer in Steps.
--     Blocking is the request that blocks, with what each of its calls of Boost ends with, and
--     read_http_response over a parser of Beast, of which only the bytes that it takes are relied on.
--   Tests: the theorems at concrete inputs.
--
-- Conventions. A byte string is a list of numbers. What an operation does outside is a list of effects
-- in order; an exception is `none` or a constructor of the result. A callback is a number that names
-- it, and a callback that calls back into the library is a further step. Times are natural numbers:
-- nanoseconds for the scheduler, milliseconds in the session. Ack ids are natural numbers: that
-- next_ack_id_ stays within `int` is assumed, and so is that intervals of a handshake are not negative.
-- A float in a payload is its bit pattern, and a binary value may have a subtype. The sockets and the
-- query, over which the code iterates, stand in the order of `std::map`; other maps are only looked up.
-- An allocation that fails is not modelled. The serialiser, the parser and `value` of nlohmann/json are
-- parameters; where a theorem relies on them, a hypothesis says at which value.
--
-- The transports. What Boost is asked for is an effect, and its completion, with an error code or
-- without, is an event that may come at any time or never; outstanding operations stand in a list. The
-- handler of a completion is one step, and so is one round of a loop that polls: what the user's code
-- does from inside a handler comes as the steps behind it. A packet of a polled body is delivered in a
-- step of its own. A field that is set replaces those of its name, in any case of letters. In HttpPollingTransport
-- `value` gives the text of its exception or the member.
--
-- Fuel. The loop of flush_send_buffer takes fuel; mark_connected gives it one more than the length of
-- the buffer, and each round that goes on shortens the buffer. The flush is taken alone, with no
-- other thread between its rounds and every send_packet returning, in mark_connected; in Steps and
-- Threads its rounds are steps among those of the other threads. The digits of a number take fuel one
-- more than the number. The loop of read_http_response takes one more than there are bytes to read. All
-- other loops are structural.
--
-- Not modelled: of the transports the sockets, the contexts of TLS, time limits and the options of the
-- streams, the list external_requests_, and that a thread which joins waits for another; the wait of a
-- reconnecting thread and what std::random_device gives it; the public class that forwards to
-- client_impl.
pub mod Prelude
pub mod Message
pub mod MsgpackParser
pub mod Packet
pub mod JsonParser
pub mod AckScheduler
pub mod Socket
pub mod Base64
pub mod Url
pub mod Proxy
pub mod Reconnection
pub mod EngineIoUrl
pub mod Polling
pub mod Transport
pub mod WebsocketTransport
pub mod HttpPollingTransport
pub mod EngineIoClient
pub mod Client
pub mod Tests
