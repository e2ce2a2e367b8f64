-- ===== src/WebsocketTransport/State.antt =====
-- src/websocket_transport.hpp: the transport's fields, the operations that it starts and what they
-- complete with.
use sioxx.Prelude.{ℕ, Bool, true, false, Option, none, List, [], ◌∷◌, ◌++◌, if◌then◌else◌}
use sioxx.Prelude.Bytes.{Bytes, codes}
use sioxx.Url.{UrlParts}
use sioxx.Proxy.{ProxyConfig}
use sioxx.Transport.{TransportState, closed, Notice, on_error}

-- A message in the queue; the payload that was moved out is `none`.
abbrev pub Entry : Type 0
Entry = Option Bytes × Bool

-- Asynchronous operations of the connection, over TLS or not: to resolve a host and port, to connect,
-- to ask a proxy for a tunnel and to read its answer, the two handshakes, and to read a message.
pub data Operation : Type 0 where
  resolves : Bool → Bytes → Bytes → Operation
  tcp_connects : Bool → Operation
  proxy_writes : Bool → (destination authorization : Bytes) → Operation
  proxy_reads : Bool → Operation
  ssl_handshakes : Operation
  handshakes : Bool → (host target : Bytes) (extra_headers : List (Bytes × Bytes)) → Operation
  reads : Bool → Operation

-- What an operation completes with: the text of its error code, that of the server name indication,
-- the status of the proxy's answer, and the message.
pub record Completion : Type 0 where
  pub error : Option Bytes
  pub sni_error : Option Bytes
  pub status : ℕ
  pub payload : Bytes
  pub is_binary : Bool

-- `throws` is the exception of the URL's parser; `terminates` is the assignment to a thread that is
-- joinable.
pub data Effect : Type 0 where
  notifies : Notice → Effect
  starts : Operation → Effect
  writes : Bool → Option Bytes → Bool → Effect
  cancels_resolver stops_context throws terminates : Effect
  closes_stream : Bool → Effect

-- Functions posted to the strand.
pub data Task : Type 0 where
  starts_connection : Bool → Task
  queues : Bytes → Bool → Task
  shuts_down : Task

-- `owned_ioc` says whether the context is the transport's own, the two streams whether they are there,
-- `shutdown_once` whether the flag is used up, and `io_thread` whether it is joinable.
pub record WebsocketTransport : Type 0 where
  pub state : TransportState
  pub owned_ioc : Bool
  pub io_thread : Bool
  pub ws_plain : Bool
  pub ws_tls : Bool
  pub url : UrlParts
  pub extra_headers : List (Bytes × Bytes)
  pub proxy : Option ProxyConfig
  pub verify_tls : Bool
  pub write_queue : List Entry
  pub write_in_progress : Bool
  pub is_closing : Bool
  pub shutdown_once : Bool

abbrev pub no_url : UrlParts
no_url = record { scheme = []; host = []; port = []; target = []; tls = false }

unfoldable pub make_transport : Bool → WebsocketTransport
make_transport owned_ioc = record {
  state = closed;
  owned_ioc = owned_ioc;
  io_thread = false;
  ws_plain = false;
  ws_tls = false;
  url = no_url;
  extra_headers = [];
  proxy = none;
  verify_tls = true;
  write_queue = [];
  write_in_progress = false;
  is_closing = false;
  shutdown_once = false;
}

-- `fail`, in both forms.
unfoldable pub fail : Bytes → WebsocketTransport → WebsocketTransport × List Effect
fail what w =
    if w.is_closing then (w, []) else (record w { state = closed }, notifies (on_error what) ∷ [])

abbrev pub fail_with : Bytes → Bytes → WebsocketTransport → WebsocketTransport × List Effect
fail_with what message w = fail (what ++ (codes ": " ++ message)) w
