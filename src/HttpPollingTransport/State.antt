-- ===== src/HttpPollingTransport/State.antt =====
-- src/http_polling_transport.hpp: the transport's fields, and what it does outside.
use sioxx.Prelude.{ℕ, Bool, true, false, Option, none, List, [], ◌∷◌, ◌++◌, if◌then◌else◌}
use sioxx.Prelude.Bytes.{Bytes}
use sioxx.Url.{UrlParts}
use sioxx.Proxy.{ProxyConfig}
use sioxx.Transport.{TransportState, closed, Notice, on_error, on_close}

-- A payload and whether it is binary.
abbrev pub Message : Type 0
Message = Bytes × Bool

-- The loop that polls: not started, waiting for the answer to the handshake or to a poll, behind the
-- open handler with the body of the handshake, delivering packets, or over.
pub data Poll : Type 0 where
  absent ended : Poll
  requests : (handshake : Bool) → Poll
  opens : Bytes → Poll
  delivers : List Bytes → Poll

pub data Method : Type 0 where
  get post connects : Method

-- An HTTP request: where it is sent, and the fields that are set, in order.
pub record Request : Type 0 where
  pub host : Bytes
  pub port : Bytes
  pub method : Method
  pub target : Bytes
  pub fields : List (Bytes × Bytes)
  pub body : Bytes

-- `terminates` is the assignment to a thread that is joinable, `throws` an exception that leaves a call
-- or a handler on the caller's context.
pub data Effect : Type 0 where
  notifies : Notice → Effect
  polls : Request → Effect
  writes : Message → Request → Effect
  says_goodbye : Request → Effect
  cancels throws terminates : Effect

-- What a request ends with: the status and the body, or the text of an exception or an error code.
pub data Reply : Type 0 where
  replied : ℕ → Bytes → Reply
  raised : Bytes → Reply

-- `external` says whether the context is the caller's. `poll` stands for the thread that polls, or the
-- chain of handlers that does; `writing` says whether a write is under way, which is
-- `external_write_in_progress_` or the writing thread behind its queue; `threads` whether the threads
-- are joinable.
pub record HttpPollingTransport : Type 0 where
  pub state : TransportState
  pub url : UrlParts
  pub sid : Bytes
  pub extra_headers : List (Bytes × Bytes)
  pub proxy : Option ProxyConfig
  pub verify_tls : Bool
  pub external : Bool
  pub is_closing : Bool
  pub threads : Bool
  pub poll : Poll
  pub writing : Bool
  pub write_queue : List Message
  pub shutdown_once : Bool

abbrev pub no_url : UrlParts
no_url = record { scheme = []; host = []; port = []; target = []; tls = false }

unfoldable pub make_transport : Bool → HttpPollingTransport
make_transport external = record {
  state = closed;
  url = no_url;
  sid = [];
  extra_headers = [];
  proxy = none;
  verify_tls = true;
  external = external;
  is_closing = false;
  threads = false;
  poll = absent;
  writing = false;
  write_queue = [];
  shutdown_once = false;
}

unfoldable pub fail : Bytes → HttpPollingTransport → HttpPollingTransport × List Effect
fail message t = if t.is_closing then (t, []) else (
  record t { is_closing = true; state = closed; write_queue = [] },
  (if t.external then cancels ∷ [] else [])
      ++ notifies (on_error message) ∷ notifies (on_close message) ∷ [],
)
