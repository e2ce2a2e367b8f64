-- ===== src/WebsocketTransport/Quiet.antt =====
-- src/websocket_transport.cpp: the operations that write nothing.
use sioxx.Prelude.{◌≡◌, refl, Bool, List, [], ◌∷◌, arith, if_intro}
use sioxx.Prelude.Bytes.{Bytes}
use sioxx.WebsocketTransport.State.{
  Entry, Operation, resolves, tcp_connects, proxy_writes, proxy_reads, ssl_handshakes, handshakes,
  reads, Completion, Effect, writes, WebsocketTransport, fail,
}
use sioxx.WebsocketTransport.Connect.{
  start, connect, complete, dispatch, on_resolve, on_tcp_connect, on_proxy_write, on_proxy_read,
  on_ssl_handshake, on_handshake, on_read,
}
use sioxx.WebsocketTransport.Steps.{writes_of}

-- The messages that are given to Boost.
abbrev pub delivered : List Effect → List Entry
delivered [] = []
delivered (writes tls payload is_binary ∷ es) = (payload, is_binary) ∷ delivered es
delivered (_ ∷ es) = delivered es

-- The queue stays as it is, and nothing is written.
pub record IsQuiet (w w' : WebsocketTransport) (es : List Effect) : Type 0 where
  pub queue : w'.write_queue ≡ w.write_queue
  pub progress : w'.write_in_progress ≡ w.write_in_progress
  pub same_closing : w'.is_closing ≡ w.is_closing
  pub nothing : delivered es ≡ []
  pub no_write : writes_of es ≡ []

fail-IsQuiet : (what : Bytes) (w : WebsocketTransport) → IsQuiet w (fail what w).0 (fail what w).1
unfolding fail
fail-IsQuiet what w = ground arith

on_resolve-IsQuiet :
    (tls : Bool) (r : Completion) (w : WebsocketTransport)
    → IsQuiet w (on_resolve tls r w).0 (on_resolve tls r w).1
unfolding on_resolve fail
on_resolve-IsQuiet tls r w = ground arith

on_tcp_connect-IsQuiet :
    (tls : Bool) (r : Completion) (w : WebsocketTransport)
    → IsQuiet w (on_tcp_connect tls r w).0 (on_tcp_connect tls r w).1
unfolding on_tcp_connect fail
on_tcp_connect-IsQuiet tls r w = ground arith

on_proxy_write-IsQuiet :
    (tls : Bool) (r : Completion) (w : WebsocketTransport)
    → IsQuiet w (on_proxy_write tls r w).0 (on_proxy_write tls r w).1
unfolding on_proxy_write fail
on_proxy_write-IsQuiet tls r w = ground arith

on_proxy_read-IsQuiet :
    (tls : Bool) (r : Completion) (w : WebsocketTransport)
    → IsQuiet w (on_proxy_read tls r w).0 (on_proxy_read tls r w).1
unfolding on_proxy_read fail
on_proxy_read-IsQuiet tls r w = ground arith

on_ssl_handshake-IsQuiet :
    (r : Completion) (w : WebsocketTransport)
    → IsQuiet w (on_ssl_handshake r w).0 (on_ssl_handshake r w).1
unfolding on_ssl_handshake fail
on_ssl_handshake-IsQuiet r w = ground arith

on_handshake-IsQuiet :
    (tls : Bool) (r : Completion) (w : WebsocketTransport)
    → IsQuiet w (on_handshake tls r w).0 (on_handshake tls r w).1
unfolding on_handshake fail
on_handshake-IsQuiet tls r w = ground arith

on_read-IsQuiet :
    (tls : Bool) (r : Completion) (w : WebsocketTransport)
    → IsQuiet w (on_read tls r w).0 (on_read tls r w).1
unfolding on_read
on_read-IsQuiet tls r w = ground arith

pub unchanged-IsQuiet : (w : WebsocketTransport) → IsQuiet w w []
unchanged-IsQuiet w = record {
  queue = refl;
  progress = refl;
  same_closing = refl;
  nothing = refl;
  no_write = refl;
}

dispatch-IsQuiet :
    (op : Operation) (r : Completion) (w : WebsocketTransport)
    → IsQuiet w (dispatch op r w).0 (dispatch op r w).1
dispatch-IsQuiet (resolves tls host port) r w = on_resolve-IsQuiet tls r w
dispatch-IsQuiet (tcp_connects tls) r w = on_tcp_connect-IsQuiet tls r w
dispatch-IsQuiet (proxy_writes tls d a) r w = on_proxy_write-IsQuiet tls r w
dispatch-IsQuiet (proxy_reads tls) r w = on_proxy_read-IsQuiet tls r w
dispatch-IsQuiet ssl_handshakes r w = on_ssl_handshake-IsQuiet r w
dispatch-IsQuiet (handshakes tls host target hs) r w = on_handshake-IsQuiet tls r w
dispatch-IsQuiet (reads tls) r w = on_read-IsQuiet tls r w

pub complete-IsQuiet :
    (op : Operation) (r : Completion) (w : WebsocketTransport)
    → IsQuiet w (complete op r w).0 (complete op r w).1
unfolding complete
complete-IsQuiet op r w =
    if_intro (λ z. IsQuiet w z.0 z.1) w.is_closing (w, []) (dispatch op r w) (unchanged-IsQuiet w)
      (dispatch-IsQuiet op r w)

pub start-IsQuiet : (tls : Bool) (w : WebsocketTransport) → IsQuiet w w (start tls w)
unfolding start
start-IsQuiet tls w = ground arith

pub connect-IsQuiet :
    (url : Bytes) (w : WebsocketTransport) → IsQuiet w (connect url w).0 (connect url w).1
unfolding connect start
connect-IsQuiet url w = ground arith
