-- ===== src/WebsocketTransport/Connect.antt =====
-- src/websocket_transport.cpp: the connection, from `connect` to the loop that reads.
use sioxx.Prelude.{
  ◌/◌, Bool, true, false, Option, none, some, List, [], ◌∷◌, ◌++◌, if◌then◌else◌, ◌==◌, not,
}
use sioxx.Prelude.Bytes.{Bytes, codes}
use sioxx.Url.{UrlParts, parse_ws_url}
use sioxx.Proxy.{ProxyConfig, invalid_argument, configured, make_proxy_config, connect_authority}
use sioxx.JsonParser.Numbers.{decimal}
use sioxx.Transport.{closed, connecting, opened, on_open, on_message, on_close}
use sioxx.WebsocketTransport.State.{
  Operation, resolves, tcp_connects, proxy_writes, proxy_reads, ssl_handshakes, handshakes, reads,
  Completion, Effect, notifies, starts, throws, terminates, Task, starts_connection,
  WebsocketTransport, fail, fail_with,
}

unfoldable pub set_extra_headers : List (Bytes × Bytes) → WebsocketTransport → WebsocketTransport
set_extra_headers headers w = record w { extra_headers = headers }

unfoldable pub set_verify_tls : Bool → WebsocketTransport → WebsocketTransport
set_verify_tls verify w = record w { verify_tls = verify }

-- `none` is the exception of the proxy's configuration.
unfoldable pub set_proxy : Bytes → Bytes → Bytes → WebsocketTransport → Option WebsocketTransport
set_proxy uri username password w = elim (make_proxy_config uri username password) [
  | invalid_argument ↦ none
  | configured proxy ↦ some (record w { proxy = proxy })
]

-- The proxy's endpoint, or the server's.
abbrev pub endpoint_of : Option ProxyConfig → UrlParts → UrlParts
endpoint_of none url = url
endpoint_of (some proxy) url = proxy.endpoint

-- `start_plain` and `start_tls`.
unfoldable pub start : Bool → WebsocketTransport → List Effect
start tls w =
    let endpoint = endpoint_of w.proxy w.url in
    starts (resolves tls endpoint.host endpoint.port) ∷ []

-- Under the mutex: the connection starts in the transport's own thread, or is posted.
abbrev pub connect_to : UrlParts → WebsocketTransport → WebsocketTransport × List Effect × List Task
connect_to url w =
    let w' = record w { url = url; state = connecting } in
    if w.owned_ioc
    then (if w.io_thread
        then (w', terminates ∷ [], [])
        else (record w' { io_thread = true }, start url.tls w', []))
    else (w', [], starts_connection url.tls ∷ [])

unfoldable pub connect : Bytes → WebsocketTransport → WebsocketTransport × List Effect × List Task
connect url w =
    if w.is_closing
    then (w, [], [])
    else elim (parse_ws_url url) [ none ↦ (w, throws ∷ [], []) | some parts ↦ connect_to parts w ]

abbrev authorization_of : Option ProxyConfig → Bytes
authorization_of none = []
authorization_of (some proxy) = proxy.authorization

-- `establish_proxy_tunnel`
abbrev pub establish_proxy_tunnel : Bool → WebsocketTransport → List Effect
establish_proxy_tunnel tls w =
    starts (proxy_writes tls (connect_authority w.url) (authorization_of w.proxy)) ∷ []

-- `start_plain_handshake` and `start_tls_handshake`: TLS comes first where there is TLS.
abbrev pub start_handshake : Bool → WebsocketTransport → List Effect
start_handshake true w = starts ssl_handshakes ∷ []
start_handshake false w = starts (handshakes false w.url.host w.url.target w.extra_headers) ∷ []

abbrev pub do_read : Bool → WebsocketTransport → List Effect
do_read tls w = if w.is_closing then [] else starts (reads tls) ∷ []

unfoldable pub on_resolve :
    Bool → Completion → WebsocketTransport → WebsocketTransport × List Effect
on_resolve false r w = elim r.error [
  | some ec ↦ fail_with (codes "resolve") ec w
  | none ↦ (record w { ws_plain = true }, starts (tcp_connects false) ∷ [])
]
on_resolve true r w = elim r.error [
  | some ec ↦ fail_with (codes "resolve") ec w
  | none ↦ elim r.sni_error [
    | some ec ↦ fail_with (codes "sni") ec (record w { ws_tls = true })
    | none ↦ (record w { ws_tls = true }, starts (tcp_connects true) ∷ [])
  ]
]

abbrev through : Option ProxyConfig → Bool → WebsocketTransport → List Effect
through none tls w = start_handshake tls w
through (some proxy) tls w = establish_proxy_tunnel tls w

unfoldable pub on_tcp_connect :
    Bool → Completion → WebsocketTransport → WebsocketTransport × List Effect
on_tcp_connect tls r w = elim r.error [
  | some ec ↦ fail_with (codes "connect") ec w
  | none ↦ (w, through w.proxy tls w)
]

unfoldable pub on_proxy_write :
    Bool → Completion → WebsocketTransport → WebsocketTransport × List Effect
on_proxy_write tls r w = elim r.error [
  | some ec ↦ fail_with (codes "proxy write") ec w
  | none ↦ (w, starts (proxy_reads tls) ∷ [])
]

unfoldable pub on_proxy_read :
    Bool → Completion → WebsocketTransport → WebsocketTransport × List Effect
on_proxy_read tls r w = elim r.error [
  | some ec ↦ fail_with (codes "proxy read") ec w
  | none ↦
      if not (r.status / 100 == 2)
      then fail (codes "proxy CONNECT returned HTTP " ++ decimal r.status) w
      else (w, start_handshake tls w)
]

unfoldable pub on_ssl_handshake : Completion → WebsocketTransport → WebsocketTransport × List Effect
on_ssl_handshake r w = elim r.error [
  | some ec ↦ fail_with (codes "ssl_handshake") ec w
  | none ↦ (w, starts (handshakes true w.url.host w.url.target w.extra_headers) ∷ [])
]

unfoldable pub on_handshake :
    Bool → Completion → WebsocketTransport → WebsocketTransport × List Effect
on_handshake tls r w = elim r.error [
  | some ec ↦ fail_with (codes "handshake") ec w
  | none ↦ let w' = record w { state = opened } in (w', notifies on_open ∷ do_read tls w')
]

-- `do_read_plain` and `do_read_tls`, when the read completes.
unfoldable pub on_read : Bool → Completion → WebsocketTransport → WebsocketTransport × List Effect
on_read tls r w = elim r.error [
  | some ec ↦ (record w { state = closed }, notifies (on_close ec) ∷ [])
  | none ↦ (w, notifies (on_message r.payload r.is_binary) ∷ do_read tls w)
]

abbrev pub dispatch : Operation → Completion → WebsocketTransport → WebsocketTransport × List Effect
dispatch (resolves tls host port) r w = on_resolve tls r w
dispatch (tcp_connects tls) r w = on_tcp_connect tls r w
dispatch (proxy_writes tls destination authorization) r w = on_proxy_write tls r w
dispatch (proxy_reads tls) r w = on_proxy_read tls r w
dispatch ssl_handshakes r w = on_ssl_handshake r w
dispatch (handshakes tls host target headers) r w = on_handshake tls r w
dispatch (reads tls) r w = on_read tls r w

-- Every handler of a completion begins with the test of `closing_`.
unfoldable pub complete :
    Operation → Completion → WebsocketTransport → WebsocketTransport × List Effect
complete op r w = if w.is_closing then (w, []) else dispatch op r w
