-- ===== src/Client/Construction.antt =====
-- src/client.cpp and include/sioxx/client_options.hpp: the parser of a client, and the transport of an
-- engine, as the options configure them.
pub mod Headers
use sioxx.Prelude.{Bool, true, false, Option, none, some, List, [], ◌∷◌, if◌then◌else◌, not}
use sioxx.Prelude.Bytes.{Bytes}
use sioxx.WebsocketTransport.State.{WebsocketTransport}
use sioxx.WebsocketTransport.State as WebsocketState
use sioxx.WebsocketTransport.Connect as Websocket
use sioxx.HttpPollingTransport.State.{HttpPollingTransport}
use sioxx.HttpPollingTransport.State as PollingState
use sioxx.HttpPollingTransport.Polling as Polling

pub data ParserKind : Type 0 where
  json msgpack : ParserKind

pub record ProxyOptions : Type 0 where
  pub uri : Bytes
  pub username : Bytes
  pub password : Bytes

-- The part of `client_options` that configures a transport.
pub record TransportOptions : Type 0 where
  pub verify_tls : Bool
  pub extra_headers : List (Bytes × Bytes)
  pub proxy : Option ProxyOptions

-- The parser that the client owns.
pub data Parser (P : Type 0) : Type 0 where
  custom : P → Parser P
  json_parser msgpack_parser : Parser P

-- The choice in the constructor of `client_impl`: a factory, which may return null, goes before the
-- kind; `none` is the exception at null.
unfoldable pub make_parser :
    {P : Type 0} → (factory : Option (Option P)) → ParserKind → Option (Parser P)
make_parser (some none) kind = none
make_parser (some (some parser)) kind = some (custom parser)
make_parser none msgpack = some msgpack_parser
make_parser none json = some json_parser

abbrev is_empty : List (Bytes × Bytes) → Bool
is_empty [] = true
is_empty (h ∷ hs) = false

module _ {T : Type 0} (make : (io_context : Bool) → T) (set_verify_tls : Bool → T → T)
    (set_extra_headers : List (Bytes × Bytes) → T → T)
    (set_proxy : (uri username password : Bytes) → T → Option T) where
  -- The template for both transports; `io_context` says whether the caller gives one.
  abbrev make_configured_transport : TransportOptions → (io_context : Bool) → Option T
  make_configured_transport options io_context =
      let t = set_verify_tls options.verify_tls (make io_context) in
      let t' =
        if not (is_empty options.extra_headers)
        then set_extra_headers options.extra_headers t
        else t in
      elim options.proxy [ none ↦ some t' | some p ↦ set_proxy p.uri p.username p.password t' ]

unfoldable pub make_websocket : TransportOptions → (io_context : Bool) → Option WebsocketTransport
make_websocket options io_context =
    make_configured_transport (λ given. WebsocketState.make_transport (not given))
      Websocket.set_verify_tls Websocket.set_extra_headers Websocket.set_proxy options io_context

unfoldable pub make_polling : TransportOptions → (io_context : Bool) → Option HttpPollingTransport
make_polling options io_context =
    make_configured_transport PollingState.make_transport Polling.set_verify_tls
      Polling.set_extra_headers Polling.set_proxy options io_context

pub data Transport : Type 0 where
  websocket : WebsocketTransport → Transport
  polling : HttpPollingTransport → Transport

-- The transport of a new engine; `none` is an exception.
unfoldable pub new_transport :
    (using_polling : Bool) → TransportOptions → (io_context : Bool) → Option Transport
new_transport true options io_context = elim (make_polling options io_context) [
  | none ↦ none
  | some t ↦ some (polling t)
]
new_transport false options io_context = elim (make_websocket options io_context) [
  | none ↦ none
  | some t ↦ some (websocket t)
]
