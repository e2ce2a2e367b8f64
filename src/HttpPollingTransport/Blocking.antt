-- ===== src/HttpPollingTransport/Blocking.antt =====
-- src/http_polling_transport.cpp: `request`, which blocks, with what it calls of Boost; and the loops in
-- which it reads a response.
pub mod Reading
pub mod Stages
pub mod Equivalence
use sioxx.Prelude.{
  ℕ, zero, suc, ◌/◌, Bool, true, false, Option, none, some, List, [], ◌∷◌, ◌++◌, if◌then◌else◌,
  ◌==◌, ◌&&◌, not,
}
use sioxx.Prelude.Bytes.{Bytes, codes}
use sioxx.Url.{drop}
use sioxx.Proxy.{ProxyConfig}
use sioxx.JsonParser.Numbers.{decimal}
use sioxx.HttpPollingTransport.State.{Reply, replied, raised, HttpPollingTransport}

-- What `read_some` of Beast does: the bytes that it takes and the parser behind them, or an error.
pub data ReadSome (P : Type 0) : Type 0 where
  consumes : ℕ → P → ReadSome P
  fails : Bytes → ReadSome P

-- The end of a loop that reads: the parser with the bytes that are left, or an exception.
pub data Response (P : Type 0) : Type 0 where
  responds : P → Bytes → Response P
  throws : Bytes → Response P

module _ {P : Type 0} (is_done : P → Bool) where
  -- What follows `read_some` in a round.
  abbrev pub after_read : ReadSome P → (ℕ → P → Option (Response P)) → Option (Response P)
  after_read (fails ec) rest = some (throws ec)
  after_read (consumes bytes_consumed parser) rest =
      if bytes_consumed == 0 && not (is_done parser)
      then some (throws (codes "HTTP response parser made no progress"))
      else rest bytes_consumed parser

  module _ (read_some : P → Bytes → ReadSome P) where
    -- `input` is what the stream has for the parser, in the buffer or still to come; `none` is a loop
    -- that has not come to its end.
    unfoldable pub read_http_response : (fuel : ℕ) → P → (input : Bytes) → Option (Response P)
    read_http_response zero parser input =
        if is_done parser then some (responds parser input) else none
    read_http_response (suc fuel) parser input =
        if is_done parser
        then some (responds parser input)
        else after_read (read_some parser input)
            (λ n parser'. read_http_response fuel parser' (drop n input))

-- What the calls of Boost end with: the text of an error, and what stands in a response. `sni` says
-- whether the server name can be set, and `shutting` is an error of the shutdown, with whether it is one
-- that is let pass.
pub record Calls : Type 0 where
  pub resolving : Option Bytes
  pub sni : Bool
  pub connecting : Option Bytes
  pub tunnel_writing : Option Bytes
  pub tunnel_reading : Option Bytes
  pub tunnel_status : ℕ
  pub handshaking : Option Bytes
  pub writing : Option Bytes
  pub reading : Option Bytes
  pub status : ℕ
  pub body : Bytes
  pub shutting : Option (Bytes × Bool)

-- A call that may throw, and what comes behind it.
abbrev pub attempt : Option Bytes → Reply → Reply
attempt none rest = rest
attempt (some what) rest = raised what

abbrev pub shut : Option (Bytes × Bool) → Option Bytes
shut none = none
shut (some (what, passes)) = if passes then none else some what

unfoldable pub establish_proxy_tunnel : Option ProxyConfig → Calls → Reply → Reply
establish_proxy_tunnel none c rest = rest
establish_proxy_tunnel (some proxy) c rest = attempt c.tunnel_writing (
    attempt c.tunnel_reading (
      if not (c.tunnel_status / 100 == 2)
      then raised (codes "proxy CONNECT returned HTTP " ++ decimal c.tunnel_status)
      else rest))

-- The writing of the request, the reading of its response and the end of the stream.
abbrev pub exchange : Calls → Reply
exchange c =
    attempt c.writing (attempt c.reading (attempt (shut c.shutting) (replied c.status c.body)))

unfoldable pub request_reply : HttpPollingTransport → Calls → Reply
request_reply t c = attempt c.resolving (
    if not t.url.tls
    then attempt c.connecting (exchange c)
    else if not c.sni
    then raised (codes "unable to set TLS server name")
    else attempt c.connecting
        (establish_proxy_tunnel t.proxy c (attempt c.handshaking (exchange c))))
