-- ===== src/HttpPollingTransport/Polling.antt =====
-- src/http_polling_transport.cpp: the loop that polls, in both modes, and the delivery of packets.
use sioxx.Prelude.{
  ◌/◌, Bool, true, false, Option, none, some, List, [], ◌∷◌, ◌++◌, if◌then◌else◌, ◌==◌, not, ◌&&◌,
  ◌||◌, ◌⊎◌, inl, inr,
}
use sioxx.Prelude.Bytes.{Bytes, codes}
use sioxx.Message.{Json}
use sioxx.Url.{UrlParts, parse_ws_url}
use sioxx.Proxy.{invalid_argument, configured, make_proxy_config}
use sioxx.Polling.{polling_split_payload, polling_decode_binary}
use sioxx.JsonParser.Numbers.{decimal}
use sioxx.Transport.{connecting, opened, on_open, on_message}
use sioxx.HttpPollingTransport.State.{
  Poll, ended, requests, opens, delivers, get, Effect, notifies, polls, throws, terminates, Reply,
  replied, raised, HttpPollingTransport, fail,
}
use sioxx.HttpPollingTransport.Request.{request_in_mode, poll_target}

unfoldable pub set_extra_headers :
    List (Bytes × Bytes) → HttpPollingTransport → HttpPollingTransport
set_extra_headers headers t = record t { extra_headers = headers }

unfoldable pub set_verify_tls : Bool → HttpPollingTransport → HttpPollingTransport
set_verify_tls verify t = record t { verify_tls = verify }

-- `none` is the exception of the proxy's configuration.
unfoldable pub set_proxy :
    Bytes → Bytes → Bytes → HttpPollingTransport → Option HttpPollingTransport
set_proxy uri username password t = elim (make_proxy_config uri username password) [
  | invalid_argument ↦ none
  | configured proxy ↦ some (record t { proxy = proxy })
]

-- Asks for the handshake or the next packets.
unfoldable pub start_poll : Bool → HttpPollingTransport → HttpPollingTransport × List Effect
start_poll handshake t = (
  record t { poll = requests handshake },
  polls (request_in_mode get (if handshake then t.url.target else poll_target t) [] t) ∷ [],
)

-- Two threads start, or the poll is posted: `some` task says that it is.
abbrev pub connect_to : UrlParts → HttpPollingTransport → HttpPollingTransport × List Effect × Bool
connect_to url t =
    let t' = record t { url = url; state = connecting } in
    let (t'', es) = start_poll true (record t' { threads = true }) in
    if t.external
    then (t', [], true)
    else if t.threads
    then (t', terminates ∷ [], false)
    else (t'', es, false)

unfoldable pub connect : Bytes → HttpPollingTransport → HttpPollingTransport × List Effect × Bool
connect url t = if t.is_closing then (t, [], false) else elim (parse_ws_url url) [
  | none ↦ (t, throws ∷ [], false)
  | some parts ↦ connect_to parts t
]

abbrev pub fail_poll : Bytes → HttpPollingTransport → HttpPollingTransport × List Effect
fail_poll message t = fail message (record t { poll = ended })

abbrev pub asked : Bool → Bytes
asked true = codes "polling handshake"
asked false = codes "polling request"

-- An answer that is used.
abbrev pub take_reply : Bool → Reply → HttpPollingTransport → HttpPollingTransport × List Effect
take_reply handshake (raised what) t = fail_poll (codes "polling transport: " ++ what) t
take_reply handshake (replied status body) t =
    if not (status / 100 == 2)
    then fail_poll (asked handshake ++ (codes " returned HTTP " ++ decimal status)) t
    else if handshake
    then (record t { state = opened; poll = opens body }, notifies on_open ∷ [])
    else (record t { poll = delivers (polling_split_payload body) }, [])

-- On the caller's context every answer is dropped once the transport is closing; on the transport's own
-- thread the answer to the handshake is not.
unfoldable pub on_reply : Bool → Reply → HttpPollingTransport → HttpPollingTransport × List Effect
on_reply handshake reply t =
    if t.is_closing && (t.external || not handshake)
    then (record t { poll = ended }, [])
    else take_reply handshake reply t

module _ (parse : Bytes → Option Json) (value_string : Bytes → Bytes → Json → Bytes ⊎ Bytes) where
  -- An exception of `value`: the thread catches it and fails, the caller's context lets it through.
  abbrev pub escape : Bytes → HttpPollingTransport → HttpPollingTransport × List Effect
  escape what t =
      if t.external
      then (record t { poll = ended }, throws ∷ [])
      else fail_poll (codes "polling transport: " ++ what) t

  abbrev pub pass_on : Bytes → HttpPollingTransport → HttpPollingTransport × List Effect
  pass_on packet t = (t, notifies (on_message packet false) ∷ [])

  abbrev pub take_sid :
      Bytes → (Bytes ⊎ Bytes) → HttpPollingTransport → HttpPollingTransport × List Effect
  take_sid packet (inl what) t = escape what t
  take_sid packet (inr sid) t = pass_on packet (record t { sid = sid })

  abbrev pub deliver_handshake :
      Bytes → Option Json → HttpPollingTransport → HttpPollingTransport × List Effect
  deliver_handshake packet none t = pass_on packet t
  deliver_handshake packet (some handshake) t =
      take_sid packet (value_string (codes "sid") [] handshake) t

  abbrev pub deliver_binary :
      Option Bytes → HttpPollingTransport → HttpPollingTransport × List Effect
  deliver_binary none t = (t, [])
  deliver_binary (some decoded) t = (t, notifies (on_message decoded true) ∷ [])

  -- One packet of `deliver`.
  unfoldable pub deliver_packet : Bytes → HttpPollingTransport → HttpPollingTransport × List Effect
  deliver_packet [] t = (t, [])
  deliver_packet (c ∷ rest) t =
      if c == b'0'
      then deliver_handshake (c ∷ rest) (parse rest) t
      else if c == b'b'
      then deliver_binary (polling_decode_binary (c ∷ rest)) t
      else pass_on (c ∷ rest) t

  -- The loop goes on: behind the open handler, with the next packet, or with the next poll. Each step
  -- begins with the test of `closing_`, since a handler may have closed the transport.
  abbrev pub advance_from : Poll → HttpPollingTransport → HttpPollingTransport × List Effect
  advance_from (opens body) t =
      if t.is_closing
      then (record t { poll = ended }, [])
      else (record t { poll = delivers (polling_split_payload body) }, [])
  advance_from (delivers []) t =
      if t.is_closing then (record t { poll = ended }, []) else start_poll false t
  advance_from (delivers (packet ∷ packets)) t =
      if t.is_closing
      then (record t { poll = ended }, [])
      else deliver_packet packet (record t { poll = delivers packets })
  advance_from p t = (t, [])

  unfoldable pub advance : HttpPollingTransport → HttpPollingTransport × List Effect
  advance t = advance_from t.poll t
