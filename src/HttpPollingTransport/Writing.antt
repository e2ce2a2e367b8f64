-- ===== src/HttpPollingTransport/Writing.antt =====
-- src/http_polling_transport.cpp: the messages that are sent, and closing.
use sioxx.Prelude.{
  ◌/◌, Bool, true, false, List, [], ◌∷◌, ◌++◌, if◌then◌else◌, ◌==◌, not, ◌&&◌, ◌||◌,
}
use sioxx.Prelude.Bytes.{Bytes, codes}
use sioxx.Polling.{polling_encode_binary}
use sioxx.JsonParser.Numbers.{decimal}
use sioxx.Transport.{TransportState, closed, opened, on_close}
use sioxx.HttpPollingTransport.State.{
  Message, post, Effect, notifies, writes, says_goodbye, cancels, Reply, replied, raised,
  HttpPollingTransport, fail,
}
use sioxx.HttpPollingTransport.Request.{request_in_mode, poll_target}

abbrev pub is_opened : TransportState → Bool
is_opened opened = true
is_opened _ = false

abbrev pub accepts : HttpPollingTransport → Bool
accepts t = not t.is_closing && is_opened t.state

abbrev wire_payload : Message → Bytes
wire_payload (payload, is_binary) = if is_binary then polling_encode_binary payload else payload

-- `post`, and the request of `start_next_external_write`.
abbrev write_message :
    Message → List Message → HttpPollingTransport → HttpPollingTransport × List Effect
write_message m rest t = (
  record t { write_queue = rest; writing = true },
  writes m (request_in_mode post (poll_target t) (wire_payload m) t) ∷ [],
)

abbrev pub write_first : List Message → HttpPollingTransport → HttpPollingTransport × List Effect
write_first [] t = (t, [])
write_first (m ∷ rest) t = write_message m rest t

-- `start_next_external_write` on the caller's context; on its own thread `run_writes` also writes what
-- is left in the queue of a transport that is closing.
unfoldable pub write_next : HttpPollingTransport → HttpPollingTransport × List Effect
write_next t =
    if t.writing || (t.external && t.is_closing) then (t, []) else write_first t.write_queue t

-- `send`, under the mutex or as the posted function, which starts the next write at once.
unfoldable pub send : Message → HttpPollingTransport → HttpPollingTransport × List Effect
send m t =
    let t' = record t { write_queue = t.write_queue ++ m ∷ [] } in
    let next = write_next t' in
    if accepts t then (if t.external then next else (t', [])) else (t, [])

abbrev pub fail_reply : Reply → HttpPollingTransport → HttpPollingTransport × List Effect
fail_reply (raised what) t = fail (codes "polling write: " ++ what) t
fail_reply (replied status body) t =
    if status / 100 == 2
    then (t, [])
    else fail (codes "polling write returned HTTP " ++ decimal status) t

abbrev pub is_success : Reply → Bool
is_success (raised what) = false
is_success (replied status body) = status / 100 == 2

-- The end of a write; on the caller's context a write that succeeded starts the next.
unfoldable pub on_write : Reply → HttpPollingTransport → HttpPollingTransport × List Effect
on_write reply t =
    let t' = record t { writing = false } in
    let next = write_next t' in
    let failed = fail_reply reply t' in
    if t.is_closing then (t', []) else if t.external && is_success reply then next else failed

abbrev pub goodbye : HttpPollingTransport → List Effect
goodbye t = elim t.sid [
  | [] ↦ []
  | _ ∷ _ ↦ says_goodbye (request_in_mode post (poll_target t) (codes "1") t) ∷ []
]

-- `close`, past the point where it is posted to the strand.
unfoldable pub close : HttpPollingTransport → HttpPollingTransport × List Effect
close t =
    let t' = record t {
      shutdown_once = true;
      is_closing = true;
      state = closed;
      write_queue = if t.external then [] else t.write_queue;
    } in
    if t.shutdown_once then (t, []) else (
      t',
      (if t.external then cancels ∷ [] else [])
          ++ (goodbye t
              ++ (if t.is_closing then [] else notifies (on_close (codes "closed")) ∷ [])),
    )

-- The destructor, which joins the threads.
unfoldable pub destroy : HttpPollingTransport → HttpPollingTransport
destroy t = record t { is_closing = true; state = closed; threads = false }
