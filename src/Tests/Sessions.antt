-- ===== src/Tests/Sessions.antt =====
-- The theorems about the socket, the scheduler, the session and the client at concrete inputs.
use native.Mathlib.Omega.{arith}
use mathlib.Core.List.{Sublist}
use sioxx.Prelude.{
  Bool, ℕ, ◌≡◌, ◌≢◌, ◌≤◌, ◌<◌, ◌+◌, refl, inl, true, false, Option, none, some, List, [], ◌∷◌, ◌++◌,
}
use sioxx.Prelude.Bytes.{Bytes, codes}
use sioxx.Prelude.Int.{pos}
use sioxx.Prelude.Map
use sioxx.Message.{Json, null, array, nil}
use sioxx.AckScheduler.{AckScheduler, empty, round, add}
use sioxx.AckScheduler.Invariant.{
  IsValid, RoundIs, round-RoundIs, adds, call, call-IsValid, empty-IsValid,
}
use sioxx.Packet.{Packet}
use sioxx.Socket.State.{make_socket}
use sioxx.Socket.Steps.{
  Op, emits, registers, emits_id, emits_timed, acks, expires, works, marks, flushes, closes, run,
}
use sioxx.Socket.AtMostOnce.{calls, calls-run-le}
use sioxx.Socket.Order.Buffer.{sent}
use sioxx.Socket.Threads as Threads
use sioxx.Socket.Threads.{Event, locks, hands, loses}
use sioxx.Socket.Threads.Count.{count, count-run-le}
use sioxx.Socket.Threads.Order.{offered_by, begin, waiting, sent-run-sublist}
use sioxx.EngineIoClient as EngineIo
use sioxx.EngineIoClient.{
  EngineIoClient, make_client, send, handle_transport_message, transport_sends, returns, terminates,
  on_frame, heartbeat_wakes, goes_on, timed_out, on_error, to_transport, transport_closes,
}
use sioxx.EngineIoClient.Session.{
  handle_transport_message-ne-terminates, heartbeat_wakes-after_ping,
}
use sioxx.JsonParser.Safety
use sioxx.JsonParser.Encode.{text_frame}
use sioxx.Client.State as ClientState
use sioxx.Client.State.{Client, ClientOptions, continues, deadlocks}
use sioxx.Client.Engine.{handle_engineio_close}
use sioxx.Client.Dispatch.{on_engineio_frame}
use sioxx.Client.Total.{on_engineio_frame-total}
use sioxx.Client.Attempts.{
  openings-run-le, openings, spare, run_from, engine_opens, engine_errors, engine_closes, wakes,
}
use sioxx.Client.Attempts as Attempts
use sioxx.Client.Reconnection.{handle_engineio_close-twice}

-- Two events wait for a connection, one with an ack that comes and one whose deadline passes.
abbrev ops : List Op
ops =
    registers (some 1)
    ∷ emits_id (codes "a") null 0
    ∷ emits_timed (codes "b") null (pos 5) (some 2) 0 1
    ∷ marks true
    ∷ emits (codes "c") null
    ∷ flushes 2
    ∷ works 5000000
    ∷ acks 0 (array nil) 3
    ∷ acks 0 (array nil) 4
    ∷ expires 1
    ∷ expires 1
    ∷ flushes 5000001
    ∷ closes
    ∷ []

calls-run-le_example : calls 0 (run (make_socket (codes "/") null) ops).1 ≤ 1
calls-run-le_example = calls-run-le (codes "/") null ops 0

-- An event is decided on and overtaken by nothing, and the sending of another one throws.
abbrev threads : List Event
threads =
    locks (emits (codes "a") null)
    ∷ locks (marks true)
    ∷ locks (flushes 0)
    ∷ locks (flushes 0)
    ∷ locks (emits (codes "b") null)
    ∷ hands 0
    ∷ loses 0
    ∷ []

sent-run-sublist_example :
    let w = begin (codes "/") null in
    Sublist
      (sent (Threads.run w threads).1 ++ waiting (Threads.run w threads).0)
      (offered_by w threads)
sent-run-sublist_example =
    sent-run-sublist (codes "/") null threads (tt, (tt, (tt, (tt, (tt, (refl, (tt, tt)))))))

-- Two threads emit, and the packet of the second is handed over first.
abbrev overtaking : List Event
overtaking =
    locks (marks true)
    ∷ locks (flushes 0)
    ∷ locks (emits (codes "a") null)
    ∷ locks (emits (codes "b") null)
    ∷ hands 1
    ∷ hands 0
    ∷ []

abbrev any_packet : Packet → Bool
any_packet _ = true

count-run-le_example :
    let w = begin (codes "/") null in
    count any_packet (sent (Threads.run w overtaking).1)
      + count any_packet (waiting (Threads.run w overtaking).0)
    ≤ count any_packet (offered_by w overtaking)
count-run-le_example = count-run-le any_packet (codes "/") null overtaking

abbrev two_deadlines : AckScheduler
two_deadlines = call (call empty (adds 1 9)) (adds 2 4)

one-IsValid : IsValid (call empty (adds 1 9))
unfolding Map.lookup
one-IsValid = call-IsValid empty (adds 1 9) refl empty-IsValid

call-IsValid_example : IsValid (call (call empty (adds 1 9)) (adds 2 4))
unfolding call add Map.insert Map.lookup
call-IsValid_example = call-IsValid (call empty (adds 1 9)) (adds 2 4) refl one-IsValid

round-RoundIs_example : RoundIs 5 two_deadlines (round 5 two_deadlines)
round-RoundIs_example = round-RoundIs 5 two_deadlines call-IsValid_example

abbrev parse : Bytes → Option Json
parse s = none

abbrev value_int : Bytes → ℕ → Json → Option ℕ
value_int key n j = some n

abbrev value_string : Bytes → Bytes → Json → Option Bytes
value_string key s j = some s

abbrev session : EngineIoClient
session = record make_client {
  transport = true;
  open_flag = true;
  heartbeat_stop_requested = false;
  heartbeat = true;
}

handle_transport_message-ne-terminates_example :
    handle_transport_message parse value_int value_string (codes "0{}") false 3 session ≢ terminates
handle_transport_message-ne-terminates_example =
    handle_transport_message-ne-terminates parse value_int value_string (codes "0{}") false 3
      session

heartbeat_wakes-after_ping_example :
    (d : EngineIoClient) × (es : List EngineIo.Effect) × (handle_transport_message parse value_int
        value_string
        (b'2' ∷ [])
        false
        7
        session
      ≡ returns d es)
    × (50000 ≤ 7 + (25000 + 20000) → heartbeat_wakes 50000 d ≡ goes_on)
    × (7 + (25000 + 20000) < 50000
        → heartbeat_wakes 50000 d
          ≡ timed_out
              (on_error (codes "engine.io ping timeout") ∷ to_transport session transport_closes))
unfolding EngineIo.heartbeat_runs
heartbeat_wakes-after_ping_example =
    heartbeat_wakes-after_ping parse value_int value_string [] b'2' 7 50000 session (inl refl) refl

abbrev client : Client
client =
    record (ClientState.make_client (record {
      force_http_polling = false;
      engineio_path = [];
      query = [];
      reconnect_attempts = 3;
    })) { engineio = some 0; next_engineio = 1 }

on_engineio_frame-total_example :
    (c' : Client) × (es : List ClientState.Effect) × (on_engineio_frame parse
        (text_frame (codes "0"))
        (λ n. n)
        0
        client
      ≡ some (c', es))
    × Safety.IsValid c'.decoder
on_engineio_frame-total_example =
    on_engineio_frame-total parse (text_frame (codes "0")) (λ n. n) 0 client refl

handle_engineio_close-twice_example :
    (c' : Client) × (es : List ClientState.Effect) × (handle_engineio_close 0
        (codes "server closed connection")
        client
      ≡ continues c' es)
    × (handle_engineio_close 0 (codes "gone") c' ≡ deadlocks)
handle_engineio_close-twice_example =
    handle_engineio_close-twice 0 (codes "server closed connection") (codes "gone") client refl refl
      refl (omega arith)

-- The WebSocket fails, the engine that polls closes, and the next one opens.
abbrev reports : List Attempts.Event
reports =
    engine_errors 0 false (codes "connect: refused")
    ∷ engine_closes 1 (codes "closed")
    ∷ wakes
    ∷ engine_opens 2
    ∷ Attempts.closes
    ∷ []

openings-run-le_example : openings (run_from reports (continues client [])) ≤ spare client
openings-run-le_example = openings-run-le client reports
