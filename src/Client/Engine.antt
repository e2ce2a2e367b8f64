-- ===== src/Client/Engine.antt =====
-- src/client.cpp: the client's engines: connecting, the fallback to polling, closing and reconnecting.
-- The delay of an attempt is no part of the model.
use sioxx.Prelude.{
  ℕ, suc, Bool, true, false, Option, none, some, List, [], ◌∷◌, ◌++◌, if◌then◌else◌, ltb, leb, ◌==◌,
  ◌&&◌, ◌||◌, not,
}
use sioxx.Prelude.Bytes.{Bytes, codes}
use sioxx.Prelude.Map.{Map}
use sioxx.EngineIoUrl.{build_engineio_url}
use sioxx.Socket.State.{Socket}
use sioxx.Socket.Acks.{resume_timed_acks, cancel_timed_acks}
use sioxx.Socket.Connection.{mark, notify_change, send_connect, close}
use sioxx.Client.State.{
  Worker, absent, left, waits, Effect, opened, failed, reconnecting, reports, closed, errors,
  reconnects, opens, Client, Result, continues, throws, deadlocks, from_all,
}

abbrev pub resume_all : Map Bytes Socket → Map Bytes Socket
resume_all [] = []
resume_all ((nsp, s) ∷ m) = (nsp, resume_timed_acks s) ∷ resume_all m

-- A new engine, which becomes the current one unless the client is closed.
unfoldable pub ensure_engineio : Client → Client × Option ℕ
ensure_engineio c =
    let engine = c.next_engineio in
    let c' = record c { next_engineio = suc engine } in
    if c.intentional_close then (c', none) else (record c' { engineio = some engine }, some engine)

abbrev pub engine_url : Client → Bytes → Option Bytes
engine_url c uri =
    build_engineio_url uri c.options.engineio_path c.options.query
      (if c.using_polling then codes "polling" else codes "websocket")

-- `engineio->open(url)`, where `none` is the exception of `build_engineio_url`.
abbrev pub open_engine : Client → Option ℕ → Option Bytes → List Effect → Result
open_engine c none url es = continues c es
open_engine c (some engine) none es = throws c es
open_engine c (some engine) (some url) es = continues c (es ++ opens engine url ∷ [])

-- `ensure_engineio`, then `open` at the URI.
unfoldable pub open_at : Bytes → List Effect → Client → Result
open_at uri es c =
    let (c', engine) = ensure_engineio c in open_engine c' engine (engine_url c' uri) es

-- A closed client's waiting worker returns, and is joined.
unfoldable pub connect : Bytes → Client → Result
connect uri c = open_at uri [] (record c {
  reconnect_thread = if c.intentional_close then absent else c.reconnect_thread;
  base_uri = uri;
  intentional_close = false;
  sockets = resume_all c.sockets;
  using_polling = c.options.force_http_polling;
  reconnect_attempts_used = 0;
})

unfoldable pub activate_polling_fallback : Client → Result
activate_polling_fallback c =
    if c.intentional_close || c.using_polling
    then continues c []
    else open_at c.base_uri
        (errors (codes "WebSocket connection failed; switching to HTTP long-polling") ∷ [])
        (record c { using_polling = true })

abbrev pub then_effect : Effect → Result → Result
then_effect e (continues c es) = continues c (es ++ e ∷ [])
then_effect e (throws c es) = throws c es
then_effect e deadlocks = deadlocks

unfoldable pub is_current : ℕ → Client → Bool
is_current engine c = elim c.engineio [ none ↦ false | some e ↦ e == engine ]

-- `is_open` is that of the engine that reports.
unfoldable pub handle_engineio_error : ℕ → Bool → Bytes → Client → Result
handle_engineio_error engine is_open msg c =
    if not (is_current engine c)
    then continues c []
    else then_effect (errors msg)
        (if not c.using_polling && not is_open then activate_polling_fallback c else continues c [])

-- `connect` of every namespace's socket.
abbrev pub connect_all : Map Bytes Socket → List Effect
connect_all [] = []
connect_all ((nsp, s) ∷ m) = from_all nsp (send_connect s) ++ connect_all m

unfoldable pub handle_engineio_open : ℕ → Client → Result
handle_engineio_open engine c =
    if is_current engine c
    then continues c (connect_all c.sockets ++ opened ∷ [])
    else continues c []

-- `mark_connected(false)` of every namespace's socket.
abbrev pub disconnect_all : Map Bytes Socket → Map Bytes Socket
disconnect_all [] = []
disconnect_all ((nsp, s) ∷ m) = (nsp, (mark false s).0) ∷ disconnect_all m

abbrev pub disconnect_notices : Map Bytes Socket → List Effect
disconnect_notices [] = []
disconnect_notices ((nsp, s) ∷ m) = from_all nsp (notify_change false [] s) ++ disconnect_notices m

-- The thread that runs is joined under `reconnect_mutex_`, which the end of its wait needs.
abbrev pub start_worker : Client → List Effect → Worker → Result
start_worker c es (waits uri) = deadlocks
start_worker c es _ = continues (record c { reconnect_thread = waits c.base_uri }) es

unfoldable pub schedule_reconnect : Client → List Effect → Result
schedule_reconnect c es =
    let attempt = c.reconnect_attempts_used in
    let c' = record c { reconnect_attempts_used = suc attempt } in
    let es' = es ++ reconnects attempt ∷ [] in
    if leb c.options.reconnect_attempts attempt
    then continues c (es ++ failed ∷ [])
    else if c.intentional_close
    then continues c' es'
    else start_worker c' es' c.reconnect_thread

unfoldable pub on_engineio_close : Bytes → Client → Result
on_engineio_close reason c =
    let c' = record c { sockets = disconnect_all c.sockets } in
    let es = disconnect_notices c.sockets ++ closed reason ∷ [] in
    if not c.intentional_close && ltb 0 c.options.reconnect_attempts
    then schedule_reconnect c' es
    else continues c' es

unfoldable pub handle_engineio_close : ℕ → Bytes → Client → Result
handle_engineio_close engine reason c =
    if is_current engine c then on_engineio_close reason c else continues c []

-- An exception of the reconnecting thread is reported.
abbrev pub caught : Result → Result
caught (throws c es) = continues c (es ++ reports ∷ [])
caught r = r

-- The end of the worker's wait.
unfoldable pub wake : Worker → Client → Result
wake (waits uri) c =
    let c' = record c { reconnect_thread = left } in
    if c.intentional_close then continues c' [] else caught (open_at uri (reconnecting ∷ []) c')
wake _ c = continues c []

-- The part of `close` that concerns the sockets; closing the engine follows it.
abbrev pub close_all : Map Bytes Socket → Map Bytes Socket × List Effect
close_all [] = ([], [])
close_all ((nsp, s) ∷ m) =
    let s' = cancel_timed_acks s in
    let (m', es) = close_all m in
    let (s'', sent) = close s' in
    if s'.connected then ((nsp, s'') ∷ m', from_all nsp sent ++ es) else ((nsp, s') ∷ m', es)

unfoldable pub close_client : Client → Client × List Effect
close_client c =
    let (m, es) = close_all c.sockets in (record c { intentional_close = true; sockets = m }, es)
