-- ===== src/WebsocketTransport/Notices.antt =====
-- src/websocket_transport.cpp: which handlers are called, how often and until when.
use sioxx.Prelude.{ℕ, ◌+◌, ◌≤◌, ◌≡◌, refl, Bool, Option, none, some, List, [], ◌∷◌, ◌++◌, arith}
use sioxx.Prelude.Bytes.{Bytes}
use sioxx.Transport.{on_open, on_close, on_message, on_error}
use sioxx.WebsocketTransport.State.{
  Operation, Completion, Effect, notifies, starts, writes, cancels_resolver, stops_context, throws,
  terminates, closes_stream, Task, starts_connection, queues, shuts_down, WebsocketTransport, fail,
}
use sioxx.WebsocketTransport.Connect.{start, connect, complete}
use sioxx.WebsocketTransport.Write.{
  pump_write_queue, queue_write, on_write, shutdown_on_io_thread, close, destroy,
}
use sioxx.WebsocketTransport.Steps.{
  World, initial, Event, connects, sends, closes, runs, completes, wrote, joins, destroys, started,
  run_next, take_at, complete_taken, complete_write, step, run,
}
use sioxx.WebsocketTransport.Counts.{
  opens, closings, opening, reading, total, Spends, complete-Spends, starting, starting-append,
  take_at-total, connections, StepSpends, settle-Spends,
}

queue_write-Spends :
    (p : Bytes) (b : Bool) (w : WebsocketTransport) → Spends 0 0 (queue_write p b w).1
unfolding queue_write pump_write_queue
queue_write-Spends p b w = ground arith

on_write-Spends :
    (tls : Bool) (ec : Option Bytes) (w : WebsocketTransport) → Spends 0 0 (on_write tls ec w).1
unfolding on_write pump_write_queue fail
on_write-Spends tls ec w = ground arith

shutdown-Spends : (w : WebsocketTransport) → Spends 0 0 (shutdown_on_io_thread w).1
unfolding shutdown_on_io_thread
shutdown-Spends w = ground arith

connect-Spends :
    (url : Bytes) (w : WebsocketTransport)
    → (opens (connect url w).1
          + total opening (started (connect url w).1)
          + starting (connect url w).2
        ≤ 1)
      × (closings (connect url w).1 + total reading (started (connect url w).1) ≡ 0)
unfolding connect start
connect-Spends url w = ground arith

close-Spends :
    (on_io_thread : Bool) (w : WebsocketTransport)
    → (opens (close on_io_thread w).1
          + total opening (started (close on_io_thread w).1)
          + starting (close on_io_thread w).2
        ≡ 0)
      × (closings (close on_io_thread w).1 + total reading (started (close on_io_thread w).1) ≡ 0)
unfolding close shutdown_on_io_thread
close-Spends on_io_thread w = ground arith

destroy-Spends : (w : WebsocketTransport) → Spends 0 0 (destroy w).1
unfolding destroy
destroy-Spends w = ground arith

run_next-Spends : (x : World) (ts : List Task) → x.posted ≡ ts → StepSpends 0 x (run_next ts x)
unfolding start
run_next-Spends x [] e = omega arith
run_next-Spends x (starts_connection tls ∷ ts) e =
    settle-Spends x x.outstanding ts [] 0 0 1 0 x.transport (start tls x.transport) x.writing
      (omega arith) (omega arith) (rw e (omega arith)) (omega arith) (omega arith)
run_next-Spends x (queues p b ∷ ts) e =
    let r = queue_write p b x.transport in
    let (s, c) = queue_write-Spends p b x.transport in
    settle-Spends x x.outstanding ts [] 0 0 0 0 r.0 r.1 x.writing (omega arith) (omega arith)
      (rw e (omega arith)) (s, c) (omega (arith, s))
run_next-Spends x (shuts_down ∷ ts) e =
    let r = shutdown_on_io_thread x.transport in
    let (s, c) = shutdown-Spends x.transport in
    settle-Spends x x.outstanding ts [] 0 0 0 0 r.0 r.1 x.writing (omega arith) (omega arith)
      (rw e (omega arith)) (s, c) (omega (arith, s))

completes-Spends :
    (x : World) (n : ℕ) (r : Completion)
    → StepSpends 0 x (complete_taken (take_at n x.outstanding) r x)
completes-Spends x n r = go (take_at n x.outstanding) refl
  where
    go :
        (taken : Option (Operation × List Operation))
        → take_at n x.outstanding ≡ taken
        → StepSpends 0 x (complete_taken taken r x)
    go none e = omega arith
    go (some (op, ops)) e =
        let z = complete op r x.transport in
        let (s, c) = complete-Spends op r x.transport in
        settle-Spends x ops x.posted [] (opening op) (reading op) 0 0 z.0 z.1 x.writing
          (take_at-total opening n x.outstanding e) (take_at-total reading n x.outstanding e)
          (omega arith) (omega (arith, s), c) (omega (arith, s))

wrote-Spends :
    (x : World) (ts : List Bool) (ec : Option Bytes) → StepSpends 0 x (complete_write ts ec x)
wrote-Spends x [] ec = omega arith
wrote-Spends x (tls ∷ rest) ec =
    let r = on_write tls ec x.transport in
    let (s, c) = on_write-Spends tls ec x.transport in
    settle-Spends x x.outstanding x.posted [] 0 0 0 0 r.0 r.1 rest (omega arith) (omega arith)
      (omega arith) (s, c) (omega (arith, s))

step-Spends : (x : World) (e : Event) → StepSpends (connections e) x (step x e)
unfolding step
step-Spends x (connects url) =
    let r = connect url x.transport in
    let (s, c) = connect-Spends url x.transport in
    settle-Spends x x.outstanding x.posted r.2 0 0 0 1 r.0 r.1 x.writing (omega arith) (omega arith)
      (omega arith) (omega (arith, s), omega (arith, c)) (omega (arith, s))
step-Spends x (sends p b) = omega (arith, starting-append x.posted (queues p b ∷ []))
step-Spends x (closes on_io_thread) =
    let r = close on_io_thread x.transport in
    let (s, c) = close-Spends on_io_thread x.transport in
    settle-Spends x x.outstanding x.posted r.2 0 0 0 0 r.0 r.1 x.writing (omega arith) (omega arith)
      (omega arith) (omega (arith, s), omega (arith, c)) (omega (arith, s))
step-Spends x runs = run_next-Spends x x.posted refl
step-Spends x (completes n r) = completes-Spends x n r
step-Spends x (wrote ec) = wrote-Spends x x.writing ec
step-Spends x joins = omega arith
step-Spends x destroys =
    let r = destroy x.transport in
    let (s, c) = destroy-Spends x.transport in
    settle-Spends x x.outstanding x.posted [] 0 0 0 0 r.0 r.1 x.writing (omega arith) (omega arith)
      (omega arith) (s, c) (omega (arith, s))

opens-append : (es fs : List Effect) → opens (es ++ fs) ≡ opens es + opens fs
opens-append [] fs = omega arith
opens-append (notifies on_open ∷ es) fs = omega (arith, opens-append es fs)
opens-append (notifies (on_message p b) ∷ es) fs = opens-append es fs
opens-append (notifies (on_close m) ∷ es) fs = opens-append es fs
opens-append (notifies (on_error m) ∷ es) fs = opens-append es fs
opens-append (starts op ∷ es) fs = opens-append es fs
opens-append (writes tls p b ∷ es) fs = opens-append es fs
opens-append (cancels_resolver ∷ es) fs = opens-append es fs
opens-append (stops_context ∷ es) fs = opens-append es fs
opens-append (throws ∷ es) fs = opens-append es fs
opens-append (terminates ∷ es) fs = opens-append es fs
opens-append (closes_stream tls ∷ es) fs = opens-append es fs

closings-append : (es fs : List Effect) → closings (es ++ fs) ≡ closings es + closings fs
closings-append [] fs = omega arith
closings-append (notifies on_open ∷ es) fs = closings-append es fs
closings-append (notifies (on_message p b) ∷ es) fs = closings-append es fs
closings-append (notifies (on_close m) ∷ es) fs = omega (arith, closings-append es fs)
closings-append (notifies (on_error m) ∷ es) fs = closings-append es fs
closings-append (starts op ∷ es) fs = closings-append es fs
closings-append (writes tls p b ∷ es) fs = closings-append es fs
closings-append (cancels_resolver ∷ es) fs = closings-append es fs
closings-append (stops_context ∷ es) fs = closings-append es fs
closings-append (throws ∷ es) fs = closings-append es fs
closings-append (terminates ∷ es) fs = closings-append es fs
closings-append (closes_stream tls ∷ es) fs = closings-append es fs

abbrev pub connections_of : List Event → ℕ
connections_of [] = 0
connections_of (e ∷ es) = connections e + connections_of es

run-Spends : (x : World) (es : List Event) → StepSpends (connections_of es) x (run x es)
unfolding run
run-Spends x [] = omega arith
run-Spends x (e ∷ es) =
    let x' = (step x e).0 in
    omega (
      arith,
      step-Spends x e,
      run-Spends x' es,
      opens-append (step x e).1 (run x' es).1,
      closings-append (step x e).1 (run x' es).1,
    )

-- The open handler is called at most once for each call of `connect`, and the close handler at most
-- once for each call of the open handler.
pub opens-run-le :
    (owned_ioc : Bool) (es : List Event)
    → let r = run (initial owned_ioc) es in
      (opens r.1 ≤ connections_of es) × (closings r.1 ≤ opens r.1)
unfolding initial
opens-run-le owned_ioc es = omega (arith, run-Spends (initial owned_ioc) es)
