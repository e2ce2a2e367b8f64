-- ===== src/WebsocketTransport/Silence.antt =====
-- src/websocket_transport.cpp: the transport once it is closing.
use sioxx.Prelude.{
  ◌≡◌, refl, ◌∙◌, Bool, true, Option, none, some, List, [], ◌∷◌, ◌++◌, arith, if_cases,
}
use sioxx.Prelude.Bytes.{Bytes}
use sioxx.Transport.{Notice}
use sioxx.WebsocketTransport.State.{
  Operation, Completion, Effect, notifies, starts, writes, cancels_resolver, stops_context, throws,
  terminates, closes_stream, Task, starts_connection, queues, shuts_down, WebsocketTransport,
}
use sioxx.WebsocketTransport.Connect.{start, connect, complete, dispatch}
use sioxx.WebsocketTransport.Write.{
  queue_write, on_write, shutdown_on_io_thread, close, join_io_thread, destroy,
}
use sioxx.WebsocketTransport.Steps.{
  World, Event, connects, sends, closes, runs, completes, wrote, joins, destroys, run_task,
  run_next, take_at, complete_taken, complete_write, step, run,
}

abbrev pub notices : List Effect → List Notice
notices [] = []
notices (notifies n ∷ es) = n ∷ notices es
notices (_ ∷ es) = notices es

-- It stays closing, and no handler is called.
abbrev IsSilent : WebsocketTransport → List Effect → Type 0
IsSilent w es = (w.is_closing ≡ true) × (notices es ≡ [])

connect-IsSilent :
    (url : Bytes) (w : WebsocketTransport)
    → w.is_closing ≡ true
    → IsSilent (connect url w).0 (connect url w).1
unfolding connect
connect-IsSilent url w c = ground arith

run_task-IsSilent :
    (t : Task) (w : WebsocketTransport)
    → w.is_closing ≡ true
    → IsSilent (run_task t w).0 (run_task t w).1
unfolding start queue_write shutdown_on_io_thread
run_task-IsSilent (starts_connection tls) w c = (c, refl)
run_task-IsSilent (queues p b) w c = ground arith
run_task-IsSilent shuts_down w c = ground arith

run_next-IsSilent :
    (ts : List Task) (x : World)
    → x.transport.is_closing ≡ true
    → IsSilent (run_next ts x).0.transport (run_next ts x).1
run_next-IsSilent [] x c = (c, refl)
run_next-IsSilent (t ∷ ts) x c = run_task-IsSilent t x.transport c

complete-IsSilent :
    (op : Operation) (r : Completion) (w : WebsocketTransport)
    → w.is_closing ≡ true
    → IsSilent (complete op r w).0 (complete op r w).1
unfolding complete
complete-IsSilent op r w c =
    if_cases (λ z. IsSilent z.0 z.1) w.is_closing (w, []) (dispatch op r w) (λ h. (c, refl))
      (λ h. ground arith)

complete_taken-IsSilent :
    (taken : Option (Operation × List Operation)) (r : Completion) (x : World)
    → x.transport.is_closing ≡ true
    → IsSilent (complete_taken taken r x).0.transport (complete_taken taken r x).1
complete_taken-IsSilent none r x c = (c, refl)
complete_taken-IsSilent (some (op, ops)) r x c = complete-IsSilent op r x.transport c

on_write-IsSilent :
    (tls : Bool) (ec : Option Bytes) (w : WebsocketTransport)
    → w.is_closing ≡ true
    → IsSilent (on_write tls ec w).0 (on_write tls ec w).1
unfolding on_write
on_write-IsSilent tls none w c = ground arith
on_write-IsSilent tls (some ec) w c = ground arith

complete_write-IsSilent :
    (ts : List Bool) (ec : Option Bytes) (x : World)
    → x.transport.is_closing ≡ true
    → IsSilent (complete_write ts ec x).0.transport (complete_write ts ec x).1
complete_write-IsSilent [] ec x c = (c, refl)
complete_write-IsSilent (tls ∷ rest) ec x c = on_write-IsSilent tls ec x.transport c

close-IsSilent :
    (on_io_thread : Bool) (w : WebsocketTransport)
    → w.is_closing ≡ true
    → IsSilent (close on_io_thread w).0 (close on_io_thread w).1
unfolding close shutdown_on_io_thread
close-IsSilent on_io_thread w c = ground arith

step-IsSilent :
    (x : World) (e : Event)
    → x.transport.is_closing ≡ true
    → IsSilent (step x e).0.transport (step x e).1
unfolding step join_io_thread destroy
step-IsSilent x (connects url) c = connect-IsSilent url x.transport c
step-IsSilent x (sends p b) c = (c, refl)
step-IsSilent x (closes on_io_thread) c = close-IsSilent on_io_thread x.transport c
step-IsSilent x runs c = run_next-IsSilent x.posted x c
step-IsSilent x (completes n r) c = complete_taken-IsSilent (take_at n x.outstanding) r x c
step-IsSilent x (wrote ec) c = complete_write-IsSilent x.writing ec x c
step-IsSilent x joins c = ground arith
step-IsSilent x destroys c = ground arith

notices-append : (es fs : List Effect) → notices es ≡ [] → notices (es ++ fs) ≡ notices fs
notices-append [] fs e = refl
notices-append (notifies n ∷ es) fs e = cc
notices-append (starts op ∷ es) fs e = notices-append es fs e
notices-append (writes tls p b ∷ es) fs e = notices-append es fs e
notices-append (cancels_resolver ∷ es) fs e = notices-append es fs e
notices-append (stops_context ∷ es) fs e = notices-append es fs e
notices-append (throws ∷ es) fs e = notices-append es fs e
notices-append (terminates ∷ es) fs e = notices-append es fs e
notices-append (closes_stream tls ∷ es) fs e = notices-append es fs e

-- Once the transport is closing, no handler is called any more, whatever arrives, completes or is
-- called, and the transport never leaves this state.
pub run-IsSilent :
    (x : World) (es : List Event)
    → x.transport.is_closing ≡ true
    → ((run x es).0.transport.is_closing ≡ true) × (notices (run x es).1 ≡ [])
unfolding run
run-IsSilent x [] c = (c, refl)
run-IsSilent x (e ∷ es) c =
    let (c', quiet) = step-IsSilent x e c in
    let (c'', rest) = run-IsSilent (step x e).0 es c' in
    (c'', notices-append (step x e).1 (run (step x e).0 es).1 quiet ∙ rest)
