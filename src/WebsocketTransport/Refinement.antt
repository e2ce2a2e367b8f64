-- ===== src/WebsocketTransport/Refinement.antt =====
-- src/websocket_transport.cpp: the transport as an implementation of the channel.
use mathlib.Core.Bool.{false≢true}
use sioxx.Prelude.{
  ◌≡◌, refl, sym, ap, ◌∙◌, inl, inr, Bool, true, false, Option, none, some, List, [], ◌∷◌, ◌++◌,
  arith, Bool-cases, if_intro, if_cases, append_assoc, append-nil,
}
use sioxx.Prelude.Bytes.{Bytes}
use sioxx.Transport.{closing}
use sioxx.Transport.Channel.{
  Channel, in_order, stays_shut, still, Follows, Follows-nothing, Channel-Follows,
}
use sioxx.WebsocketTransport.State.{
  Entry, Operation, Completion, Effect, notifies, starts, writes, cancels_resolver, stops_context,
  throws, terminates, closes_stream, Task, starts_connection, queues, shuts_down,
  WebsocketTransport, make_transport,
}
use sioxx.WebsocketTransport.Connect.{start, connect, complete}
use sioxx.WebsocketTransport.Write.{shutdown_on_io_thread, close, join_io_thread, destroy}
use sioxx.WebsocketTransport.Steps.{
  World, initial, Event, connects, sends, closes, runs, completes, wrote, joins, destroys, started,
  writes_of, settle, settled_posting, run_next, take_at, complete_taken, complete_write, step, run,
}
use sioxx.WebsocketTransport.Quiet.{
  delivered, complete-IsQuiet, start-IsQuiet, connect-IsQuiet, unchanged-IsQuiet,
}
use sioxx.WebsocketTransport.Flow.{
  unsent, queued, held, accepted, has_shutdown, AtMostOne, IsOrdered, Refines, queued-append,
  has_shutdown-append, quiet-Refines, closing-Refines,
}
use sioxx.WebsocketTransport.Fifo.{run_queues-Refines, on_write-Refines}

connect_posts :
    (url : Bytes) (w : WebsocketTransport)
    → (queued (connect url w).2 ≡ []) × (has_shutdown (connect url w).2 ≡ false)
unfolding connect
connect_posts url w = ground arith

connects-Refines : (x : World) (url : Bytes) → IsOrdered x → Refines x [] (step x (connects url))
unfolding step
connects-Refines x url v =
    let r = connect url x.transport in
    let (q, s) = connect_posts url x.transport in
    quiet-Refines x r.0 r.1 (x.posted ++ r.2) (x.outstanding ++ started r.1) v
      (connect-IsQuiet url x.transport)
      (queued-append x.posted r.2 ∙ ap (λ l. queued x.posted ++ l) q ∙ append-nil (queued x.posted))
      (λ h. has_shutdown-append x.posted r.2 h s)

sends-Refines :
    (x : World) (p : Bytes) (b : Bool)
    → IsOrdered x
    → Refines x ((some p, b) ∷ []) (step x (sends p b))
unfolding step
sends-Refines x p b (one, flows) =
    let posted = x.posted ++ queues p b ∷ [] in
    let posts : queued posted ≡ queued x.posted ++ (some p, b) ∷ [] =
      queued-append x.posted (queues p b ∷ []) in
    (
      (one, λ c. ((flows c).0, has_shutdown-append x.posted (queues p b ∷ []) ((flows c).1) refl)),
      elim (Bool-cases x.transport.is_closing) [
        | inl c ↦ simp c stays_shut
        | inr c ↦
            simp (c, posts)
              (in_order (
                append_assoc (unsent x.transport.write_queue) (queued x.posted) ((some p, b) ∷ [])))
      ],
    )

shutdown-writes :
    (w : WebsocketTransport)
    → (delivered (shutdown_on_io_thread w).1 ≡ []) × (writes_of (shutdown_on_io_thread w).1 ≡ [])
unfolding shutdown_on_io_thread
shutdown-writes w = ground arith

destroy-writes :
    (w : WebsocketTransport) → (delivered (destroy w).1 ≡ []) × (writes_of (destroy w).1 ≡ [])
unfolding destroy
destroy-writes w = ground arith

-- Nothing joins the writes that are outstanding.
same-writing :
    (writing more : List Bool) → more ≡ [] → AtMostOne writing → AtMostOne (writing ++ more)
same-writing writing more e one = rw (e, append-nil writing) one

close-Refines :
    (x : World) (on_io_thread : Bool) → IsOrdered x → Refines x [] (step x (closes on_io_thread))
unfolding step close shutdown_on_io_thread
close-Refines x on_io_thread (one, flows) =
    let w = x.transport in
    let w' : WebsocketTransport = record w {
      shutdown_once = true;
      is_closing = true;
      state = closing;
    } in
    let down = shutdown_on_io_thread w' in
    if_intro (λ z. Refines x [] (settled_posting x z)) w.shutdown_once (w, [], []) _
      (quiet-Refines x w [] (x.posted ++ []) (x.outstanding ++ []) (one, flows)
        (unchanged-IsQuiet w) (ap queued (append-nil x.posted)) (λ h. rw (append-nil x.posted) h))
      (if_intro (λ z. Refines x [] (settled_posting x z)) on_io_thread (down.0, down.1, [])
        (w', [], shuts_down ∷ [])
        (closing-Refines x (settle x down.0 down.1 []) [] down.1 refl ((shutdown-writes w').0)
          (same-writing x.writing (writes_of down.1) ((shutdown-writes w').1) one))
        (closing-Refines x (settle x w' [] (shuts_down ∷ [])) [] [] refl refl
          (rw (append-nil x.writing) one)))

run_next-Refines :
    (x : World) (ts : List Task) → x.posted ≡ ts → IsOrdered x → Refines x [] (run_next ts x)
unfolding shutdown_on_io_thread
run_next-Refines x [] e v = (v, still (held x))
run_next-Refines x (starts_connection tls ∷ ts) e v =
    quiet-Refines x x.transport (start tls x.transport) (ts ++ [])
      (x.outstanding ++ started (start tls x.transport)) v (start-IsQuiet tls x.transport)
      (ap queued (append-nil ts) ∙ sym (ap queued e)) (λ h. rw (append-nil ts) (rw e at h))
run_next-Refines x (queues p b ∷ ts) e v = run_queues-Refines x p b ts e v
run_next-Refines x (shuts_down ∷ ts) e (one, flows) =
    let w = x.transport in
    let r = shutdown_on_io_thread w in
    elim (Bool-cases w.is_closing) [
      | inl c ↦
          closing-Refines x (settle (record x { posted = ts }) r.0 r.1 []) [] r.1 c
            ((shutdown-writes w).0)
            (same-writing x.writing (writes_of r.1) ((shutdown-writes w).1) one)
      | inr c ↦ absurd (false≢true (sym (rw e at ((flows c).1))))
    ]

completes-Refines :
    (x : World) (taken : Option (Operation × List Operation)) (r : Completion)
    → IsOrdered x
    → Refines x [] (complete_taken taken r x)
completes-Refines x none r v = (v, still (held x))
completes-Refines x (some (op, ops)) r v =
    let z = complete op r x.transport in
    quiet-Refines x z.0 z.1 (x.posted ++ []) (ops ++ started z.1) v
      (complete-IsQuiet op r x.transport) (ap queued (append-nil x.posted))
      (λ h. rw (append-nil x.posted) h)

wrote-Refines :
    (x : World) (ts : List Bool) (ec : Option Bytes)
    → x.writing ≡ ts
    → IsOrdered x
    → Refines x [] (complete_write ts ec x)
wrote-Refines x [] ec e v = (v, still (held x))
wrote-Refines x (tls ∷ rest) ec e v = on_write-Refines x tls rest ec e v

join_io_thread-closing :
    (w : WebsocketTransport) → w.is_closing ≡ true → (join_io_thread w).is_closing ≡ true
unfolding join_io_thread
join_io_thread-closing w c = ground arith

joins-Refines : (x : World) → IsOrdered x → Refines x [] (step x joins)
unfolding step
joins-Refines x (one, flows) =
    let w = x.transport in
    if_cases (λ z. Refines x [] (record x { transport = z }, [])) w.is_closing (join_io_thread w) w
      (λ c.
        closing-Refines x (record x { transport = join_io_thread w }) [] []
          (join_io_thread-closing w c) refl one)
      (λ c. ((one, flows), still (held x)))

destroys-Refines : (x : World) → IsOrdered x → Refines x [] (step x destroys)
unfolding step destroy
destroys-Refines x (one, flows) =
    let r = destroy x.transport in
    closing-Refines x (settle x r.0 r.1 []) [] r.1 refl ((destroy-writes x.transport).0)
      (same-writing x.writing (writes_of r.1) ((destroy-writes x.transport).1) one)

-- Every step of the transport is one of the channel that holds what waits in the queue and in the
-- strand: it delivers from the front what was accepted first, or shuts the channel for ever. It keeps at
-- most one write outstanding, as Boost requires.
pub step-Refines :
    (x : World) (e : Event)
    → IsOrdered x
    → IsOrdered (step x e).0
      × Channel (held x) (accepted e) (delivered (step x e).1) (held (step x e).0)
unfolding step
step-Refines x (connects url) v = connects-Refines x url v
step-Refines x (sends p b) v = sends-Refines x p b v
step-Refines x (closes on_io_thread) v = close-Refines x on_io_thread v
step-Refines x runs v = run_next-Refines x x.posted refl v
step-Refines x (completes n r) v = completes-Refines x (take_at n x.outstanding) r v
step-Refines x (wrote ec) v = wrote-Refines x x.writing ec refl v
step-Refines x joins v = joins-Refines x v
step-Refines x destroys v = destroys-Refines x v

abbrev pub accepted_by : List Event → List Entry
accepted_by [] = []
accepted_by (e ∷ es) = accepted e ++ accepted_by es

delivered-append : (es fs : List Effect) → delivered (es ++ fs) ≡ delivered es ++ delivered fs
delivered-append [] fs = refl
delivered-append (writes tls p b ∷ es) fs = ap (λ l. (p, b) ∷ l) (delivered-append es fs)
delivered-append (notifies n ∷ es) fs = delivered-append es fs
delivered-append (starts op ∷ es) fs = delivered-append es fs
delivered-append (cancels_resolver ∷ es) fs = delivered-append es fs
delivered-append (stops_context ∷ es) fs = delivered-append es fs
delivered-append (throws ∷ es) fs = delivered-append es fs
delivered-append (terminates ∷ es) fs = delivered-append es fs
delivered-append (closes_stream tls ∷ es) fs = delivered-append es fs

run-Follows :
    (x : World) (es : List Event)
    → IsOrdered x
    → IsOrdered (run x es).0 × Follows (held x) (accepted_by es) (delivered (run x es).1)
unfolding run
run-Follows x [] v = (v, Follows-nothing (held x))
run-Follows x (e ∷ es) v =
    let (v', c) = step-Refines x e v in
    let (v'', f) = run-Follows (step x e).0 es v' in
    (
      v'',
      rw (delivered-append (step x e).1 (run (step x e).0 es).1)
          (Channel-Follows (accepted_by es) (delivered (run (step x e).0 es).1) c f),
    )

initial-IsOrdered : (owned_ioc : Bool) → IsOrdered (initial owned_ioc)
unfolding initial make_transport
initial-IsOrdered owned_ioc = (tt, λ _. ((tt, refl), refl))

-- Whatever happens and in whatever order, the messages that are given to Boost are the first ones of
-- those that were sent, in the order of sending, each once and whole, and never two at a time.
pub delivered-run-prefix :
    (owned_ioc : Bool) (es : List Event)
    → let r = run (initial owned_ioc) es in
      ((rest : List Entry) × (accepted_by es ≡ delivered r.1 ++ rest)) × AtMostOne r.0.writing
unfolding initial make_transport
delivered-run-prefix owned_ioc es =
    let (v, f) = run-Follows (initial owned_ioc) es (initial-IsOrdered owned_ioc) in (f, v.0)
