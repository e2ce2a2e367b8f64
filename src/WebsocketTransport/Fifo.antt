-- ===== src/WebsocketTransport/Fifo.antt =====
-- src/websocket_transport.cpp: the write queue as a channel that keeps the order of the messages.
use sioxx.Prelude.{
  ◌≡◌, refl, sym, ap, ◌∙◌, Bool, true, false, Option, none, some, List, [], ◌∷◌, ◌++◌,
  if◌then◌else◌, if_cases, append_assoc, append-nil,
}
use sioxx.Prelude.Bytes.{Bytes, codes}
use sioxx.Transport.Channel.{in_order}
use sioxx.WebsocketTransport.State.{
  Entry, Operation, Effect, Task, queues, WebsocketTransport, fail, fail_with,
}
use sioxx.WebsocketTransport.Write.{pop_front, pump_write_queue, queue_write, on_write}
use sioxx.WebsocketTransport.Steps.{World, started, writes_of, settle, settled}
use sioxx.WebsocketTransport.Quiet.{delivered}
use sioxx.WebsocketTransport.Flow.{
  unsent, queued, held, has_shutdown, IsWhole, Flows, AtMostOne, IsOrdered, Refines, unsent-append,
  unsent_whole, IsWhole-append, Pumps, pump-Pumps, closing-Refines, Flows-append, Flows-idle,
  Flows-AtMostOne,
}

-- A world after a pump that was given a whole queue.
pumped-Refines :
    (x : World) (q : List Entry) (w : WebsocketTransport) (es : List Effect) (ts : List Task)
    (ops : List Operation)
    → x.transport.is_closing ≡ false
    → held x ≡ some (q ++ queued ts)
    → has_shutdown ts ≡ false
    → Pumps q (w, es)
    → Refines x []
        (record { transport = w; posted = ts ++ []; outstanding = ops; writing = writes_of es }, es)
pumped-Refines x q w es ts ops c e n (flows, split, c') =
    rw (append-nil ts, e, c', n)
      (
        (
          Flows-AtMostOne (writes_of es) w.write_queue w.write_in_progress flows,
          λ _. (flows, refl),
        ),
        in_order (
            append-nil (q ++ queued ts)
            ∙ ap (λ l. l ++ queued ts) split
            ∙ append_assoc (delivered es) (unsent w.write_queue) (queued ts)),
      )

-- A message joins the queue behind a write that is outstanding.
join-Refines :
    (x : World) (w : WebsocketTransport) (p : Bytes) (b : Bool) (ts : List Task)
    (ops : List Operation)
    → x.posted ≡ queues p b ∷ ts
    → x.transport.is_closing ≡ false
    → Flows x.writing x.transport.write_queue true
    → has_shutdown ts ≡ false
    → w.is_closing ≡ false
    → w.write_in_progress ≡ true
    → w.write_queue ≡ x.transport.write_queue ++ (some p, b) ∷ []
    → Refines x [] (
      record { transport = w; posted = ts ++ []; outstanding = ops; writing = x.writing ++ [] },
      [],
    )
join-Refines x w p b ts ops e c f n c' g q =
    let entry : Entry = (some p, b) in
    let one : AtMostOne x.writing = Flows-AtMostOne x.writing x.transport.write_queue true f in
    rw (append-nil ts, append-nil x.writing, e, c, c', g, q)
      (
        (one, λ _. (Flows-append x.writing x.transport.write_queue p b f, n)),
        in_order (
            append-nil (unsent x.transport.write_queue ++ entry ∷ queued ts)
            ∙ sym (append_assoc (unsent x.transport.write_queue) (entry ∷ []) (queued ts))
            ∙ ap (λ l. l ++ queued ts) (sym (unsent-append x.transport.write_queue (entry ∷ [])))),
      )

held-queues :
    (x : World) (p : Bytes) (b : Bool) (ts : List Task)
    → x.posted ≡ queues p b ∷ ts
    → x.transport.is_closing ≡ false
    → IsWhole x.transport.write_queue
    → held x ≡ some ((x.transport.write_queue ++ (some p, b) ∷ []) ++ queued ts)
held-queues x p b ts e c h =
    let q = x.transport.write_queue in
    rw (e, c)
      (ap (λ l. some (l ++ (some p, b) ∷ queued ts)) (unsent_whole q h)
        ∙ ap some (sym (append_assoc q ((some p, b) ∷ []) (queued ts))))

pub run_queues-Refines :
    (x : World) (p : Bytes) (b : Bool) (ts : List Task)
    → x.posted ≡ queues p b ∷ ts
    → IsOrdered x
    → Refines x [] (settled (record x { posted = ts }) (queue_write p b x.transport))
unfolding queue_write
run_queues-Refines x p b ts e (one, flows) =
    let w = x.transport in
    let y : World = record x { posted = ts } in
    let w' : WebsocketTransport = record w {
      write_queue = w.write_queue ++ (some p, b) ∷ [];
      write_in_progress = true;
    } in
    if_cases (λ r. Refines x [] (settled y r)) w.is_closing (w, [])
      (if w.write_in_progress then (w', []) else pump_write_queue w.url.tls w')
      (λ c. closing-Refines x (settle y w [] []) [] [] c refl (rw (append-nil x.writing) one))
      (λ c.
        let n : has_shutdown ts ≡ false = rw e at ((flows c).1) in
        if_cases (λ r. Refines x [] (settled y r)) w.write_in_progress (w', [])
          (pump_write_queue w.url.tls w')
          (λ g.
            join-Refines x w' p b ts (x.outstanding ++ []) e c (rw g at ((flows c).0)) n c refl
              refl)
          (λ g.
            let (idle, whole) = Flows-idle x.writing w.write_queue (rw g at ((flows c).0)) in
            let r = pump_write_queue w.url.tls w' in
            rw idle (
              pumped-Refines x w'.write_queue r.0 r.1 ts (x.outstanding ++ started r.1) c
                (held-queues x p b ts e c whole) n
                (pump-Pumps w.url.tls w' c
                  (IsWhole-append w.write_queue ((some p, b) ∷ []) whole tt) refl))))

-- While a write is outstanding, the front of the queue is its entry.
Flows-front :
    (t : Bool) (rest : List Bool) (q : List Entry) (progress : Bool)
    → Flows (t ∷ rest) q progress
    → (rest ≡ []) × IsWhole (pop_front q) × (unsent q ≡ pop_front q) × (progress ≡ true)
Flows-front t [] ((none, b) ∷ q) progress (h, e) = (refl, h, unsent_whole q h, e)
Flows-front t [] ((some p, b) ∷ q) progress h = absurd h
Flows-front t [] [] progress h = absurd h
Flows-front t (t' ∷ ts) q progress h = absurd h

AtMostOne-rest : (t : Bool) (rest : List Bool) → AtMostOne (t ∷ rest) → rest ≡ []
AtMostOne-rest t [] h = refl
AtMostOne-rest t (t' ∷ ts) h = absurd h

failed-Pumps :
    (what : Bytes) (q : List Entry) (w : WebsocketTransport)
    → w.is_closing ≡ false
    → IsWhole q
    → w.write_queue ≡ q
    → Pumps q (record (fail what w).0 { write_in_progress = false }, (fail what w).1)
unfolding fail
failed-Pumps what q w c h e = rw (c, e) ((h, refl), sym (unsent_whole q h), refl)

-- The world after the completion of a write, once its entry is popped.
popped-Refines :
    (x : World) (tls : Bool) (rest : List Bool) (r : WebsocketTransport × List Effect)
    → x.writing ≡ tls ∷ rest
    → IsOrdered x
    → x.transport.is_closing ≡ false
    → Pumps (pop_front x.transport.write_queue) r
    → Refines x [] (settled (record x { writing = rest }) r)
popped-Refines x tls rest r e (one, flows) c h =
    let q = x.transport.write_queue in
    let (empty, whole, front, busy) =
      Flows-front tls rest q x.transport.write_in_progress (rw e at ((flows c).0)) in
    rw empty (
      pumped-Refines x (pop_front q) r.0 r.1 x.posted (x.outstanding ++ started r.1) c
        (rw c (ap (λ l. some (l ++ queued x.posted)) front)) ((flows c).1) h)

pub on_write-Refines :
    (x : World) (tls : Bool) (rest : List Bool) (ec : Option Bytes)
    → x.writing ≡ tls ∷ rest
    → IsOrdered x
    → Refines x [] (settled (record x { writing = rest }) (on_write tls ec x.transport))
unfolding on_write
on_write-Refines x tls rest none e (one, flows) =
    let w = x.transport in
    let y : World = record x { writing = rest } in
    let w' : WebsocketTransport = record w { write_queue = pop_front w.write_queue } in
    if_cases (λ r. Refines x [] (settled y r)) w.is_closing (w, []) (pump_write_queue tls w')
      (λ c.
        closing-Refines x (settle y w [] []) [] [] c refl
          (rw (AtMostOne-rest tls rest (rw e at one)) tt))
      (λ c.
        let front =
          Flows-front tls rest w.write_queue w.write_in_progress (rw e at ((flows c).0)) in
        popped-Refines x tls rest (pump_write_queue tls w') e (one, flows) c
          (pump-Pumps tls w' c front.1 front.3))
on_write-Refines x tls rest (some ec) e (one, flows) =
    let w = x.transport in
    let y : World = record x { writing = rest } in
    let w' : WebsocketTransport = record w { write_queue = pop_front w.write_queue } in
    let f = fail_with (codes "write") ec w' in
    let r : WebsocketTransport × List Effect = (record f.0 { write_in_progress = false }, f.1) in
    if_cases (λ r. Refines x [] (settled y r)) w.is_closing (w, []) r
      (λ c.
        closing-Refines x (settle y w [] []) [] [] c refl
          (rw (AtMostOne-rest tls rest (rw e at one)) tt))
      (λ c.
        let front =
          Flows-front tls rest w.write_queue w.write_in_progress (rw e at ((flows c).0)) in
        popped-Refines x tls rest r e (one, flows) c
          (failed-Pumps (codes "write" ++ (codes ": " ++ ec)) (pop_front w.write_queue) w' c front.1
            refl))
