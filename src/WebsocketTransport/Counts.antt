-- ===== src/WebsocketTransport/Counts.antt =====
-- src/websocket_transport.cpp: the calls of the handlers and the operations that lead to them.
use sioxx.Prelude.{
  ℕ, zero, suc, ◌+◌, ◌≤◌, ◌≡◌, inl, inr, Bool, some, List, [], ◌∷◌, ◌++◌, arith, Option-cases,
  if_intro,
}
use sioxx.Transport.{on_open, on_close}
use sioxx.WebsocketTransport.State.{
  Operation, resolves, tcp_connects, proxy_writes, proxy_reads, ssl_handshakes, handshakes, reads,
  Completion, Effect, notifies, Task, starts_connection, queues, shuts_down, WebsocketTransport,
  fail,
}
use sioxx.WebsocketTransport.Connect.{
  complete, dispatch, on_resolve, on_tcp_connect, on_proxy_write, on_proxy_read, on_ssl_handshake,
  on_handshake, on_read,
}
use sioxx.WebsocketTransport.Steps.{World, Event, connects, started, settle, take_at}

abbrev pub opens : List Effect → ℕ
opens [] = 0
opens (notifies on_open ∷ es) = suc (opens es)
opens (_ ∷ es) = opens es

abbrev pub closings : List Effect → ℕ
closings [] = 0
closings (notifies (on_close reason) ∷ es) = suc (closings es)
closings (_ ∷ es) = closings es

-- Operations in front of the opening, and those that read.
abbrev pub opening : Operation → ℕ
opening (reads tls) = 0
opening _ = 1

abbrev pub reading : Operation → ℕ
reading (reads tls) = 1
reading _ = 0

abbrev pub total : (Operation → ℕ) → List Operation → ℕ
total f [] = 0
total f (op ∷ ops) = f op + total f ops

-- The effects spend no more than `a` openings and `b` reads.
abbrev pub Spends : ℕ → ℕ → List Effect → Type 0
Spends a b es =
    (opens es + total opening (started es) ≤ a)
    × (closings es + total reading (started es) ≤ b + opens es)

dispatch-Spends :
    (op : Operation) (r : Completion) (w : WebsocketTransport)
    → Spends (opening op) (reading op) (dispatch op r w).1
unfolding on_resolve on_tcp_connect on_proxy_write on_proxy_read on_ssl_handshake on_handshake
    on_read fail
dispatch-Spends (resolves tls host port) r w = ground arith
dispatch-Spends (tcp_connects tls) r w = ground arith
dispatch-Spends (proxy_writes tls d a) r w = ground arith
dispatch-Spends (proxy_reads tls) r w = ground arith
dispatch-Spends ssl_handshakes r w = ground arith
dispatch-Spends (handshakes tls host target hs) r w = ground arith
dispatch-Spends (reads tls) r w = ground arith

pub complete-Spends :
    (op : Operation) (r : Completion) (w : WebsocketTransport)
    → Spends (opening op) (reading op) (complete op r w).1
unfolding complete
complete-Spends op r w =
    if_intro (λ z. Spends (opening op) (reading op) z.1) w.is_closing (w, []) (dispatch op r w)
      (ground arith) (dispatch-Spends op r w)

total-append :
    (f : Operation → ℕ) (ops ops' : List Operation)
    → total f (ops ++ ops') ≡ total f ops + total f ops'
total-append f [] ops' = omega arith
total-append f (op ∷ ops) ops' = omega (arith, total-append f ops ops')

abbrev pub starting : List Task → ℕ
starting [] = 0
starting (starts_connection tls ∷ ts) = suc (starting ts)
starting (_ ∷ ts) = starting ts

pub starting-append : (ts ts' : List Task) → starting (ts ++ ts') ≡ starting ts + starting ts'
starting-append [] ts' = omega arith
starting-append (starts_connection tls ∷ ts) ts' = omega (arith, starting-append ts ts')
starting-append (queues p b ∷ ts) ts' = starting-append ts ts'
starting-append (shuts_down ∷ ts) ts' = starting-append ts ts'

pub take_at-total :
    (f : Operation → ℕ) (n : ℕ) (ops : List Operation) {op : Operation} {rest : List Operation}
    → take_at n ops ≡ some (op, rest)
    → total f ops ≡ f op + total f rest
take_at-total f zero (o ∷ ops) e = ground arith
take_at-total f (suc n) (o ∷ ops) {op} {rest} e = elim (Option-cases (take_at n ops)) [
  | inl h ↦ ground arith
  | inr ((b, bs), h) ↦ ground (arith, take_at-total f n ops h)
]
take_at-total f n [] e = cc

abbrev pre : World → ℕ
pre x = total opening x.outstanding + starting x.posted

abbrev readers : World → ℕ
readers x = total reading x.outstanding

abbrev pub connections : Event → ℕ
connections (connects url) = 1
connections _ = 0

abbrev pub StepSpends : ℕ → World → World × List Effect → Type 0
StepSpends n x (x', es) =
    (opens es + pre x' ≤ pre x + n) × (closings es + readers x' ≤ readers x + opens es)

-- A step that takes an operation and a posted function away, and settles.
pub settle-Spends :
    (x : World) (ops : List Operation) (ts more : List Task) (a b c n : ℕ) (w : WebsocketTransport)
    (es : List Effect) (writing : List Bool)
    → total opening x.outstanding ≡ a + total opening ops
    → total reading x.outstanding ≡ b + total reading ops
    → starting x.posted ≡ c + starting ts
    → Spends (a + c + n) b es
    → opens es + total opening (started es) + starting more ≤ a + c + n
    → StepSpends n x (
      settle
          (record { transport = w; outstanding = ops; posted = ts; writing = writing })
          w
          es
          more,
      es,
    )
settle-Spends x ops ts more a b c n w es writing o r s p q = omega (
  arith,
  total-append opening ops (started es),
  total-append reading ops (started es),
  starting-append ts more,
  o,
  r,
  s,
  p,
  q,
)
