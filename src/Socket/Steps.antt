-- ===== src/Socket/Steps.antt =====
-- src/socket.cpp as a machine: each step is one critical section under the socket's mutex, with what is
-- called behind it, so that a list of steps is an interleaving of the critical sections of the program's
-- threads. `emit` with a callback has two: it registers the id, and then sends or buffers.
use sioxx.Prelude.{ℕ, Bool, Option, some, List, [], ◌∷◌, ◌++◌, if◌then◌else◌}
use sioxx.Prelude.Bytes.{Bytes}
use sioxx.Prelude.Int.{ℤ, pos}
use sioxx.Message.{Json}
use sioxx.AckScheduler.{Round, claims}
use sioxx.Socket.State.{Callback, Effect, Socket}
use sioxx.Socket.Emission.{
  Emitted, emitted, emit, event_packet, register_ack, send_or_buffer, emit_timed, expire_ack,
  flush_round,
}
use sioxx.Socket.Acks.{dispatch_ack, cancel_timed_acks, resume_timed_acks, scheduler_round}
use sioxx.Socket.Connection.{close, mark}

pub data Op : Type 0 where
  emits : Bytes → Json → Op
  registers : Callback → Op
  emits_id : Bytes → Json → ℕ → Op
  emits_timed : Bytes → Json → ℤ → Callback → (now later : ℕ) → Op
  acks : ℕ → Json → (now : ℕ) → Op
  expires : ℕ → Op
  works : (now : ℕ) → Op
  marks : Bool → Op
  flushes : (now : ℕ) → Op
  closes cancels resumes : Op

-- An exception leaves the socket as it is.
abbrev pub after_emit : Socket → Emitted → Socket × List Effect
after_emit s (emitted s' es) = (s', es)
after_emit s _ = (s, [])

-- The scheduler's worker takes an id off, and will call `expire_ack` with it.
abbrev pub after_round : Socket → Option Round → Socket
after_round s (some (claims id a)) = record s { ack_scheduler = some a }
after_round s _ = s

-- One round of the flush, which is under way only where the flag is set.
abbrev pub flush_step : ℕ → Socket → Socket × List Effect
flush_step now s =
    let (_, s', es) = flush_round now s in if s.flushing_send_buffer then (s', es) else (s, [])

unfoldable pub step : Socket → Op → Socket × List Effect
step s (emits name body) = emit name body s
step s (registers callback) = (register_ack callback s, [])
step s (emits_id name body id) = send_or_buffer (event_packet s.nsp name body (pos id)) s
step s (emits_timed name body ms callback now later) =
    after_emit s (emit_timed name body ms callback now later s)
step s (acks id body now) = dispatch_ack id body now s
step s (expires id) = expire_ack id s
step s (works now) = (after_round s (scheduler_round now s), [])
step s (marks connected) = ((mark connected s).0, [])
step s (flushes now) = flush_step now s
step s closes = close s
step s cancels = (cancel_timed_acks s, [])
step s resumes = (resume_timed_acks s, [])

unfoldable pub run : Socket → List Op → Socket × List Effect
run s [] = (s, [])
run s (o ∷ os) = let (s', es) = step s o in let (s'', es') = run s' os in (s'', es ++ es')
