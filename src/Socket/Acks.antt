-- ===== src/Socket/Acks.antt =====
-- src/socket.cpp: acknowledgements that arrive, and the shutdown of timed ones.
use sioxx.Prelude.{ℕ, Bool, true, false, Option, none, some, List, [], ◌∷◌, if◌then◌else◌, not}
use sioxx.Prelude.Int.{pos, negsuc}
use sioxx.Prelude.Map
use sioxx.Prelude.Map.{nat_key, is_some}
use sioxx.Message.{Json, null}
use sioxx.Packet.{Packet}
use sioxx.AckScheduler
use sioxx.AckScheduler.{AckScheduler}
use sioxx.Socket.State.{
  Callback, AckStatus, acknowledged, timeout, Effect, calls_ack, calls_timed, faults, Socket,
  keep_if,
}
use sioxx.Socket.Emission.{claim_timed_ack, finish_timed_ack}

abbrev status_of : Bool → AckStatus
status_of true = timeout
status_of false = acknowledged

-- A timed callback that the acknowledgement claims; past its deadline it hears of a timeout.
unfoldable pub answer_timed : Option AckScheduler → ℕ → ℕ → Json → ℕ → Socket → Socket × List Effect
answer_timed none id callback body now s = (s, faults ∷ [])
answer_timed (some a) id callback body now s =
    let (a', expired) = AckScheduler.remove id now a in
    (
      finish_timed_ack (claim_timed_ack id (record s { ack_scheduler = some a' })),
      calls_timed id callback (status_of expired) (if expired then null else body) ∷ [],
    )

abbrev call_ack : ℕ → Callback → Json → List Effect
call_ack id none body = []
call_ack id (some callback) body = calls_ack id callback body ∷ []

unfoldable pub answer_pending : ℕ → Json → Socket → Socket × List Effect
answer_pending id body s = elim (Map.lookup id s.pending_acks) [
  | none ↦ (s, [])
  | some callback ↦
      (record s { pending_acks = Map.erase id s.pending_acks }, call_ack id callback body)
]

unfoldable pub dispatch_ack : ℕ → Json → ℕ → Socket → Socket × List Effect
dispatch_ack id body now s = elim (Map.lookup id s.timed_acks) [
  | none ↦ answer_pending id body s
  | some callback ↦ answer_timed s.ack_scheduler id callback body now s
]

-- `timed_acks_.count(buffered.id) != 0`
abbrev pub is_timed : Socket → Packet → Bool
is_timed s p = elim p.id [ pos n ↦ is_some (Map.lookup n s.timed_acks) | negsuc n ↦ false ]

abbrev clear_scheduler : Option AckScheduler → Option AckScheduler
clear_scheduler none = none
clear_scheduler (some a) = some (AckScheduler.clear a)

unfoldable pub cancel_timed_acks : Socket → Socket
cancel_timed_acks s = record s {
  timed_acks_closed = true;
  ack_scheduler = clear_scheduler s.ack_scheduler;
  send_buffer = keep_if (λ p. not (is_timed s p)) s.send_buffer;
  timed_acks = [];
}

unfoldable pub resume_timed_acks : Socket → Socket
resume_timed_acks s = record s { timed_acks_closed = false }

-- The worker of the scheduler: a round claims an id and calls `expire_ack`, in two critical sections;
-- this is the first.
unfoldable pub scheduler_round : ℕ → Socket → Option AckScheduler.Round
scheduler_round now s = elim s.ack_scheduler [
  | none ↦ none
  | some a ↦ some (AckScheduler.round now a)
]
