-- ===== src/Socket/Emission.antt =====
-- src/socket.cpp: `emit` in its three forms, the send buffer and its flush.
use sioxx.Prelude.{
  ℕ, suc, zero, ◌+◌, ◌-◌, ◌*◌, ◌/◌, ◌^◌, Bool, true, false, Option, none, some, List, [], ◌∷◌, ◌++◌,
  if◌then◌else◌, leb, not, ◌||◌,
}
use sioxx.Prelude.Bytes.{Bytes}
use sioxx.Prelude.Int.{ℤ, pos, negsuc}
use sioxx.Prelude.Map
use sioxx.Prelude.Map.{nat_key}
use sioxx.Message.{Json, null, string, array, nil, cons}
use sioxx.Packet.{Packet, event, default_packet}
use sioxx.AckScheduler
use sioxx.AckScheduler.{AckScheduler}
use sioxx.Socket.State.{
  Callback, Effect, calls_timed, faults, timeout, Socket, send_packet, has_id, keep_if,
}

-- The payload of an event: its name, then the arguments.
abbrev pub event_body : Bytes → Json → Json
event_body name (array vs) = array (cons (string name) vs)
event_body name null = array (cons (string name) nil)
event_body name v = array (cons (string name) (cons v nil))

abbrev pub event_packet : Bytes → Bytes → Json → ℤ → Packet
event_packet nsp name body id = record default_packet {
  type = event;
  nsp = nsp;
  id = id;
  body = event_body name body;
}

abbrev pub is_buffering : Socket → Bool
is_buffering s = not s.connected || s.flushing_send_buffer

abbrev pub buffer : Packet → Socket → Socket
buffer p s = record s { send_buffer = s.send_buffer ++ p ∷ [] }

-- The critical section, and what follows it: in Threads others may come between the two.
unfoldable pub send_or_buffer : Packet → Socket → Socket × List Effect
send_or_buffer p s = if is_buffering s then (buffer p s, []) else (s, send_packet s p)

unfoldable pub emit : Bytes → Json → Socket → Socket × List Effect
emit name body s = send_or_buffer (event_packet s.nsp name body (negsuc 0)) s

-- The critical section of `emit` with a callback; `next_ack_id_` is taken to stay within `int`.
abbrev pub register_ack : Callback → Socket → Socket
register_ack callback s = record s {
  next_ack_id = suc s.next_ack_id;
  pending_acks = Map.insert s.next_ack_id callback s.pending_acks;
}

-- `emit` with a callback, where no other thread takes part.
unfoldable pub emit_ack : Bytes → Json → Callback → Socket → Socket × List Effect
emit_ack name body callback s =
    send_or_buffer (event_packet s.nsp name body (pos s.next_ack_id)) (register_ack callback s)

-- Times are nanoseconds; this is `time_point::max()`.
abbrev pub max_time : ℕ
max_time = 2 ^ 63 - 1

abbrev pub ns_per_ms : ℕ
ns_per_ms = 1000000

-- The deadline at the timeout in milliseconds, saturating at the end of time.
unfoldable pub deadline_of : ℕ → ℕ → ℕ
deadline_of now ms =
    if leb ((max_time - now) / ns_per_ms) ms then max_time else now + ms * ns_per_ms

-- Returns, or throws before anything has changed.
pub data Emitted : Type 0 where
  invalid_argument logic_error : Emitted
  emitted : Socket → List Effect → Emitted

abbrev pub or_new : Option AckScheduler → AckScheduler
or_new none = AckScheduler.empty
or_new (some a) = a

-- `register_timed_ack` where timed acks are not closed: the id is `next_ack_id`.
unfoldable pub register_timed_ack : ℕ → ℕ → Socket → Socket
register_timed_ack deadline callback s = record s {
  ack_scheduler = some (AckScheduler.add s.next_ack_id deadline (or_new s.ack_scheduler));
  next_ack_id = suc s.next_ack_id;
  timed_acks = Map.insert s.next_ack_id callback s.timed_acks;
}

-- `ack_scheduler_->expired(id)`; `none` is the null pointer.
unfoldable pub scheduler_expired : ℕ → ℕ → Socket → Option Bool
scheduler_expired id now s = elim s.ack_scheduler [
  | none ↦ none
  | some a ↦ some (AckScheduler.expired id now a)
]

-- The end of the timed `emit`: an event whose deadline has passed already is left to the worker.
unfoldable pub send_timed : Option Bool → Packet → Socket → Socket × List Effect
send_timed none p s = (s, faults ∷ [])
send_timed (some true) p s = (s, [])
send_timed (some false) p s = send_or_buffer p s

abbrev pub as_emitted : Socket × List Effect → Emitted
as_emitted (s, es) = emitted s es

-- `now` is the time at the call, `later` the time under the lock.
unfoldable pub emit_timed_valid : Bytes → Json → ℕ → ℕ → ℕ → ℕ → Socket → Emitted
emit_timed_valid name body ms callback now later s =
    let id = s.next_ack_id in
    let s' = register_timed_ack (deadline_of now ms) callback s in
    if s.timed_acks_closed
    then logic_error
    else as_emitted
        (send_timed (scheduler_expired id later s') (event_packet s.nsp name body (pos id)) s')

unfoldable pub emit_timed : Bytes → Json → ℤ → Callback → ℕ → ℕ → Socket → Emitted
emit_timed name body (pos (suc ms)) (some callback) now later s =
    emit_timed_valid name body (suc ms) callback now later s
emit_timed name body _ _ now later s = invalid_argument

-- `invoke_timed_ack` with a callback that returns or throws: `active_timed_acks_` is lowered again.
abbrev pub finish_timed_ack : Socket → Socket
finish_timed_ack s = record s { active_timed_acks = s.active_timed_acks - 1 }

-- The critical section of `expire_ack`: the callback is claimed, and the event leaves the buffer.
unfoldable pub claim_timed_ack : ℕ → Socket → Socket
claim_timed_ack id s = record s {
  timed_acks = Map.erase id s.timed_acks;
  active_timed_acks = suc s.active_timed_acks;
  send_buffer = keep_if (λ p. not (has_id id p)) s.send_buffer;
}

unfoldable pub expire_ack : ℕ → Socket → Socket × List Effect
expire_ack id s = elim (Map.lookup id s.timed_acks) [
  | none ↦ (s, [])
  | some callback ↦
      (finish_timed_ack (claim_timed_ack id s), calls_timed id callback timeout null ∷ [])
]

-- `timed_acks_.count(packet.id) && ack_scheduler_->expired(packet.id)`
unfoldable pub timed_expired : ℤ → ℕ → Socket → Option Bool
timed_expired (negsuc n) now s = some false
timed_expired (pos id) now s = elim (Map.lookup id s.timed_acks) [
  | none ↦ some false
  | some _ ↦ scheduler_expired id now s
]

unfoldable pub id_number : ℤ → ℕ
id_number (pos n) = n
id_number (negsuc n) = 0

unfoldable pub send_front : Option Bool → Packet → Socket → Socket × List Effect
send_front none p s = (s, faults ∷ [])
send_front (some true) p s = expire_ack (id_number p.id) s
send_front (some false) p s = (s, send_packet s p)

unfoldable pub flush_from : List Packet → ℕ → Socket → Bool × Socket × List Effect
flush_from [] now s = (false, record s { flushing_send_buffer = false }, [])
flush_from (p ∷ ps) now s =
    let s' = record s { send_buffer = ps } in
    let (s'', es) = send_front (timed_expired p.id now s) p s' in (true, s'', es)

-- One round of the loop of `flush_send_buffer`: whether it goes on.
unfoldable pub flush_round : ℕ → Socket → Bool × Socket × List Effect
flush_round now s =
    if s.connected
    then flush_from s.send_buffer now s
    else (false, record s { flushing_send_buffer = false }, [])

-- The loop where no other thread takes part and every `send_packet` returns; `clock` gives the time of each round. `none` is out of fuel.
unfoldable pub flush_send_buffer : ℕ → (ℕ → ℕ) → Socket → Option (Socket × List Effect)
flush_send_buffer zero clock s = none
flush_send_buffer (suc fuel) clock s =
    let (more, s', es) = flush_round (clock fuel) s in
    let rest : Option (Socket × List Effect) = elim (flush_send_buffer fuel clock s') [
      | none ↦ none
      | some (s'', es') ↦ some (s'', es ++ es')
    ] in
    if more then rest else some (s', es)
