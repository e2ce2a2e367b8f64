-- ===== src/Socket/Flush.antt =====
-- src/socket.cpp: the loop that flushes the send buffer, and its fuel.
use sioxx.Prelude.{
  ℕ, suc, zero, ◌≤◌, ◌<◌, ◌≡◌, refl, Bool, true, false, Option, none, some, List, [], ◌∷◌, length,
  arith, inl, inr, if_cases, Bool-cases, Option-cases, not,
}
use mathlib.Core.Bool.{false≢true}
use sioxx.Prelude.Bytes.{Bytes}
use sioxx.Prelude.Map
use sioxx.Prelude.Map.{nat_key, is_some}
use sioxx.Packet.{Packet}
use sioxx.Socket.State.{Effect, Socket, keep_if, has_id}
use sioxx.Socket.Emission.{
  expire_ack, claim_timed_ack, send_front, flush_from, flush_round, flush_send_buffer,
  timed_expired, id_number,
}
use sioxx.Socket.Connection.{mark, mark_connected}

length-keep_if : (t : Packet → Bool) (ps : List Packet) → length (keep_if t ps) ≤ length ps
unfolding keep_if
length-keep_if t [] = omega arith
length-keep_if t (p ∷ ps) = elim (Bool-cases (t p)) [
  | inl e ↦ rw e (ground (arith, length-keep_if t ps))
  | inr e ↦ rw e (ground (arith, length-keep_if t ps))
]

claim_timed_ack-buffer :
    (id : ℕ) (s : Socket) → length (claim_timed_ack id s).send_buffer ≤ length s.send_buffer
unfolding claim_timed_ack
claim_timed_ack-buffer id s = length-keep_if (λ p. not (has_id id p)) s.send_buffer

expire_ack-buffer :
    (id : ℕ) (s : Socket) → length ((expire_ack id s).0).send_buffer ≤ length s.send_buffer
unfolding expire_ack
expire_ack-buffer id s = elim (Option-cases (Map.lookup id s.timed_acks)) [
  | inl n ↦ rw (n, expire_ack) (omega arith)
  | inr (callback, e) ↦ rw (e, expire_ack) (claim_timed_ack-buffer id s)
]

send_front-buffer :
    (b : Option Bool) (p : Packet) (s : Socket)
    → length ((send_front b p s).0).send_buffer ≤ length s.send_buffer
unfolding send_front
send_front-buffer none p s = omega arith
send_front-buffer (some true) p s = expire_ack-buffer (id_number p.id) s
send_front-buffer (some false) p s = omega arith

-- A round that goes on leaves a shorter buffer.
flush_from-buffer :
    (ps : List Packet) (now : ℕ) (s : Socket)
    → (flush_from ps now s).0 ≡ true
    → length ((flush_from ps now s).1).send_buffer < length ps
unfolding flush_from
flush_from-buffer [] now s h = ground arith
flush_from-buffer (p ∷ ps) now s h =
    let s' : Socket = record s { send_buffer = ps } in
    let k : length ((send_front (timed_expired p.id now s) p s').0).send_buffer ≤ length ps =
      send_front-buffer (timed_expired p.id now s) p s' in
    omega (arith, k)

flush_round-buffer :
    (now : ℕ) (s : Socket)
    → (flush_round now s).0 ≡ true
    → length ((flush_round now s).1).send_buffer < length s.send_buffer
unfolding flush_round
flush_round-buffer now s =
    if_cases (λ r. r.0 ≡ true → length (r.1).send_buffer < length s.send_buffer) s.connected
      (flush_from s.send_buffer now s) (false, record s { flushing_send_buffer = false }, [])
      (λ e h. flush_from-buffer s.send_buffer now s h) (λ e h. ground arith)

-- Fuel beyond the buffer's length is enough.
flush_send_buffer-total :
    (fuel : ℕ) (clock : ℕ → ℕ) (s : Socket)
    → length s.send_buffer < fuel
    → is_some (flush_send_buffer fuel clock s) ≡ true
unfolding flush_send_buffer
flush_send_buffer-total zero clock s h = ground arith
flush_send_buffer-total (suc fuel) clock s h = elim (Bool-cases (flush_round (clock fuel) s).0) [
  | inl e ↦
      let s' : Socket = (flush_round (clock fuel) s).1 in
      let k : length s'.send_buffer < length s.send_buffer = flush_round-buffer (clock fuel) s e in
      let i : is_some (flush_send_buffer fuel clock s') ≡ true =
        flush_send_buffer-total fuel clock s' (omega (arith, k, h)) in
      elim (Option-cases (flush_send_buffer fuel clock s')) [
        | inl n ↦ absurd (false≢true (rw n at i))
        | inr (r, m) ↦ rw (e, m, flush_send_buffer) refl
      ]
  | inr e ↦ rw (e, flush_send_buffer) refl
]

mark_connected-is_some :
    (connected : Bool) (reason : Bytes) (clock : ℕ → ℕ) (s : Socket)
    → is_some (mark_connected connected reason clock s) ≡ true
unfolding mark_connected
mark_connected-is_some connected reason clock s = elim (Bool-cases (mark connected s).1) [
  | inl e ↦
      let s' : Socket = (mark connected s).0 in
      let i : is_some (flush_send_buffer (suc (length s'.send_buffer)) clock s') ≡ true =
        flush_send_buffer-total (suc (length s'.send_buffer)) clock s' (omega arith) in
      elim (Option-cases (flush_send_buffer (suc (length s'.send_buffer)) clock s')) [
        | inl n ↦ absurd (false≢true (rw n at i))
        | inr (r, m) ↦ rw (e, m, mark_connected) refl
      ]
  | inr e ↦ rw (e, mark_connected) refl
]

-- `mark_connected` comes to its end, whatever the send buffer holds.
pub mark_connected-total :
    (connected : Bool) (reason : Bytes) (clock : ℕ → ℕ) (s : Socket)
    → (r : Socket × List Effect) × (mark_connected connected reason clock s ≡ some r)
mark_connected-total connected reason clock s =
    elim (Option-cases (mark_connected connected reason clock s)) [
      | inl n ↦ absurd (false≢true (rw n at (mark_connected-is_some connected reason clock s)))
      | inr r ↦ r
    ]
