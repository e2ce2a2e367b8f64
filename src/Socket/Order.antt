-- ===== src/Socket/Order.antt =====
-- src/socket.cpp: the order in which events leave.
pub mod Buffer
use mathlib.Core.List.{Sublist, sublist-append_left}
use mathlib.Core.List.Sublist
use sioxx.Prelude.{
  ℕ, suc, zero, ◌≡◌, refl, inl, inr, Bool, true, false, Option, none, some, List, [], ◌∷◌, ◌++◌,
  arith, if◌then◌else◌, Bool-cases, Option-cases, if_intro, if_cases, append_assoc, append-nil,
}
use sioxx.Prelude.Bytes.{Bytes}
use sioxx.Prelude.Int.{ℤ, pos, negsuc}
use sioxx.Prelude.Map
use sioxx.Prelude.Map.{nat_key}
use sioxx.Message.{Json}
use sioxx.Packet.{PacketType, event, Packet}
use sioxx.AckScheduler
use sioxx.AckScheduler.{AckScheduler, Round, claims}
use sioxx.Socket.State.{Callback, Effect, sends, make_socket, Socket, send_packet, keep_if}
use sioxx.Socket.Emission.{
  is_buffering, buffer, event_packet, send_or_buffer, emit, emit_ack, emit_timed, emit_timed_valid,
  register_timed_ack, scheduler_expired, send_timed, claim_timed_ack, finish_timed_ack, expire_ack,
  timed_expired, send_front, flush_from, flush_round, id_number, deadline_of,
}
use sioxx.Socket.Acks.{
  answer_timed, answer_pending, dispatch_ack, cancel_timed_acks, resume_timed_acks, scheduler_round,
}
use sioxx.Socket.Connection.{close, mark}
use sioxx.Socket.Steps.{
  Op, emits, emits_id, registers, emits_timed, acks, expires, works, marks, flushes, closes,
  cancels, resumes, after_emit, after_round, flush_step, step, run,
}
use sioxx.Socket.Order.Buffer.{
  offered, sent-append, IsDrained, InOrder, keep_if-sublist, keep_if_empty, quiet,
  send_packet-sublist, send_or_buffer-InOrder, refused, emit_timed-InOrder, expire_ack-InOrder,
  dispatch_ack-InOrder,
}

busy : (s : Socket) → s.flushing_send_buffer ≡ true → is_buffering s ≡ true
busy s f = ground arith

IsDrained-of_busy : (s : Socket) → s.flushing_send_buffer ≡ true → IsDrained s
IsDrained-of_busy s f d = cc (busy s f)

within :
    (s : Socket) (p : Packet) (ps qs : List Packet)
    → s.send_buffer ≡ p ∷ ps
    → Sublist qs (p ∷ ps)
    → Sublist qs (s.send_buffer ++ [])
within s p ps qs e l = rw (append-nil s.send_buffer, e) l

-- While the flag is set, the front of the buffer may leave.
send_front-InOrder :
    (o : Option Bool) (p : Packet) (ps : List Packet) (s : Socket)
    → s.send_buffer ≡ p ∷ ps
    → s.flushing_send_buffer ≡ true
    → InOrder s [] (send_front o p (record s { send_buffer = ps }))
unfolding send_front
send_front-InOrder none p ps s e f = (
  IsDrained-of_busy (record s { send_buffer = ps }) f,
  within s p ps ps e (Sublist.cons p (Sublist.refl ps)),
)
send_front-InOrder (some true) p ps s e f =
    let s' = record s { send_buffer = ps } in
    let (d, l) = expire_ack-InOrder (id_number p.id) s' (IsDrained-of_busy s' f) in
    (d, within s p ps _ e (Sublist.cons p (rw (append-nil ps) at l)))
send_front-InOrder (some false) p ps s e f =
    let s' = record s { send_buffer = ps } in
    (
      IsDrained-of_busy s' f,
      within s p ps _ e (Sublist.append (send_packet-sublist s' p) (Sublist.refl ps)),
    )

flush_from-InOrder :
    (ps : List Packet) (now : ℕ) (s : Socket)
    → s.send_buffer ≡ ps
    → s.flushing_send_buffer ≡ true
    → InOrder s [] ((flush_from ps now s).1, (flush_from ps now s).2)
unfolding flush_from
flush_from-InOrder [] now s e f =
    quiet s (record s { flushing_send_buffer = false }) (λ _ _. e) (Sublist.refl s.send_buffer)
      (IsDrained-of_busy s f)
flush_from-InOrder (p ∷ ps) now s e f = send_front-InOrder (timed_expired p.id now s) p ps s e f

flush_round-InOrder :
    (now : ℕ) (s : Socket)
    → s.flushing_send_buffer ≡ true
    → InOrder s [] ((flush_round now s).1, (flush_round now s).2)
unfolding flush_round
flush_round-InOrder now s f =
    let off = record s { flushing_send_buffer = false } in
    if_cases (λ r. InOrder s [] (r.1, r.2)) s.connected (flush_from s.send_buffer now s)
      (false, off, []) (λ _. flush_from-InOrder s.send_buffer now s refl f)
      (λ c. quiet s off (λ _ d. cc) (Sublist.refl s.send_buffer) (IsDrained-of_busy s f))

flush_step-InOrder : (now : ℕ) (s : Socket) → IsDrained s → InOrder s [] (flush_step now s)
flush_step-InOrder now s h =
    if_cases (InOrder s []) s.flushing_send_buffer ((flush_round now s).1, (flush_round now s).2)
      (s, []) (flush_round-InOrder now s) (λ _. refused s h)

works-InOrder : (s : Socket) (o : Option Round) → IsDrained s → InOrder s [] (after_round s o, [])
works-InOrder s none h = refused s h
works-InOrder s (some (claims i a)) h = refused s h
works-InOrder s (some _) h = refused s h

mark-InOrder : (c : Bool) (s : Socket) → IsDrained s → InOrder s [] ((mark c s).0, [])
unfolding mark
mark-InOrder c s h = quiet s (mark c s).0 (λ d e. d (ground arith)) (Sublist.refl s.send_buffer) h

close-InOrder : (s : Socket) → IsDrained s → InOrder s [] (close s)
unfolding close
close-InOrder s h =
    let off = record s { connected = false } in
    let kept : InOrder s [] (off, []) = quiet s off (λ _ e. cc) (Sublist.refl s.send_buffer) h in
    if_intro (λ es. InOrder s [] (off, es)) s.client _ [] kept kept

pub step-InOrder : (s : Socket) (o : Op) → IsDrained s → InOrder s (offered s o) (step s o)
unfolding step
step-InOrder s (emits name body) h = unfold emit in send_or_buffer-InOrder _ s h
step-InOrder s (registers c) h = refused s h
step-InOrder s (emits_id name body id) h = send_or_buffer-InOrder _ s h
step-InOrder s (emits_timed name body ms c now later) h =
    emit_timed-InOrder s name body ms c now later h
step-InOrder s (acks id body now) h = dispatch_ack-InOrder id body now s h
step-InOrder s (expires id) h = expire_ack-InOrder id s h
step-InOrder s (works now) h = works-InOrder s (scheduler_round now s) h
step-InOrder s (marks c) h = mark-InOrder c s h
step-InOrder s (flushes now) h = flush_step-InOrder now s h
step-InOrder s closes h = close-InOrder s h
step-InOrder s cancels h =
    unfold cancel_timed_acks in
    quiet s (cancel_timed_acks s) (λ d e. keep_if_empty _ s.send_buffer (d e))
      (keep_if-sublist _ s.send_buffer) h
step-InOrder s resumes h = unfold resume_timed_acks in refused s h
