-- ===== src/Socket/AtMostOnce.antt =====
-- src/socket.cpp: how often an ack callback runs.
use sioxx.Prelude.{
  ℕ, suc, zero, ◌+◌, ◌≤◌, ◌≡◌, refl, inl, inr, Bool, true, false, Option, none, some, List, [], ◌∷◌,
  ◌++◌, arith, leb, ◌==◌, if_intro, Option-cases,
}
use sioxx.Prelude.Bytes.{Bytes}
use sioxx.Prelude.Int.{ℤ, pos, negsuc}
use sioxx.Prelude.Map
use sioxx.Prelude.Map.{nat_key, is_some, lookup-insert, lookup-erase}
use sioxx.Message.{Json}
use sioxx.Packet.{Packet}
use sioxx.AckScheduler
use sioxx.AckScheduler.{AckScheduler, Round, claims}
use sioxx.Socket.State.{Callback, Effect, calls_ack, calls_timed, make_socket, Socket}
use sioxx.Socket.Emission.{
  send_or_buffer, emit, emit_timed, emit_timed_valid, register_timed_ack, scheduler_expired,
  send_timed, claim_timed_ack, finish_timed_ack, event_packet, deadline_of, logic_error, expire_ack,
  timed_expired, send_front, flush_from, flush_round, id_number,
}
use sioxx.Socket.Acks.{
  answer_timed, answer_pending, dispatch_ack, cancel_timed_acks, resume_timed_acks, scheduler_round,
}
use sioxx.Socket.Connection.{close, mark}
use sioxx.Socket.Steps.{
  Op, emits, emits_id, registers, emits_timed, acks, expires, works, marks, flushes, closes,
  cancels, resumes, flush_step, after_round, after_emit, step, run,
}

abbrev one_if : Bool → ℕ
one_if true = 1
one_if false = 0

-- How often the effects call an ack callback that was registered under `id`.
abbrev pub calls : ℕ → List Effect → ℕ
calls id [] = 0
calls id (calls_ack i _ _ ∷ es) = one_if (i == id) + calls id es
calls id (calls_timed i _ _ _ ∷ es) = one_if (i == id) + calls id es
calls id (_ ∷ es) = calls id es

calls-append : (id : ℕ) (es es' : List Effect) → calls id (es ++ es') ≡ calls id es + calls id es'
calls-append id [] es' = omega arith
calls-append id (calls_ack i c v ∷ es) es' = omega (arith, calls-append id es es')
calls-append id (calls_timed i c t v ∷ es) es' = omega (arith, calls-append id es es')
calls-append id (_ ∷ es) es' = calls-append id es es'

-- What a socket may still call for `id`: its timed callback, its plain one, one to be registered.
budget : ℕ → Socket → ℕ
budget id s =
    one_if (is_some (Map.lookup id s.timed_acks))
    + one_if (is_some (Map.lookup id s.pending_acks))
    + one_if (leb s.next_ack_id id)

abbrev Spends : ℕ → Socket → Socket × List Effect → Type 0
Spends id s r = calls id r.1 + budget id r.0 ≤ budget id s

send_or_buffer-Spends : (id : ℕ) (p : Packet) (s : Socket) → Spends id s (send_or_buffer p s)
unfolding send_or_buffer budget
send_or_buffer-Spends id p s = ground arith

register_pending-le :
    (id : ℕ) (callback : Callback) (s : Socket)
    → budget id (record s {
      next_ack_id = suc s.next_ack_id;
      pending_acks = Map.insert s.next_ack_id callback s.pending_acks;
    })
      ≤ budget id s
unfolding budget
register_pending-le id callback s =
    rw (lookup-insert s.next_ack_id id callback s.pending_acks) (ground arith)

register_timed_ack-le :
    (id d callback : ℕ) (s : Socket) → budget id (register_timed_ack d callback s) ≤ budget id s
unfolding budget register_timed_ack
register_timed_ack-le id d callback s =
    rw (lookup-insert s.next_ack_id id callback s.timed_acks) (ground arith)

emit-Spends : (id : ℕ) (name : Bytes) (body : Json) (s : Socket) → Spends id s (emit name body s)
unfolding emit
emit-Spends id name body s = send_or_buffer-Spends id _ s

send_timed-Spends :
    (id : ℕ) (o : Option Bool) (p : Packet) (s : Socket) → Spends id s (send_timed o p s)
unfolding send_timed
send_timed-Spends id none p s = omega arith
send_timed-Spends id (some true) p s = omega arith
send_timed-Spends id (some false) p s = send_or_buffer-Spends id p s

emit_timed_valid-Spends :
    (id : ℕ) (name : Bytes) (body : Json) (ms c now later : ℕ) (s : Socket)
    → Spends id s (after_emit s (emit_timed_valid name body ms c now later s))
unfolding emit_timed_valid
emit_timed_valid-Spends id name body ms c now later s =
    let s' = register_timed_ack (deadline_of now ms) c s in
    let p = event_packet s.nsp name body (pos s.next_ack_id) in
    if_intro (λ e. Spends id s (after_emit s e)) s.timed_acks_closed logic_error _ (omega arith)
      (omega (
        arith,
        send_timed-Spends id (scheduler_expired s.next_ack_id later s') p s',
        register_timed_ack-le id (deadline_of now ms) c s,
      ))

emit_timed-Spends :
    (id : ℕ) (name : Bytes) (body : Json) (ms : ℤ) (c : Callback) (now later : ℕ) (s : Socket)
    → Spends id s (after_emit s (emit_timed name body ms c now later s))
unfolding emit_timed
emit_timed-Spends id name body (pos (suc ms)) (some c) now later s =
    emit_timed_valid-Spends id name body (suc ms) c now later s
emit_timed-Spends id name body (pos zero) c now later s = omega arith
emit_timed-Spends id name body (negsuc n) c now later s = omega arith
emit_timed-Spends id name body (pos (suc ms)) none now later s = omega arith

-- A claimed callback leaves the map, so what is called is spent.
claim-Spends :
    (id i c : ℕ) (s : Socket)
    → Map.lookup i s.timed_acks ≡ some c
    → one_if (i == id) + budget id (finish_timed_ack (claim_timed_ack i s)) ≤ budget id s
unfolding budget claim_timed_ack
claim-Spends id i c s e = rw (lookup-erase i id s.timed_acks) (ground arith)

expire_ack-Spends : (id i : ℕ) (s : Socket) → Spends id s (expire_ack i s)
unfolding expire_ack
expire_ack-Spends id i s = elim (Option-cases (Map.lookup i s.timed_acks)) [
  | inl e ↦ rw (e, expire_ack) (omega arith)
  | inr (c, e) ↦ rw (e, expire_ack) (omega (arith, claim-Spends id i c s e))
]

answer_timed-Spends :
    (id : ℕ) (o : Option AckScheduler) (i c : ℕ) (body : Json) (now : ℕ) (s : Socket)
    → Map.lookup i s.timed_acks ≡ some c
    → Spends id s (answer_timed o i c body now s)
unfolding answer_timed
answer_timed-Spends id none i c body now s e = omega arith
answer_timed-Spends id (some a) i c body now s e =
    let s' = record s { ack_scheduler = some (AckScheduler.remove i now a).0 } in
    let same : budget id s' ≡ budget id s = unfold budget in refl in
    omega (arith, claim-Spends id i c s' e, same)

answer_pending-Spends :
    (id i : ℕ) (body : Json) (s : Socket) → Spends id s (answer_pending i body s)
unfolding answer_pending budget
answer_pending-Spends id i body s = elim (Option-cases (Map.lookup i s.pending_acks)) [
  | inl e ↦ rw (e, answer_pending) (omega arith)
  | inr (none, e) ↦ rw (e, answer_pending, lookup-erase i id s.pending_acks) (ground arith)
  | inr (some c, e) ↦ rw (e, answer_pending, lookup-erase i id s.pending_acks) (ground arith)
]

dispatch_ack-Spends :
    (id i : ℕ) (body : Json) (now : ℕ) (s : Socket) → Spends id s (dispatch_ack i body now s)
unfolding dispatch_ack
dispatch_ack-Spends id i body now s = elim (Option-cases (Map.lookup i s.timed_acks)) [
  | inl e ↦ rw (e, dispatch_ack) (answer_pending-Spends id i body s)
  | inr (c, e) ↦ rw (e, dispatch_ack) (answer_timed-Spends id s.ack_scheduler i c body now s e)
]

send_front-Spends :
    (id : ℕ) (o : Option Bool) (p : Packet) (s : Socket) → Spends id s (send_front o p s)
unfolding send_front
send_front-Spends id none p s = omega arith
send_front-Spends id (some true) p s = expire_ack-Spends id (id_number p.id) s
send_front-Spends id (some false) p s = ground arith

flush_from-Spends :
    (id : ℕ) (ps : List Packet) (now : ℕ) (s : Socket)
    → Spends id s ((flush_from ps now s).1, (flush_from ps now s).2)
unfolding flush_from
flush_from-Spends id [] now s = unfold budget in omega arith
flush_from-Spends id (p ∷ ps) now s =
    let s' = record s { send_buffer = ps } in
    let same : budget id s' ≡ budget id s = unfold budget in refl in
    omega (arith, send_front-Spends id (timed_expired p.id now s) p s', same)

flush_step-Spends : (id now : ℕ) (s : Socket) → Spends id s (flush_step now s)
unfolding flush_round
flush_step-Spends id now s =
    let off = record s { flushing_send_buffer = false } in
    let same : budget id off ≡ budget id s = unfold budget in refl in
    if_intro (λ r. Spends id s r) s.flushing_send_buffer
      ((flush_round now s).1, (flush_round now s).2) (s, [])
      (if_intro (λ r. Spends id s (r.1, r.2)) s.connected (flush_from s.send_buffer now s)
        (false, off, []) (flush_from-Spends id s.send_buffer now s) (omega arith))
      (omega arith)

works-Spends : (id now : ℕ) (s : Socket) → Spends id s (after_round s (scheduler_round now s), [])
works-Spends id now s = go (scheduler_round now s)
  where
    go : (o : Option Round) → Spends id s (after_round s o, [])
    go none = omega arith
    go (some (claims i a)) = unfold budget in omega arith
    go (some _) = omega arith

-- No step calls more than the budget that it uses up.
step-Spends : (id : ℕ) (s : Socket) (o : Op) → Spends id s (step s o)
unfolding step
step-Spends id s (emits name body) = emit-Spends id name body s
step-Spends id s (registers c) = omega (arith, register_pending-le id c s)
step-Spends id s (emits_id name body i) = send_or_buffer-Spends id _ s
step-Spends id s (emits_timed name body ms c now later) =
    emit_timed-Spends id name body ms c now later s
step-Spends id s (acks i body now) = dispatch_ack-Spends id i body now s
step-Spends id s (expires i) = expire_ack-Spends id i s
step-Spends id s (works now) = works-Spends id now s
step-Spends id s (marks c) = unfold budget mark in omega arith
step-Spends id s (flushes now) = flush_step-Spends id now s
step-Spends id s closes = unfold budget close in ground arith
step-Spends id s cancels = unfold budget cancel_timed_acks Map.lookup in omega arith
step-Spends id s resumes = unfold budget resume_timed_acks in omega arith

run-Spends : (id : ℕ) (s : Socket) (os : List Op) → Spends id s (run s os)
unfolding run
run-Spends id s [] = omega arith
run-Spends id s (o ∷ os) = omega (
  arith,
  step-Spends id s o,
  run-Spends id (step s o).0 os,
  calls-append id (step s o).1 (run (step s o).0 os).1,
)

-- From a new socket on, whatever the threads do and in whatever order, at most one ack callback is
-- called for an id, timed or plain, and it is called at most once.
pub calls-run-le :
    (nsp : Bytes) (auth : Json) (os : List Op) (id : ℕ)
    → calls id (run (make_socket nsp auth) os).1 ≤ 1
unfolding budget Map.lookup
calls-run-le nsp auth os id = let s = make_socket nsp auth in ground (arith, run-Spends id s os)
