-- ===== src/Socket/Order/Buffer.antt =====
-- src/socket.cpp: what is sent and what waits, in `emit` and where acknowledgements are claimed.
use mathlib.Core.List.{Sublist, sublist-append_left}
use mathlib.Core.List.Sublist
use sioxx.Prelude.{
  ℕ, suc, zero, ◌≡◌, refl, inl, inr, Bool, true, false, Option, none, some, List, [], ◌∷◌, ◌++◌,
  arith, if◌then◌else◌, Bool-cases, Option-cases, if_intro, if_cases, append-nil,
}
use sioxx.Prelude.Bytes.{Bytes}
use sioxx.Prelude.Int.{ℤ, pos, negsuc}
use sioxx.Prelude.Map
use sioxx.Prelude.Map.{nat_key}
use sioxx.Message.{Json}
use sioxx.Packet.{PacketType, event, Packet}
use sioxx.AckScheduler
use sioxx.AckScheduler.{AckScheduler, Round, claims}
use sioxx.Socket.State.{Callback, Effect, sends, Socket, send_packet, keep_if}
use sioxx.Socket.Emission.{
  is_buffering, buffer, event_packet, send_or_buffer, emit_timed, emit_timed_valid,
  register_timed_ack, scheduler_expired, send_timed, claim_timed_ack, finish_timed_ack, expire_ack,
  deadline_of,
}
use sioxx.Socket.Acks.{answer_timed, answer_pending, dispatch_ack}
use sioxx.Socket.Steps.{Op, emits, emits_id, emits_timed, after_emit}

abbrev pub is_event : PacketType → Bool
is_event event = true
is_event _ = false

-- The events among the packets that are handed to the client.
abbrev pub sent : List Effect → List Packet
sent [] = []
sent (sends p ∷ es) = if is_event p.type then p ∷ sent es else sent es
sent (_ ∷ es) = sent es

-- The events that a step offers, in the state that it starts in.
abbrev pub offered : Socket → Op → List Packet
offered s (emits name body) = event_packet s.nsp name body (negsuc 0) ∷ []
offered s (emits_id name body id) = event_packet s.nsp name body (pos id) ∷ []
offered s (emits_timed name body (pos (suc ms)) (some c) now later) =
    if s.timed_acks_closed then [] else event_packet s.nsp name body (pos s.next_ack_id) ∷ []
offered s _ = []

pub sent-append : (es es' : List Effect) → sent (es ++ es') ≡ sent es ++ sent es'
sent-append [] es' = refl
sent-append (sends p ∷ es) es' = ground (arith, sent-append es es')
sent-append (_ ∷ es) es' = sent-append es es'

-- An event that need not wait overtakes nothing.
abbrev pub IsDrained : Socket → Type 0
IsDrained s = is_buffering s ≡ false → s.send_buffer ≡ []

-- After a step the socket is drained, and what was sent and what waits is, in order, some of what
-- waited before and of what the step offered.
abbrev pub InOrder : Socket → List Packet → Socket × List Effect → Type 0
InOrder s ps (s', es) = IsDrained s' × Sublist (sent es ++ s'.send_buffer) (s.send_buffer ++ ps)

pub keep_if-sublist : (t : Packet → Bool) (ps : List Packet) → Sublist (keep_if t ps) ps
unfolding keep_if
keep_if-sublist t [] = Sublist.refl []
keep_if-sublist t (p ∷ ps) =
    if_intro (λ l. Sublist l (p ∷ ps)) (t p) (p ∷ keep_if t ps) (keep_if t ps)
      (Sublist.cons-cons p (keep_if-sublist t ps)) (Sublist.cons p (keep_if-sublist t ps))

pub keep_if_empty : (t : Packet → Bool) (ps : List Packet) → ps ≡ [] → keep_if t ps ≡ []
unfolding keep_if
keep_if_empty t [] e = refl
keep_if_empty t (p ∷ ps) e = cc

-- Nothing offered, and nothing sent.
pub quiet :
    (s s' : Socket)
    → (IsDrained s → IsDrained s')
    → Sublist s'.send_buffer s.send_buffer
    → IsDrained s
    → InOrder s [] (s', [])
quiet s s' d l h = (d h, rw (append-nil s.send_buffer) l)

pub send_packet-sublist : (s : Socket) (p : Packet) → Sublist (sent (send_packet s p)) (p ∷ [])
send_packet-sublist s p =
    if_intro (λ es. Sublist (sent es) (p ∷ [])) s.client (sends p ∷ []) []
      (if_intro (λ l. Sublist l (p ∷ [])) (is_event p.type) (p ∷ []) [] (Sublist.refl (p ∷ []))
        none-sublist)
      none-sublist
  where
    none-sublist : Sublist {A = Packet} [] (p ∷ [])
    none-sublist = Sublist.cons p (Sublist.refl [])

direct-sublist :
    (s : Socket) (p : Packet) (ps : List Packet)
    → ps ≡ []
    → Sublist (sent (send_packet s p) ++ ps) (ps ++ p ∷ [])
direct-sublist s p [] e = rw (append-nil (sent (send_packet s p))) (send_packet-sublist s p)
direct-sublist s p (q ∷ ps) e = cc

pub send_or_buffer-InOrder :
    (p : Packet) (s : Socket) → IsDrained s → InOrder s (p ∷ []) (send_or_buffer p s)
unfolding send_or_buffer
send_or_buffer-InOrder p s h =
    if_cases (InOrder s (p ∷ [])) (is_buffering s) (buffer p s, []) (s, send_packet s p)
      (λ e. ((λ f. cc), Sublist.refl (s.send_buffer ++ p ∷ [])))
      (λ e. (h, direct-sublist s p s.send_buffer (h e)))

-- A timed event whose deadline has passed is dropped.
send_timed-InOrder :
    (o : Option Bool) (p : Packet) (s : Socket)
    → IsDrained s
    → InOrder s (p ∷ []) (send_timed o p s)
unfolding send_timed
send_timed-InOrder none p s h = (h, sublist-append_left s.send_buffer (p ∷ []))
send_timed-InOrder (some true) p s h = (h, sublist-append_left s.send_buffer (p ∷ []))
send_timed-InOrder (some false) p s h = send_or_buffer-InOrder p s h

-- Registration leaves the buffer alone.
register_timed_ack-InOrder :
    (d c : ℕ) (o : Option Bool) (p : Packet) (s : Socket)
    → IsDrained s
    → InOrder s (p ∷ []) (send_timed o p (register_timed_ack d c s))
unfolding register_timed_ack
register_timed_ack-InOrder d c o p s h = send_timed-InOrder o p (register_timed_ack d c s) h

pub refused : (s : Socket) → IsDrained s → InOrder s [] (s, [])
refused s h = quiet s s (λ d. d) (Sublist.refl s.send_buffer) h

pub emit_timed-InOrder :
    (s : Socket) (name : Bytes) (body : Json) (ms : ℤ) (c : Callback) (now later : ℕ)
    → IsDrained s
    → InOrder s
        (offered s (emits_timed name body ms c now later))
        (after_emit s (emit_timed name body ms c now later s))
unfolding emit_timed emit_timed_valid
emit_timed-InOrder s name body (pos (suc ms)) (some c) now later h =
    elim (Bool-cases s.timed_acks_closed) [
      | inl e ↦ simp e (refused s h)
      | inr e ↦ simp e (
          register_timed_ack-InOrder (deadline_of now (suc ms)) c
            (scheduler_expired s.next_ack_id later
              (register_timed_ack (deadline_of now (suc ms)) c s))
            (event_packet s.nsp name body (pos s.next_ack_id)) s h)
    ]
emit_timed-InOrder s name body (pos (suc ms)) none now later h = refused s h
emit_timed-InOrder s name body (pos zero) c now later h = refused s h
emit_timed-InOrder s name body (negsuc n) c now later h = refused s h

claim-InOrder :
    (id : ℕ) (s : Socket) → IsDrained s → InOrder s [] (finish_timed_ack (claim_timed_ack id s), [])
unfolding claim_timed_ack
claim-InOrder id s h =
    quiet s (finish_timed_ack (claim_timed_ack id s)) (λ d e. keep_if_empty _ s.send_buffer (d e))
      (keep_if-sublist _ s.send_buffer) h

pub expire_ack-InOrder : (id : ℕ) (s : Socket) → IsDrained s → InOrder s [] (expire_ack id s)
unfolding expire_ack
expire_ack-InOrder id s h = elim (Option-cases (Map.lookup id s.timed_acks)) [
  | inl e ↦ rw (e, expire_ack) (refused s h)
  | inr (c, e) ↦ rw (e, expire_ack) (claim-InOrder id s h)
]

answer_timed-InOrder :
    (o : Option AckScheduler) (id c : ℕ) (body : Json) (now : ℕ) (s : Socket)
    → IsDrained s
    → InOrder s [] (answer_timed o id c body now s)
unfolding answer_timed
answer_timed-InOrder none id c body now s h = refused s h
answer_timed-InOrder (some a) id c body now s h =
    claim-InOrder id (record s { ack_scheduler = some (AckScheduler.remove id now a).0 }) h

answer_pending-InOrder :
    (id : ℕ) (body : Json) (s : Socket) → IsDrained s → InOrder s [] (answer_pending id body s)
unfolding answer_pending
answer_pending-InOrder id body s h = elim (Option-cases (Map.lookup id s.pending_acks)) [
  | inl e ↦ rw (e, answer_pending) (refused s h)
  | inr (none, e) ↦ rw (e, answer_pending) (refused s h)
  | inr (some c, e) ↦ rw (e, answer_pending) (refused s h)
]

pub dispatch_ack-InOrder :
    (id : ℕ) (body : Json) (now : ℕ) (s : Socket)
    → IsDrained s
    → InOrder s [] (dispatch_ack id body now s)
unfolding dispatch_ack
dispatch_ack-InOrder id body now s h = elim (Option-cases (Map.lookup id s.timed_acks)) [
  | inl e ↦ rw (e, dispatch_ack) (answer_pending-InOrder id body s h)
  | inr (c, e) ↦ rw (e, dispatch_ack) (answer_timed-InOrder s.ack_scheduler id c body now s h)
]
