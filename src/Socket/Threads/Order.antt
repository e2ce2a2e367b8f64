-- ===== src/Socket/Threads/Order.antt =====
-- src/socket.cpp: the order in which events leave.
use mathlib.Core.List.{Sublist}
use mathlib.Core.List.Sublist
use sioxx.Prelude.{
  ℕ, zero, suc, ◌≡◌, refl, ap, inl, inr, List, [], ◌∷◌, ◌++◌, if◌then◌else◌, if_intro, Bool-cases,
  append_assoc, append-nil, All,
}
use sioxx.Prelude.Bytes.{Bytes}
use sioxx.Message.{Json}
use sioxx.Packet.{Packet}
use sioxx.Socket.State.{Effect, sends, Socket, make_socket}
use sioxx.Socket.Connection.{close}
use sioxx.Socket.Steps
use sioxx.Socket.Steps.{
  Op, emits, registers, emits_id, emits_timed, acks, expires, works, marks, flushes, closes,
  cancels, resumes,
}
use sioxx.Socket.Order.{step-InOrder}
use sioxx.Socket.Order.Buffer.{is_event, sent, offered, sent-append, IsDrained, InOrder}
use sioxx.Socket.Threads.{
  World, Event, locks, hands, loses, packets, others, nth, without, sent_by, step, run,
}

-- The events among packets that are held.
abbrev pub events : List Packet → List Packet
events [] = []
events (p ∷ ps) = if is_event p.type then p ∷ events ps else events ps

-- The events that are offered, one after the other.
abbrev pub offered_at : World → Event → List Packet
offered_at w (locks o) = offered w.socket o
offered_at w _ = []

unfoldable pub offered_by : World → List Event → List Packet
offered_by w [] = []
offered_by w (e ∷ es) = offered_at w e ++ offered_by (step w e).0 es

-- The packet that is handed over is the oldest of those that are held.
abbrev pub IsFirst : Event → Type 0
IsFirst (hands n) = n ≡ 0
IsFirst _ = Unit {0}

-- What waits: the events that are held, then those in the buffer.
abbrev pub waiting : World → List Packet
waiting w = events w.handing ++ w.socket.send_buffer

abbrev pub Keeps : World → Event → World × List Effect → Type 0
Keeps w e (w', fs) =
    IsDrained w'.socket × Sublist (sent fs ++ waiting w') (waiting w ++ offered_at w e)

events-append : (ps qs : List Packet) → events (ps ++ qs) ≡ events ps ++ events qs
events-append [] qs = refl
events-append (p ∷ ps) qs = elim (Bool-cases (is_event p.type)) [
  | inl e ↦ rw e (ap (λ l. p ∷ l) (events-append ps qs))
  | inr e ↦ rw e (events-append ps qs)
]

events-packets : (es : List Effect) → events (packets es) ≡ sent es
events-packets [] = refl
events-packets (sends p ∷ es) = elim (Bool-cases (is_event p.type)) [
  | inl e ↦ rw e (ap (λ l. p ∷ l) (events-packets es))
  | inr e ↦ rw e (events-packets es)
]
events-packets (_ ∷ es) = events-packets es

sent-others : (es : List Effect) → sent (others es) ≡ []
sent-others [] = refl
sent-others (sends p ∷ es) = sent-others es
sent-others (_ ∷ es) = sent-others es

events-without : (n : ℕ) (ps : List Packet) → Sublist (events (without n ps)) (events ps)
events-without n [] = Sublist.refl []
events-without zero (p ∷ ps) =
    if_intro (Sublist (events ps)) (is_event p.type) (p ∷ events ps) (events ps)
      (Sublist.cons p (Sublist.refl (events ps))) (Sublist.refl (events ps))
events-without (suc n) (p ∷ ps) = elim (Bool-cases (is_event p.type)) [
  | inl e ↦ rw e (Sublist.cons-cons p (events-without n ps))
  | inr e ↦ rw e (events-without n ps)
]

-- A section whose packets are held.
held-Keeps :
    (w : World) (s : Socket) (fs : List Effect) (off : List Packet)
    → InOrder w.socket off (s, fs)
    → IsDrained s
      × Sublist
          (sent (others fs) ++ (events (w.handing ++ packets fs) ++ s.send_buffer))
          (waiting w ++ off)
held-Keeps w s fs off (d, l) = (
  d,
  rw
      (
        sent-others fs,
        events-append w.handing (packets fs),
        events-packets fs,
        append_assoc (events w.handing) (sent fs) s.send_buffer,
        append_assoc (events w.handing) w.socket.send_buffer off,
      )
      (Sublist.append (Sublist.refl (events w.handing)) l),
)

close-sends : (s : Socket) → sent (close s).1 ≡ []
unfolding close
close-sends s = if_intro (λ es. sent es ≡ []) s.client _ [] refl refl

close-Keeps :
    (w : World)
    → IsDrained (Steps.step w.socket closes).0
    → Keeps w (locks closes) (step w (locks closes))
unfolding step Steps.step
close-Keeps w d = (
  d,
  rw (close-sends w.socket, append-nil w.handing, append-nil (waiting w))
      (unfold close in Sublist.refl (waiting w)),
)

pub locks-Keeps : (w : World) (o : Op) → IsDrained w.socket → Keeps w (locks o) (step w (locks o))
unfolding step
locks-Keeps w (emits name body) d =
    held-Keeps w (Steps.step w.socket (emits name body)).0 (Steps.step w.socket (emits name body)).1
      (offered w.socket (emits name body)) (step-InOrder w.socket (emits name body) d)
locks-Keeps w (registers c) d =
    held-Keeps w (Steps.step w.socket (registers c)).0 (Steps.step w.socket (registers c)).1
      (offered w.socket (registers c)) (step-InOrder w.socket (registers c) d)
locks-Keeps w (emits_id name body i) d =
    held-Keeps w (Steps.step w.socket (emits_id name body i)).0
      (Steps.step w.socket (emits_id name body i)).1 (offered w.socket (emits_id name body i))
      (step-InOrder w.socket (emits_id name body i) d)
locks-Keeps w (emits_timed name body ms c now later) d =
    held-Keeps w (Steps.step w.socket (emits_timed name body ms c now later)).0
      (Steps.step w.socket (emits_timed name body ms c now later)).1
      (offered w.socket (emits_timed name body ms c now later))
      (step-InOrder w.socket (emits_timed name body ms c now later) d)
locks-Keeps w (acks i body now) d =
    held-Keeps w (Steps.step w.socket (acks i body now)).0 (Steps.step w.socket (acks i body now)).1
      (offered w.socket (acks i body now)) (step-InOrder w.socket (acks i body now) d)
locks-Keeps w (expires i) d =
    held-Keeps w (Steps.step w.socket (expires i)).0 (Steps.step w.socket (expires i)).1
      (offered w.socket (expires i)) (step-InOrder w.socket (expires i) d)
locks-Keeps w (works now) d =
    held-Keeps w (Steps.step w.socket (works now)).0 (Steps.step w.socket (works now)).1
      (offered w.socket (works now)) (step-InOrder w.socket (works now) d)
locks-Keeps w (marks c) d =
    held-Keeps w (Steps.step w.socket (marks c)).0 (Steps.step w.socket (marks c)).1
      (offered w.socket (marks c)) (step-InOrder w.socket (marks c) d)
locks-Keeps w (flushes now) d =
    held-Keeps w (Steps.step w.socket (flushes now)).0 (Steps.step w.socket (flushes now)).1
      (offered w.socket (flushes now)) (step-InOrder w.socket (flushes now) d)
locks-Keeps w cancels d =
    held-Keeps w (Steps.step w.socket cancels).0 (Steps.step w.socket cancels).1
      (offered w.socket cancels) (step-InOrder w.socket cancels d)
locks-Keeps w resumes d =
    held-Keeps w (Steps.step w.socket resumes).0 (Steps.step w.socket resumes).1
      (offered w.socket resumes) (step-InOrder w.socket resumes d)
locks-Keeps w closes d = close-Keeps w (step-InOrder w.socket closes d).0

hands_first :
    (ps buffer : List Packet)
    → sent (sent_by (nth 0 ps)) ++ (events (without 0 ps) ++ buffer) ≡ events ps ++ buffer
hands_first [] buffer = refl
hands_first (p ∷ ps) buffer = elim (Bool-cases (is_event p.type)) [
  | inl e ↦ rw e refl
  | inr e ↦ rw e refl
]

step-Keeps : (w : World) (e : Event) → IsFirst e → IsDrained w.socket → Keeps w e (step w e)
unfolding step
step-Keeps w (locks o) i d = locks-Keeps w o d
step-Keeps w (hands n) i d = (
  d,
  rw (i, hands_first w.handing w.socket.send_buffer, append-nil (waiting w))
      (Sublist.refl (waiting w)),
)
step-Keeps w (loses n) i d = (
  d,
  rw (append-nil (waiting w))
      (Sublist.append (events-without n w.handing) (Sublist.refl w.socket.send_buffer)),
)

-- What left first and what waits behind it, then what leaves of that.
chain :
    (ws os ss ws' os' ss' ws'' all : List Packet)
    → all ≡ ss ++ ss'
    → Sublist (ss ++ ws') (ws ++ os)
    → Sublist (ss' ++ ws'') (ws' ++ os')
    → Sublist (all ++ ws'') (ws ++ (os ++ os'))
chain ws os ss ws' os' ss' ws'' all e l l' =
    rw (e, append_assoc ss ss' ws'')
      (Sublist.trans (Sublist.append (Sublist.refl ss) l') (
        rw (← append_assoc ss ws' os', ← append_assoc ws os os')
          (Sublist.append l (Sublist.refl os'))))

run-Keeps :
    (w : World) (es : List Event)
    → All IsFirst es
    → IsDrained w.socket
    → Sublist (sent (run w es).1 ++ waiting (run w es).0) (waiting w ++ offered_by w es)
unfolding run offered_by
run-Keeps w [] i d = rw (append-nil (waiting w)) (Sublist.refl (waiting w))
run-Keeps w (e ∷ es) (i, is) d =
    let (d', l) = step-Keeps w e i d in
    let w' = (step w e).0 in
    chain (waiting w) (offered_at w e) (sent (step w e).1) (waiting w') (offered_by w' es)
      (sent (run w' es).1) (waiting (run w' es).0) (sent ((step w e).1 ++ (run w' es).1))
      (sent-append (step w e).1 (run w' es).1) l (run-Keeps w' es is d')

-- The threads begin with a new socket, none of them holding a packet.
abbrev pub begin : Bytes → Json → World
begin nsp auth = record { socket = make_socket nsp auth; handing = [] }

-- From a new socket on, whatever the critical sections of the threads are and however they interleave
-- with the sending of the packets behind them, where any sending may throw, as long as the packets are
-- handed to the client in the order of the sections that decided to send them: the events that were
-- handed over, followed by those that are held and those that wait in the buffer, are a sublist of the
-- events that were emitted, in the order of emission. None overtakes another, and none leaves twice.
pub sent-run-sublist :
    (nsp : Bytes) (auth : Json) (es : List Event)
    → All IsFirst es
    → let w = begin nsp auth in
      Sublist (sent (run w es).1 ++ waiting (run w es).0) (offered_by w es)
sent-run-sublist nsp auth es i = run-Keeps (begin nsp auth) es i (λ _. refl)
