-- ===== src/Socket/Threads/Count.antt =====
-- src/socket.cpp: how often an event leaves, in whatever order the threads hand packets to the client.
use mathlib.Core.Logic.{∥∥₁_elim}
use mathlib.Core.List.{Sublist, Sublistᴰ}
use mathlib.Core.List.Sublistᴰ.{slnil, cons, cons-cons}
use native.Mathlib.Bridge.{le_prop}
use sioxx.Prelude.{
  ℕ, zero, suc, ◌+◌, ◌≤◌, ◌≡◌, refl, sym, inl, inr, Bool, List, [], ◌∷◌, ◌++◌, if◌then◌else◌,
  Bool-cases, arith,
}
use sioxx.Prelude.Bytes.{Bytes}
use sioxx.Message.{Json}
use sioxx.Packet.{Packet}
use sioxx.Socket.State.{Effect}
use sioxx.Socket.Order.Buffer.{is_event, sent, sent-append, IsDrained}
use sioxx.Socket.Threads.{World, Event, locks, hands, loses, nth, without, sent_by, step, run}
use sioxx.Socket.Threads.Order.{events, offered_at, offered_by, waiting, begin, locks-Keeps}

module _ (is_one : Packet → Bool) where
  -- How many of the packets are the one in question.
  abbrev pub count : List Packet → ℕ
  count [] = 0
  count (p ∷ ps) = if is_one p then suc (count ps) else count ps

  count-append : (ps qs : List Packet) → count (ps ++ qs) ≡ count ps + count qs
  count-append [] qs = omega arith
  count-append (p ∷ ps) qs = ground (arith, count-append ps qs)

  count-sublistᴰ : {ps qs : List Packet} → Sublistᴰ ps qs → count ps ≤ count qs
  count-sublistᴰ slnil = omega arith
  count-sublistᴰ (cons {a = a} l) = ground (arith, count-sublistᴰ l)
  count-sublistᴰ (cons-cons {a = a} {b = b} e l) = rw e (ground (arith, count-sublistᴰ l))

  count-sublist : {ps qs : List Packet} → Sublist ps qs → count ps ≤ count qs
  count-sublist l = ∥∥₁_elim l (hlevel le_prop) count-sublistᴰ

  count-hands :
      (n : ℕ) (ps : List Packet)
      → count (sent (sent_by (nth n ps))) + count (events (without n ps)) ≡ count (events ps)
  count-hands n [] = omega arith
  count-hands zero (p ∷ ps) = elim (Bool-cases (is_event p.type)) [
    | inl e ↦ rw e (ground arith)
    | inr e ↦ rw e (omega arith)
  ]
  count-hands (suc n) (p ∷ ps) = elim (Bool-cases (is_event p.type)) [
    | inl e ↦ rw e (ground (arith, count-hands n ps))
    | inr e ↦ rw e (omega (arith, count-hands n ps))
  ]

  abbrev Spends : World → Event → World × List Effect → Type 0
  Spends w e (w', fs) =
      IsDrained w'.socket
      × (count (sent fs) + count (waiting w') ≤ count (waiting w) + count (offered_at w e))

  step-Spends : (w : World) (e : Event) → IsDrained w.socket → Spends w e (step w e)
  step-Spends w (locks o) d =
      let (d', l) = locks-Keeps w o d in
      let r = step w (locks o) in
      (
        d',
        rw
            (
              sym (count-append (sent r.1) (waiting r.0)),
              sym (count-append (waiting w) (offered_at w (locks o))),
            )
            (count-sublist l),
      )
  step-Spends w (hands n) d =
      unfold step in
      (
        d,
        rw
            (
              count-append (events (without n w.handing)) w.socket.send_buffer,
              count-append (events w.handing) w.socket.send_buffer,
            )
            (omega (arith, count-hands n w.handing)),
      )
  step-Spends w (loses n) d =
      unfold step in
      (
        d,
        rw
            (
              count-append (events (without n w.handing)) w.socket.send_buffer,
              count-append (events w.handing) w.socket.send_buffer,
            )
            (omega (arith, count-hands n w.handing)),
      )

  run-Spends :
      (w : World) (es : List Event)
      → IsDrained w.socket
      → count (sent (run w es).1) + count (waiting (run w es).0)
        ≤ count (waiting w) + count (offered_by w es)
  unfolding run offered_by
  run-Spends w [] d = omega arith
  run-Spends w (e ∷ es) d =
      let (d', l) = step-Spends w e d in
      let w' = (step w e).0 in
      rw
        (
          sent-append (step w e).1 (run w' es).1,
          count-append (sent (step w e).1) (sent (run w' es).1),
          count-append (offered_at w e) (offered_by w' es),
        )
        (omega (arith, l, run-Spends w' es d'))

  -- From a new socket on, whatever the critical sections of the threads are, however they interleave with
  -- the sending of the packets behind them, and in whatever order those are handed to the client or lost by
  -- an exception: of the events that a test picks out, the ones that were handed over, that are held and
  -- that wait in the buffer are together no more than the ones that were emitted. So no event leaves more
  -- often than it was emitted, and none comes from nowhere.
  pub count-run-le :
      (nsp : Bytes) (auth : Json) (es : List Event)
      → let w = begin nsp auth in
        count (sent (run w es).1) + count (waiting (run w es).0) ≤ count (offered_by w es)
  count-run-le nsp auth es = omega (arith, run-Spends (begin nsp auth) es (λ _. refl))
