-- ===== src/HttpPollingTransport/Notices.antt =====
-- src/http_polling_transport.cpp: how often the close and the error handler are called, and the answer
-- to the handshake that comes late.
use sioxx.Prelude.{
  ℕ, suc, ◌+◌, ◌/◌, ◌≤◌, ◌≡◌, Bool, true, false, Option, List, [], ◌∷◌, ◌++◌, if◌then◌else◌, not,
  ◌&&◌, ◌||◌, ◌⊎◌, ◌==◌, arith, if_intro,
}
use sioxx.Prelude.Bytes.{Bytes, codes}
use sioxx.Message.{Json}
use sioxx.JsonParser.Numbers.{decimal}
use sioxx.Transport.{on_close, on_error}
use sioxx.HttpPollingTransport.State.{
  Message, Poll, ended, requests, opens, delivers, Effect, notifies, Reply, replied, raised,
  HttpPollingTransport, make_transport, fail,
}
use sioxx.HttpPollingTransport.Polling.{
  asked, start_poll, connect, take_reply, on_reply, advance, advance_from, deliver_packet,
}
use sioxx.HttpPollingTransport.Writing.{
  is_success, write_next, send, on_write, fail_reply, close, destroy,
}
use sioxx.HttpPollingTransport.Steps.{
  World, initial, Event, connects, sends, closes, runs, advances, writes_next, destroys, answers,
  wrote, Task, starts, closes_now, queues, answer, in_world, run_next, step, run,
}

abbrev pub closings : List Effect → ℕ
closings [] = 0
closings (notifies (on_close reason) ∷ es) = suc (closings es)
closings (_ ∷ es) = closings es

abbrev pub errors : List Effect → ℕ
errors [] = 0
errors (notifies (on_error message) ∷ es) = suc (errors es)
errors (_ ∷ es) = errors es

-- The call of the close handler that is left.
abbrev left : Bool → ℕ
left is_closing = if is_closing then 0 else 1

abbrev Spends : HttpPollingTransport → HttpPollingTransport × List Effect → Type 0
Spends t (t', es) =
    (closings es + left t'.is_closing ≤ left t.is_closing) × (errors es ≤ closings es)

fail-Spends : (what : Bytes) (t : HttpPollingTransport) → Spends t (fail what t)
unfolding fail
fail-Spends what t = ground arith

write_next-Spends : (t : HttpPollingTransport) → Spends t (write_next t)
unfolding write_next
write_next-Spends t = ground arith

send-Spends : (m : Message) (t : HttpPollingTransport) → Spends t (send m t)
unfolding send write_next
send-Spends m t = ground arith

start_poll-Spends : (h : Bool) (t : HttpPollingTransport) → Spends t (start_poll h t)
unfolding start_poll
start_poll-Spends h t = ground arith

connect-Spends :
    (url : Bytes) (t : HttpPollingTransport) → Spends t ((connect url t).0, (connect url t).1)
unfolding connect start_poll
connect-Spends url t = ground arith

take_reply-Spends :
    (h : Bool) (reply : Reply) (t : HttpPollingTransport) → Spends t (take_reply h reply t)
take_reply-Spends h (raised what) t = fail-Spends _ (record t { poll = ended })
take_reply-Spends h (replied status body) t =
    if_intro (Spends t) (not (status / 100 == 2)) _ _
      (fail-Spends (asked h ++ (codes " returned HTTP " ++ decimal status))
        (record t { poll = ended }))
      (ground arith)

on_reply-Spends :
    (h : Bool) (reply : Reply) (t : HttpPollingTransport) → Spends t (on_reply h reply t)
unfolding on_reply
on_reply-Spends h reply t =
    if_intro (Spends t) (t.is_closing && (t.external || not h)) (record t { poll = ended }, [])
      (take_reply h reply t) (omega arith) (take_reply-Spends h reply t)

fail_reply-Spends : (reply : Reply) (t : HttpPollingTransport) → Spends t (fail_reply reply t)
unfolding fail
fail_reply-Spends reply t = ground arith

on_write-Spends : (reply : Reply) (t : HttpPollingTransport) → Spends t (on_write reply t)
unfolding on_write
on_write-Spends reply t =
    let t' : HttpPollingTransport = record t { writing = false } in
    if_intro (Spends t) t.is_closing (t', []) _ (omega arith)
      (if_intro (Spends t) (t.external && is_success reply) (write_next t') (fail_reply reply t')
        (write_next-Spends t') (fail_reply-Spends reply t'))

close-Spends : (t : HttpPollingTransport) → Spends t (close t)
unfolding close
close-Spends t = ground arith

answer-Spends : (p : Poll) (reply : Reply) (t : HttpPollingTransport) → Spends t (answer p reply t)
answer-Spends (requests h) reply t = on_reply-Spends h reply t
answer-Spends _ reply t = omega arith

run_next-Spends :
    (x : World) (ts : List Task)
    → Spends x.transport ((run_next ts x).0.transport, (run_next ts x).1)
run_next-Spends x [] = omega arith
run_next-Spends x (starts ∷ ts) = start_poll-Spends true x.transport
run_next-Spends x (closes_now ∷ ts) = close-Spends x.transport
run_next-Spends x (queues m ∷ ts) = send-Spends m x.transport

closings-append : (es fs : List Effect) → closings (es ++ fs) ≡ closings es + closings fs
closings-append [] fs = omega arith
closings-append (e ∷ es) fs = ground (arith, closings-append es fs)

errors-append : (es fs : List Effect) → errors (es ++ fs) ≡ errors es + errors fs
errors-append [] fs = omega arith
errors-append (e ∷ es) fs = ground (arith, errors-append es fs)

module _ (parse : Bytes → Option Json) (value_string : Bytes → Bytes → Json → Bytes ⊎ Bytes) where
  deliver_packet-Spends :
      (packet : Bytes) (t : HttpPollingTransport)
      → Spends t (deliver_packet parse value_string packet t)
  unfolding deliver_packet fail
  deliver_packet-Spends packet t = ground arith

  advance_from-Spends :
      (p : Poll) (t : HttpPollingTransport) → Spends t (advance_from parse value_string p t)
  advance_from-Spends (opens body) t = ground arith
  advance_from-Spends (delivers []) t =
      if_intro (Spends t) t.is_closing (record t { poll = ended }, []) (start_poll false t)
        (omega arith) (start_poll-Spends false t)
  advance_from-Spends (delivers (packet ∷ packets)) t =
      if_intro (Spends t) t.is_closing (record t { poll = ended }, []) _ (omega arith)
        (deliver_packet-Spends packet (record t { poll = delivers packets }))
  advance_from-Spends _ t = omega arith

  abbrev StepSpends : World → World × List Effect → Type 0
  StepSpends x r = Spends x.transport (r.0.transport, r.1)

  step-Spends : (x : World) (e : Event) → StepSpends x (step parse value_string x e)
  unfolding step advance destroy
  step-Spends x (connects url) = connect-Spends url x.transport
  step-Spends x (sends m) =
      if_intro (StepSpends x) x.transport.external _ (in_world x (send m x.transport)) (omega arith)
        (send-Spends m x.transport)
  step-Spends x (closes on_strand) =
      if_intro (StepSpends x) x.transport.external _ (in_world x (close x.transport))
        (if_intro (StepSpends x) on_strand (in_world x (close x.transport)) _
          (close-Spends x.transport) (omega arith))
        (close-Spends x.transport)
  step-Spends x runs = run_next-Spends x x.posted
  step-Spends x advances = advance_from-Spends x.transport.poll x.transport
  step-Spends x writes_next =
      if_intro (StepSpends x) x.transport.external (x, []) (in_world x (write_next x.transport))
        (omega arith) (write_next-Spends x.transport)
  step-Spends x (answers reply) = answer-Spends x.transport.poll reply x.transport
  step-Spends x (wrote reply) =
      if_intro (StepSpends x) x.transport.writing (in_world x (on_write reply x.transport)) (x, [])
        (on_write-Spends reply x.transport) (omega arith)
  step-Spends x destroys = ground arith

  run-Spends : (x : World) (es : List Event) → StepSpends x (run parse value_string x es)
  unfolding run
  run-Spends x [] = omega arith
  run-Spends x (e ∷ es) =
      let s = step parse value_string x e in
      omega (
        arith,
        step-Spends x e,
        run-Spends s.0 es,
        closings-append s.1 (run parse value_string s.0 es).1,
        errors-append s.1 (run parse value_string s.0 es).1,
      )

  -- Whatever happens and in whatever order, the close handler is called at most once, and the error
  -- handler at most as often.
  pub closings-run-le :
      (external : Bool) (es : List Event)
      → let r = run parse value_string (initial external) es in
        (closings r.1 ≤ 1) × (errors r.1 ≤ closings r.1)
  unfolding initial make_transport
  closings-run-le external es = omega (arith, run-Spends (initial external) es)
