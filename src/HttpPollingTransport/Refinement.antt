-- ===== src/HttpPollingTransport/Refinement.antt =====
-- src/http_polling_transport.cpp: the transport as an implementation of the channel.
use sioxx.Prelude.{
  ◌≡◌, refl, sym, ap, ◌∙◌, Bool, true, false, Option, some, List, [], ◌∷◌, ◌++◌, if◌then◌else◌, ◌⊎◌,
  arith, if_intro, append-nil, subst,
}
use sioxx.Prelude.Bytes.{Bytes, codes}
use sioxx.Message.{Json}
use sioxx.Polling.{polling_split_payload}
use sioxx.Transport.{closed, on_close}
use sioxx.Transport.Channel.{
  Channel, in_order, shuts, stays_shut, still, Follows, Follows-nothing, Channel-Follows,
}
use sioxx.HttpPollingTransport.State.{
  Message, Poll, absent, ended, requests, opens, delivers, Effect, notifies, polls, writes,
  says_goodbye, cancels, throws, terminates, HttpPollingTransport, make_transport,
}
use sioxx.HttpPollingTransport.Polling.{start_poll, connect, advance, advance_from}
use sioxx.HttpPollingTransport.Writing.{
  goodbye, accepts, write_next, send, on_write, close, destroy,
}
use sioxx.HttpPollingTransport.Steps.{
  World, initial, Event, connects, sends, closes, runs, advances, writes_next, destroys, answers,
  wrote, Task, starts, closes_now, queues, in_world, run_next, step, run,
}
use sioxx.HttpPollingTransport.Fifo.{
  delivered, holds, held, Moves, quiet-Moves, write_next-Moves, start_poll-IsQuiet, connect-IsQuiet,
  answer-Moves, on_write-Moves, deliver_packet-Moves,
}

-- What a transport takes on.
abbrev pub taken : HttpPollingTransport → Message → List Message
taken t m = if accepts t then m ∷ [] else []

abbrev taken_by_task : HttpPollingTransport → List Task → List Message
taken_by_task t (queues m ∷ ts) = taken t m
taken_by_task t _ = []

abbrev pub accepted : World → Event → List Message
accepted x (sends m) = if x.transport.external then [] else taken x.transport m
accepted x runs = taken_by_task x.transport x.posted
accepted x _ = []

holds-open : (c x : Bool) (q : List Message) → c ≡ false → holds c x q ≡ some q
holds-open false x q e = refl
holds-open true x q e = cc

-- A message that joins the queue.
abbrev joined : HttpPollingTransport → Message → HttpPollingTransport
joined t m = record t { write_queue = t.write_queue ++ m ∷ [] }

join-Moves :
    (t : HttpPollingTransport) (m : Message) (r : HttpPollingTransport × List Effect)
    → t.is_closing ≡ false
    → Moves (joined t m) [] r
    → Moves t (m ∷ []) r
join-Moves t m r c h =
    let before = holds-open t.is_closing t.external t.write_queue c in
    let after = holds-open t.is_closing t.external (t.write_queue ++ m ∷ []) c in
    rw before (widen t.write_queue m (rw after at h))
  where
    widen :
        {out : List Message} {h' : Option (List Message)} (q : List Message) (m : Message)
        → Channel (some (q ++ m ∷ [])) [] out h'
        → Channel (some q) (m ∷ []) out h'
    widen q m (in_order e) = in_order (sym (append-nil (q ++ m ∷ [])) ∙ e)
    widen q m (shuts rest e) = shuts rest (sym (append-nil (q ++ m ∷ [])) ∙ e)

accepts-open : (t : HttpPollingTransport) → accepts t ≡ true → t.is_closing ≡ false
accepts-open t a = ground arith

send-Moves : (m : Message) (t : HttpPollingTransport) → Moves t (taken t m) (send m t)
unfolding send
send-Moves m t = go (accepts t) (accepts-open t)
  where
    t' : HttpPollingTransport
    t' = joined t m

    go :
        (b : Bool)
        → (b ≡ true → t.is_closing ≡ false)
        → Moves t
            (if b then m ∷ [] else [])
            (if b then (if t.external then write_next t' else (t', [])) else (t, []))
    go false c = still (held t)
    go true c =
        if_intro (Moves t (m ∷ [])) t.external (write_next t') (t', [])
          (join-Moves t m (write_next t') (c refl) (write_next-Moves t'))
          (join-Moves t m (t', []) (c refl) (still (held t')))

holds-closing : (c x : Bool) (q : List Message) → Channel (holds c x q) [] [] (holds true x q)
holds-closing true x q = still (holds true x q)
holds-closing false true q = shuts q (append-nil q)
holds-closing false false [] = shuts [] refl
holds-closing false false (m ∷ q) = in_order (append-nil (m ∷ q))

destroy-Moves : (t : HttpPollingTransport) → Moves t [] (destroy t, [])
unfolding destroy
destroy-Moves t = holds-closing t.is_closing t.external t.write_queue

holds-closed :
    (c x : Bool) (q : List Message)
    → Channel (holds c x q) [] [] (holds true x (if x then [] else q))
holds-closed c false q = holds-closing c false q
holds-closed true true q = stays_shut
holds-closed false true q = shuts q (append-nil q)

close_once : HttpPollingTransport → HttpPollingTransport × List Effect
close_once t = (
  record t {
    shutdown_once = true;
    is_closing = true;
    state = closed;
    write_queue = if t.external then [] else t.write_queue;
  },
  (if t.external then cancels ∷ [] else [])
      ++ (goodbye t ++ (if t.is_closing then [] else notifies (on_close (codes "closed")) ∷ [])),
)

close_once-delivered : (t : HttpPollingTransport) → delivered (close_once t).1 ≡ []
unfolding close_once
close_once-delivered t = ground arith

close-Moves : (t : HttpPollingTransport) → Moves t [] (close t)
unfolding close close_once
close-Moves t =
    if_intro (Moves t []) t.shutdown_once (t, []) (close_once t) (still (held t))
      (subst
        (λ out.
          Channel (held t) [] out
            (holds true t.external (if t.external then [] else t.write_queue)))
        (sym (close_once-delivered t)) (holds-closed t.is_closing t.external t.write_queue))

abbrev Step : World → World × List Effect → Type 0
Step x r = Channel (held x.transport) [] (delivered r.1) (held r.0.transport)

run_next-Moves :
    (x : World) (ts : List Task)
    → let r = run_next ts x in
      Channel (held x.transport) (taken_by_task x.transport ts) (delivered r.1) (held r.0.transport)
run_next-Moves x [] = still (held x.transport)
run_next-Moves x (starts ∷ ts) =
    quiet-Moves x.transport (start_poll true x.transport) (start_poll-IsQuiet true x.transport)
run_next-Moves x (closes_now ∷ ts) = close-Moves x.transport
run_next-Moves x (queues m ∷ ts) = send-Moves m x.transport

delivered-append : (es fs : List Effect) → delivered (es ++ fs) ≡ delivered es ++ delivered fs
delivered-append [] fs = refl
delivered-append (writes m r ∷ es) fs = ap (λ l. m ∷ l) (delivered-append es fs)
delivered-append (notifies n ∷ es) fs = delivered-append es fs
delivered-append (polls r ∷ es) fs = delivered-append es fs
delivered-append (says_goodbye r ∷ es) fs = delivered-append es fs
delivered-append (cancels ∷ es) fs = delivered-append es fs
delivered-append (throws ∷ es) fs = delivered-append es fs
delivered-append (terminates ∷ es) fs = delivered-append es fs

module _ (parse : Bytes → Option Json) (value_string : Bytes → Bytes → Json → Bytes ⊎ Bytes) where
  advance_from-Moves :
      (p : Poll) (t : HttpPollingTransport) → Moves t [] (advance_from parse value_string p t)
  advance_from-Moves absent t = still (held t)
  advance_from-Moves ended t = still (held t)
  advance_from-Moves (requests h) t = still (held t)
  advance_from-Moves (opens body) t =
      if_intro (Moves t []) t.is_closing (record t { poll = ended }, [])
        (record t { poll = delivers (polling_split_payload body) }, []) (still (held t))
        (still (held t))
  advance_from-Moves (delivers []) t =
      if_intro (Moves t []) t.is_closing (record t { poll = ended }, []) (start_poll false t)
        (still (held t)) (quiet-Moves t (start_poll false t) (start_poll-IsQuiet false t))
  advance_from-Moves (delivers (packet ∷ packets)) t =
      if_intro (Moves t []) t.is_closing (record t { poll = ended }, []) _ (still (held t))
        (deliver_packet-Moves parse value_string packet (record t { poll = delivers packets }))

  -- In both modes every step is one of the channel that holds the queue.
  pub step-Channel :
      (x : World) (e : Event)
      → let r = step parse value_string x e in
        Channel (held x.transport) (accepted x e) (delivered r.1) (held r.0.transport)
  unfolding step advance
  step-Channel x (connects url) =
      quiet-Moves x.transport ((connect url x.transport).0, (connect url x.transport).1)
        (connect-IsQuiet url x.transport)
  step-Channel x (sends m) = go x.transport.external
    where
      go :
          (b : Bool)
          → let r : World × List Effect =
              if b
              then (record x { posted = x.posted ++ queues m ∷ [] }, [])
              else in_world x (send m x.transport) in
            Channel
              (held x.transport)
              (if b then [] else taken x.transport m)
              (delivered r.1)
              (held r.0.transport)
      go true = still (held x.transport)
      go false = send-Moves m x.transport
  step-Channel x (closes on_strand) =
      if_intro (Step x) x.transport.external _ (in_world x (close x.transport))
        (if_intro (Step x) on_strand (in_world x (close x.transport)) _ (close-Moves x.transport)
          (still (held x.transport)))
        (close-Moves x.transport)
  step-Channel x runs = run_next-Moves x x.posted
  step-Channel x advances = advance_from-Moves x.transport.poll x.transport
  step-Channel x writes_next =
      if_intro (Step x) x.transport.external (x, []) (in_world x (write_next x.transport))
        (still (held x.transport)) (write_next-Moves x.transport)
  step-Channel x (answers reply) = answer-Moves x.transport.poll reply x.transport
  step-Channel x (wrote reply) =
      if_intro (Step x) x.transport.writing (in_world x (on_write reply x.transport)) (x, [])
        (on_write-Moves reply x.transport) (still (held x.transport))
  step-Channel x destroys = destroy-Moves x.transport

  abbrev pub accepted_by : World → List Event → List Message
  accepted_by x [] = []
  accepted_by x (e ∷ es) = accepted x e ++ accepted_by (step parse value_string x e).0 es

  run-Follows :
      (x : World) (es : List Event)
      → Follows (held x.transport) (accepted_by x es) (delivered (run parse value_string x es).1)
  unfolding run
  run-Follows x [] = Follows-nothing (held x.transport)
  run-Follows x (e ∷ es) =
      let x' = (step parse value_string x e).0 in
      rw (delivered-append (step parse value_string x e).1 (run parse value_string x' es).1) (
        Channel-Follows (accepted_by x' es) (delivered (run parse value_string x' es).1)
          (step-Channel x e) (run-Follows x' es))

  -- Whatever happens and in whatever order, the messages for which a request is sent are the first ones
  -- of those that the transport took on, in their order and each once, on its own threads as on the
  -- context of the caller.
  pub delivered-run-prefix_polling :
      (external : Bool) (es : List Event)
      → (rest : List Message) × (accepted_by (initial external) es
          ≡ delivered (run parse value_string (initial external) es).1 ++ rest)
  unfolding initial make_transport
  delivered-run-prefix_polling external es = run-Follows (initial external) es
