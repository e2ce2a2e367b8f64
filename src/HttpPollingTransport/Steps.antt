-- ===== src/HttpPollingTransport/Steps.antt =====
-- src/http_polling_transport.cpp as a machine: a step is a call, a function that was posted to the
-- strand, an answer, or one round of a loop. An answer arrives only where a request waits for it.
use sioxx.Prelude.{Bool, true, Option, List, [], ◌∷◌, ◌++◌, if◌then◌else◌, ◌⊎◌}
use sioxx.Prelude.Bytes.{Bytes}
use sioxx.Message.{Json}
use sioxx.HttpPollingTransport.State.{
  Message, Poll, requests, Effect, Reply, HttpPollingTransport, make_transport,
}
use sioxx.HttpPollingTransport.Polling.{start_poll, connect, on_reply, advance}
use sioxx.HttpPollingTransport.Writing.{send, write_next, on_write, close, destroy}

pub data Task : Type 0 where
  starts closes_now : Task
  queues : Message → Task

pub record World : Type 0 where
  pub transport : HttpPollingTransport
  pub posted : List Task

unfoldable pub initial : Bool → World
initial external = record { transport = make_transport external; posted = [] }

pub data Event : Type 0 where
  connects : Bytes → Event
  sends : Message → Event
  closes : (on_strand : Bool) → Event
  runs advances writes_next destroys : Event
  answers : Reply → Event
  wrote : Reply → Event

abbrev pub answer : Poll → Reply → HttpPollingTransport → HttpPollingTransport × List Effect
answer (requests handshake) reply t = on_reply handshake reply t
answer _ reply t = (t, [])

abbrev pub in_world : World → HttpPollingTransport × List Effect → World × List Effect
in_world x (t, es) = (record x { transport = t }, es)

abbrev post_start : World → HttpPollingTransport × List Effect × Bool → World × List Effect
post_start x (t, es, posts) =
    (record x { transport = t; posted = if posts then x.posted ++ starts ∷ [] else x.posted }, es)

abbrev pub run_task : Task → HttpPollingTransport → HttpPollingTransport × List Effect
run_task starts t = start_poll true t
run_task closes_now t = close t
run_task (queues m) t = send m t

abbrev pub run_next : List Task → World → World × List Effect
run_next [] x = (x, [])
run_next (task ∷ tasks) x = in_world (record x { posted = tasks }) (run_task task x.transport)

module _ (parse : Bytes → Option Json) (value_string : Bytes → Bytes → Json → Bytes ⊎ Bytes) where
  -- On the caller's context `send` posts, and so does `close` outside the strand.
  unfoldable pub step : World → Event → World × List Effect
  step x (connects url) = post_start x (connect url x.transport)
  step x (sends m) =
      if x.transport.external
      then (record x { posted = x.posted ++ queues m ∷ [] }, [])
      else in_world x (send m x.transport)
  step x (closes on_strand) =
      if x.transport.external
      then (if on_strand
          then in_world x (close x.transport)
          else (record x { posted = x.posted ++ closes_now ∷ [] }, []))
      else in_world x (close x.transport)
  step x runs = run_next x.posted x
  step x advances = in_world x (advance parse value_string x.transport)
  step x writes_next = if x.transport.external then (x, []) else in_world x (write_next x.transport)
  step x (answers reply) = in_world x (answer x.transport.poll reply x.transport)
  step x (wrote reply) =
      if x.transport.writing then in_world x (on_write reply x.transport) else (x, [])
  step x destroys = (record x { transport = destroy x.transport }, [])

  unfoldable pub run : World → List Event → World × List Effect
  run x [] = (x, [])
  run x (e ∷ es) = let (x', fs) = step x e in let (x'', gs) = run x' es in (x'', fs ++ gs)
