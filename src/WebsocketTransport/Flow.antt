-- ===== src/WebsocketTransport/Flow.antt =====
-- src/websocket_transport.cpp: the write queue and the write that is outstanding.
use sioxx.Prelude.{
  ◌≡◌, refl, sym, ap, Bool, true, false, Option, none, some, List, [], ◌∷◌, ◌++◌, if◌then◌else◌,
  not, arith, if_intro, if_cases, append-nil,
}
use mathlib.Core.Bool.{false≢true}
use sioxx.Prelude.Bytes.{Bytes}
use sioxx.Transport.Channel.{Channel, still, shut}
use sioxx.WebsocketTransport.State.{
  Entry, Operation, Effect, Task, starts_connection, queues, shuts_down, WebsocketTransport,
}
use sioxx.WebsocketTransport.Write.{write_front, pump_write_queue}
use sioxx.WebsocketTransport.Steps.{World, Event, sends, writes_of}
use sioxx.WebsocketTransport.Quiet.{delivered, IsQuiet}

-- The entries whose payload has not been moved out.
abbrev pub unsent : List Entry → List Entry
unsent [] = []
unsent ((some p, b) ∷ q) = (some p, b) ∷ unsent q
unsent ((none, b) ∷ q) = unsent q

abbrev pub queued : List Task → List Entry
queued [] = []
queued (queues p b ∷ ts) = (some p, b) ∷ queued ts
queued (_ ∷ ts) = queued ts

-- What waits in the queue, and then in the strand.
abbrev holds : Bool → List Entry → List Task → Option (List Entry)
holds is_closing q posted = if is_closing then none else some (unsent q ++ queued posted)

abbrev pub held : World → Option (List Entry)
held x = holds x.transport.is_closing x.transport.write_queue x.posted

abbrev pub accepted : Event → List Entry
accepted (sends p b) = (some p, b) ∷ []
accepted _ = []

abbrev pub has_shutdown : List Task → Bool
has_shutdown [] = false
has_shutdown (shuts_down ∷ ts) = true
has_shutdown (_ ∷ ts) = has_shutdown ts

abbrev pub IsWhole : List Entry → Type 0
IsWhole [] = Unit {0}
IsWhole ((some p, b) ∷ q) = IsWhole q
IsWhole ((none, b) ∷ q) = ⊥

-- No write is outstanding, no entry is moved out and none is in progress; or one is, and its entry is
-- the front.
abbrev pub Flows : List Bool → List Entry → Bool → Type 0
Flows [] q progress = IsWhole q × (progress ≡ false)
Flows (t ∷ []) ((none, b) ∷ q) progress = IsWhole q × (progress ≡ true)
Flows _ _ progress = ⊥

abbrev pub AtMostOne : List Bool → Type 0
AtMostOne [] = Unit {0}
AtMostOne (t ∷ []) = Unit {0}
AtMostOne (t ∷ t' ∷ ts) = ⊥

-- At most one write is outstanding; while the transport is not closing, it is that of the front, and no
-- shutdown is posted.
abbrev Ordered : Bool → List Entry → Bool → List Task → List Bool → Type 0
Ordered is_closing q progress posted writing =
    AtMostOne writing
    × (is_closing ≡ false → Flows writing q progress × (has_shutdown posted ≡ false))

abbrev pub IsOrdered : World → Type 0
IsOrdered x =
    Ordered x.transport.is_closing x.transport.write_queue x.transport.write_in_progress x.posted
      x.writing

abbrev pub Refines : World → List Entry → World × List Effect → Type 0
Refines x a r = IsOrdered r.0 × Channel (held x) a (delivered r.1) (held r.0)

pub unsent-append : (q q' : List Entry) → unsent (q ++ q') ≡ unsent q ++ unsent q'
unsent-append [] q' = refl
unsent-append ((some p, b) ∷ q) q' = ap (λ l. (some p, b) ∷ l) (unsent-append q q')
unsent-append ((none, b) ∷ q) q' = unsent-append q q'

pub queued-append : (ts ts' : List Task) → queued (ts ++ ts') ≡ queued ts ++ queued ts'
queued-append [] ts' = refl
queued-append (queues p b ∷ ts) ts' = ap (λ l. (some p, b) ∷ l) (queued-append ts ts')
queued-append (starts_connection t ∷ ts) ts' = queued-append ts ts'
queued-append (shuts_down ∷ ts) ts' = queued-append ts ts'

pub has_shutdown-append :
    (ts ts' : List Task)
    → has_shutdown ts ≡ false
    → has_shutdown ts' ≡ false
    → has_shutdown (ts ++ ts') ≡ false
has_shutdown-append [] ts' h h' = h'
has_shutdown-append (queues p b ∷ ts) ts' h h' = has_shutdown-append ts ts' h h'
has_shutdown-append (starts_connection t ∷ ts) ts' h h' = has_shutdown-append ts ts' h h'
has_shutdown-append (shuts_down ∷ ts) ts' h h' = cc

-- A quiet step, which may post or run functions that queue nothing.
pub quiet-Refines :
    (x : World) (w : WebsocketTransport) (es : List Effect) (posted : List Task)
    (ops : List Operation)
    → IsOrdered x
    → IsQuiet x.transport w es
    → queued posted ≡ queued x.posted
    → (has_shutdown x.posted ≡ false → has_shutdown posted ≡ false)
    → Refines x [] (
      record {
        transport = w;
        posted = posted;
        outstanding = ops;
        writing = x.writing ++ writes_of es;
      },
      es,
    )
quiet-Refines x w es posted ops (one, flows) q same ns =
    rw (q.queue, q.progress, q.same_closing, q.nothing, q.no_write, append-nil x.writing, same)
      ((one, λ c. ((flows c).0, ns ((flows c).1))), still _)

pub unsent_whole : (q : List Entry) → IsWhole q → unsent q ≡ q
unsent_whole [] h = refl
unsent_whole ((some p, b) ∷ q) h = ap (λ l. (some p, b) ∷ l) (unsent_whole q h)
unsent_whole ((none, b) ∷ q) h = absurd h

pub IsWhole-append : (q q' : List Entry) → IsWhole q → IsWhole q' → IsWhole (q ++ q')
IsWhole-append [] q' h h' = h'
IsWhole-append ((some p, b) ∷ q) q' h h' = IsWhole-append q q' h h'
IsWhole-append ((none, b) ∷ q) q' h h' = absurd h

-- What a write or none leaves, and that it is the front.
abbrev pub Pumps : List Entry → WebsocketTransport × List Effect → Type 0
Pumps q (w, es) =
    Flows (writes_of es) w.write_queue w.write_in_progress
    × (q ≡ delivered es ++ unsent w.write_queue)
    × (w.is_closing ≡ false)

write_front-Pumps :
    (tls : Bool) (q : List Entry) (w : WebsocketTransport)
    → w.is_closing ≡ false
    → IsWhole q
    → w.write_in_progress ≡ true
    → w.write_queue ≡ q
    → Pumps q (write_front tls q w)
write_front-Pumps tls [] w c h p e = rw e ((tt, refl), refl, c)
write_front-Pumps tls ((some payload, b) ∷ q) w c h p e =
    ((h, p), ap (λ l. (some payload, b) ∷ l) (sym (unsent_whole q h)), c)
write_front-Pumps tls ((none, b) ∷ q) w c h p e = absurd h

-- The pump, once a write is in progress and none is outstanding.
pub pump-Pumps :
    (tls : Bool) (w : WebsocketTransport)
    → w.is_closing ≡ false
    → IsWhole w.write_queue
    → w.write_in_progress ≡ true
    → Pumps w.write_queue (pump_write_queue tls w)
unfolding pump_write_queue
pump-Pumps tls w c h p =
    if_cases (Pumps w.write_queue) w.is_closing _ _ (λ e. ground arith)
      (λ e.
        if_intro (Pumps w.write_queue) (not (if tls then w.ws_tls else w.ws_plain))
          (record w { write_in_progress = false }, []) _
          ((h, refl), sym (unsent_whole w.write_queue h), c)
          (write_front-Pumps tls w.write_queue w c h p refl))

-- A step that ends in a world that is closing delivers nothing more.
pub closing-Refines :
    (x x' : World) (a : List Entry) (es : List Effect)
    → x'.transport.is_closing ≡ true
    → delivered es ≡ []
    → AtMostOne x'.writing
    → Refines x a (x', es)
closing-Refines x x' a es c d one =
    rw (c, d) ((one, λ e. absurd (false≢true (sym e))), shut (held x) a)

pub Flows-append :
    (writing : List Bool) (q : List Entry) (p : Bytes) (b : Bool)
    → Flows writing q true
    → Flows writing (q ++ (some p, b) ∷ []) true
Flows-append [] q p b h = cc
Flows-append (t ∷ []) ((none, b') ∷ q) p b (h, e) = (IsWhole-append q ((some p, b) ∷ []) h tt, refl)
Flows-append (t ∷ []) ((some p', b') ∷ q) p b h = absurd h
Flows-append (t ∷ []) [] p b h = absurd h
Flows-append (t ∷ t' ∷ ts) q p b h = absurd h

pub Flows-idle :
    (writing : List Bool) (q : List Entry) → Flows writing q false → (writing ≡ []) × IsWhole q
Flows-idle [] q h = (refl, h.0)
Flows-idle (t ∷ []) ((none, b') ∷ q) h = cc
Flows-idle (t ∷ []) ((some p', b') ∷ q) h = absurd h
Flows-idle (t ∷ []) [] h = absurd h
Flows-idle (t ∷ t' ∷ ts) q h = absurd h

pub Flows-AtMostOne :
    (writing : List Bool) (q : List Entry) (progress : Bool)
    → Flows writing q progress
    → AtMostOne writing
Flows-AtMostOne [] q progress h = tt
Flows-AtMostOne (t ∷ []) q progress h = tt
Flows-AtMostOne (t ∷ t' ∷ ts) q progress h = absurd h
