-- ===== src/WebsocketTransport/Steps.antt =====
-- src/websocket_transport.cpp as a machine: the transport with the functions that wait in the strand
-- and the operations of Boost that are outstanding. A handler of a completion is one step.
use sioxx.Prelude.{ℕ, zero, suc, Bool, Option, none, some, List, [], ◌∷◌, ◌++◌, if◌then◌else◌}
use sioxx.Prelude.Bytes.{Bytes}
use sioxx.WebsocketTransport.State.{
  Operation, Completion, Effect, starts, writes, Task, starts_connection, queues, shuts_down,
  WebsocketTransport, make_transport,
}
use sioxx.WebsocketTransport.Connect.{start, connect, complete}
use sioxx.WebsocketTransport.Write.{
  queue_write, on_write, shutdown_on_io_thread, close, join_io_thread, destroy,
}

-- `outstanding` lists the operations of connections, and `writing` the streams of the writes that have
-- not completed.
pub record World : Type 0 where
  pub transport : WebsocketTransport
  pub posted : List Task
  pub outstanding : List Operation
  pub writing : List Bool

unfoldable pub initial : Bool → World
initial owned_ioc = record {
  transport = make_transport owned_ioc;
  posted = [];
  outstanding = [];
  writing = [];
}

-- Calls of the transport, a posted function that runs, an operation or a write that completes, and the
-- end of the thread.
pub data Event : Type 0 where
  connects : Bytes → Event
  sends : Bytes → Bool → Event
  closes : (on_io_thread : Bool) → Event
  runs : Event
  completes : ℕ → Completion → Event
  wrote : Option Bytes → Event
  joins destroys : Event

abbrev pub started : List Effect → List Operation
started [] = []
started (starts op ∷ es) = op ∷ started es
started (_ ∷ es) = started es

abbrev pub writes_of : List Effect → List Bool
writes_of [] = []
writes_of (writes tls payload is_binary ∷ es) = tls ∷ writes_of es
writes_of (_ ∷ es) = writes_of es

-- The transport after a step, with what it posted and started.
abbrev pub settle : World → WebsocketTransport → List Effect → List Task → World
settle x w es ts = record {
  transport = w;
  posted = x.posted ++ ts;
  outstanding = x.outstanding ++ started es;
  writing = x.writing ++ writes_of es;
}

abbrev pub settled : World → WebsocketTransport × List Effect → World × List Effect
settled x (w, es) = (settle x w es [], es)

abbrev pub settled_posting :
    World → WebsocketTransport × List Effect × List Task → World × List Effect
settled_posting x (w, es, ts) = (settle x w es ts, es)

abbrev pub run_task : Task → WebsocketTransport → WebsocketTransport × List Effect
run_task (starts_connection tls) w = (w, start tls w)
run_task (queues payload is_binary) w = queue_write payload is_binary w
run_task shuts_down w = shutdown_on_io_thread w

abbrev pub run_next : List Task → World → World × List Effect
run_next [] x = (x, [])
run_next (t ∷ ts) x = settled (record x { posted = ts }) (run_task t x.transport)

-- The operation at an index, and the others.
abbrev pub take_at {ℓ} : {A : Type ℓ} → ℕ → List A → Option (A × List A)
take_at n [] = none
take_at zero (a ∷ as') = some (a, as')
take_at (suc n) (a ∷ as') = elim (take_at n as') [ none ↦ none | some (b, bs) ↦ some (b, a ∷ bs) ]

abbrev pub complete_taken :
    Option (Operation × List Operation) → Completion → World → World × List Effect
complete_taken none r x = (x, [])
complete_taken (some (op, ops)) r x =
    settled (record x { outstanding = ops }) (complete op r x.transport)

abbrev pub complete_write : List Bool → Option Bytes → World → World × List Effect
complete_write [] ec x = (x, [])
complete_write (tls ∷ rest) ec x =
    settled (record x { writing = rest }) (on_write tls ec x.transport)

unfoldable pub step : World → Event → World × List Effect
step x (connects url) = settled_posting x (connect url x.transport)
step x (sends payload is_binary) =
    (record x { posted = x.posted ++ queues payload is_binary ∷ [] }, [])
step x (closes on_io_thread) = settled_posting x (close on_io_thread x.transport)
step x runs = run_next x.posted x
step x (completes n r) = complete_taken (take_at n x.outstanding) r x
step x (wrote ec) = complete_write x.writing ec x
step x joins = (
  record x {
    transport = if x.transport.is_closing then join_io_thread x.transport else x.transport;
  },
  [],
)
step x destroys = settled x (destroy x.transport)

unfoldable pub run : World → List Event → World × List Effect
run x [] = (x, [])
run x (e ∷ es) = let (x', fs) = step x e in let (x'', gs) = run x' es in (x'', fs ++ gs)
