-- ===== src/Client/Reconnection.antt =====
-- src/client.cpp: the thread that reconnects.
use sioxx.Prelude.{
  ℕ, suc, ◌<◌, ◌≡◌, refl, true, false, some, List, [], ◌∷◌, ◌++◌, ◌==◌, leb, ltb, arith,
}
use mathlib.Core.Path.{◌∙◌, ap}
use sioxx.Prelude.Bytes.{Bytes}
use sioxx.Client.State.{absent, waits, Effect, closed, reconnects, Client, continues, deadlocks}
use sioxx.Client.Engine.{
  on_engineio_close, schedule_reconnect, start_worker, disconnect_all, disconnect_notices,
  handle_engineio_close, is_current,
}

-- The client whose attempt is counted, and then the one whose thread waits to reconnect.
abbrev counted : Client → Client
counted c = record c {
  sockets = disconnect_all c.sockets;
  reconnect_attempts_used = suc c.reconnect_attempts_used;
}

abbrev scheduled : Client → Client
scheduled c = record (counted c) { reconnect_thread = waits c.base_uri }

-- A close that is reported while attempts are left goes on to the thread.
on_engineio_close-starts :
    (reason : Bytes) (c : Client)
    → c.intentional_close ≡ false
    → c.reconnect_attempts_used < c.options.reconnect_attempts
    → on_engineio_close reason c
      ≡ start_worker
          (counted c)
          ((disconnect_notices c.sockets ++ closed reason ∷ [])
            ++ reconnects c.reconnect_attempts_used ∷ [])
          c.reconnect_thread
unfolding on_engineio_close schedule_reconnect
on_engineio_close-starts reason c i n =
    let a : leb c.options.reconnect_attempts c.reconnect_attempts_used ≡ false = ground arith in
    let b : ltb 0 c.options.reconnect_attempts ≡ true = ground arith in rw (i, b, a) refl

handle_engineio_close-current :
    (engine : ℕ) (reason : Bytes) (c : Client)
    → c.engineio ≡ some engine
    → handle_engineio_close engine reason c ≡ on_engineio_close reason c
unfolding handle_engineio_close is_current
handle_engineio_close-current engine reason c e =
    let q : (engine == engine) ≡ true = ground arith in rw (e, q) refl

-- The current engine of a client that is not being closed reports its close, no thread to reconnect
-- being there yet and two attempts or more being left. The client goes on with a thread that waits
-- for its delay, and a second report of that engine before the wait has ended waits for ever.
pub handle_engineio_close-twice :
    (engine : ℕ) (reason reason' : Bytes) (c : Client)
    → c.engineio ≡ some engine
    → c.intentional_close ≡ false
    → c.reconnect_thread ≡ absent
    → suc c.reconnect_attempts_used < c.options.reconnect_attempts
    → (c' : Client) × (es : List Effect) × (handle_engineio_close engine reason c ≡ continues c' es)
      × (handle_engineio_close engine reason' c' ≡ deadlocks)
handle_engineio_close-twice engine reason reason' c e i w n = (
  scheduled c,
  _,
  handle_engineio_close-current engine reason c e
      ∙ on_engineio_close-starts reason c i (omega (arith, n))
      ∙ ap (start_worker (counted c) _) w,
  handle_engineio_close-current engine reason' (scheduled c) e
      ∙ on_engineio_close-starts reason' (scheduled c) i n,
)
