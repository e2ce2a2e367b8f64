-- ===== src/Client/Shutdown.antt =====
-- src/client.cpp: closing, where a call may throw. An exception is kept until the end, the
-- first one where there are more.
pub mod Completeness
use sioxx.Prelude.{ℕ, Bool, true, false, Option, none, some, List, [], ◌∷◌, ◌++◌, if◌then◌else◌}
use sioxx.Prelude.Bytes.{Bytes}
use sioxx.Prelude.Map.{Map}
use sioxx.Socket.State
use sioxx.Socket.State.{Socket}
use sioxx.Socket.Acks.{cancel_timed_acks}
use sioxx.Socket.Connection.{close}
use sioxx.EngineIoClient.{EngineIoClient}
use sioxx.Client.State.{Worker, absent, Client}

-- What the calls throw: that which sends the packet of a namespace's socket, and those of the current
-- engine. A thread that is joinable joins.
pub record Throws (E : Type 0) : Type 0 where
  pub sending : Bytes → Option E
  pub closing : Option E
  pub sync_closing : Option E

pub data Effect : Type 0 where
  from_socket : Bytes → State.Effect → Effect
  closes sync_closes : (engine : ℕ) → Effect
  joins : Effect
  waits_for_timed_acks : Bytes → Effect

abbrev from_all : Bytes → List State.Effect → List Effect
from_all nsp [] = []
from_all nsp (e ∷ es) = from_socket nsp e ∷ from_all nsp es

-- `current_engineio`, and a call of it.
abbrev pub on_engine : Option ℕ → (ℕ → Effect) → List Effect
on_engine none call = []
on_engine (some engine) call = call engine ∷ []

abbrev pub waits_for_all : Map Bytes Socket → List Effect
waits_for_all [] = []
waits_for_all ((nsp, s) ∷ m) = waits_for_timed_acks nsp ∷ waits_for_all m

abbrev pub opened : Option EngineIoClient → Bool
opened none = false
opened (some engineio) = engineio.open_flag

abbrev pub get_sessionid : Option EngineIoClient → Bytes
get_sessionid none = []
get_sessionid (some engineio) = engineio.session_id

-- A thread does not join itself; one that waits returns, since the client is closed.
unfoldable pub stop_reconnect_thread : (on_worker : Bool) → Client → Client × List Effect
stop_reconnect_thread on_worker c = elim c.reconnect_thread [
  | absent ↦ (c, [])
  | _ ↦ if on_worker then (c, []) else (record c { reconnect_thread = absent }, joins ∷ [])
]

module _ {E : Type 0} where
  -- `capture_shutdown_error`: the error that is kept, and what the call threw.
  abbrev pub capture_shutdown_error : Option E → Option E → Option E
  capture_shutdown_error none thrown = thrown
  capture_shutdown_error (some first) thrown = some first

  -- What a call on the engine throws, where there is an engine.
  abbrev pub thrown_by : Option ℕ → Option E → Option E
  thrown_by none thrown = none
  thrown_by (some engine) thrown = thrown

  -- `disconnect`, which changes the socket only behind the sending.
  abbrev pub disconnect : Bytes → Option E → Socket → Socket × List Effect × Option E
  disconnect nsp none s = let (s', es) = close s in (s', from_all nsp es, none)
  disconnect nsp (some e) s = if s.client then (s, [], some e) else ((close s).0, [], none)

  unfoldable pub shut_socket : Bytes → Option E → Socket → Socket × List Effect × Option E
  shut_socket nsp thrown s =
      let s' = cancel_timed_acks s in
      if s'.connected then disconnect nsp thrown s' else (s', [], none)

  -- The loop of `close` over the sockets.
  unfoldable pub shut_sockets :
      Throws E → Option E → Map Bytes Socket → Map Bytes Socket × List Effect × Option E
  shut_sockets f first [] = ([], [], first)
  shut_sockets f first ((nsp, s) ∷ m) =
      let (s', es, thrown) = shut_socket nsp (f.sending nsp) s in
      let (m', es', first') = shut_sockets f (capture_shutdown_error first thrown) m in
      ((nsp, s') ∷ m', es ++ es', first')

  unfoldable pub close_client : Throws E → Client → Client × List Effect × Option E
  close_client f c =
      let (m, es, first) = shut_sockets f none c.sockets in
      (
        record c { intentional_close = true; sockets = m },
        es ++ on_engine c.engineio closes,
        capture_shutdown_error first (thrown_by c.engineio f.closing),
      )

  unfoldable pub sync_close :
      (on_worker : Bool) → Throws E → Client → Client × List Effect × Option E
  sync_close on_worker f c =
      let (c', es, first) = close_client f c in
      let (c'', es') = stop_reconnect_thread on_worker c' in
      (
        c'',
        es ++ (es' ++ (on_engine c''.engineio sync_closes ++ waits_for_all c''.sockets)),
        capture_shutdown_error (capture_shutdown_error first none)
            (thrown_by c''.engineio f.sync_closing),
      )

  -- The destructor of `client`.
  unfoldable pub destroy : (on_worker : Bool) → Throws E → Client → Client × List Effect
  destroy on_worker f c = let (c', es, first) = sync_close on_worker f c in (c', es)
