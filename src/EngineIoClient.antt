-- ===== src/EngineIoClient.antt =====
-- src/engineio_client.cpp and src/engineio_client.hpp: the Engine.IO session over a transport.
-- `parse` and the two `value`s are nlohmann's: `none` is a discarded value, or the exception of
-- `value` at what is no object or at a member of another type.
pub mod Session
use sioxx.Prelude.{
  ℕ, zero, suc, ◌+◌, ◌-◌, Bool, true, false, Option, none, some, List, [], ◌∷◌, ◌++◌, if◌then◌else◌,
  leb, ◌==◌, ◌&&◌, ◌||◌, not,
}
use sioxx.Prelude.Bytes.{Bytes, codes}
use sioxx.Message.{Json}

-- Calls of the transport and of the four handlers.
pub data Effect : Type 0 where
  transport_connects : Bytes → Effect
  transport_sends : Bytes → Bool → Effect
  transport_closes transport_sync_closes : Effect
  on_frame : Bytes → Bool → Effect
  on_open : Effect
  on_close on_error : Bytes → Effect

-- Times and intervals are milliseconds. `heartbeat` says whether the thread is joinable.
pub record EngineIoClient : Type 0 where
  pub transport : Bool
  pub open_flag : Bool
  pub closing : Bool
  pub heartbeat_stop_requested : Bool
  pub session_id : Bytes
  pub ping_interval_ms : ℕ
  pub ping_timeout_ms : ℕ
  pub heartbeat : Bool
  pub last_pong : ℕ

abbrev pub make_client : EngineIoClient
make_client = record {
  transport = false;
  open_flag = false;
  closing = false;
  heartbeat_stop_requested = true;
  session_id = [];
  ping_interval_ms = 25000;
  ping_timeout_ms = 20000;
  heartbeat = false;
  last_pong = 0;
}

-- A call returns, or an exception leaves it in the state that it has come to, or it would assign to a
-- thread that is joinable, which ends the program.
pub data Outcome : Type 0 where
  returns : EngineIoClient → List Effect → Outcome
  throws : EngineIoClient → Outcome
  terminates : Outcome

abbrev pub to_transport : EngineIoClient → Effect → List Effect
to_transport c e = if c.transport then e ∷ [] else []

unfoldable pub set_transport : EngineIoClient → EngineIoClient
set_transport c = record c { transport = true }

unfoldable pub open_url : Bytes → EngineIoClient → Outcome
open_url url c =
    let c' = record c { open_flag = false; session_id = [] } in
    if c.closing
    then returns c []
    else if not c.transport
    then throws c'
    else returns c' (transport_connects url ∷ [])

unfoldable pub close : EngineIoClient → EngineIoClient × List Effect
close c =
    let c' = record c { closing = true; heartbeat_stop_requested = true; open_flag = false } in
    if c.closing then (c, []) else (c', to_transport c transport_closes)

-- The thread is joined, or detached where it stops itself: it is not joinable any more.
abbrev pub stop_heartbeat_timer : EngineIoClient → EngineIoClient
stop_heartbeat_timer c = record c { heartbeat_stop_requested = true; heartbeat = false }

unfoldable pub sync_close : EngineIoClient → EngineIoClient × List Effect
sync_close c =
    let (c', es) = close c in (stop_heartbeat_timer c', es ++ to_transport c transport_sync_closes)

unfoldable pub send : Bytes → Bool → EngineIoClient → List Effect
send payload is_binary c =
    if not c.transport || not c.open_flag
    then []
    else if is_binary
    then transport_sends payload true ∷ []
    else transport_sends (b'4' ∷ payload) false ∷ []

unfoldable pub handle_transport_close : Bytes → EngineIoClient → EngineIoClient × List Effect
handle_transport_close reason c =
    (stop_heartbeat_timer (record c { open_flag = false }), on_close reason ∷ [])

-- Starts the thread, where the session is open; `then_do` is what the caller does next.
unfoldable pub start_heartbeat_timer : EngineIoClient → List Effect → Outcome
start_heartbeat_timer c then_do =
    let c' = record c { heartbeat_stop_requested = false; heartbeat = true } in
    if not c.open_flag || c.closing
    then returns c then_do
    else if c.heartbeat
    then terminates
    else returns c' then_do

module _ (parse : Bytes → Option Json) (value_int : Bytes → ℕ → Json → Option ℕ)
    (value_string : Bytes → Bytes → Json → Option Bytes) where
  -- The handshake's three members with their defaults.
  unfoldable pub open_with : EngineIoClient → (interval timeout : ℕ) → Bytes → ℕ → Outcome
  open_with c interval timeout sid now =
      start_heartbeat_timer
        (record c {
          ping_interval_ms = interval;
          ping_timeout_ms = timeout;
          last_pong = now;
          session_id = sid;
          open_flag = true;
        })
        (on_open ∷ [])

  unfoldable pub read_sid : EngineIoClient → Json → (interval timeout now : ℕ) → Outcome
  unfolding open_with
  read_sid c handshake interval timeout now = elim (value_string (codes "sid") [] handshake) [
    | none ↦
        throws
          (record c { ping_interval_ms = interval; ping_timeout_ms = timeout; last_pong = now })
    | some sid ↦ open_with c interval timeout sid now
  ]

  unfoldable pub read_timeout : EngineIoClient → Json → (interval now : ℕ) → Outcome
  unfolding read_sid
  read_timeout c handshake interval now = elim (value_int (codes "pingTimeout") 20000 handshake) [
    | none ↦ throws (record c { ping_interval_ms = interval })
    | some timeout ↦ read_sid c handshake interval timeout now
  ]

  unfoldable pub read_handshake : EngineIoClient → Option Json → ℕ → Outcome
  unfolding read_timeout open_with
  read_handshake c none now = open_with c c.ping_interval_ms c.ping_timeout_ms [] now
  read_handshake c (some handshake) now = elim (value_int (codes "pingInterval") 25000 handshake) [
    | none ↦ throws c
    | some interval ↦ read_timeout c handshake interval now
  ]

  -- The switch on the packet's type.
  unfoldable pub handle_packet : ℕ → Bytes → ℕ → EngineIoClient → Outcome
  unfolding read_handshake start_heartbeat_timer
  handle_packet type rest now c =
      if type == b'0'
      then read_handshake (stop_heartbeat_timer c) (parse rest) now
      else if type == b'1'
      then returns (stop_heartbeat_timer (record c { open_flag = false }))
          (on_close (codes "server closed connection") ∷ [])
      else if type == b'2'
      then returns (record c { last_pong = now })
          (to_transport c (transport_sends (codes "3") false))
      else if type == b'3'
      then returns (record c { last_pong = now }) []
      else if type == b'4'
      then returns c (on_frame rest false ∷ [])
      else returns c []

  unfoldable pub handle_text : Bytes → ℕ → EngineIoClient → Outcome
  unfolding handle_packet
  handle_text [] now c = returns c []
  handle_text (type ∷ rest) now c = handle_packet type rest now c

  unfoldable pub handle_transport_message : Bytes → Bool → ℕ → EngineIoClient → Outcome
  unfolding handle_text
  handle_transport_message payload is_binary now c =
      if is_binary then returns c (on_frame payload true ∷ []) else handle_text payload now c

-- The test of the heartbeat thread's loop, and what it does when its wait ends.
unfoldable pub heartbeat_runs : EngineIoClient → Bool
heartbeat_runs c = c.open_flag && not c.closing && not c.heartbeat_stop_requested

pub data Beat : Type 0 where
  goes_on : Beat
  stopped : Beat
  timed_out : List Effect → Beat

unfoldable pub heartbeat_wakes : ℕ → EngineIoClient → Beat
heartbeat_wakes now c =
    if c.closing || c.heartbeat_stop_requested
    then stopped
    else if leb (now - c.last_pong) (c.ping_interval_ms + c.ping_timeout_ms)
    then goes_on
    else timed_out (on_error (codes "engine.io ping timeout") ∷ to_transport c transport_closes)
