-- ===== src/Socket/State.antt =====
-- include/sioxx/socket.hpp: the socket's fields, and what its methods do outside the socket.
use sioxx.Prelude.{ℕ, Bool, true, false, Option, none, List, [], ◌∷◌, if◌then◌else◌, ◌==◌}
use sioxx.Prelude.Bytes.{Bytes}
use sioxx.Prelude.Int.{pos, negsuc}
use sioxx.Prelude.Map.{Map}
use sioxx.Message.{Json}
use sioxx.Packet.{Packet}
use sioxx.AckScheduler.{AckScheduler}

-- A `std::function` is a number that names it, or `none` when it is empty.
abbrev pub Callback : Type 0
Callback = Option ℕ

pub data AckStatus : Type 0 where
  acknowledged timeout : AckStatus

-- Calls that leave the socket: `send_packet` of the client; a listener, with the ack id for which it
-- may acknowledge; an ack callback, with the id it was registered under; the connection listeners.
-- `faults` is a use of the scheduler where there is none.
pub data Effect : Type 0 where
  sends : Packet → Effect
  hears : ℕ → Bytes → Json → Effect
  hears_ack : ℕ → Bytes → Json → Option ℕ → Effect
  calls_ack : ℕ → ℕ → Json → Effect
  calls_timed : ℕ → ℕ → AckStatus → Json → Effect
  connects : ℕ → Effect
  disconnects : ℕ → Bytes → Effect
  faults : Effect

-- `client` says whether the weak pointer to the client still locks.
pub record Socket : Type 0 where
  pub client : Bool
  pub nsp : Bytes
  pub connected : Bool
  pub auth : Json
  pub listeners : Map Bytes Callback
  pub ack_listeners : Map Bytes Callback
  pub any_listener : Callback
  pub any_ack_listener : Callback
  pub pending_acks : Map ℕ Callback
  pub timed_acks : Map ℕ ℕ
  pub active_timed_acks : ℕ
  pub timed_acks_closed : Bool
  pub send_buffer : List Packet
  pub next_ack_id : ℕ
  pub flushing_send_buffer : Bool
  pub on_connect : Callback
  pub on_disconnect : Callback
  pub ack_scheduler : Option AckScheduler

-- The constructor.
abbrev pub make_socket : Bytes → Json → Socket
make_socket nsp auth = record {
  client = true;
  nsp = nsp;
  connected = false;
  auth = auth;
  listeners = [];
  ack_listeners = [];
  any_listener = none;
  any_ack_listener = none;
  pending_acks = [];
  timed_acks = [];
  active_timed_acks = 0;
  timed_acks_closed = false;
  send_buffer = [];
  next_ack_id = 0;
  flushing_send_buffer = false;
  on_connect = none;
  on_disconnect = none;
  ack_scheduler = none;
}

-- `if (auto c = client_.lock()) c->send_packet(packet);`
abbrev pub send_packet : Socket → Packet → List Effect
send_packet s p = if s.client then sends p ∷ [] else []

-- `buffered.id == id`
abbrev pub has_id : ℕ → Packet → Bool
has_id id p = elim p.id [ pos n ↦ n == id | negsuc n ↦ false ]

-- `remove_if` with `erase`, keeping what passes.
unfoldable pub keep_if : (Packet → Bool) → List Packet → List Packet
keep_if t [] = []
keep_if t (p ∷ ps) = if t p then p ∷ keep_if t ps else keep_if t ps
