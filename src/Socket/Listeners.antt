-- ===== src/Socket/Listeners.antt =====
-- src/socket.cpp: listeners, and the dispatch of an event to them.
use sioxx.Prelude.{ℕ, Bool, true, Option, none, some, List, [], ◌∷◌, ◌++◌, if◌then◌else◌}
use sioxx.Prelude.Bytes.{Bytes}
use sioxx.Prelude.Int.{ℤ, pos, negsuc}
use sioxx.Prelude.Map
use sioxx.Prelude.Map.{bytes_key}
use sioxx.Message.{Json, array, nil, cons, is_array, is_null}
use sioxx.Packet.{ack, default_packet}
use sioxx.Socket.State.{Callback, Effect, hears, hears_ack, Socket, send_packet}

unfoldable pub on : Bytes → Callback → Socket → Socket
on event listener s = record s {
  listeners = Map.insert event listener s.listeners;
  ack_listeners = Map.erase event s.ack_listeners;
}

-- `on` with a listener that may acknowledge.
unfoldable pub on_ack : Bytes → Callback → Socket → Socket
on_ack event listener s = record s {
  ack_listeners = Map.insert event listener s.ack_listeners;
  listeners = Map.erase event s.listeners;
}

unfoldable pub on_any : Callback → Socket → Socket
on_any listener s = record s { any_listener = listener; any_ack_listener = none }

unfoldable pub on_any_ack : Callback → Socket → Socket
on_any_ack listener s = record s { any_ack_listener = listener; any_listener = none }

unfoldable pub off : Bytes → Socket → Socket
off event s = record s {
  listeners = Map.erase event s.listeners;
  ack_listeners = Map.erase event s.ack_listeners;
}

unfoldable pub off_all : Socket → Socket
off_all s = record s {
  listeners = [];
  ack_listeners = [];
  any_listener = none;
  any_ack_listener = none;
}

-- `it != end() ? it->second : {}`
abbrev pub listener_of : Option Callback → Callback
listener_of none = none
listener_of (some f) = f

-- `acknowledge` answers an id that is not negative, where a listener can use it.
abbrev pub acknowledge_id : Callback → Callback → ℤ → Option ℕ
acknowledge_id none none id = none
acknowledge_id _ _ (pos n) = some n
acknowledge_id _ _ (negsuc n) = none

-- The listener is called, or else the one that may acknowledge.
abbrev pub notify : Callback → Callback → Bytes → Json → Option ℕ → List Effect
notify (some f) g event body id = hears f event body ∷ []
notify none (some g) event body id = hears_ack g event body id ∷ []
notify none none event body id = []

unfoldable pub dispatch_event : Bytes → Json → ℤ → Socket → List Effect
dispatch_event event body ack_id s =
    let listener = listener_of (Map.lookup event s.listeners) in
    let ack_listener = listener_of (Map.lookup event s.ack_listeners) in
    let id = acknowledge_id ack_listener s.any_ack_listener ack_id in
    notify listener ack_listener event body id
    ++ notify s.any_listener s.any_ack_listener event body id

-- An array is sent as it is, null as no argument, any other value as the one argument.
abbrev pub arguments_of : Json → Json
arguments_of v = if is_array v then v else if is_null v then array nil else array (cons v nil)

unfoldable pub send_ack : ℕ → Json → Socket → List Effect
send_ack id body s =
    send_packet s
      (record default_packet { type = ack; nsp = s.nsp; id = pos id; body = arguments_of body })

-- The closure `acknowledge`, with its flag `sent`: the flag afterwards, and what it does.
unfoldable pub acknowledge : Bool → ℕ → Json → Socket → Bool × List Effect
acknowledge sent id reply s = (true, if sent then [] else send_ack id reply s)
