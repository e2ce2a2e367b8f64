-- ===== src/Socket/Connection.antt =====
-- src/socket.cpp: the connection of the namespace.
use sioxx.Prelude.{
  ℕ, suc, Bool, true, false, Option, none, some, List, [], ◌∷◌, ◌++◌, if◌then◌else◌, not, ◌&&◌,
  length,
}
use sioxx.Prelude.Bytes.{Bytes}
use sioxx.Message.{Json}
use sioxx.Packet.{connect, disconnect, default_packet}
use sioxx.Socket.State.{Callback, Effect, connects, disconnects, Socket, send_packet}
use sioxx.Socket.Emission.{flush_send_buffer}

unfoldable pub set_auth : Json → Socket → Socket
set_auth auth s = record s { auth = auth }

unfoldable pub send_connect : Socket → List Effect
send_connect s =
    send_packet s (record default_packet { type = connect; nsp = s.nsp; body = s.auth })

-- `disconnect`
unfoldable pub close : Socket → Socket × List Effect
close s = (
  record s { connected = false },
  send_packet s (record default_packet { type = disconnect; nsp = s.nsp }),
)

abbrev call_connect : Callback → List Effect
call_connect none = []
call_connect (some f) = connects f ∷ []

abbrev call_disconnect : Callback → Bytes → List Effect
call_disconnect none reason = []
call_disconnect (some f) reason = disconnects f reason ∷ []

-- The critical section of `mark_connected`: the socket, and whether this call shall flush.
unfoldable pub mark : Bool → Socket → Socket × Bool
mark connected s =
    let starts = connected && not s.connected && not s.flushing_send_buffer in
    (
      record s {
        connected = connected;
        flushing_send_buffer = if starts then true else s.flushing_send_buffer;
      },
      starts,
    )

-- The listener that hears of the change, after the flush; those of the state before are called.
unfoldable pub notify_change : Bool → Bytes → Socket → List Effect
notify_change connected reason s =
    if connected && not s.connected
    then call_connect s.on_connect
    else if not connected && s.connected
    then call_disconnect s.on_disconnect reason
    else []

-- `mark_connected` where no other thread takes part and every `send_packet` returns.
unfoldable pub mark_connected : Bool → Bytes → (ℕ → ℕ) → Socket → Option (Socket × List Effect)
mark_connected connected reason clock s =
    let (s', starts) = mark connected s in
    let flushed : Option (Socket × List Effect) =
      if starts then flush_send_buffer (suc (length s'.send_buffer)) clock s' else some (s', []) in
    elim flushed [
      | none ↦ none
      | some (s'', es) ↦ some (s'', es ++ notify_change connected reason s)
    ]

unfoldable pub on_connect : Callback → Socket → Socket
on_connect listener s = record s { on_connect = listener }

unfoldable pub on_disconnect : Callback → Socket → Socket
on_disconnect listener s = record s { on_disconnect = listener }
