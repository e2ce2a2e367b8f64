-- ===== src/Client/Dispatch.antt =====
-- src/client.cpp: packets that arrive, the sockets of the namespaces, and packets that are sent.
use sioxx.Prelude.{
  ℕ, Bool, true, false, Option, none, some, List, [], ◌∷◌, ◌++◌, if◌then◌else◌, ◌>>=◌, ltb, ◌==◌,
  ◌||◌, ◌&&◌,
}
use sioxx.Prelude.Bytes.{Bytes, codes}
use sioxx.Prelude.Int.{ℤ, pos, negsuc}
use sioxx.Prelude.Map
use sioxx.Prelude.Map.{Map, bytes_key}
use sioxx.Message.{Json, string, array, cons, is_null}
use sioxx.Packet.{Packet, connect, disconnect, event, ack, connect_error, binary_event, binary_ack}
use sioxx.Socket.State
use sioxx.Socket.State.{Socket, make_socket}
use sioxx.Socket.Listeners.{dispatch_event}
use sioxx.Socket.Acks.{dispatch_ack, cancel_timed_acks}
use sioxx.Socket.Connection.{mark_connected, send_connect, set_auth}
use sioxx.JsonParser.Encode.{Frame, encode}
use sioxx.JsonParser.Decode.{Decoded, more, done, fault, decode}
use sioxx.EngineIoClient
use sioxx.EngineIoClient.{EngineIoClient, send}
use sioxx.Client.State.{Effect, Client, from_all}

abbrev pub event_name : Json → Bytes
event_name (string name) = name
event_name _ = []

-- An event's data is an array of the name and the arguments.
abbrev pub dispatch_body : Json → ℤ → Socket → List State.Effect
dispatch_body (array (cons name args)) id s = dispatch_event (event_name name) (array args) id s
dispatch_body _ id s = []

abbrev pub dispatch_reply : ℤ → Json → ℕ → Socket → Socket × List State.Effect
dispatch_reply (pos id) body now s = dispatch_ack id body now s
dispatch_reply (negsuc n) body now s = (s, [])

-- The switch on the packet's type for a socket that there is. `clock` gives the times of the rounds of
-- a flush, `now` the time of an acknowledgement.
unfoldable pub deliver : Packet → (ℕ → ℕ) → ℕ → Socket → Option (Socket × List State.Effect)
deliver p clock now s = elim p.type [
  | connect ↦ mark_connected true [] clock s
  | disconnect ↦ mark_connected false [] clock s
  | connect_error ↦ some (s, dispatch_event (codes "connect_error") p.body (negsuc 0) s)
  | event ↦ some (s, dispatch_body p.body p.id s)
  | binary_event ↦ some (s, dispatch_body p.body p.id s)
  | ack ↦ some (dispatch_reply p.id p.body now s)
  | binary_ack ↦ some (dispatch_reply p.id p.body now s)
]

unfoldable pub on_packet : Packet → (ℕ → ℕ) → ℕ → Client → Option (Client × List Effect)
on_packet p clock now c = elim (Map.lookup p.nsp c.sockets) [
  | none ↦ some (c, [])
  | some s ↦ deliver p clock now s >>= λ (s', es).
      some (record c { sockets = Map.insert p.nsp s' c.sockets }, from_all p.nsp es)
]

-- What the decoder said, for a frame of the current engine; `none` is its fault.
unfoldable pub on_decoded : Decoded → (ℕ → ℕ) → ℕ → Client → Option (Client × List Effect)
on_decoded (more d) clock now c = some (record c { decoder = d }, [])
on_decoded (done d p) clock now c = on_packet p clock now (record c { decoder = d })
on_decoded fault clock now c = none

unfoldable pub on_engineio_frame :
    (Bytes → Option Json) → Frame → (ℕ → ℕ) → ℕ → Client → Option (Client × List Effect)
on_engineio_frame parse f clock now c = on_decoded (decode parse c.decoder f) clock now c

abbrev pub norm_nsp : Bytes → Bytes
norm_nsp [] = codes "/"
norm_nsp (c ∷ nsp) = c ∷ nsp

-- The order of `std::string`, by the bytes.
unfoldable pub bytes_less : Bytes → Bytes → Bool
bytes_less [] [] = false
bytes_less [] (_ ∷ _) = true
bytes_less (_ ∷ _) [] = false
bytes_less (a ∷ s) (b ∷ t) = ltb a b || (a == b && bytes_less s t)

-- A new key of `std::map` stands in front of the first key that is greater.
unfoldable pub place : Bytes → Socket → Map Bytes Socket → Map Bytes Socket
place nsp s [] = (nsp, s) ∷ []
place nsp s ((key, t) ∷ sockets) =
    if bytes_less nsp key then (nsp, s) ∷ (key, t) ∷ sockets else (key, t) ∷ place nsp s sockets

-- A namespace's new socket. `is_open` is that of the current engine, and false where there is none.
abbrev pub new_socket : Bytes → Json → Bool → Client → Client × List Effect
new_socket nsp auth is_open c =
    let sock = make_socket nsp auth in
    let sock' = if c.intentional_close then cancel_timed_acks sock else sock in
    (
      record c { sockets = place nsp sock' c.sockets },
      if is_open then from_all nsp (send_connect sock') else [],
    )

unfoldable pub socket : Bytes → Json → Bool → Client → Client × List Effect
socket nsp auth is_open c = elim (Map.lookup (norm_nsp nsp) c.sockets) [
  | none ↦ new_socket (norm_nsp nsp) auth is_open c
  | some s ↦ (
    if is_null auth
        then c
        else record c { sockets = Map.insert (norm_nsp nsp) (set_auth auth s) c.sockets },
    [],
  )
]

abbrev pub send_frames : List Frame → EngineIoClient → List EngineIoClient.Effect
send_frames [] engineio = []
send_frames (f ∷ fs) engineio = send f.payload f.is_binary engineio ++ send_frames fs engineio

-- The frames of a packet go to the current engine in order; `none` is an exception of the encoder.
unfoldable pub send_packet :
    (Json → Option Bytes) → Packet → Option EngineIoClient → Option (List EngineIoClient.Effect)
send_packet dump p none = some []
send_packet dump p (some engineio) = encode dump p >>= λ fs. some (send_frames fs engineio)
