-- ===== src/Client/Session/Messages.antt =====
-- src/client.cpp: the messages that frames are, and the packets that sockets are given one by one.
use sioxx.Prelude.{
  ℕ, ◌≡◌, refl, ap, true, false, Option, none, some, List, [], ◌∷◌, ◌++◌, map, append-nil, arith,
  inl, inr, Option-cases, ◌>>=◌, if◌then◌else◌,
}
use sioxx.Prelude.Bytes.{Bytes}
use sioxx.Prelude.Map
use sioxx.Prelude.Map.{Map, bytes_key}
use sioxx.Packet.{Packet}
use sioxx.Socket.State.{Socket}
use sioxx.Socket.State as SocketState
use sioxx.JsonParser.Encode.{Frame}
use sioxx.EngineIoClient
use sioxx.EngineIoClient.{EngineIoClient, send, handle_transport_message}
use sioxx.Client.State.{Effect, Client, from_all}
use sioxx.Client.Dispatch.{deliver, on_packet, send_frames}
use sioxx.Client.Session.{Message, messages_of}

-- The message that a session makes of a frame.
abbrev pub message_of : Frame → Message
message_of f = if f.is_binary then (f.payload, true) else (b'4' ∷ f.payload, false)

pub messages_of-append :
    (es fs : List EngineIoClient.Effect) → messages_of (es ++ fs) ≡ messages_of es ++ messages_of fs
messages_of-append [] fs = refl
messages_of-append (EngineIoClient.transport_sends p b ∷ es) fs =
    ap (λ l. (p, b) ∷ l) (messages_of-append es fs)
messages_of-append (EngineIoClient.transport_connects u ∷ es) fs = messages_of-append es fs
messages_of-append (EngineIoClient.transport_closes ∷ es) fs = messages_of-append es fs
messages_of-append (EngineIoClient.transport_sync_closes ∷ es) fs = messages_of-append es fs
messages_of-append (EngineIoClient.on_frame p b ∷ es) fs = messages_of-append es fs
messages_of-append (EngineIoClient.on_open ∷ es) fs = messages_of-append es fs
messages_of-append (EngineIoClient.on_close r ∷ es) fs = messages_of-append es fs
messages_of-append (EngineIoClient.on_error r ∷ es) fs = messages_of-append es fs

-- An open session gives each frame to the transport as one message.
messages_of-send :
    (f : Frame) (s : EngineIoClient)
    → s.transport ≡ true
    → s.open_flag ≡ true
    → messages_of (send f.payload f.is_binary s) ≡ message_of f ∷ []
unfolding send
messages_of-send f s t o = ground arith

pub messages_of-send_frames :
    (fs : List Frame) (s : EngineIoClient)
    → s.transport ≡ true
    → s.open_flag ≡ true
    → messages_of (send_frames fs s) ≡ map message_of fs
messages_of-send_frames [] s t o = refl
messages_of-send_frames (f ∷ fs) s t o =
    rw
      (
        messages_of-append (send f.payload f.is_binary s) (send_frames fs s),
        messages_of-send f s t o,
      )
      (ap (λ l. message_of f ∷ l) (messages_of-send_frames fs s t o))

-- Packets that are delivered one after the other, as far as they concern the sockets.
pub deliver_to : Packet → (ℕ → ℕ) → ℕ → Map Bytes Socket → Option (Map Bytes Socket × List Effect)
deliver_to p clock now m = elim (Map.lookup p.nsp m) [
  | none ↦ some (m, [])
  | some s ↦ deliver p clock now s >>= λ (s', es). some (Map.insert p.nsp s' m, from_all p.nsp es)
]

abbrev pub deliver_all :
    List Packet → (ℕ → ℕ) → ℕ → Map Bytes Socket → Option (Map Bytes Socket × List Effect)
deliver_all [] clock now m = some (m, [])
deliver_all (p ∷ ps) clock now m = deliver_to p clock now m >>= λ (m', es).
    deliver_all ps clock now m' >>= λ (m'', es'). some (m'', es ++ es')

pub deliver_all-one :
    (p : Packet) (clock : ℕ → ℕ) (now : ℕ) (m : Map Bytes Socket)
    → deliver_all (p ∷ []) clock now m ≡ deliver_to p clock now m
deliver_all-one p clock now m = go (deliver_to p clock now m)
  where
    go : (r : Option (Map Bytes Socket × List Effect)) → (r >>= λ (m', es). some (m', es ++ [])) ≡ r
    go none = refl
    go (some (m', es)) = ap (λ l. some (m', l)) (append-nil es)

pub deliver_to-found :
    (p : Packet) (clock : ℕ → ℕ) (now : ℕ) (m : Map Bytes Socket) (s s' : Socket)
    (es : List SocketState.Effect)
    → Map.lookup p.nsp m ≡ some s
    → deliver p clock now s ≡ some (s', es)
    → deliver_to p clock now m ≡ some (Map.insert p.nsp s' m, from_all p.nsp es)
unfolding deliver_to
deliver_to-found p clock now m s s' es e d = rw (e, deliver_to) (rw d refl)

abbrev pub with_sockets :
    Client → Option (Map Bytes Socket × List Effect) → Option (Client × List Effect)
with_sockets c r = r >>= λ (m, es). some (record c { sockets = m }, es)

pub on_packet-deliver_to :
    (p : Packet) (clock : ℕ → ℕ) (now : ℕ) (c : Client)
    → on_packet p clock now c ≡ with_sockets c (deliver_to p clock now c.sockets)
unfolding on_packet deliver_to
on_packet-deliver_to p clock now c = elim (Option-cases (Map.lookup p.nsp c.sockets)) [
  | inl n ↦ rw (n, on_packet, deliver_to) refl
  | inr (s, e) ↦ elim (Option-cases (deliver p clock now s)) [
    | inl n ↦ rw (e, on_packet, deliver_to) (rw n refl)
    | inr ((s', fs), d) ↦ rw (e, on_packet, deliver_to) (rw d refl)
  ]
]
