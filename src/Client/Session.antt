-- ===== src/Client/Session.antt =====
-- src/client.cpp with src/engineio_client.cpp: an engine of the client. The callbacks that
-- bind_engineio_callbacks sets hand what the session reports to the client, and send_packet goes the
-- other way, so that messages of the transport are the ends of the path.
pub mod Messages
pub mod Delivery
pub mod Readiness
pub mod Exchange
pub mod Stream
use sioxx.Prelude.{ℕ, Bool, Option, none, some, List, [], ◌∷◌, ◌++◌, if◌then◌else◌, ◌>>=◌}
use sioxx.Prelude.Bytes.{Bytes}
use sioxx.Message.{Json}
use sioxx.Socket.State
use sioxx.JsonParser.Encode.{Frame}
use sioxx.EngineIoClient
use sioxx.EngineIoClient.{
  EngineIoClient, Outcome, returns, throws, terminates, transport_sends, on_frame, on_open,
  on_close, on_error, handle_transport_message,
}
use sioxx.Client.State.{Effect, Client}
use sioxx.Client.State as ClientState
use sioxx.Client.Engine.{
  is_current, handle_engineio_open, handle_engineio_close, handle_engineio_error,
}
use sioxx.Client.Dispatch.{on_engineio_frame, send_packet}

-- A message of the transport: its payload, and whether it is binary.
abbrev pub Message : Type 0
Message = Bytes × Bool

-- The client with the engine that it hears of, by its number and its session.
pub record Link : Type 0 where
  pub client : Client
  pub session : EngineIoClient

-- A handler returns, with what the client does; or an exception leaves it; or it waits for ever, ends
-- the program, or reads outside of the attachments.
pub data Reaction : Type 0 where
  reacts raises : Client → List Effect → Reaction
  blocks faults : Reaction

abbrev pub of_result : ClientState.Result → Reaction
of_result (ClientState.continues c es) = reacts c es
of_result (ClientState.throws c es) = raises c es
of_result ClientState.deadlocks = blocks

abbrev pub of_option : Option (Client × List Effect) → Reaction
of_option none = faults
of_option (some (c, es)) = reacts c es

-- A second handler behind the first.
abbrev pub and_then : Reaction → (Client → Reaction) → Reaction
and_then (reacts c es) f = elim (f c) [
  | reacts c' es' ↦ reacts c' (es ++ es')
  | raises c' es' ↦ raises c' (es ++ es')
  | blocks ↦ blocks
  | faults ↦ faults
]
and_then r f = r

abbrev pub go_on :
    EngineIoClient × Reaction → (Link → EngineIoClient × Reaction) → EngineIoClient × Reaction
go_on (s, reacts c es) rest =
    let (s', r) = rest (record { client = c; session = s }) in (s', and_then (reacts c es) (λ _. r))
go_on (s, r) rest = (s, r)

module _ (parse : Bytes → Option Json) (engine : ℕ) (clock : ℕ → ℕ) (now : ℕ) where
  unfoldable pub handle_engineio_frame : Frame → Client → Reaction
  handle_engineio_frame f c =
      if is_current engine c then of_option (on_engineio_frame parse f clock now c) else reacts c []

  -- The callback for what the session reports; `is_open` is what it says of itself.
  abbrev pub on_engineio : EngineIoClient.Effect → (is_open : Bool) → Client → Reaction
  on_engineio (on_frame payload is_binary) is_open c =
      handle_engineio_frame (record { payload = payload; is_binary = is_binary }) c
  on_engineio on_open is_open c = of_result (handle_engineio_open engine c)
  on_engineio (on_close reason) is_open c = of_result (handle_engineio_close engine reason c)
  on_engineio (on_error message) is_open c =
      of_result (handle_engineio_error engine is_open message c)
  on_engineio _ is_open c = reacts c []

  abbrev pub on_all : List EngineIoClient.Effect → (is_open : Bool) → Client → Reaction
  on_all [] is_open c = reacts c []
  on_all (e ∷ es) is_open c = and_then (on_engineio e is_open c) (on_all es is_open)

  -- Where the session has come to, with the reaction of the client.
  abbrev pub on_outcome : Outcome → Link → EngineIoClient × Reaction
  on_outcome (returns s es) l = (s, on_all es s.open_flag l.client)
  on_outcome (throws s) l = (s, raises l.client [])
  on_outcome terminates l = (l.session, blocks)

  module _ (value_int : Bytes → ℕ → Json → Option ℕ)
      (value_string : Bytes → Bytes → Json → Option Bytes) where
    -- A message of the transport.
    unfoldable pub receive : Message → Link → EngineIoClient × Reaction
    receive (payload, is_binary) l =
        on_outcome
          (handle_transport_message parse value_int value_string payload is_binary now l.session) l

    -- Messages in the order of arrival, while the client goes on.
    unfoldable pub receive_all : List Message → Link → EngineIoClient × Reaction
    receive_all [] l = (l.session, reacts l.client [])
    receive_all (m ∷ ms) l = go_on (receive m l) (receive_all ms)

-- What a socket does goes out by the client's current engine; `none` is an exception of the encoder.
unfoldable pub send_all :
    (Json → Option Bytes)
    → List State.Effect
    → Option EngineIoClient
    → Option (List EngineIoClient.Effect)
send_all dump [] engineio = some []
send_all dump (State.sends p ∷ es) engineio =
    send_packet dump p engineio >>= λ fs. send_all dump es engineio >>= λ gs. some (fs ++ gs)
send_all dump (_ ∷ es) engineio = send_all dump es engineio

-- The messages that the transport is given.
abbrev pub messages_of : List EngineIoClient.Effect → List Message
messages_of [] = []
messages_of (transport_sends payload is_binary ∷ es) = (payload, is_binary) ∷ messages_of es
messages_of (_ ∷ es) = messages_of es
