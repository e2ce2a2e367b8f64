-- ===== src/Client/Session/Readiness.antt =====
-- src/client.cpp: the packets of events and acknowledgements, and a client that takes them.
use sioxx.Prelude.{ℕ, none, ◌++◌, ◌≡◌, ◌∙◌, refl, ap, true, Option, some, List, [], ◌∷◌, length}
use sioxx.Prelude.Bytes.{Bytes}
use sioxx.Prelude.Int.{ℤ, pos, negsuc}
use sioxx.Prelude.Map
use sioxx.Prelude.Map.{Map, bytes_key, nat_key, insert-lookup, lookup-insert}
use sioxx.Message.{
  Json, null, boolean, number_integer, number_unsigned, number_float, string, binary, array, object,
  nil, cons,
}
use sioxx.Packet.{Packet, default_packet, event, ack}
use sioxx.Socket.State
use sioxx.Socket.State.{Callback, Socket}
use sioxx.Socket.Listeners.{dispatch_event, arguments_of, notify, listener_of, acknowledge_id}
use sioxx.Socket.Emission.{event_packet, event_body}
use sioxx.Socket.Acks.{dispatch_ack}
use sioxx.JsonParser.Encode.{take_out, wire_type}
use sioxx.JsonParser.Decode.{idle}
use sioxx.JsonParser.Safety.{IsValid}
use sioxx.JsonParser.RoundTrip.{IsSendable, ReadsBack, arrives}
use sioxx.EngineIoClient.{EngineIoClient}
use sioxx.Client.State.{Client}
use sioxx.Client.Engine.{is_current}
use sioxx.Client.Dispatch.{deliver, dispatch_body}
use sioxx.Client.Session.{Link}

-- The arguments that a listener is given.
abbrev pub arguments : Json → Json
arguments (array vs) = array vs
arguments null = array nil
arguments v = array (cons v nil)

-- The id that a listener may acknowledge: one that is not negative.
abbrev pub answerable : ℤ → Option ℕ
answerable (pos n) = some n
answerable (negsuc n) = none

-- Of the listeners of a kind the plain one is called, and the one that may acknowledge, with the id,
-- where there is no plain one.
abbrev pub called : Option Callback → Option Callback → Bytes → Json → ℤ → List State.Effect
called (some (some f)) g name args id = State.hears f name args ∷ []
called f (some (some g)) name args id = State.hears_ack g name args (answerable id) ∷ []
called f g name args id = []

-- The calls of the listeners for an event with its arguments: first that of its name, then that of any
-- event.
abbrev pub hearing : Bytes → Json → ℤ → Socket → List State.Effect
hearing name args id s =
    called (Map.lookup name s.listeners) (Map.lookup name s.ack_listeners) name args id
    ++ called (some s.any_listener) (some s.any_ack_listener) name args id

dispatch_event-hearing :
    (name : Bytes) (args : Json) (id : ℤ) (s : Socket)
    → dispatch_event name args id s ≡ hearing name args id s
unfolding dispatch_event
dispatch_event-hearing name args id s =
    go (Map.lookup name s.listeners) (Map.lookup name s.ack_listeners) s.any_listener
      s.any_ack_listener id
  where
    named :
        (f g : Option Callback) (k : Callback) (id : ℤ)
        → notify (listener_of f) (listener_of g) name args (acknowledge_id (listener_of g) k id)
          ≡ called f g name args id
    named (some (some f)) g k id = refl
    named (some none) (some (some g)) k (pos n) = refl
    named (some none) (some (some g)) k (negsuc n) = refl
    named (some none) (some none) k id = refl
    named (some none) none k id = refl
    named none (some (some g)) k (pos n) = refl
    named none (some (some g)) k (negsuc n) = refl
    named none (some none) k id = refl
    named none none k id = refl

    any :
        (g h k : Callback) (id : ℤ)
        → notify h k name args (acknowledge_id g k id) ≡ called (some h) (some k) name args id
    any g (some h) k id = refl
    any (some g) none (some k) (pos n) = refl
    any (some g) none (some k) (negsuc n) = refl
    any none none (some k) (pos n) = refl
    any none none (some k) (negsuc n) = refl
    any g none none id = refl

    go :
        (f g : Option Callback) (h k : Callback) (id : ℤ)
        → (let id' = acknowledge_id (listener_of g) k id in
            notify (listener_of f) (listener_of g) name args id' ++ notify h k name args id')
          ≡ called f g name args id ++ called (some h) (some k) name args id
    go f g h k id =
        ap (λ es. es ++ notify h k name args (acknowledge_id (listener_of g) k id)) (named f g k id)
        ∙ ap (λ es. called f g name args id ++ es) (any (listener_of g) h k id)

-- A client that takes packets of a namespace: the engine is its current one, and the socket is there.
pub record IsReady (engine : ℕ) (nsp : Bytes) (s : Socket) (l : Link) : Type 0 where
  pub current : is_current engine l.client ≡ true
  pub decoder : IsValid l.client.decoder
  pub socket : Map.lookup nsp l.client.sockets ≡ some s

pub record IsOpen (s : EngineIoClient) : Type 0 where
  pub transport : s.transport ≡ true
  pub is_open : s.open_flag ≡ true

-- A packet that the parser sends and reads back.
pub record IsCarried (dump : Json → Option Bytes) (parse : Bytes → Option Json) (p : Packet)
    : Type 0 where
  pub sendable : IsSendable p
  pub json : ReadsBack dump parse (take_out p.type p.body).0

abbrev pub put_socket : Bytes → Socket → Client → Client
put_socket nsp s c = record c { decoder = idle; sockets = Map.insert nsp s c.sockets }

-- The packet of an acknowledgement.
abbrev pub ack_packet : Bytes → ℕ → Json → Packet
ack_packet nsp id reply = record default_packet {
  type = ack;
  nsp = nsp;
  id = pos id;
  body = arguments_of reply;
}

dispatch_body-event :
    (name : Bytes) (body : Json) (id : ℤ) (t : Socket)
    → dispatch_body (event_body name body) id t ≡ hearing name (arguments body) id t
dispatch_body-event name (array vs) id t = dispatch_event-hearing name (arguments (array vs)) id t
dispatch_body-event name null id t = dispatch_event-hearing name (arguments null) id t
dispatch_body-event name (boolean b) id t = dispatch_event-hearing name (arguments (boolean b)) id t
dispatch_body-event name (number_integer z) id t =
    dispatch_event-hearing name (arguments (number_integer z)) id t
dispatch_body-event name (number_unsigned n) id t =
    dispatch_event-hearing name (arguments (number_unsigned n)) id t
dispatch_body-event name (number_float n) id t =
    dispatch_event-hearing name (arguments (number_float n)) id t
dispatch_body-event name (string v) id t = dispatch_event-hearing name (arguments (string v)) id t
dispatch_body-event name (binary st v) id t =
    dispatch_event-hearing name (arguments (binary st v)) id t
dispatch_body-event name (object ms) id t = dispatch_event-hearing name (arguments (object ms)) id t

-- An event that arrives, with attachments or without, is heard by the listener of its name and that of any event.
pub deliver-event :
    (nsp name : Bytes) (body : Json) (id : ℤ) (clock : ℕ → ℕ) (now : ℕ) (t : Socket)
    → deliver (arrives (event_packet nsp name body id)) clock now t
      ≡ some (t, hearing name (arguments body) id t)
unfolding deliver wire_type
deliver-event nsp name body id clock now t = go (take_out event (event_body name body)).1
  where
    go :
        (bs : List Bytes)
        → deliver
            (record (arrives (event_packet nsp name body id)) {
              type = wire_type event bs;
              attachments = length bs;
            })
            clock
            now
            t
          ≡ some (t, hearing name (arguments body) id t)
    go [] = ap (λ es. some (t, es)) (dispatch_body-event name body id t)
    go (b ∷ bs) = ap (λ es. some (t, es)) (dispatch_body-event name body id t)

pub deliver-ack :
    (p : Packet) (id : ℕ) (clock : ℕ → ℕ) (now : ℕ) (t : Socket)
    → p.type ≡ ack
    → p.id ≡ pos id
    → deliver (arrives p) clock now t ≡ some (dispatch_ack id p.body now t)
unfolding deliver wire_type
deliver-ack p id clock now t e i = go (take_out p.type p.body).1
  where
    go :
        (bs : List Bytes)
        → deliver
            (record (arrives p) { type = wire_type p.type bs; attachments = length bs })
            clock
            now
            t
          ≡ some (dispatch_ack id p.body now t)
    go [] = rw (e, i) refl
    go (b ∷ bs) = rw (e, i) refl
