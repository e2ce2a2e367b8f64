-- ===== src/Tests/Exchanges.antt =====
-- The theorems about two clients and what goes between them at concrete inputs.
use native.Mathlib.Omega.{arith}
use sioxx.Prelude.{
  ℕ, ◌≡◌, refl, true, false, Option, none, some, List, [], ◌∷◌, ◌==◌, map, ◌++◌, if◌then◌else◌,
}
use sioxx.Prelude.Bytes.{Bytes, codes, bytes_eq}
use sioxx.Prelude.Int.{pos, negsuc}
use sioxx.Prelude.Map
use sioxx.Prelude.Map.{bytes_key, nat_key}
use sioxx.Message.{Json, null, string, boolean, binary, array, nil, cons}
use sioxx.Packet.{Packet}
use sioxx.Socket.State.{Socket, sends, make_socket, calls_ack}
use sioxx.Socket.Listeners.{acknowledge, arguments_of}
use sioxx.Socket.Emission.{event_packet, emit, emit_ack, send_or_buffer}
use sioxx.JsonParser.Binary.{deconstruct_binary, placeholder}
use sioxx.JsonParser.Binary.Reconstruct.{is_restorable}
use sioxx.JsonParser.Encode.{encode, take_out}
use sioxx.JsonParser.Decode.{Decoder, idle, read_body}
use sioxx.JsonParser.RoundTrip.{arrives, default_nsp}
use sioxx.EngineIoClient as EngineIo
use sioxx.EngineIoClient.{EngineIoClient, transport_sends}
use sioxx.Client.State.{make_client, from_all, from_socket}
use sioxx.Client.Engine.{is_current}
use sioxx.Client.Dispatch.{send_packet}
use sioxx.WebsocketTransport.State.{Completion}
use sioxx.WebsocketTransport.Steps as Websocket
use sioxx.WebsocketTransport.Quiet.{delivered}
use sioxx.Client.Session.{Link, reacts, send_all, receive_all, of_option, messages_of}
use sioxx.Client.Session.Messages.{deliver_all, with_sockets}
use sioxx.Client.Session.Stream.{entry_of, packets-arrive}
use sioxx.Client.Session.Exchange.{receives, emit-receives, emit_ack-answered}
use sioxx.Client.Session.Readiness.{
  hearing, IsReady, IsOpen, IsCarried, arguments, put_socket, ack_packet,
}

-- An event with a binary argument, and the answer to it.
abbrev hello : Packet
hello = event_packet (codes "/chat") (codes "hi") (binary none (1 ∷ 2 ∷ [])) (pos 0)

abbrev shout : Packet
shout = event_packet (codes "/chat") (codes "hi") (binary none (1 ∷ 2 ∷ [])) (negsuc 0)

abbrev answer : Packet
answer = ack_packet (codes "/chat") 0 (boolean true)

abbrev stripped : Json
stripped = array (cons (string (codes "hi")) (cons (placeholder 0) nil))

-- What `dump` and `parse` do at those two.
abbrev text : Bytes
text = codes "[\"hi\",{\"_placeholder\":true,\"num\":0}]"

abbrev dump : Json → Option Bytes
dump (array (cons (string name) vs)) = some text
dump v = some (codes "[true]")

abbrev parse : Bytes → Option Json
parse (c ∷ d ∷ s) = if d == 34 then some stripped else some (array (cons (boolean true) nil))
parse s = none

abbrev value_int : Bytes → ℕ → Json → Option ℕ
value_int key n j = some n

abbrev value_string : Bytes → Bytes → Json → Option Bytes
value_string key s j = some s

hello-IsCarried : IsCarried dump parse hello
unfolding is_restorable take_out deconstruct_binary read_body
hello-IsCarried = record {
  sendable = record {
    plain = refl;
    namespace = (refl, ground arith);
    id = omega arith;
    few = omega arith;
  };
  json = record { text = text; dumped = refl; opening = refl; parsed = refl };
}

shout-IsCarried : IsCarried dump parse shout
unfolding is_restorable take_out deconstruct_binary read_body
shout-IsCarried = record {
  sendable = record {
    plain = refl;
    namespace = (refl, ground arith);
    id = refl;
    few = omega arith;
  };
  json = record { text = text; dumped = refl; opening = refl; parsed = refl };
}

answer-IsCarried : IsCarried dump parse answer
unfolding is_restorable take_out deconstruct_binary read_body
answer-IsCarried = record {
  sendable = record {
    plain = refl;
    namespace = (refl, ground arith);
    id = omega arith;
    few = omega arith;
  };
  json = record { text = codes "[true]"; dumped = refl; opening = refl; parsed = refl };
}

abbrev session : EngineIoClient
session = record EngineIo.make_client { transport = true; open_flag = true }

abbrev joined : Socket
joined = record (make_socket (codes "/chat") null) { connected = true; next_ack_id = 0 }

-- The socket that a listener with an answer waits at.
abbrev listening : Socket
listening = record joined { ack_listeners = (codes "hi", some 5) ∷ [] }

abbrev asker : Socket
asker = record joined { next_ack_id = 1; pending_acks = (0, some 9) ∷ [] }

abbrev link_of : Socket → Link
link_of s = record {
  client =
      record (make_client (record {
        force_http_polling = false;
        engineio_path = [];
        query = [];
        reconnect_attempts = 3;
      })) { engineio = some 0; next_engineio = 1; sockets = (codes "/chat", s) ∷ [] };
  session = session;
}

session-IsOpen : IsOpen session
session-IsOpen = record { transport = refl; is_open = refl }

listening-IsReady : IsReady 0 (default_nsp (codes "/chat")) listening (link_of listening)
unfolding is_current Map.lookup bytes_eq
listening-IsReady = record { current = refl; decoder = refl; socket = refl }

asker-IsReady :
    IsReady 0
      (default_nsp (codes "/chat"))
      (emit_ack (codes "hi") (binary none (1 ∷ 2 ∷ [])) (some 9) joined).0
      (link_of asker)
unfolding is_current Map.lookup bytes_eq emit_ack send_or_buffer Map.insert
asker-IsReady = record { current = refl; decoder = refl; socket = refl }

abbrev clock : ℕ → ℕ
clock n = n

emit-receives_example :
    (fs : List EngineIo.Effect) × (send_all dump
        (emit (codes "hi") (binary none (1 ∷ 2 ∷ [])) joined).1
        (some session)
      ≡ some fs)
    × (receives dump parse 0 clock 3 value_int value_string fs (link_of listening) ≡ (
      session,
      reacts
          (record (link_of listening).client { decoder = idle })
          (from_all
            (codes "/chat")
            (hearing (codes "hi") (arguments (binary none (1 ∷ 2 ∷ []))) (negsuc 0) listening)),
    ))
emit-receives_example =
    emit-receives dump parse 0 clock 3 value_int value_string (codes "hi")
      (binary none (1 ∷ 2 ∷ [])) joined session (link_of listening) listening refl refl
      session-IsOpen shout-IsCarried listening-IsReady

emit_ack-answered_example :
    let (s', es) = emit_ack (codes "hi") (binary none (1 ∷ 2 ∷ [])) (some 9) joined in
    ((fs : List EngineIo.Effect) × (send_all dump es (some session) ≡ some fs)
      × (receives dump parse 0 clock 3 value_int value_string fs (link_of listening) ≡ (
        session,
        reacts
            (record (link_of listening).client { decoder = idle })
            (from_all
              (codes "/chat")
              (hearing (codes "hi") (arguments (binary none (1 ∷ 2 ∷ []))) (pos 0) listening)),
      )))
    × ((gs : List EngineIo.Effect) × (send_all dump
            (acknowledge false 0 (boolean true) listening).1
            (some session)
          ≡ some gs)
        × (receives dump parse 0 clock 3 value_int value_string gs (link_of asker) ≡ (
          session,
          reacts
              (put_socket
                (codes "/chat")
                (record s' { pending_acks = Map.erase 0 s'.pending_acks })
                (link_of asker).client)
              (from_socket (codes "/chat") (calls_ack 0 9 (arguments_of (boolean true))) ∷ []),
        )))
unfolding Map.lookup
emit_ack-answered_example =
    emit_ack-answered dump parse 0 clock 3 value_int value_string (codes "hi")
      (binary none (1 ∷ 2 ∷ [])) (boolean true) 9 joined listening (link_of asker)
      (link_of listening) (refl, refl, refl) refl refl session-IsOpen session-IsOpen hello-IsCarried
      answer-IsCarried listening-IsReady asker-IsReady

-- The messages of that event, and a connection on which they are sent, where the first one is written.
abbrev frames : List EngineIo.Effect
frames =
    transport_sends (codes "451-/chat,[\"hi\",{\"_placeholder\":true,\"num\":0}]") false
    ∷ transport_sends (1 ∷ 2 ∷ []) true
    ∷ []

abbrev succeeded : Completion
succeeded = record { error = none; sni_error = none; status = 0; payload = []; is_binary = false }

abbrev events : List Websocket.Event
events =
    Websocket.connects (codes "ws://host/")
    ∷ Websocket.completes 0 succeeded
    ∷ Websocket.completes 0 succeeded
    ∷ Websocket.completes 0 succeeded
    ∷ Websocket.sends (codes "451-/chat,[\"hi\",{\"_placeholder\":true,\"num\":0}]") false
    ∷ Websocket.runs
    ∷ Websocket.sends (1 ∷ 2 ∷ []) true
    ∷ Websocket.wrote none
    ∷ Websocket.runs
    ∷ Websocket.closes false
    ∷ []

frames-sent : send_all dump (map sends (shout ∷ [])) (some session) ≡ some frames
unfolding send_all send_packet encode take_out deconstruct_binary EngineIo.send
    sioxx.JsonParser.Encode.header_text sioxx.JsonParser.Numbers.decimal
    sioxx.JsonParser.Encode.wire_type bytes_eq
frames-sent = refl

events-delivered :
    delivered (Websocket.run (Websocket.initial true) events).1
    ≡ map entry_of (messages_of frames) ++ []
unfolding Websocket.run Websocket.step Websocket.initial sioxx.WebsocketTransport.Connect.connect
    sioxx.WebsocketTransport.State.make_transport sioxx.Url.parse_ws_url sioxx.Url.break_scheme
    sioxx.WebsocketTransport.Connect.start sioxx.WebsocketTransport.Connect.complete
    sioxx.WebsocketTransport.Connect.on_resolve bytes_eq
    sioxx.WebsocketTransport.Connect.on_tcp_connect sioxx.WebsocketTransport.Connect.on_handshake
    sioxx.WebsocketTransport.Write.queue_write sioxx.WebsocketTransport.Write.pump_write_queue
    sioxx.WebsocketTransport.Write.on_write sioxx.WebsocketTransport.Write.close
events-delivered = refl

link-current : is_current 0 (link_of listening).client ≡ true
unfolding is_current
link-current = refl

packets-arrive_example :
    (qs rest : List Packet) × (d : Decoder) × (map arrives (shout ∷ []) ≡ qs ++ rest)
    × (receive_all parse 0 clock 3 value_int value_string (messages_of frames) (link_of listening)
        ≡ (
          session,
          of_option (
              with_sockets
                (record (link_of listening).client { decoder = d })
                (deliver_all qs clock 3 (link_of listening).client.sockets)),
        ))
packets-arrive_example =
    packets-arrive dump parse (shout ∷ []) session frames true events (messages_of frames) []
      (link_of listening) 0 clock 3 value_int value_string (shout-IsCarried, tt) session-IsOpen
      frames-sent refl events-delivered link-current refl
