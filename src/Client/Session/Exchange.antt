-- ===== src/Client/Session/Exchange.antt =====
-- src/client.cpp: an event on its way from one client to the listeners of another, and its
-- acknowledgement on the way back.
use sioxx.Prelude.{
  ℕ, suc, ◌≡◌, refl, ap, ◌∙◌, true, false, Option, none, some, List, [], ◌∷◌, ==_refl, append-nil,
}
use sioxx.Prelude.Bytes.{Bytes}
use sioxx.Prelude.Int.{ℤ, pos, negsuc}
use sioxx.Prelude.Map
use sioxx.Prelude.Map.{Map, bytes_key, nat_key, insert-lookup, lookup-insert}
use sioxx.Message.{Json}
use sioxx.Packet.{Packet}
use sioxx.Socket.State
use sioxx.Socket.State.{Callback, Socket, sends, calls_ack}
use sioxx.Socket.Listeners.{send_ack, acknowledge, arguments_of}
use sioxx.Socket.Emission.{event_packet, is_buffering, send_or_buffer, emit, emit_ack}
use sioxx.Socket.Acks.{dispatch_ack, answer_pending}
use sioxx.JsonParser.Decode.{idle}
use sioxx.JsonParser.RoundTrip.{arrives, default_nsp, decode_all-encode}
use sioxx.EngineIoClient
use sioxx.EngineIoClient.{EngineIoClient}
use sioxx.Client.State.{from_socket, from_all}
use sioxx.Client.Dispatch.{deliver, send_frames, send_packet}
use sioxx.Client.Session.{Link, Reaction, reacts, receive_all, send_all, messages_of}
use sioxx.Client.Session.Delivery.{receives-one}
use sioxx.Client.Session.Messages.{messages_of-send_frames, deliver_to-found}
use sioxx.Client.Session.Readiness.{
  hearing, arguments, IsReady, IsOpen, IsCarried, put_socket, ack_packet, deliver-event,
  deliver-ack,
}

module _ (dump : Json → Option Bytes) (parse : Bytes → Option Json) (engine : ℕ) (clock : ℕ → ℕ)
    (now : ℕ) (value_int : Bytes → ℕ → Json → Option ℕ)
    (value_string : Bytes → Bytes → Json → Option Bytes) where
  -- A packet is sent, and what its messages make of another client.
  send_packet-receives :
      (p : Packet) (s : EngineIoClient) (l : Link) (t t' : Socket) (es : List State.Effect)
      → IsOpen s
      → IsCarried dump parse p
      → IsReady engine (default_nsp p.nsp) t l
      → deliver (arrives p) clock now t ≡ some (t', es)
      → (fs : List EngineIoClient.Effect) × (send_packet dump p (some s) ≡ some fs)
        × (receive_all parse engine clock now value_int value_string (messages_of fs) l ≡ (
          l.session,
          reacts (put_socket (default_nsp p.nsp) t' l.client) (from_all (default_nsp p.nsp) es),
        ))
  unfolding send_packet
  send_packet-receives p s l t t' es o carried ready d =
      let (fs, encoded, decoded) =
        decode_all-encode parse dump p l.client.decoder carried.sendable carried.json
          ready.decoder in
      (
        send_frames fs s,
        rw encoded refl,
        ap (λ ms. receive_all parse engine clock now value_int value_string ms l)
              (messages_of-send_frames fs s o.transport o.is_open)
            ∙ receives-one parse engine clock now value_int value_string fs l idle (arrives p) _ _
                ready.current decoded
                (deliver_to-found (arrives p) clock now l.client.sockets t t' es ready.socket d),
      )

  abbrev pub receives : List EngineIoClient.Effect → Link → EngineIoClient × Reaction
  receives fs l = receive_all parse engine clock now value_int value_string (messages_of fs) l

  send_all-one :
      (p : Packet) (from : Option EngineIoClient) (fs : List EngineIoClient.Effect)
      → send_packet dump p from ≡ some fs
      → send_all dump (sends p ∷ []) from ≡ some fs
  unfolding send_all
  send_all-one p from fs e = rw (e, append-nil fs) refl

  sends_or_buffer :
      (p : Packet) (s : Socket)
      → s.client ≡ true
      → is_buffering s ≡ false
      → send_or_buffer p s ≡ (s, sends p ∷ [])
  unfolding send_or_buffer
  sends_or_buffer p s c b = rw (b, c) refl

  event-receives :
      (nsp name : Bytes) (body : Json) (id : ℤ) (from : EngineIoClient) (l : Link) (t : Socket)
      → IsOpen from
      → IsCarried dump parse (event_packet nsp name body id)
      → IsReady engine (default_nsp nsp) t l
      → (fs : List EngineIoClient.Effect) × (send_all dump
            (sends (event_packet nsp name body id) ∷ [])
            (some from)
          ≡ some fs)
        × (receives fs l ≡ (
          l.session,
          reacts
              (record l.client { decoder = idle })
              (from_all (default_nsp nsp) (hearing name (arguments body) id t)),
        ))
  event-receives nsp name body id from l t o carried ready =
      let p = event_packet nsp name body id in
      let (fs, sent, received) =
        send_packet-receives p from l t t _ o carried ready
          (deliver-event nsp name body id clock now t) in
      let es = from_all (default_nsp nsp) (hearing name (arguments body) id t) in
      (
        fs,
        send_all-one p (some from) fs sent,
        received
            ∙ ap (λ m. (l.session, reacts (record l.client { decoder = idle; sockets = m }) es))
                (insert-lookup (default_nsp nsp) t l.client.sockets ready.socket),
      )

  -- An event that a connected socket emits while it does not flush, on an open session, comes to the
  -- socket of the same namespace at another client, which calls first the listener of its name, then the
  -- listener of any event, each with its name and arguments; of each kind the plain listener is called, or,
  -- where there is none, the one that may acknowledge, with nothing to acknowledge. Nothing else changes
  -- there than that the decoder waits for no attachments. The event is
  -- one that the parser sends and reads back, and the other client is ready: the engine is its current one
  -- and its decoder in order.
  pub emit-receives :
      (name : Bytes) (body : Json) (s : Socket) (from : EngineIoClient) (l : Link) (t : Socket)
      → s.client ≡ true
      → is_buffering s ≡ false
      → IsOpen from
      → IsCarried dump parse (event_packet s.nsp name body (negsuc 0))
      → IsReady engine (default_nsp s.nsp) t l
      → (fs : List EngineIoClient.Effect) × (send_all dump (emit name body s).1 (some from)
          ≡ some fs)
        × (receives fs l ≡ (
          l.session,
          reacts
              (record l.client { decoder = idle })
              (from_all (default_nsp s.nsp) (hearing name (arguments body) (negsuc 0) t)),
        ))
  unfolding emit
  emit-receives name body s from l t c b o carried ready =
      let p = event_packet s.nsp name body (negsuc 0) in
      rw (sends_or_buffer p s c b)
        (event-receives s.nsp name body (negsuc 0) from l t o carried ready)

  ack-receives :
      (nsp : Bytes) (id callback : ℕ) (reply : Json) (t : Socket) (from : EngineIoClient) (l : Link)
      (s : Socket)
      → t.client ≡ true
      → t.nsp ≡ nsp
      → Map.lookup id s.timed_acks ≡ none
      → Map.lookup id s.pending_acks ≡ some (some callback)
      → IsOpen from
      → IsCarried dump parse (ack_packet nsp id reply)
      → IsReady engine (default_nsp nsp) s l
      → (gs : List EngineIoClient.Effect) × (send_all dump
            (acknowledge false id reply t).1
            (some from)
          ≡ some gs)
        × (receives gs l ≡ (
          l.session,
          reacts
              (put_socket
                (default_nsp nsp)
                (record s { pending_acks = Map.erase id s.pending_acks })
                l.client)
              (from_socket (default_nsp nsp) (calls_ack id callback (arguments_of reply)) ∷ []),
        ))
  unfolding acknowledge send_ack dispatch_ack answer_pending
  ack-receives nsp id callback reply t from l s c n timed pending o carried ready =
      let p = ack_packet nsp id reply in
      let answered : dispatch_ack id p.body now s ≡ (
        record s { pending_acks = Map.erase id s.pending_acks },
        calls_ack id callback p.body ∷ [],
      ) =
        rw (timed, dispatch_ack) (rw (pending, answer_pending) refl) in
      let (gs, sent, received) =
        send_packet-receives p from l s _ _ o carried ready
          (deliver-ack p id clock now s refl refl ∙ ap some answered) in
      (gs, rw (c, n) (send_all-one p (some from) gs sent), received)

  -- The socket of the caller while it waits for the answer.
  abbrev pub asking : ℕ → Socket → Socket
  asking callback s = record s {
    next_ack_id = suc s.next_ack_id;
    pending_acks = Map.insert s.next_ack_id (some callback) s.pending_acks;
  }

  asking-pending :
      (callback : ℕ) (s : Socket)
      → Map.lookup s.next_ack_id (asking callback s).pending_acks ≡ some (some callback)
  asking-pending callback s =
      lookup-insert s.next_ack_id s.next_ack_id (some callback) s.pending_acks
      ∙ rw (==_refl s.next_ack_id) refl

  -- An event that a connected socket emits with a callback while it does not flush, its id being new
  -- among the timed ones, comes to another client, which calls first the listener of its name, then the
  -- listener of any event, each with its name and arguments; of each kind the plain listener is called, or,
  -- where there is none, the one that may acknowledge, with the id to acknowledge. When that socket
  -- acknowledges the id, for the first time, the answer comes back, and the callback is called once, with the
  -- arguments of the reply, and waits no longer. Both sessions are open, both packets are ones that
  -- the parser sends and reads back, and both clients are ready: the engine is the current one, the socket
  -- of the namespace is there, and the decoder is in order.
  pub emit_ack-answered :
      (name : Bytes) (body reply : Json) (callback : ℕ) (s t : Socket) (a b : Link)
      → (s.client ≡ true) × (t.client ≡ true) × (t.nsp ≡ s.nsp)
      → is_buffering s ≡ false
      → Map.lookup s.next_ack_id s.timed_acks ≡ none
      → IsOpen a.session
      → IsOpen b.session
      → IsCarried dump parse (event_packet s.nsp name body (pos s.next_ack_id))
      → IsCarried dump parse (ack_packet s.nsp s.next_ack_id reply)
      → IsReady engine (default_nsp s.nsp) t b
      → IsReady engine (default_nsp s.nsp) (emit_ack name body (some callback) s).0 a
      → let nsp = default_nsp s.nsp in
        let id = s.next_ack_id in
        let (s', es) = emit_ack name body (some callback) s in
        ((fs : List EngineIoClient.Effect) × (send_all dump es (some a.session) ≡ some fs)
          × (receives fs b ≡ (
            b.session,
            reacts
                (record b.client { decoder = idle })
                (from_all nsp (hearing name (arguments body) (pos id) t)),
          )))
        × ((gs : List EngineIoClient.Effect) × (send_all dump
                (acknowledge false id reply t).1
                (some b.session)
              ≡ some gs)
            × (receives gs a ≡ (
              a.session,
              reacts
                  (put_socket nsp
                    (record s' { pending_acks = Map.erase id s'.pending_acks })
                    a.client)
                  (from_socket nsp (calls_ack id callback (arguments_of reply)) ∷ []),
            )))
  unfolding emit_ack
  emit_ack-answered name body reply callback s t a b (sc, tc, n) buf timed oa ob there back rt rs =
      let id = s.next_ack_id in
      let s' = asking callback s in
      let p = event_packet s.nsp name body (pos id) in
      let sent : emit_ack name body (some callback) s ≡ (s', sends p ∷ []) =
        sends_or_buffer p s' sc buf in
      rw sent (
        event-receives s.nsp name body (pos id) a.session b t oa there rt,
        ack-receives s.nsp id callback reply t b.session a s' tc n timed (asking-pending callback s)
            ob back (rw sent at rs),
      )
