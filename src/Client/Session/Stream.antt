-- ===== src/Client/Session/Stream.antt =====
-- src/client.cpp over src/websocket_transport.cpp: packets that are sent one after the other, through a
-- transport that may be closed or fail at any point.
use sioxx.Prelude.{
  ℕ, ◌≡◌, refl, sym, ap, ◌∙◌, Bool, true, Option, some, List, [], ◌∷◌, ◌++◌, map, All, append_assoc,
}
use sioxx.Prelude.Bytes.{Bytes}
use sioxx.Message.{Json}
use sioxx.Packet.{Packet}
use sioxx.Socket.State.{sends}
use sioxx.JsonParser.Encode.{Frame, encode}
use sioxx.JsonParser.Decode.{Decoder, idle, decode_all}
use sioxx.JsonParser.Safety.{IsValid, decode_all_total}
use sioxx.JsonParser.RoundTrip.{arrives, decode_all-encode}
use sioxx.JsonParser.Stream.{decode_all-append}
use sioxx.EngineIoClient
use sioxx.EngineIoClient.{EngineIoClient}
use sioxx.WebsocketTransport.State.{Entry}
use sioxx.WebsocketTransport.Steps as Websocket
use sioxx.WebsocketTransport.Quiet.{delivered}
use sioxx.WebsocketTransport.Refinement.{accepted_by, delivered-run-prefix}
use sioxx.Client.Engine.{is_current}
use sioxx.Client.Dispatch.{send_frames, send_packet}
use sioxx.Client.Session.{Message, Link, of_option, receive_all, send_all, messages_of}
use sioxx.Client.Session.Delivery.{receives-decoded}
use sioxx.Client.Session.Messages.{
  message_of, messages_of-append, messages_of-send_frames, deliver_all, with_sockets,
}
use sioxx.Client.Session.Readiness.{IsOpen, IsCarried}

-- The entry of the transport's queue that a message becomes.
abbrev pub entry_of : Message → Entry
entry_of (payload, is_binary) = (some payload, is_binary)

-- Where a list is split, a list that it is the image of is split as well.
map-split {ℓ κ} :
    {A : Type ℓ} {B : Type κ} (f : A → B) (xs : List A) (ys zs : List B)
    → map f xs ≡ ys ++ zs
    → (xs' xs'' : List A) × (xs ≡ xs' ++ xs'') × (ys ≡ map f xs')
map-split f xs [] zs e = ([], xs, refl, refl)
map-split f [] (y ∷ ys) zs e = cc
map-split f (x ∷ xs) (y ∷ ys) zs e =
    let (xs', xs'', split, image) = map-split f xs ys zs (cc) in (x ∷ xs', xs'', cc, cc)

entries-split :
    (ms got : List Message) (lost : List Entry)
    → map entry_of ms ≡ map entry_of got ++ lost
    → (rest : List Message) × (ms ≡ got ++ rest)
entries-split ms [] lost e = (ms, refl)
entries-split [] (g ∷ got) lost e = cc
entries-split (m ∷ ms) (g ∷ got) lost e =
    let (rest, split) = entries-split ms got lost (cc) in (rest, cc)

map-append {ℓ κ} :
    {A : Type ℓ} {B : Type κ} (f : A → B) (xs ys : List A) → map f (xs ++ ys) ≡ map f xs ++ map f ys
map-append f [] ys = refl
map-append f (x ∷ xs) ys = ap (λ zs. f x ∷ zs) (map-append f xs ys)

module _ (dump : Json → Option Bytes) (parse : Bytes → Option Json) where
  sends-more :
      (p : Packet) (ps : List Packet) (from : EngineIoClient) (F : List Frame)
      (gs : List EngineIoClient.Effect)
      → encode dump p ≡ some F
      → send_all dump (map sends ps) (some from) ≡ some gs
      → send_all dump (map sends (p ∷ ps)) (some from) ≡ some (send_frames F from ++ gs)
  unfolding send_all send_packet
  sends-more p ps from F gs encoded sent = rw (encoded, send_all) (rw sent refl)

  -- Packets that an open session sends are frames that a decoder makes the same packets of.
  sent-decodes :
      (ps : List Packet) (from : EngineIoClient) (d : Decoder)
      → All (IsCarried dump parse) ps
      → IsOpen from
      → IsValid d
      → (fs : List EngineIoClient.Effect) × (send_all dump (map sends ps) (some from) ≡ some fs)
        × ((F : List Frame) × (messages_of fs ≡ map message_of F)
            × ((d' : Decoder) × (decode_all parse d F ≡ some (d', map arrives ps))))
  unfolding send_all decode_all
  sent-decodes [] from d c o v = ([], refl, ([], refl, (d, refl)))
  sent-decodes (p ∷ ps) from d (c, cs) o v =
      let (F, encoded, decoded) = decode_all-encode parse dump p d c.sendable c.json v in
      let (gs, sent, (G, messages, (d', read))) = sent-decodes ps from idle cs o refl in
      (
        send_frames F from ++ gs,
        sends-more p ps from F gs encoded sent,
        (
          F ++ G,
          messages_of-append (send_frames F from) gs
              ∙ rw (messages_of-send_frames F from o.transport o.is_open, messages)
                  (sym (map-append message_of F G)),
          (d', decode_all-append parse d F G ∙ rw (decoded, read) refl),
        ),
      )

  same_packets :
      (d d' : Decoder) (ps qs : List Packet)
      → ◌≡◌ {A = Option (Decoder × List Packet)} (some (d, ps)) (some (d', qs))
      → ps ≡ qs
  same_packets d d' ps qs e = cc

  -- What arrives of those frames is received as the first of the packets.
  first-receives :
      (F F' : List Frame) (got : List Message) (d' : Decoder) (ps : List Packet) (l : Link)
      (engine : ℕ) (clock : ℕ → ℕ) (now : ℕ) (value_int : Bytes → ℕ → Json → Option ℕ)
      (value_string : Bytes → Bytes → Json → Option Bytes)
      → decode_all parse l.client.decoder (F ++ F') ≡ some (d', ps)
      → got ≡ map message_of F
      → is_current engine l.client ≡ true
      → IsValid l.client.decoder
      → (qs rest : List Packet) × (d : Decoder) × (ps ≡ qs ++ rest)
        × (receive_all parse engine clock now value_int value_string got l ≡ (
          l.session,
          of_option (
              with_sockets
                (record l.client { decoder = d })
                (deliver_all qs clock now l.client.sockets)),
        ))
  first-receives F F' got d' ps l engine clock now value_int value_string read image i v =
      let (d, qs, first, w) = decode_all_total parse l.client.decoder F v in
      let (d'', rest, second, _) = decode_all_total parse d F' w in
      let whole : ◌≡◌ {A = Option (Decoder × List Packet)} (some (d', ps))
          (some (d'', qs ++ rest)) =
        sym read ∙ decode_all-append parse l.client.decoder F F' ∙ rw (first, second) refl in
      (
        qs,
        rest,
        d,
        same_packets d' d'' ps (qs ++ rest) whole,
        ap (λ ms. receive_all parse engine clock now value_int value_string ms l) image
            ∙ receives-decoded parse engine clock now value_int value_string F l i
            ∙ rw first refl,
      )

  -- An open session sends packets in order, each of which the parser sends and reads back, and `es` is
  -- whatever happens to its WebSocket transport, in whatever order, where the messages of those packets are
  -- what the transport accepts. Of what it gives to Boost then, any first part that comes to a client's
  -- current engine, its decoder in order, is received as the first of those packets: they are delivered to
  -- the sockets in the order of sending, each as it was sent, and nothing else is.
  pub packets-arrive :
      (ps : List Packet) (from : EngineIoClient) (fs : List EngineIoClient.Effect) (owned : Bool)
      (es : List Websocket.Event) (got : List Message) (lost : List Entry) (l : Link) (engine : ℕ)
      (clock : ℕ → ℕ) (now : ℕ) (value_int : Bytes → ℕ → Json → Option ℕ)
      (value_string : Bytes → Bytes → Json → Option Bytes)
      → All (IsCarried dump parse) ps
      → IsOpen from
      → send_all dump (map sends ps) (some from) ≡ some fs
      → accepted_by es ≡ map entry_of (messages_of fs)
      → delivered (Websocket.run (Websocket.initial owned) es).1 ≡ map entry_of got ++ lost
      → is_current engine l.client ≡ true
      → IsValid l.client.decoder
      → (qs rest : List Packet) × (d : Decoder) × (map arrives ps ≡ qs ++ rest)
        × (receive_all parse engine clock now value_int value_string got l ≡ (
          l.session,
          of_option (
              with_sockets
                (record l.client { decoder = d })
                (deliver_all qs clock now l.client.sockets)),
        ))
  packets-arrive ps from fs owned es got lost l engine clock now value_int value_string c o e a g i
        v =
      let (gs, sent, (F, messages, (d', read))) = sent-decodes ps from l.client.decoder c o v in
      let ((after, all), _) = delivered-run-prefix owned es in
      let equal : fs ≡ gs = cc in
      let (left, split) =
        entries-split (messages_of fs) got (lost ++ after)
          (sym a ∙ all ∙ ap (λ x. x ++ after) g ∙ append_assoc (map entry_of got) lost after) in
      let (F', F'', cut, image) =
        map-split message_of F got left (sym messages ∙ ap messages_of (sym equal) ∙ split) in
      first-receives F' F'' got d' (map arrives ps) l engine clock now value_int value_string
        (ap (decode_all parse l.client.decoder) (sym cut) ∙ read) image i v
