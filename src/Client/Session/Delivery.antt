-- ===== src/Client/Session/Delivery.antt =====
-- src/client.cpp: a packet on its way from one client to another, through parser and session.
use sioxx.Prelude.{
  ℕ, ◌≡◌, refl, sym, ap, ◌∙◌, Bool, true, false, Option, none, some, List, [], ◌∷◌, ◌++◌, map,
  append-nil, inl, inr, Option-cases, ◌>>=◌, if◌then◌else◌,
}
use sioxx.Prelude.Bytes.{Bytes}
use sioxx.Prelude.Map.{Map, bytes_key}
use sioxx.Message.{Json}
use sioxx.Packet.{Packet}
use sioxx.Socket.State.{Socket}
use sioxx.JsonParser.Encode.{Frame}
use sioxx.JsonParser.Decode.{Decoder, Decoded, more, done, fault, decode, decode_all}
use sioxx.JsonParser.Stream.{in_front, decode_all-more, decode_all-done, decode_all-fault}
use sioxx.EngineIoClient.{EngineIoClient, handle_transport_message}
use sioxx.Client.State.{Effect, Client}
use sioxx.Client.Engine.{is_current}
use sioxx.Client.Dispatch.{on_decoded, on_engineio_frame}
use sioxx.Client.Session.{
  Link, Reaction, reacts, of_option, and_then, go_on, handle_engineio_frame, receive, receive_all,
}
use sioxx.Client.Session.Messages.{
  message_of, deliver_to, deliver_all, with_sockets, deliver_all-one, on_packet-deliver_to,
}

module _ (parse : Bytes → Option Json) (engine : ℕ) (clock : ℕ → ℕ) (now : ℕ)
    (value_int : Bytes → ℕ → Json → Option ℕ)
    (value_string : Bytes → Bytes → Json → Option Bytes) where
  abbrev after : EngineIoClient → Option (Client × List Effect) → EngineIoClient × Reaction
  after s r = (s, of_option r)

  then_nothing :
      (r : Option (Client × List Effect)) → and_then (of_option r) (λ c. reacts c []) ≡ of_option r
  then_nothing none = refl
  then_nothing (some (c, es)) = ap (reacts c) (append-nil es)

  -- The message of a frame comes to the client as that frame.
  receive-message_of :
      (f : Frame) (l : Link)
      → is_current engine l.client ≡ true
      → receive parse engine clock now value_int value_string (message_of f) l
        ≡ after l.session (on_engineio_frame parse f clock now l.client)
  unfolding receive handle_transport_message handle_engineio_frame
  receive-message_of f l e = go f.is_binary
    where
      go :
          (b : Bool)
          → receive parse engine clock now value_int value_string
              (if b then (f.payload, true) else (b'4' ∷ f.payload, false))
              l
            ≡ after l.session (
                on_engineio_frame parse
                  (record { payload = f.payload; is_binary = b })
                  clock
                  now
                  l.client)
      go true = rw e (
          ap (λ r. (l.session, r))
            (then_nothing (
              on_engineio_frame parse (record { payload = f.payload; is_binary = true }) clock now
                l.client)))
      go false = rw e (
          ap (λ r. (l.session, r))
            (then_nothing (
              on_engineio_frame parse (record { payload = f.payload; is_binary = false }) clock now
                l.client)))

  -- The client after the packets that came out of a decoder.
  abbrev decoded_to : Client → Option (Decoder × List Packet) → Option (Client × List Effect)
  decoded_to c none = none
  decoded_to c (some (d, ps)) =
      with_sockets (record c { decoder = d }) (deliver_all ps clock now c.sockets)

  abbrev receives : List Frame → Link → EngineIoClient × Reaction
  receives fs l = receive_all parse engine clock now value_int value_string (map message_of fs) l

  receives-more :
      (f : Frame) (fs : List Frame) (l : Link) (c : Client) (es : List Effect)
      → is_current engine l.client ≡ true
      → on_engineio_frame parse f clock now l.client ≡ some (c, es)
      → receives (f ∷ fs) l ≡ (
          let (s, r) = receives fs (record { client = c; session = l.session }) in
          (s, and_then (reacts c es) (λ _. r)))
  unfolding receive_all
  receives-more f fs l c es i e =
      ap (λ x. go_on x (receives fs)) (receive-message_of f l i ∙ ap (after l.session) e)

  receives-faults :
      (f : Frame) (fs : List Frame) (l : Link)
      → is_current engine l.client ≡ true
      → on_engineio_frame parse f clock now l.client ≡ none
      → receives (f ∷ fs) l ≡ (l.session, Reaction.faults)
  unfolding receive_all
  receives-faults f fs l i e =
      ap (λ x. go_on x (receives fs)) (receive-message_of f l i ∙ ap (after l.session) e)

  behind :
      (c : Client) (es : List Effect) (c' : Client) (r : Option (Map Bytes Socket × List Effect))
      → and_then (reacts c es) (λ _. of_option (with_sockets c' r))
        ≡ of_option (with_sockets c' (r >>= λ (m, fs). some (m, es ++ fs)))
  behind c es c' none = refl
  behind c es c' (some (m, fs)) = refl

  on_frame-decode :
      (f : Frame) (c : Client) (x : Decoded)
      → decode parse c.decoder f ≡ x
      → on_engineio_frame parse f clock now c ≡ on_decoded x clock now c
  unfolding on_engineio_frame
  on_frame-decode f c x e = ap (λ x. on_decoded x clock now c) e

  decoded_to-none :
      (c : Client) (p : Packet) (r : Option (Decoder × List Packet))
      → deliver_to p clock now c.sockets ≡ none
      → decoded_to c (in_front p r) ≡ none
  decoded_to-none c p none e = refl
  decoded_to-none c p (some (d, ps)) e = rw e refl

  -- The packet of the first frame is delivered, and then those of the others.
  decoded_to-some :
      (c : Client) (p : Packet) (d : Decoder) (m : Map Bytes Socket) (es : List Effect)
      (r : Option (Decoder × List Packet))
      → deliver_to p clock now c.sockets ≡ some (m, es)
      → (let c' = record c { decoder = d; sockets = m } in
          and_then (reacts c' es) (λ _. of_option (decoded_to c' r))
          ≡ of_option (decoded_to c (in_front p r)))
  decoded_to-some c p d m es none e = refl
  decoded_to-some c p d m es (some (d', ps)) e =
      let c' = record c { decoder = d; sockets = m } in
      rw e (behind c' es (record c' { decoder = d' }) (deliver_all ps clock now m))

  abbrev Decodes : List Frame → Link → Type 0
  Decodes fs l =
      is_current engine l.client ≡ true
      → receives fs l ≡ after l.session (decoded_to l.client (decode_all parse l.client.decoder fs))

  nothing_before :
      (c : Client) (r : Option (Client × List Effect))
      → and_then (reacts c []) (λ _. of_option r) ≡ of_option r
  nothing_before c none = refl
  nothing_before c (some (c', es)) = refl

  decoded_to-decoder :
      (c : Client) (d : Decoder) (r : Option (Decoder × List Packet))
      → decoded_to (record c { decoder = d }) r ≡ decoded_to c r
  decoded_to-decoder c d none = refl
  decoded_to-decoder c d (some (d', ps)) = refl

  receives-packet :
      (d : Decoder) (p : Packet) (f : Frame) (fs : List Frame) (l : Link)
      → ((l' : Link) → Decodes fs l')
      → decode parse l.client.decoder f ≡ done d p
      → Decodes (f ∷ fs) l
  unfolding on_decoded is_current
  receives-packet d p f fs l ih e i =
      let frame = on_frame-decode f l.client (done d p) e in
      let packet = on_packet-deliver_to p clock now (record l.client { decoder = d }) in
      let decoder = l.client.decoder in
      let whole = sym (decode_all-done parse decoder d p f fs e) in
      elim (Option-cases (deliver_to p clock now l.client.sockets)) [
        | inl n ↦
            receives-faults f fs l i
              (frame ∙ packet ∙ ap (with_sockets (record l.client { decoder = d })) n)
            ∙ ap (after l.session) (sym (decoded_to-none l.client p (decode_all parse d fs) n))
            ∙ ap (λ x. after l.session (decoded_to l.client x)) whole
        | inr ((m, es), h) ↦
            let c = record l.client { decoder = d; sockets = m } in
            receives-more f fs l c es i
              (frame ∙ packet ∙ ap (with_sockets (record l.client { decoder = d })) h)
            ∙ ap (λ x. (x.0, and_then (reacts c es) (λ _. x.1)))
                (ih (record { client = c; session = l.session }) i)
            ∙ ap (λ r. (l.session, r)) (decoded_to-some l.client p d m es (decode_all parse d fs) h)
            ∙ ap (λ x. after l.session (decoded_to l.client x)) whole
      ]

  receives-step :
      (x : Decoded) (f : Frame) (fs : List Frame) (l : Link)
      → ((l' : Link) → Decodes fs l')
      → decode parse l.client.decoder f ≡ x
      → Decodes (f ∷ fs) l
  unfolding on_decoded is_current
  receives-step (more d) f fs l ih e i =
      let c = record l.client { decoder = d } in
      receives-more f fs l c [] i (on_frame-decode f l.client (more d) e)
      ∙ ap (λ x. (x.0, and_then (reacts c []) (λ _. x.1)))
          (ih (record { client = c; session = l.session }) i)
      ∙ ap (λ r. (l.session, r))
          (nothing_before c (decoded_to c (decode_all parse d fs))
            ∙ ap of_option (decoded_to-decoder l.client d (decode_all parse d fs)))
      ∙ ap (λ x. after l.session (decoded_to l.client x))
          (sym (decode_all-more parse l.client.decoder d f fs e))
  receives-step (done d p) f fs l ih e i = receives-packet d p f fs l ih e i
  receives-step fault f fs l ih e i =
      receives-faults f fs l i (on_frame-decode f l.client fault e)
      ∙ ap (λ x. after l.session (decoded_to l.client x))
          (sym (decode_all-fault parse l.client.decoder f fs e))

  -- The frames of a current engine are decoded in order, and the packets that come out are delivered.
  pub receives-decoded : (fs : List Frame) (l : Link) → Decodes fs l
  unfolding decode_all receive_all
  receives-decoded [] l i = refl
  receives-decoded (f ∷ fs) l i =
      receives-step (decode parse l.client.decoder f) f fs l (receives-decoded fs) refl i

  -- Frames from which one packet comes out are that packet's delivery.
  pub receives-one :
      (fs : List Frame) (l : Link) (d : Decoder) (p : Packet) (m : Map Bytes Socket)
      (es : List Effect)
      → is_current engine l.client ≡ true
      → decode_all parse l.client.decoder fs ≡ some (d, p ∷ [])
      → deliver_to p clock now l.client.sockets ≡ some (m, es)
      → receive_all parse engine clock now value_int value_string (map message_of fs) l
        ≡ (l.session, reacts (record l.client { decoder = d; sockets = m }) es)
  receives-one fs l d p m es i e h =
      receives-decoded fs l i
      ∙ ap (λ x. after l.session (decoded_to l.client x)) e
      ∙ ap (λ r. after l.session (with_sockets (record l.client { decoder = d }) r))
          (deliver_all-one p clock now l.client.sockets ∙ h)
