-- ===== src/JsonParser/RoundTrip.antt =====
-- src/json_parser.cpp: `decode` after `encode`. The header is read back in the child module.
mod Header
pub use Header.{IsNamespace, IsId, opens, default_nsp}
use Header.{read_packet-header_text}
use sioxx.Prelude.{
  ℕ, suc, ◌+◌, ◌≤◌, ◌<◌, ◌≡◌, refl, sym, ap, ◌∙◌, inl, inr, Bool, true, false, Option, none, some,
  List, [], ◌∷◌, ◌++◌, map, arith, append_assoc, length, length-append, if◌then◌else◌, ltb, ◌>>=◌,
  ◌>>◌, guard, not, Bool-cases, lt→ltb,
}
use sioxx.Prelude.Bytes.{Bytes}
use sioxx.Prelude.Int.{ℤ}
use sioxx.Message.{Json}
use sioxx.Packet.{
  PacketType, connect, disconnect, event, ack, connect_error, binary_event, binary_ack, Packet,
}
use sioxx.JsonParser.Binary.{has_valid_placeholders, reconstruct_binary, deconstruct_binary}
use sioxx.JsonParser.Binary.Reconstruct.{
  is_restorable, reconstruct-deconstruct, deconstruct-appends,
}
use sioxx.JsonParser.Binary.Plain.{deconstruct-plain}
use sioxx.JsonParser.Binary.Validation.{has_valid_placeholders-deconstruct}
use sioxx.JsonParser.Numbers.{max_int}
use sioxx.JsonParser.Encode.{
  Frame, text_frame, binary_frame, may_hold_binary, is_binary_type, take_out, wire_type,
  header_text, body_text, encode,
}
use sioxx.JsonParser.Decode.{
  Decoder, idle, more, done, fault, attach, finish, start, read_packet, read_body, read_text,
  accept, decode, decode_pending, decode_all,
}
use sioxx.JsonParser.Safety.{IsValid, Waits}

-- What is asked of a packet: a payload in which nothing looks like a placeholder, a namespace that
-- is empty or opens with a slash and has no comma, and an id that is -1 or within `int`.
pub record IsSendable (p : Packet) : Type 0 where
  pub plain : is_restorable p.body ≡ true
  pub namespace : IsNamespace p.nsp
  pub id : IsId p.id
  pub few : length (take_out p.type p.body).1 ≤ max_int

-- What is relied on of nlohmann's `dump` and `parse` at one value: its text is read back.
pub record ReadsBack (dump : Json → Option Bytes) (parse : Bytes → Option Json) (v : Json)
    : Type 0 where
  pub text : Bytes
  pub dumped : body_text dump v ≡ some text
  pub opening : opens text ≡ true
  pub parsed : read_body parse text ≡ some v

-- The packet that arrives: its type follows from the attachments, and "" is the namespace "/".
abbrev pub arrives : Packet → Packet
arrives p =
    let bs = (take_out p.type p.body).1 in
    record {
      type = wire_type p.type bs;
      nsp = default_nsp p.nsp;
      id = p.id;
      body = p.body;
      attachments = length bs;
    }

wire_type_pos :
    (t : PacketType) (bs : List Bytes) → is_binary_type (wire_type t bs) ≡ true → 0 < length bs
unfolding wire_type
wire_type_pos t (b ∷ bs) h = omega arith
wire_type_pos connect [] h = cc
wire_type_pos _ [] h = cc

wire_type_zero :
    (t : PacketType) (bs : List Bytes)
    → may_hold_binary t ≡ true
    → is_binary_type (wire_type t bs) ≡ false
    → bs ≡ []
unfolding wire_type
wire_type_zero t [] m h = refl
wire_type_zero event (b ∷ bs) m h = cc
wire_type_zero _ (b ∷ bs) m h = cc

take_out_zero :
    (t : PacketType) (v : Json)
    → is_binary_type (wire_type t (take_out t v).1) ≡ false
    → length (take_out t v).1 ≡ 0
unfolding take_out
take_out_zero t v h = elim (Bool-cases (may_hold_binary t)) [
  | inl e ↦ ap length (wire_type_zero t (take_out t v).1 e h)
  | inr e ↦ rw e refl
]

take_out-valid :
    (t : PacketType) (v : Json)
    → is_restorable v ≡ true
    → is_binary_type (wire_type t (take_out t v).1) ≡ true
    → (has_valid_placeholders (take_out t v).0 (length (take_out t v).1) ≡ true)
      × (reconstruct_binary (take_out t v).0 (take_out t v).1 ≡ some v)
unfolding take_out
take_out-valid t v plain h = elim (Bool-cases (may_hold_binary t)) [
  | inl e ↦ rw e (has_valid_placeholders-deconstruct v plain, reconstruct-deconstruct v plain)
  | inr e ↦
      let empty : length (take_out t v).1 ≡ 0 = rw e refl in
      absurd (omega (arith, wire_type_pos t (take_out t v).1 h))
]

take_out-plain :
    (t : PacketType) (v : Json)
    → is_binary_type (wire_type t (take_out t v).1) ≡ false
    → (take_out t v).0 ≡ v
unfolding take_out
take_out-plain t v h = elim (Bool-cases (may_hold_binary t)) [
  | inl e ↦
      let held : deconstruct_binary v [] ≡ take_out t v = rw e refl in
      let gone : (deconstruct_binary v []).1 ≡ [] =
        rw held (wire_type_zero t (take_out t v).1 e h) in
      rw e (deconstruct-plain v [] (sym (deconstruct-appends v []) ∙ gone))
  | inr e ↦ rw e refl
]

attach-more :
    (p : Packet) (received : List Bytes) (b : Bytes)
    → length received + 1 < p.attachments
    → attach p received b ≡ more (record { pending = some p; received = received ++ b ∷ [] })
unfolding attach
attach-more p received b h =
    rw
      (lt→ltb (length (received ++ b ∷ [])) p.attachments
        (omega (arith, length-append received (b ∷ []))))
      refl

attach-done :
    (p : Packet) (received : List Bytes) (b : Bytes) (v : Json)
    → length received + 1 ≡ p.attachments
    → reconstruct_binary p.body (received ++ b ∷ []) ≡ some v
    → attach p received b ≡ done idle (record p { body = v })
unfolding attach
attach-done p received b v h r =
    let full : ltb (length (received ++ b ∷ [])) p.attachments ≡ false =
      ground (arith, length-append received (b ∷ [])) in
    rw (full, r) refl

module _ (parse : Bytes → Option Json) where
  decode_all-more :
      (s : Decoder) (f : Frame) (fs : List Frame) (s' : Decoder)
      → decode parse s f ≡ more s'
      → decode_all parse s (f ∷ fs) ≡ decode_all parse s' fs
  unfolding decode_all
  decode_all-more s f fs s' e = rw (e, decode_all) refl

  decode_all-done :
      (s : Decoder) (f : Frame) (s' : Decoder) (p : Packet)
      → decode parse s f ≡ done s' p
      → decode_all parse s (f ∷ []) ≡ some (s', p ∷ [])
  unfolding decode_all
  decode_all-done s f s' p e = rw (e, decode_all) refl

  decode-attach :
      (p : Packet) (received : List Bytes) (b : Bytes)
      → decode parse (record { pending = some p; received = received }) (binary_frame b)
        ≡ attach p received b
  unfolding decode
  decode-attach p received b = refl

  -- The attachments of a pending packet, one frame each.
  decode_all-attachments :
      (p : Packet) (received : List Bytes) (b : Bytes) (bs : List Bytes) (v : Json)
      → length received + length (b ∷ bs) ≡ p.attachments
      → reconstruct_binary p.body (received ++ b ∷ bs) ≡ some v
      → decode_all parse
          (record { pending = some p; received = received })
          (map binary_frame (b ∷ bs))
        ≡ some (idle, record p { body = v } ∷ [])
  decode_all-attachments p received b [] v n r =
      decode_all-done _ (binary_frame b) idle _
        (decode-attach p received b ∙ attach-done p received b v (omega arith) r)
  decode_all-attachments p received b (b' ∷ bs) v n r =
      decode_all-more _ (binary_frame b) (map binary_frame (b' ∷ bs)) _
        (decode-attach p received b ∙ attach-more p received b (omega arith))
      ∙ decode_all-attachments p (received ++ b ∷ []) b' bs v
          (omega (arith, length-append received (b ∷ []))) (rw append_assoc r)

  -- A text frame is read afresh, whatever was pending.
  decode-text :
      (s : Decoder) (t : Bytes)
      → IsValid s
      → decode parse s (text_frame t) ≡ start parse idle (text_frame t)
  unfolding decode
  decode-text s t v = go s.pending refl v
    where
      go :
          (o : Option Packet)
          → s.pending ≡ o
          → Waits o s.received
          → decode_pending parse o s (text_frame t) ≡ start parse idle (text_frame t)
      go none e w =
          ap (λ x. start parse x (text_frame t)) (λ i. record { pending = e i; received = w i })
      go (some p) e w = refl

  start-plain :
      (t : Bytes) (p : Packet)
      → read_packet parse t ≡ some p
      → is_binary_type p.type ≡ false
      → start parse idle (text_frame t) ≡ done idle p
  unfolding start
  start-plain t p r b = rw (r, b) refl

  start-binary :
      (t : Bytes) (p : Packet)
      → read_packet parse t ≡ some p
      → is_binary_type p.type ≡ true
      → has_valid_placeholders p.body p.attachments ≡ true
      → start parse idle (text_frame t) ≡ more (record { pending = some p; received = [] })
  unfolding start
  start-binary t p r b v = rw (r, b, v) refl

  decode_all-plain :
      (s : Decoder) (t : Bytes) (bs : List Bytes) (p : Packet)
      → IsValid s
      → read_packet parse t ≡ some p
      → is_binary_type p.type ≡ false
      → length bs ≡ 0
      → decode_all parse s (text_frame t ∷ map binary_frame bs) ≡ some (idle, p ∷ [])
  decode_all-plain s t [] p v r b n =
      decode_all-done s (text_frame t) idle p (decode-text s t v ∙ start-plain t p r b)
  decode_all-plain s t (_ ∷ _) p v r b n = absurd (omega arith)

  decode_all-binary :
      (s : Decoder) (t : Bytes) (bs : List Bytes) (p : Packet) (w : Json)
      → IsValid s
      → read_packet parse t ≡ some p
      → is_binary_type p.type ≡ true
      → has_valid_placeholders p.body p.attachments ≡ true
      → length bs ≡ p.attachments
      → 0 < length bs
      → reconstruct_binary p.body bs ≡ some w
      → decode_all parse s (text_frame t ∷ map binary_frame bs)
        ≡ some (idle, record p { body = w } ∷ [])
  decode_all-binary s t [] p w v r b valid n lt re = absurd (omega arith)
  decode_all-binary s t (b' ∷ bs) p w v r b valid n lt re =
      decode_all-more s (text_frame t) (map binary_frame (b' ∷ bs)) _
        (decode-text s t v ∙ start-binary t p r b valid)
      ∙ decode_all-attachments p [] b' bs w (omega arith) re

  -- For a sendable packet, whose payload has no object that looks like a placeholder and no binary
  -- value with a subtype, and whose payload, with the binary values taken out, is read back by `parse`
  -- from the text of `dump`, which opens with no digit and no slash: it is encoded, and its frames in order give it back from any state of
  -- the decoder with the invariant: the payload with its binary values, the id, the namespace (""
  -- as "/"), and the type and number of attachments that the payload calls for. What the packet had
  -- for the last two does not matter.
  pub decode_all-encode :
      (dump : Json → Option Bytes) (p : Packet) (s : Decoder)
      → IsSendable p
      → ReadsBack dump parse (take_out p.type p.body).0
      → IsValid s
      → (fs : List Frame) × (encode dump p ≡ some fs)
        × (decode_all parse s fs ≡ some (idle, arrives p ∷ []))
  unfolding encode
  decode_all-encode dump p s ok json v =
      let bs = (take_out p.type p.body).1 in
      let t = wire_type p.type bs in
      let text = header_text t (length bs) p.nsp p.id json.text in
      let few : ltb max_int (length bs) ≡ false = ground (arith, ok.few) in
      let read =
        read_packet-header_text parse t (length bs) p.nsp p.id json.text (take_out p.type p.body).0
          (wire_type_pos p.type bs) (take_out_zero p.type p.body) ok.few ok.namespace ok.id
          json.opening json.parsed in
      (
        text_frame text ∷ map binary_frame bs,
        rw (few, json.dumped) refl,
        elim (Bool-cases (is_binary_type t)) [
          | inl b ↦
              let (valid, back) = take_out-valid p.type p.body ok.plain b in
              decode_all-binary s text bs _ p.body v read b valid refl (wire_type_pos p.type bs b)
                back
          | inr b ↦
              decode_all-plain s text bs _ v read b (take_out_zero p.type p.body b)
              ∙ ap (λ w. some (idle, record (arrives p) { body = w } ∷ []))
                  (take_out-plain p.type p.body b)
        ],
      )
