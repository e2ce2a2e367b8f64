-- ===== src/JsonParser/Safety.antt =====
-- src/json_parser.cpp: the decoder's invariant.
use sioxx.Prelude.{
  ℕ, ◌<◌, ◌≡◌, refl, inl, inr, ap, ◌∙◌, ◌⊎◌, true, Option, none, some, List, [], ◌∷◌, ◌++◌, arith,
  length, length-append, ltb, >>=-eq-some, if_intro, Bool-cases, Option-cases, ltb→lt,
}
use sioxx.Prelude.Bytes.{Bytes, break_at}
use sioxx.Message.{Json}
use sioxx.Packet.{PacketType, Packet}
use sioxx.JsonParser.Binary.{has_valid_placeholders}
use sioxx.JsonParser.Binary.Validation.{reconstruct_of_valid}
use sioxx.JsonParser.Encode.{Frame, is_binary_type}
use sioxx.JsonParser.Numbers.{parse_nonnegative_int}
use sioxx.JsonParser.Decode.{
  Decoder, idle, Decoded, more, done, fault, attach, start, read_type, read_nsp, read_id, read_body,
  read_packet, read_attachments, read_text, accept, decode, decode_pending, decode_all,
}

-- Fewer attachments than announced have come for a pending packet, whose placeholders are valid;
-- without one there are none.
abbrev pub Waits : Option Packet → List Bytes → Type 0
Waits none received = received ≡ []
Waits (some p) received =
    (length received < p.attachments) × (has_valid_placeholders p.body p.attachments ≡ true)

abbrev pub IsValid : Decoder → Type 0
IsValid s = Waits s.pending s.received

-- What a call that keeps the invariant may return.
abbrev pub Keeps : Decoded → Type 0
Keeps (more s) = IsValid s
Keeps (done s p) = s ≡ idle
Keeps fault = ⊥

attach-Keeps :
    (p : Packet) (received : List Bytes) (payload : Bytes)
    → Waits (some p) received
    → Keeps (attach p received payload)
unfolding attach
attach-Keeps p received payload (lt, valid) =
    let received' = received ++ payload ∷ [] in
    elim (Bool-cases (ltb (length received') p.attachments)) [
      | inl e ↦ rw e (ltb→lt _ _ e, valid)
      | inr e ↦
          let (w, r) =
            reconstruct_of_valid p.body p.attachments received' valid
              (ground (arith, length-append received (payload ∷ []))) in
          rw (e, r) refl
    ]

read_attachments_pos :
    (t : PacketType) (s : Bytes) (r : ℕ × Bytes)
    → read_attachments t s ≡ some r
    → is_binary_type t ≡ true
    → 0 < r.0
unfolding read_attachments
read_attachments_pos t s r h b =
    let (x, e, h') = >>=-eq-some (break_at b'-' s) _ (rw b at h) in
    let (n, e', h'') = >>=-eq-some (parse_nonnegative_int x.0) _ h' in ground arith

module _ (parse : Bytes → Option Json) where
  -- A binary packet announces an attachment at least.
  read_packet-attachments :
      (payload : Bytes) (p : Packet)
      → read_packet parse payload ≡ some p
      → is_binary_type p.type ≡ true
      → 0 < p.attachments
  unfolding read_packet
  read_packet-attachments payload p h b =
      let (t, e, h1) = >>=-eq-some (read_type payload) _ h in
      let (n, e', h2) = >>=-eq-some (read_attachments t.0 t.1) _ h1 in
      let (i, e'', h3) = >>=-eq-some (read_id (read_nsp n.1).1) _ h2 in
      let (v, e3, h4) = >>=-eq-some (read_body parse i.1) _ h3 in
      let announced : p.attachments ≡ n.0 = ground arith in
      let same_type : t.0 ≡ p.type = ground arith in
      rw announced (read_attachments_pos t.0 t.1 n e' (rw same_type b))

  accept-Keeps :
      (s : Decoder) (p : Packet)
      → s ≡ idle
      → (is_binary_type p.type ≡ true → 0 < p.attachments)
      → Keeps (accept parse s p)
  unfolding accept
  accept-Keeps s p e h = elim (Bool-cases (is_binary_type p.type)) [
    | inl b ↦ elim (Bool-cases (has_valid_placeholders p.body p.attachments)) [
      | inl valid ↦ rw (b, valid) (rw e (h b, valid))
      | inr invalid ↦ rw (b, invalid, e) refl
    ]
    | inr b ↦ rw b e
  ]

  start-Keeps : (s : Decoder) (f : Frame) → s ≡ idle → Keeps (start parse s f)
  unfolding start
  start-Keeps s f e = elim (Bool-cases f.is_binary) [
    | inl b ↦ rw (b, e) refl
    | inr b ↦ rw b (elim (Option-cases (read_packet parse f.payload)) [
      | inl r ↦ rw (r, read_text) (rw e refl)
      | inr (p, r) ↦ rw (r, read_text) (accept-Keeps s p e (read_packet-attachments f.payload p r))
    ])
  ]

  decode_pending-Keeps :
      (o : Option Packet) (s : Decoder) (f : Frame)
      → s.pending ≡ o
      → Waits o s.received
      → Keeps (decode_pending parse o s f)
  unfolding decode_pending
  decode_pending-Keeps none s f e w =
      start-Keeps s f (λ i. record { pending = e i; received = w i })
  decode_pending-Keeps (some p) s f e w =
      if_intro Keeps f.is_binary (attach p s.received f.payload) (start parse idle f)
        (attach-Keeps p s.received f.payload w) (start-Keeps idle f refl)

  -- In a state with the invariant, no frame makes the decoder read outside its attachments, and every
  -- frame keeps the invariant; a packet comes out only with the decoder idle again.
  pub decode-Keeps : (s : Decoder) (f : Frame) → IsValid s → Keeps (decode parse s f)
  unfolding decode
  decode-Keeps s f v = decode_pending-Keeps s.pending s f refl v

  decoded-cases :
      (s : Decoder) (f : Frame)
      → IsValid s
      → ((s' : Decoder) × (decode parse s f ≡ more s') × IsValid s')
        ⊎ ((p : Packet) × (decode parse s f ≡ done idle p))
  decoded-cases s f v = go (decode parse s f) refl (decode-Keeps s f v)
    where
      go :
          (d : Decoded)
          → decode parse s f ≡ d
          → Keeps d
          → ((s' : Decoder) × (decode parse s f ≡ more s') × IsValid s')
            ⊎ ((p : Packet) × (decode parse s f ≡ done idle p))
      go (more s') e k = inl (s', e, k)
      go (done s' p) e k = inr (p, e ∙ ap (λ x. done x p) k)
      go fault e k = absurd k

  -- From a state with the invariant, any sequence of frames, from whatever sender, is decoded to the end without a fault, and leaves
  -- the decoder in a state with the invariant.
  pub decode_all_total :
      (s : Decoder) (fs : List Frame)
      → IsValid s
      → (t : Decoder) × (ps : List Packet) × (decode_all parse s fs ≡ some (t, ps)) × IsValid t
  unfolding decode_all
  decode_all_total s [] v = (s, [], refl, v)
  decode_all_total s (f ∷ fs) v = elim (decoded-cases s f v) [
    | inl (s', e, v') ↦
        let (t, ps, r, w) = decode_all_total s' fs v' in (t, ps, rw (e, decode_all) r, w)
    | inr (p, e) ↦
        let (t, ps, r, w) = decode_all_total idle fs refl in
        (t, p ∷ ps, rw (e, decode_all, r) refl, w)
  ]
