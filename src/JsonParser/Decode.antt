-- ===== src/JsonParser/Decode.antt =====
-- src/json_parser.cpp, `json_parser::decode`. `parse` is nlohmann's parser, without exceptions; its
-- `none` is a discarded value. A position in the payload is the rest of it from there on.
use sioxx.Prelude.{
  ℕ, ◌-◌, Option, none, some, List, [], ◌∷◌, ◌++◌, length, ltb, ◌==◌, if◌then◌else◌, ◌>>=◌, ◌>>◌,
  guard, not,
}
use sioxx.Prelude.Bytes.{Bytes, codes, break_at, is_digit}
use sioxx.Prelude.Int.{ℤ, pos, minus_one}
use sioxx.Message.{Json, null}
use sioxx.Packet.{
  PacketType, connect, disconnect, event, ack, connect_error, binary_event, binary_ack, Packet,
}
use sioxx.JsonParser.Binary.{has_valid_placeholders, reconstruct_binary}
use sioxx.JsonParser.Numbers.{parse_nonnegative_int}
use sioxx.JsonParser.Encode.{Frame, is_binary_type}

abbrev type_of_number : ℕ → Option PacketType
type_of_number n =
    if n == 0
    then some connect
    else if n == 1
    then some disconnect
    else if n == 2
    then some event
    else if n == 3
    then some ack
    else if n == 4
    then some connect_error
    else if n == 5
    then some binary_event
    else if n == 6
    then some binary_ack
    else none

unfoldable pub read_type : Bytes → Option (PacketType × Bytes)
read_type [] = none
read_type (c ∷ rest) = do guard (is_digit c); type ← type_of_number (c - b'0'); some (type, rest)

-- The number of attachments; a binary packet must have one at least.
unfoldable pub read_attachments : PacketType → Bytes → Option (ℕ × Bytes)
read_attachments type s =
    if is_binary_type type
    then (break_at b'-' s >>= λ (digits, rest).
        parse_nonnegative_int digits >>= λ n. guard (not (n == 0)) >> some (n, rest))
    else some (0, s)

abbrev up_to_comma : Bytes → Option (Bytes × Bytes) → Bytes × Bytes
up_to_comma s none = (s, [])
up_to_comma s (some (nsp, rest)) = (nsp, rest)

unfoldable pub read_nsp : Bytes → Bytes × Bytes
read_nsp [] = (codes "/", [])
read_nsp (c ∷ rest) =
    if c == b'/' then up_to_comma (c ∷ rest) (break_at b',' (c ∷ rest)) else (codes "/", c ∷ rest)

unfoldable pub span_digits : Bytes → Bytes × Bytes
span_digits [] = ([], [])
span_digits (c ∷ rest) =
    let (digits, rest') = span_digits rest in
    if is_digit c then (c ∷ digits, rest') else ([], c ∷ rest)

unfoldable pub id_of_digits : Bytes → Option ℤ
id_of_digits [] = some minus_one
id_of_digits (c ∷ cs) = parse_nonnegative_int (c ∷ cs) >>= λ n. some (pos n)

unfoldable pub read_id : Bytes → Option (ℤ × Bytes)
unfolding id_of_digits
read_id s = let (digits, rest) = span_digits s in id_of_digits digits >>= λ id. some (id, rest)

-- The decoder's state between calls: `pending_binary_packet_` and `pending_attachments_`.
pub record Decoder : Type 0 where
  pub pending : Option Packet
  pub received : List Bytes

abbrev pub idle : Decoder
idle = record { pending = none; received = [] }

-- `more` is the result false, `done` is true with `out`. `fault` is a read outside the attachments.
pub data Decoded : Type 0 where
  more : Decoder → Decoded
  done : Decoder → Packet → Decoded
  fault : Decoded

unfoldable pub finish : Packet → Option Json → Decoded
finish p none = fault
finish p (some body) = done idle (record p { body = body })

-- A binary frame while a packet is pending.
unfoldable pub attach : Packet → List Bytes → Bytes → Decoded
unfolding finish
attach p received payload =
    let received' = received ++ payload ∷ [] in
    if ltb (length received') p.attachments
    then more (record { pending = some p; received = received' })
    else finish p (reconstruct_binary p.body received')

module _ (parse : Bytes → Option Json) where
  unfoldable pub read_body : Bytes → Option Json
  read_body [] = some null
  read_body (c ∷ rest) = parse (c ∷ rest)

  unfoldable pub read_packet : Bytes → Option Packet
  read_packet payload = read_type payload >>= λ (type, rest).
      read_attachments type rest >>= λ (n, rest').
      let (nsp, rest'') = read_nsp rest' in
      read_id rest'' >>= λ (id, text). read_body text >>= λ body.
      some (record { type = type; nsp = nsp; id = id; body = body; attachments = n })

  -- A complete packet, or one that waits for its attachments.
  unfoldable pub accept : Decoder → Packet → Decoded
  accept s p =
      if is_binary_type p.type
      then (if has_valid_placeholders p.body p.attachments
          then more (record s { pending = some p })
          else more s)
      else done s p

  unfoldable pub read_text : Decoder → Option Packet → Decoded
  unfolding accept
  read_text s none = more s
  read_text s (some p) = accept s p

  -- A frame while nothing is pending.
  unfoldable pub start : Decoder → Frame → Decoded
  unfolding read_text
  start s f = if f.is_binary then more s else read_text s (read_packet f.payload)

  unfoldable pub decode_pending : Option Packet → Decoder → Frame → Decoded
  unfolding attach start
  decode_pending none s f = start s f
  decode_pending (some p) s f = if f.is_binary then attach p s.received f.payload else start idle f

  unfoldable pub decode : Decoder → Frame → Decoded
  unfolding decode_pending
  decode s f = decode_pending s.pending s f

  -- Frames in the order of arrival: the last state and the packets that came out; `none` is a fault.
  unfoldable pub decode_all : Decoder → List Frame → Option (Decoder × List Packet)
  decode_all s [] = some (s, [])
  decode_all s (f ∷ fs) = elim (decode s f) [
    | more s' ↦ decode_all s' fs
    | done s' p ↦ decode_all s' fs >>= λ (s'', ps). some (s'', p ∷ ps)
    | fault ↦ none
  ]
