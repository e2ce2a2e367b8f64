-- ===== src/JsonParser/Encode.antt =====
-- src/json_parser.cpp, `json_parser::encode`. `dump` is nlohmann's serialiser; its `none` is the
-- exception that it throws at text that is not UTF-8.
use sioxx.Prelude.{
  ℕ, Bool, true, false, Option, some, List, [], ◌∷◌, ◌++◌, map, length, ltb, if◌then◌else◌, ◌>>=◌,
  ◌>>◌, guard, not, ◌||◌,
}
use sioxx.Prelude.Bytes.{Bytes, codes, bytes_eq}
use sioxx.Prelude.Int.{ℤ, pos, negsuc}
use sioxx.Message.{Json, is_null}
use sioxx.Packet.{PacketType, event, ack, binary_event, binary_ack, type_number, Packet}
use sioxx.JsonParser.Binary.{deconstruct_binary}
use sioxx.JsonParser.Numbers.{decimal, max_int}

-- What `write` is called with: a payload and whether it is binary.
pub record Frame : Type 0 where
  pub payload : Bytes
  pub is_binary : Bool

abbrev pub text_frame : Bytes → Frame
text_frame s = record { payload = s; is_binary = false }

abbrev pub binary_frame : Bytes → Frame
binary_frame s = record { payload = s; is_binary = true }

-- The types whose payload may hold binary values.
abbrev pub may_hold_binary : PacketType → Bool
may_hold_binary event = true
may_hold_binary binary_event = true
may_hold_binary ack = true
may_hold_binary binary_ack = true
may_hold_binary _ = false

abbrev pub is_binary_type : PacketType → Bool
is_binary_type binary_event = true
is_binary_type binary_ack = true
is_binary_type _ = false

-- The payload that is written as text, and the attachments.
unfoldable pub take_out : PacketType → Json → Json × List Bytes
take_out type body = if may_hold_binary type then deconstruct_binary body [] else (body, [])

-- The type follows from whether there are attachments.
unfoldable pub wire_type : PacketType → List Bytes → PacketType
wire_type binary_event [] = event
wire_type binary_ack [] = ack
wire_type event (_ ∷ _) = binary_event
wire_type ack (_ ∷ _) = binary_ack
wire_type type _ = type

abbrev pub attachments_text : PacketType → ℕ → Bytes
attachments_text type n = if is_binary_type type then decimal n ++ b'-' ∷ [] else []

abbrev is_empty : Bytes → Bool
is_empty [] = true
is_empty (_ ∷ _) = false

abbrev pub nsp_text : Bytes → Bytes
nsp_text nsp = if is_empty nsp || bytes_eq nsp (codes "/") then [] else nsp ++ b',' ∷ []

abbrev pub id_text : ℤ → Bytes
id_text (pos n) = decimal n
id_text (negsuc n) = []

-- The text in front of the payload.
unfoldable pub header_text : PacketType → ℕ → Bytes → ℤ → Bytes → Bytes
header_text type n nsp id rest =
    decimal (type_number type)
    ++ (attachments_text type n ++ (nsp_text nsp ++ (id_text id ++ rest)))

module _ (dump : Json → Option Bytes) where
  abbrev pub body_text : Json → Option Bytes
  body_text v = if is_null v then some [] else dump v

  -- The frames that are written, in order; `none` is an exception.
  unfoldable pub encode : Packet → Option (List Frame)
  encode packet =
      let (body, attachments) = take_out packet.type packet.body in
      do
        guard (not (ltb max_int (length attachments)))
        text ← body_text body
        some (
            text_frame (
              header_text (wire_type packet.type attachments) (length attachments) packet.nsp
                packet.id text)
            ∷ map binary_frame attachments)
