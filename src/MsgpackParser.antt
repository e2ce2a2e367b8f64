-- ===== src/MsgpackParser.antt =====
-- src/msgpack_parser.cpp. nlohmann's to_msgpack, from_msgpack, `value` and `get` are parameters; `none`
-- is an exception of theirs.
pub mod RoundTrip
use sioxx.Prelude.{
  ℕ, Bool, true, false, Option, none, some, List, [], ◌∷◌, if◌then◌else◌, ◌>>=◌, not,
}
use sioxx.Prelude.Bytes.{Bytes, codes}
use sioxx.Prelude.Int.{ℤ, pos, negsuc, minus_one}
use sioxx.Message.{
  Json, null, number_integer, string, object, Members, end, member, find_member, is_null,
}
use sioxx.Packet.{Packet, type_number}
use sioxx.JsonParser.Encode.{Frame, binary_frame}

-- `obj`, whose members a std::map keeps in the order of their keys.
abbrev pub id_member : ℤ → Members → Members
id_member (pos n) ms = member (codes "id") (number_integer (pos n)) ms
id_member (negsuc n) ms = ms

abbrev pub body_member : Json → Members → Members
body_member body ms = if is_null body then ms else member (codes "data") body ms

abbrev pub packet_json : Packet → Json
packet_json p =
    let type = number_integer (pos (type_number p.type)) in
    object (
      body_member p.body
        (id_member p.id (member (codes "nsp") (string p.nsp) (member (codes "type") type end))))

unfoldable pub encode : (Json → Bytes) → Packet → Frame
encode to_msgpack p = binary_frame (to_msgpack (packet_json p))

-- `packet` as it is decoded: a type is any number that the frame gives.
pub record Decoded : Type 0 where
  pub type : ℤ
  pub nsp : Bytes
  pub id : ℤ
  pub body : Json
  pub attachments : ℕ

-- `contains` with `operator[]`.
abbrev pub lookup : Bytes → Json → Option Json
lookup key (object ms) = find_member key ms
lookup key _ = none

abbrev pub or_null : Option Json → Json
or_null none = null
or_null (some v) = v

module _ (from_msgpack : Bytes → Option Json) (value_int : Bytes → ℤ → Json → Option ℤ)
    (value_string : Bytes → Bytes → Json → Option Bytes) (get_int : Json → Option ℤ) where
  abbrev pub read_id : Option Json → Option ℤ
  read_id none = some minus_one
  read_id (some v) = if is_null v then some minus_one else get_int v

  abbrev pub read_packet : Json → Option Decoded
  read_packet obj = value_int (codes "type") (pos 0) obj >>= λ type.
      value_string (codes "nsp") (codes "/") obj >>= λ nsp.
      read_id (lookup (codes "id") obj) >>= λ id. some (record {
        type = type;
        nsp = nsp;
        id = id;
        body = or_null (lookup (codes "data") obj);
        attachments = 0;
      })

  -- `none` is the result false.
  unfoldable pub decode : Frame → Option Decoded
  decode frame =
      if not frame.is_binary then none else (from_msgpack frame.payload >>= λ obj. read_packet obj)
