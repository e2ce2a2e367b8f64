-- ===== src/Tests/Msgpack.antt =====
-- The theorem about the MessagePack parser at a concrete input.
use native.Mathlib.Omega.{arith}
use sioxx.Prelude.{◌≡◌, refl, Option, none, some, [], ◌∷◌}
use sioxx.Prelude.Bytes.{Bytes, codes}
use sioxx.Prelude.Int.{ℤ, pos}
use sioxx.Message.{
  Json, number_integer, number_unsigned, string, binary, array, cons, nil, object, find_member,
}
use sioxx.Packet.{Packet, default_packet, type_number}
use sioxx.MsgpackParser.{packet_json, encode, decode}
use sioxx.MsgpackParser.RoundTrip.{ReadsMembers, as_unsigned, id_of, decode-encode}

abbrev as_int : Json → Option ℤ
as_int (number_unsigned n) = some (pos n)
as_int (number_integer z) = some z
as_int _ = none

abbrev as_string : Json → Option Bytes
as_string (string s) = some s
as_string _ = none

abbrev value_int : Bytes → ℤ → Json → Option ℤ
value_int key d (object ms) = elim (find_member key ms) [ none ↦ some d | some v ↦ as_int v ]
value_int key d _ = none

abbrev value_string : Bytes → Bytes → Json → Option Bytes
value_string key d (object ms) = elim (find_member key ms) [ none ↦ some d | some v ↦ as_string v ]
value_string key d _ = none

reads_members : ReadsMembers value_int value_string as_int
reads_members = record {
  an_int = λ key d ms n l e. rw (e, value_int) refl;
  a_string = λ key d s ms e. rw (e, value_string) refl;
  gets = λ n l. refl;
}

-- An event with an id and a binary argument.
abbrev packet : Packet
packet = record default_packet {
  id = pos 7;
  body = array (cons (string (codes "hi")) (cons (binary none (1 ∷ 2 ∷ [])) nil));
}

abbrev to_msgpack : Json → Bytes
to_msgpack j = codes "object"

abbrev from_msgpack : Bytes → Option Json
from_msgpack s = some (as_unsigned (packet_json packet))

decode-encode_example :
    decode from_msgpack value_int value_string as_int (encode to_msgpack packet)
    ≡ some (record {
      type = pos (type_number packet.type);
      nsp = packet.nsp;
      id = id_of packet.id;
      body = as_unsigned packet.body;
      attachments = 0;
    })
decode-encode_example =
    decode-encode to_msgpack from_msgpack value_int value_string as_int reads_members packet
      (omega arith) refl
