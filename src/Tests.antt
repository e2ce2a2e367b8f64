-- ===== src/Tests.antt =====
-- The theorems at concrete inputs: packets, sockets, deadlines, URLs, sessions and transports.
mod Clients
mod Exchanges
mod Msgpack
mod Network
mod Requests
mod Sessions
mod Transports
use native.Mathlib.Omega.{arith}
use sioxx.Prelude.{
  ℕ, ◌≡◌, ◌≢◌, ◌≤◌, ◌<◌, refl, inl, inr, Bool, true, false, Option, none, some, List, [], ◌∷◌, ◌++◌,
  All, length, ◌>>=◌,
}
use sioxx.Prelude.Bytes.{Bytes, codes, bytes_eq}
use sioxx.Prelude.Int.{ℤ, pos, negsuc}
use sioxx.Prelude.Map
use sioxx.Prelude.Map.{nat_key}
use sioxx.Message.{Json, null, string, binary, array, nil, cons, object, end, member, find_member}
use sioxx.Packet.{Packet, event, default_packet}
use sioxx.JsonParser.Binary.{
  deconstruct_binary, reconstruct_binary, has_valid_placeholders, placeholder,
  collect_placeholder_indices, is_binary_placeholder, collect_placeholder, read_placeholder_index,
}
use sioxx.JsonParser.Binary.Reconstruct.{reconstruct-deconstruct, is_restorable}
use sioxx.JsonParser.Numbers.{parse_nonnegative_int, decimal, parse-decimal, max_int}
use sioxx.JsonParser.Encode.{Frame, encode, take_out, text_frame, binary_frame, body_text}
use sioxx.JsonParser.Decode.{Decoder, Decoded, idle, decode, decode_all, read_body}
use sioxx.JsonParser.Safety.{IsValid, Keeps, decode-Keeps, decode_all_total}
use sioxx.JsonParser.RoundTrip.{IsSendable, ReadsBack, arrives, decode_all-encode}

-- An event with a binary argument.
abbrev body : Json
body = array (cons (string (codes "hi")) (cons (binary none (1 ∷ 2 ∷ [])) nil))

abbrev stripped : Json
stripped = array (cons (string (codes "hi")) (cons (placeholder 0) nil))

abbrev packet : Packet
packet = record default_packet { nsp = codes "/chat"; id = pos 7; body = body }

-- The text of that event, and its value: what `dump` and `parse` do at it.
abbrev text : Bytes
text = codes "[\"hi\",{\"_placeholder\":true,\"num\":0}]"

abbrev dump : Json → Option Bytes
dump v = some text

abbrev parse : Bytes → Option Json
parse s = some stripped

abbrev waiting : Decoder
waiting = record {
  pending = some (record packet { body = stripped; attachments = 1 });
  received = [];
}

waiting-IsValid : IsValid waiting
unfolding has_valid_placeholders find_member collect_placeholder_indices is_binary_placeholder
    bytes_eq collect_placeholder read_placeholder_index
waiting-IsValid = (omega arith, refl)

packet-IsSendable : IsSendable packet
unfolding is_restorable take_out deconstruct_binary
packet-IsSendable = record {
  plain = refl;
  namespace = (refl, ground arith);
  id = omega arith;
  few = omega arith;
}

packet-ReadsBack : ReadsBack dump parse (take_out packet.type packet.body).0
unfolding read_body take_out deconstruct_binary
packet-ReadsBack = record { text = text; dumped = refl; opening = refl; parsed = refl }

decode_all-encode_example :
    (fs : List Frame) × (encode dump packet ≡ some fs)
    × (decode_all parse waiting fs ≡ some (idle, arrives packet ∷ []))
decode_all-encode_example =
    decode_all-encode parse dump packet waiting packet-IsSendable packet-ReadsBack waiting-IsValid

decode_all_total_example :
    (t : Decoder) × (ps : List Packet) × (decode_all parse waiting
        (binary_frame (1 ∷ []) ∷ text_frame (codes "2[]") ∷ [])
      ≡ some (t, ps))
    × IsValid t
decode_all_total_example =
    decode_all_total parse waiting (binary_frame (1 ∷ []) ∷ text_frame (codes "2[]") ∷ [])
      waiting-IsValid

body-is_restorable : is_restorable body ≡ true
unfolding is_restorable
body-is_restorable = refl

reconstruct-deconstruct_example :
    reconstruct_binary (deconstruct_binary body []).0 (deconstruct_binary body []).1 ≡ some body
reconstruct-deconstruct_example = reconstruct-deconstruct body body-is_restorable
