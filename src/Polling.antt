-- ===== src/Polling.antt =====
-- src/polling_protocol.hpp and src/http_polling_transport.cpp: packets in a polling payload.
pub mod Payload
use sioxx.Prelude.{
  ℕ, ◌≡◌, refl, Bool, true, false, Option, none, some, List, [], ◌∷◌, ◌++◌, if◌then◌else◌, ◌==◌,
}
use sioxx.Prelude.Bytes.{Bytes, codes}
use sioxx.Base64.{base64_encode, base64_decode}

unfoldable pub polling_encode_binary : Bytes → Bytes
polling_encode_binary payload = b'b' ∷ base64_encode payload

-- `none` is the result false.
unfoldable pub polling_decode_binary : Bytes → Option Bytes
polling_decode_binary [] = none
polling_decode_binary (c ∷ s) = if c == b'b' then base64_decode s else none

-- ASCII RS.
abbrev pub separator : ℕ
separator = 0x1e

abbrev pub push_packet : Bytes → List Bytes → List Bytes
push_packet [] packets = packets
push_packet (c ∷ s) packets = (c ∷ s) ∷ packets

-- `packet` is the text from `begin` on.
pub split_from : Bytes → Bytes → List Bytes
split_from packet [] = push_packet packet []
split_from packet (c ∷ s) =
    let next = push_packet packet (split_from [] s) in
    let longer = split_from (packet ++ c ∷ []) s in if c == separator then next else longer

unfoldable pub polling_split_payload : Bytes → List Bytes
unfolding split_from
polling_split_payload payload = split_from [] payload
