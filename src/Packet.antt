-- ===== src/Packet.antt =====
-- include/sioxx/packet.hpp
use sioxx.Prelude.{ℕ}
use sioxx.Prelude.Bytes.{Bytes, codes}
use sioxx.Prelude.Int.{ℤ, minus_one}
use sioxx.Message.{Json, null}

-- `packet_type`, with the numbers of the protocol in `type_number`.
pub data PacketType : Type 0 where
  connect disconnect event ack connect_error binary_event binary_ack : PacketType

abbrev pub type_number : PacketType → ℕ
type_number connect = 0
type_number disconnect = 1
type_number event = 2
type_number ack = 3
type_number connect_error = 4
type_number binary_event = 5
type_number binary_ack = 6

pub record Packet : Type 0 where
  pub type : PacketType
  pub nsp : Bytes
  pub id : ℤ
  pub body : Json
  pub attachments : ℕ

-- The default member initialisers.
abbrev pub default_packet : Packet
default_packet = record {
  type = event;
  nsp = codes "/";
  id = minus_one;
  body = null;
  attachments = 0;
}
