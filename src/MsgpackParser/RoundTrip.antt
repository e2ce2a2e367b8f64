-- ===== src/MsgpackParser/RoundTrip.antt =====
-- src/msgpack_parser.cpp: what was encoded is decoded.
use sioxx.Prelude.{ℕ, ◌≤◌, ◌≡◌, refl, arith, if_intro, ap, ◌∙◌, Option, none, some}
use sioxx.Prelude.Bytes.{Bytes, codes, bytes_eq}
use sioxx.Prelude.Int.{ℤ, pos, negsuc, minus_one}
use sioxx.Message.{
  Json, null, boolean, number_integer, number_unsigned, number_float, string, binary, array, object,
  Items, nil, cons, Members, end, member, find_member, is_null,
}
use sioxx.Packet.{
  Packet, PacketType, connect, disconnect, event, ack, connect_error, binary_event, binary_ack,
  type_number,
}
use sioxx.JsonParser.Numbers.{max_int}
use sioxx.MsgpackParser.{packet_json, id_member, body_member, encode, or_null, decode, read_id}

abbrev unsigned_id : ℤ → Members → Members
unsigned_id (pos n) ms = member (codes "id") (number_unsigned n) ms
unsigned_id (negsuc n) ms = ms

-- A value as MessagePack gives it back: an integer that is not negative is unsigned.
abbrev pub unsigned_number : ℤ → Json
unsigned_number (pos n) = number_unsigned n
unsigned_number (negsuc n) = number_integer (negsuc n)

unfoldable mutual
  pub as_unsigned : Json → Json
  as_unsigned (number_integer z) = unsigned_number z
  as_unsigned (array vs) = array (unsigned_items vs)
  as_unsigned (object ms) = object (unsigned_members ms)
  as_unsigned v = v

  pub unsigned_items : Items → Items
  unsigned_items nil = nil
  unsigned_items (cons v vs) = cons (as_unsigned v) (unsigned_items vs)

  pub unsigned_members : Members → Members
  unsigned_members end = end
  unsigned_members (member k v ms) = member k (as_unsigned v) (unsigned_members ms)

-- The object of a packet, so given back, with its payload.
abbrev unsigned_json : Packet → Json → Json
unsigned_json p body = object (
    body_member body (
      unsigned_id p.id (
        member (codes "nsp") (string p.nsp)
          (member (codes "type") (number_unsigned (type_number p.type)) end))))

as_unsigned-id :
    (id : ℤ) (nsp : Bytes) (n : ℕ)
    → unsigned_members (
        id_member id
          (member (codes "nsp") (string nsp) (member (codes "type") (number_integer (pos n)) end)))
      ≡ unsigned_id id
          (member (codes "nsp") (string nsp) (member (codes "type") (number_unsigned n) end))
unfolding as_unsigned
as_unsigned-id (pos i) nsp n = refl
as_unsigned-id (negsuc i) nsp n = refl

as_unsigned-body :
    (body : Json) (ms : Members)
    → unsigned_members (body_member body ms) ≡ body_member (as_unsigned body) (unsigned_members ms)
unfolding as_unsigned
as_unsigned-body null ms = refl
as_unsigned-body (boolean b) ms = refl
as_unsigned-body (number_integer (pos n)) ms = refl
as_unsigned-body (number_integer (negsuc n)) ms = refl
as_unsigned-body (number_unsigned n) ms = refl
as_unsigned-body (number_float n) ms = refl
as_unsigned-body (string s) ms = refl
as_unsigned-body (binary st s) ms = refl
as_unsigned-body (array vs) ms = refl
as_unsigned-body (object vs) ms = refl

as_unsigned-packet_json :
    (p : Packet) → as_unsigned (packet_json p) ≡ unsigned_json p (as_unsigned p.body)
unfolding as_unsigned
as_unsigned-packet_json p = ap object (
    as_unsigned-body p.body _
    ∙ ap (body_member (as_unsigned p.body)) (as_unsigned-id p.id p.nsp (type_number p.type)))

abbrev pub FitsInt : ℤ → Type 0
FitsInt (pos n) = n ≤ max_int
FitsInt (negsuc n) = Unit {0}

-- No id is any number below zero.
abbrev pub id_of : ℤ → ℤ
id_of (pos n) = pos n
id_of (negsuc n) = minus_one

-- `value` and `get` at members of the type that is asked for.
pub record ReadsMembers (value_int : Bytes → ℤ → Json → Option ℤ)
    (value_string : Bytes → Bytes → Json → Option Bytes) (get_int : Json → Option ℤ) : Type 0 where
  pub an_int :
      (key : Bytes) (d : ℤ) (ms : Members) (n : ℕ)
      → n ≤ max_int
      → find_member key ms ≡ some (number_unsigned n)
      → value_int key d (object ms) ≡ some (pos n)
  pub a_string :
      (key d s : Bytes) (ms : Members)
      → find_member key ms ≡ some (string s)
      → value_string key d (object ms) ≡ some s
  pub gets : (n : ℕ) → n ≤ max_int → get_int (number_unsigned n) ≡ some (pos n)

abbrev inner : ℤ → Bytes → ℕ → Members
inner id nsp type =
    unsigned_id id
      (member (codes "nsp") (string nsp) (member (codes "type") (number_unsigned type) end))

-- A key other than that of the data is found behind it.
find-body_member :
    (key : Bytes) (v : Option Json) (body : Json) (ms : Members)
    → find_member key ms ≡ v
    → find_member key (member (codes "data") body ms) ≡ v
    → find_member key (body_member body ms) ≡ v
find-body_member key v body ms e e' =
    if_intro (λ ms. find_member key ms ≡ v) (is_null body) ms (member (codes "data") body ms) e e'

find_type :
    (body : Json) (id : ℤ) (nsp : Bytes) (type : ℕ)
    → find_member (codes "type") (body_member body (inner id nsp type))
      ≡ some (number_unsigned type)
unfolding find_member bytes_eq
find_type body (pos n) nsp type =
    find-body_member (codes "type") _ body (inner (pos n) nsp type) refl refl
find_type body (negsuc n) nsp type =
    find-body_member (codes "type") _ body (inner (negsuc n) nsp type) refl refl

find_nsp :
    (body : Json) (id : ℤ) (nsp : Bytes) (type : ℕ)
    → find_member (codes "nsp") (body_member body (inner id nsp type)) ≡ some (string nsp)
unfolding find_member bytes_eq
find_nsp body (pos n) nsp type =
    find-body_member (codes "nsp") _ body (inner (pos n) nsp type) refl refl
find_nsp body (negsuc n) nsp type =
    find-body_member (codes "nsp") _ body (inner (negsuc n) nsp type) refl refl

abbrev found_id : ℤ → Option Json
found_id (pos n) = some (number_unsigned n)
found_id (negsuc n) = none

find_id :
    (body : Json) (id : ℤ) (nsp : Bytes) (type : ℕ)
    → find_member (codes "id") (body_member body (inner id nsp type)) ≡ found_id id
unfolding find_member bytes_eq
find_id body (pos n) nsp type =
    find-body_member (codes "id") _ body (inner (pos n) nsp type) refl refl
find_id body (negsuc n) nsp type =
    find-body_member (codes "id") _ body (inner (negsuc n) nsp type) refl refl

find_data :
    (body : Json) (id : ℤ) (nsp : Bytes) (type : ℕ)
    → or_null (find_member (codes "data") (body_member body (inner id nsp type))) ≡ body
unfolding find_member bytes_eq
find_data null (pos n) nsp type = refl
find_data null (negsuc n) nsp type = refl
find_data (boolean b) id nsp type = refl
find_data (number_integer z) id nsp type = refl
find_data (number_unsigned n) id nsp type = refl
find_data (number_float n) id nsp type = refl
find_data (string s) id nsp type = refl
find_data (binary st s) id nsp type = refl
find_data (array vs) id nsp type = refl
find_data (object ms) id nsp type = refl

type_number-le : (type : PacketType) → type_number type ≤ max_int
type_number-le connect = omega arith
type_number-le disconnect = omega arith
type_number-le event = omega arith
type_number-le ack = omega arith
type_number-le connect_error = omega arith
type_number-le binary_event = omega arith
type_number-le binary_ack = omega arith

module _ (to_msgpack : Json → Bytes) (from_msgpack : Bytes → Option Json)
    (value_int : Bytes → ℤ → Json → Option ℤ) (value_string : Bytes → Bytes → Json → Option Bytes)
    (get_int : Json → Option ℤ) (reads : ReadsMembers value_int value_string get_int) where
  read_found_id :
      (id : ℤ)
      → FitsInt id
      → read_id from_msgpack value_int value_string get_int (found_id id) ≡ some (id_of id)
  read_found_id (pos n) l = reads.gets n l
  read_found_id (negsuc n) l = refl

  -- Where `value` and `get` read members of the type that is asked for, and MessagePack gives the object
  -- that is encoded back, with integers that are not negative unsigned: a packet whose id fits an `int`
  -- arrives with its type, its namespace, its id, of which any below zero is -1, and its payload as
  -- MessagePack gives it back.
  pub decode-encode :
      (p : Packet)
      → FitsInt p.id
      → from_msgpack (to_msgpack (packet_json p)) ≡ some (as_unsigned (packet_json p))
      → decode from_msgpack value_int value_string get_int (encode to_msgpack p)
        ≡ some (record {
          type = pos (type_number p.type);
          nsp = p.nsp;
          id = id_of p.id;
          body = as_unsigned p.body;
          attachments = 0;
        })
  unfolding decode encode
  decode-encode p l e =
      let n = type_number p.type in
      let body = as_unsigned p.body in
      let ms = body_member body (inner p.id p.nsp n) in
      rw
        (
          e ∙ ap some (as_unsigned-packet_json p),
          reads.an_int (codes "type") (pos 0) ms n (type_number-le p.type)
              (find_type body p.id p.nsp n),
          reads.a_string (codes "nsp") (codes "/") p.nsp ms (find_nsp body p.id p.nsp n),
          find_id body p.id p.nsp n,
          read_found_id p.id l,
          find_data body p.id p.nsp n,
        )
        refl
