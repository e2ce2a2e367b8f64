-- ===== src/JsonParser/RoundTrip/Header.antt =====
-- src/json_parser.cpp: the text in front of the payload, piece by piece, and what reads it.
use native.Mathlib.Omega.{arith}
use sioxx.Prelude.{
  ℕ, ◌≤◌, ◌<◌, ◌≡◌, refl, inl, inr, ◌∙◌, Bool, true, false, Option, some, [], ◌∷◌, ◌++◌,
  append_assoc, All, ◌>>=◌, Bool-cases, not, ◌==◌, ◌&&◌, and_right, not-true,
}
use sioxx.Prelude.Bytes.{
  Bytes, codes, Lacks, IsDigit, is_digit, break_at-append, bytes_eq, bytes_eq_iff,
}
use sioxx.Prelude.Int.{ℤ, pos, negsuc}
use sioxx.Message.{Json}
use sioxx.Packet.{
  PacketType, connect, disconnect, event, ack, connect_error, binary_event, binary_ack, type_number,
}
use sioxx.JsonParser.Numbers.{
  decimal, decimal_cons, decimal-IsDigit, parse-decimal, parse_nonnegative_int, max_int,
}
use sioxx.JsonParser.Encode.{is_binary_type, attachments_text, nsp_text, id_text, header_text}
use sioxx.JsonParser.Decode.{
  read_type, read_attachments, read_nsp, read_id, id_of_digits, span_digits, read_body, read_packet,
}

-- The payload's text may follow: it opens with no digit and no slash.
abbrev pub opens : Bytes → Bool
opens [] = true
opens (c ∷ _) = not (is_digit c) && not (c == b'/')

-- No namespace, or a slash and more without a comma.
abbrev pub IsNamespace : Bytes → Type 0
IsNamespace [] = Unit {0}
IsNamespace (c ∷ s) = (c ≡ b'/') × Lacks b',' s

abbrev pub default_nsp : Bytes → Bytes
default_nsp [] = codes "/"
default_nsp (c ∷ s) = c ∷ s

-- -1 or not negative, and within `int`.
abbrev pub IsId : ℤ → Type 0
IsId (pos n) = n ≤ max_int
IsId (negsuc n) = n ≡ 0

read_type-decimal :
    (t : PacketType) (rest : Bytes) → read_type (decimal (type_number t) ++ rest) ≡ some (t, rest)
unfolding read_type decimal
read_type-decimal connect rest = refl
read_type-decimal disconnect rest = refl
read_type-decimal event rest = refl
read_type-decimal ack rest = refl
read_type-decimal connect_error rest = refl
read_type-decimal binary_event rest = refl
read_type-decimal binary_ack rest = refl

IsDigit-Lacks : (c : ℕ) (s : Bytes) → is_digit c ≡ false → All IsDigit s → Lacks c s
IsDigit-Lacks c [] h _ = tt
IsDigit-Lacks c (x ∷ s) h (d, ds) = (ground arith, IsDigit-Lacks c s h ds)

read_attachments-text :
    (t : PacketType) (n : ℕ) (rest : Bytes)
    → (is_binary_type t ≡ true → 0 < n)
    → (is_binary_type t ≡ false → n ≡ 0)
    → n ≤ max_int
    → read_attachments t (attachments_text t n ++ rest) ≡ some (n, rest)
unfolding read_attachments
read_attachments-text t n rest b u le = elim (Bool-cases (is_binary_type t)) [
  | inl e ↦
      rw
        (
          e,
          append_assoc (decimal n) (b'-' ∷ []) rest,
          break_at-append b'-' (decimal n) rest
              (IsDigit-Lacks b'-' (decimal n) refl (decimal-IsDigit n)),
          parse-decimal n le,
        )
        (ground (arith, b e))
  | inr e ↦ rw (e, u e) refl
]

abbrev no_slash : Bytes → Bool
no_slash [] = true
no_slash (c ∷ _) = not (c == b'/')

read_nsp_none : (rest : Bytes) → no_slash rest ≡ true → read_nsp rest ≡ (codes "/", rest)
unfolding read_nsp
read_nsp_none [] o = refl
read_nsp_none (c ∷ rest) o = rw (not-true (c == b'/') o) refl

read_nsp_comma :
    (s rest : Bytes) → Lacks b',' s → read_nsp (b'/' ∷ (s ++ b',' ∷ rest)) ≡ (b'/' ∷ s, rest)
unfolding read_nsp
read_nsp_comma s rest h = rw (break_at-append b',' (b'/' ∷ s) rest (ground arith, h)) refl

read_nsp-text :
    (nsp rest : Bytes)
    → IsNamespace nsp
    → no_slash rest ≡ true
    → read_nsp (nsp_text nsp ++ rest) ≡ (default_nsp nsp, rest)
read_nsp-text [] rest v o = read_nsp_none rest o
read_nsp-text (c ∷ s) rest (slash, h) o = elim (Bool-cases (bytes_eq (c ∷ s) (codes "/"))) [
  | inl e ↦ rw e (rw ((bytes_eq_iff (c ∷ s) (codes "/")).0 e) (read_nsp_none rest o))
  | inr e ↦ rw (e, slash, append_assoc s (b',' ∷ []) rest) (read_nsp_comma s rest h)
]

span_digits-append :
    (ds rest : Bytes) → All IsDigit ds → opens rest ≡ true → span_digits (ds ++ rest) ≡ (ds, rest)
unfolding span_digits
span_digits-append [] [] d o = refl
span_digits-append [] (c ∷ rest) d o = ground arith
span_digits-append (c ∷ ds) rest (d, h) o = rw (span_digits-append ds rest h o, d)

id_of_digits-cons :
    (s : Bytes) (d : ℕ) (ds : Bytes)
    → s ≡ d ∷ ds
    → id_of_digits s ≡ (parse_nonnegative_int s >>= λ n. some (pos n))
unfolding id_of_digits
id_of_digits-cons s d ds e = rw (e, id_of_digits) refl

id_of_digits-decimal : (n : ℕ) → n ≤ max_int → id_of_digits (decimal n) ≡ some (pos n)
id_of_digits-decimal n h =
    let (d, ds, e, _) = decimal_cons n in
    id_of_digits-cons (decimal n) d ds e ∙ rw (parse-decimal n h) refl

read_id-span :
    (s ds rest : Bytes) (id : ℤ)
    → span_digits s ≡ (ds, rest)
    → id_of_digits ds ≡ some id
    → read_id s ≡ some (id, rest)
unfolding read_id
read_id-span s ds rest id e h = rw (e, h) refl

read_id-text :
    (id : ℤ) (rest : Bytes)
    → IsId id
    → opens rest ≡ true
    → read_id (id_text id ++ rest) ≡ some (id, rest)
read_id-text (pos n) rest h o =
    read_id-span (decimal n ++ rest) (decimal n) rest (pos n)
      (span_digits-append (decimal n) rest (decimal-IsDigit n) o) (id_of_digits-decimal n h)
read_id-text (negsuc n) rest h o =
    read_id-span rest [] rest (negsuc n) (span_digits-append [] rest tt o)
      (unfold id_of_digits in rw h refl)

-- Neither an id nor the payload's text opens with a slash.
no_slash-id : (id : ℤ) (rest : Bytes) → opens rest ≡ true → no_slash (id_text id ++ rest) ≡ true
no_slash-id (pos n) rest o = let (d, ds, e, h) = decimal_cons n in rw e (ground arith)
no_slash-id (negsuc n) [] o = refl
no_slash-id (negsuc n) (c ∷ rest) o = and_right (not (is_digit c)) (not (c == b'/')) o

-- The whole header.
pub read_packet-header_text :
    (parse : Bytes → Option Json) (t : PacketType) (n : ℕ) (nsp : Bytes) (id : ℤ) (text : Bytes)
    (v : Json)
    → (is_binary_type t ≡ true → 0 < n)
    → (is_binary_type t ≡ false → n ≡ 0)
    → n ≤ max_int
    → IsNamespace nsp
    → IsId id
    → opens text ≡ true
    → read_body parse text ≡ some v
    → read_packet parse (header_text t n nsp id text)
      ≡ some (record { type = t; nsp = default_nsp nsp; id = id; body = v; attachments = n })
unfolding read_packet header_text
read_packet-header_text parse t n nsp id text v b u le vn vi o r =
    let tail = id_text id ++ text in
    rw
      (
        read_type-decimal t (attachments_text t n ++ (nsp_text nsp ++ tail)),
        read_attachments-text t n (nsp_text nsp ++ tail) b u le,
        read_nsp-text nsp tail vn (no_slash-id id text o),
        read_id-text id text vi o,
        r,
      )
      refl
