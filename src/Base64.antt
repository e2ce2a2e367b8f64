-- ===== src/Base64.antt =====
-- src/proxy.cpp, `base64_encode`, and src/http_polling_transport.cpp, `base64_value` and `base64_decode`.
-- The operands of each `|` share no bit, so it is written as a sum; `>>` and `&` by a power of two are
-- a quotient and a remainder.
pub mod RoundTrip
use sioxx.Prelude.{
  ℕ, zero, suc, ◌+◌, ◌-◌, ◌*◌, ◌/◌, ◌%◌, ◌^◌, ◌≡◌, refl, Bool, true, false, Option, none, some,
  List, [], ◌∷◌, ◌++◌, if◌then◌else◌, leb, ◌==◌, ◌&&◌, get_elem?, ◌>>=◌, length, not,
}
use sioxx.Prelude.Bytes.{Bytes, codes}

-- `base64`, the table.
abbrev table : Bytes
table = codes "ABCDEFGHIJKLMNOPQRSTUVWXYZabcdefghijklmnopqrstuvwxyz0123456789+/"

abbrev char_of : Option ℕ → ℕ
char_of none = 0
char_of (some c) = c

-- `base64[v & 63]`
digit : ℕ → ℕ
digit v = char_of (get_elem? table (v % 64))

abbrev group : ℕ → ℕ → ℕ → ℕ
group a b c = a * 2 ^ 16 + b * 2 ^ 8 + c

unfoldable pub base64_encode : Bytes → Bytes
unfolding digit
base64_encode [] = []
base64_encode (a ∷ []) =
    let v = group a 0 0 in digit (v / 2 ^ 18) ∷ digit (v / 2 ^ 12) ∷ b'=' ∷ b'=' ∷ []
base64_encode (a ∷ b ∷ []) =
    let v = group a b 0 in digit (v / 2 ^ 18) ∷ digit (v / 2 ^ 12) ∷ digit (v / 2 ^ 6) ∷ b'=' ∷ []
base64_encode (a ∷ b ∷ c ∷ rest) =
    let v = group a b c in
    digit (v / 2 ^ 18) ∷ digit (v / 2 ^ 12) ∷ digit (v / 2 ^ 6) ∷ digit v ∷ base64_encode rest

-- `none` is -1.
base64_value : ℕ → Option ℕ
base64_value c =
    if leb b'A' c && leb c b'Z'
    then some (c - b'A')
    else if leb b'a' c && leb c b'z'
    then some (c - b'a' + 26)
    else if leb b'0' c && leb c b'9'
    then some (c - b'0' + 52)
    else if c == b'+'
    then some 62
    else if c == b'/'
    then some 63
    else none

abbrev padded_value : ℕ → Option ℕ
padded_value c = if c == b'=' then some 0 else base64_value c

abbrev unless_padding : ℕ → ℕ → Bytes → Bytes
unless_padding c byte out = if c == b'=' then out else byte ∷ out

-- The bytes of one group of four characters, in front of those of the rest.
abbrev group_bytes : ℕ → ℕ → ℕ → Bytes → Bytes
group_bytes x y value out =
    ((value / 2 ^ 16) % 256)
    ∷ unless_padding x ((value / 2 ^ 8) % 256) (unless_padding y (value % 256) out)

decode_groups : Bytes → Option Bytes
decode_groups [] = some []
decode_groups (w ∷ x ∷ y ∷ z ∷ rest) =
    let more = decode_groups rest in
    base64_value w >>= λ a. base64_value x >>= λ b. padded_value y >>= λ c. padded_value z >>= λ d.
    more >>= λ out. some (group_bytes y z (a * 2 ^ 18 + b * 2 ^ 12 + c * 2 ^ 6 + d) out)
decode_groups _ = none

unfoldable pub base64_decode : Bytes → Option Bytes
unfolding decode_groups base64_value
base64_decode input = if not (length input % 4 == 0) then none else decode_groups input

encode_runs : base64_encode (codes "user:pa") ≡ codes "dXNlcjpwYQ=="
unfolding base64_encode
encode_runs = refl

decode_runs : base64_decode (codes "dXNlcjpwYQ==") ≡ some (codes "user:pa")
unfolding base64_decode
decode_runs = refl
