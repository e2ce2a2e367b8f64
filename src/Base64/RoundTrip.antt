-- ===== src/Base64/RoundTrip.antt =====
-- Decoding after encoding.
use sioxx.Prelude.{
  ℕ, zero, suc, ◌+◌, ◌*◌, ◌/◌, ◌%◌, ◌^◌, ◌<◌, ◌≤◌, ◌≡◌, refl, ap, inl, inr, Bool-cases,
  if◌then◌else◌, Bool, true, false, Option, none, some, [], ◌∷◌, ◌==◌, ◌&&◌, get_elem?, length, not,
  All, arith,
}
use sioxx.Prelude.Bytes.{Bytes}
use sioxx.Base64.{
  digit, table, char_of, base64_value, base64_encode, decode_groups, base64_decode, group,
}

-- Tries the test at each value from `v` on, `count` of them.
passes_from : (test : ℕ → Bool) (v count : ℕ) → Bool
passes_from test v zero = true
passes_from test v (suc count) = if test v then passes_from test (suc v) count else false

passed :
    (test : ℕ → Bool) (v count w : ℕ)
    → passes_from test v count ≡ true
    → v ≤ w
    → w < v + count
    → test w ≡ true
unfolding passes_from
passed test v zero w h lo hi = ground arith
passed test v (suc count) w h lo hi = elim (Bool-cases (v == w)) [
  | inl e ↦ ground arith
  | inr e ↦ passed test (suc v) count w (ground (arith, h)) (ground arith) (omega arith)
]

abbrev is_value : ℕ → Option ℕ → Bool
is_value v none = false
is_value v (some w) = w == v

abbrev reads_back : ℕ → Bool
reads_back v = is_value v (base64_value (digit v)) && not (digit v == b'=')

digit_table : passes_from reads_back 0 64 ≡ true
unfolding passes_from base64_value digit
digit_table = refl

digit_mod : (v : ℕ) → digit v ≡ digit (v % 64)
unfolding digit
digit_mod v =
    let same : v % 64 ≡ v % 64 % 64 = omega arith in ap (λ k. char_of (get_elem? table k)) same

base64_value-digit : (v : ℕ) → base64_value (digit v) ≡ some (v % 64)
base64_value-digit v =
    rw (digit_mod v)
      (ground (arith, passed reads_back 0 64 (v % 64) digit_table (omega arith) (omega arith)))

digit-ne-padding : (v : ℕ) → (digit v == b'=') ≡ false
digit-ne-padding v =
    rw (digit_mod v)
      (ground (arith, passed reads_back 0 64 (v % 64) digit_table (omega arith) (omega arith)))

abbrev pub IsByte : ℕ → Type 0
IsByte b = b < 256

-- The three bytes of a group, from the four values that it was cut into.
module _ (a b c : ℕ) (ha : a < 256) (hb : b < 256) (hc : c < 256) where
  abbrev joined : ℕ
  joined =
      let v = group a b c in
      ((v / 2 ^ 18) % 64) * 2 ^ 18
      + ((v / 2 ^ 12) % 64) * 2 ^ 12
      + ((v / 2 ^ 6) % 64) * 2 ^ 6
      + v % 64

  first_byte : (joined / 2 ^ 16) % 256 ≡ a
  first_byte = omega arith

  second_byte : (joined / 2 ^ 8) % 256 ≡ b
  second_byte = omega arith

  third_byte : joined % 256 ≡ c
  third_byte = omega arith

decode-encode_groups : (s : Bytes) → All IsByte s → decode_groups (base64_encode s) ≡ some s
unfolding decode_groups base64_encode
decode-encode_groups [] h = refl
decode-encode_groups (a ∷ []) (ha, _) =
    let v = group a 0 0 in
    let low : ((v / 2 ^ 18) % 64 * 2 ^ 18 + (v / 2 ^ 12) % 64 * 2 ^ 12 + 0 * 2 ^ 6 + 0)
          / 2 ^ 16
          % 256
        ≡ a =
      omega arith in
    rw (base64_value-digit (v / 2 ^ 18), base64_value-digit (v / 2 ^ 12))
      (ap (λ k. some (k ∷ [])) low)
decode-encode_groups (a ∷ b ∷ []) (ha, (hb, _)) =
    let v = group a b 0 in
    let w =
      (v / 2 ^ 18) % 64 * 2 ^ 18 + (v / 2 ^ 12) % 64 * 2 ^ 12 + (v / 2 ^ 6) % 64 * 2 ^ 6 + 0 in
    let high : w / 2 ^ 16 % 256 ≡ a = omega arith in
    let low : w / 2 ^ 8 % 256 ≡ b = omega arith in
    rw
      (
        base64_value-digit (v / 2 ^ 18),
        base64_value-digit (v / 2 ^ 12),
        base64_value-digit (v / 2 ^ 6),
        digit-ne-padding (v / 2 ^ 6),
      )
      (λ i. some (high i ∷ low i ∷ []))
decode-encode_groups (a ∷ b ∷ c ∷ rest) (ha, (hb, (hc, h))) =
    let v = group a b c in
    rw
      (
        base64_value-digit (v / 2 ^ 18),
        base64_value-digit (v / 2 ^ 12),
        base64_value-digit (v / 2 ^ 6),
        base64_value-digit v,
        digit-ne-padding (v / 2 ^ 6),
        digit-ne-padding v,
        decode-encode_groups rest h,
      )
      (λ i. some (
        first_byte a b c ha hb hc i
        ∷ second_byte a b c ha hb hc i
        ∷ third_byte a b c ha hb hc i
        ∷ rest))

encode_length : (s : Bytes) → (length (base64_encode s)) % 4 ≡ 0
unfolding base64_encode
encode_length [] = refl
encode_length (a ∷ []) = refl
encode_length (a ∷ b ∷ []) = refl
encode_length (a ∷ b ∷ c ∷ rest) = omega (arith, encode_length rest)

-- Every string of bytes is read back from its base64 text.
pub base64_decode-encode : (s : Bytes) → All IsByte s → base64_decode (base64_encode s) ≡ some s
unfolding base64_decode
base64_decode-encode s h = ground (arith, encode_length s, decode-encode_groups s h)
