-- ===== src/EngineIoUrl/Encoding.antt =====
-- src/engineio_url.cpp: percent-encoding, the query and the path.
use sioxx.Prelude.{
  ℕ, ◌+◌, ◌-◌, ◌*◌, ◌/◌, ◌%◌, ◌<◌, ◌≡◌, ◌≢◌, refl, ap, inl, inr, true, [], ◌∷◌, ◌++◌, if◌then◌else◌,
  ltb, ◌==◌, All, arith, Bool-cases, if_intro, if_cases,
}
use sioxx.Prelude.Bytes.{Bytes}
use sioxx.EngineIoUrl.{
  is_unreserved, hex_digit, encode_query_component, normalize_path, or_default_path, with_front,
  with_back, starts_with_slash, ends_with_slash,
}

abbrev pub IsByte : ℕ → Type 0
IsByte b = b < 256

-- The value of an upper-case hexadecimal digit.
hex_value : ℕ → ℕ
hex_value c = if ltb c b'A' then c - b'0' else c - b'A' + 10

-- Percent-decoding, as a server does it.
pub decode_query_component : Bytes → Bytes
unfolding hex_value
decode_query_component [] = []
decode_query_component (c ∷ []) = c ∷ []
decode_query_component (c ∷ d ∷ []) = c ∷ d ∷ []
decode_query_component (c ∷ d ∷ e ∷ s) =
    let escaped = (hex_value d * 16 + hex_value e) ∷ decode_query_component s in
    let plain = c ∷ decode_query_component (d ∷ e ∷ s) in if c == b'%' then escaped else plain

hex_value-hex_digit : (n : ℕ) → n < 16 → hex_value (hex_digit n) ≡ n
unfolding hex_value hex_digit
hex_value-hex_digit n h = ground arith

decode_plain :
    (c : ℕ) (s : Bytes) → c ≢ b'%' → decode_query_component (c ∷ s) ≡ c ∷ decode_query_component s
unfolding decode_query_component
decode_plain c [] h = refl
decode_plain c (d ∷ []) h = refl
decode_plain c (d ∷ e ∷ s) h = ground arith

decode_escaped :
    (c : ℕ) (s : Bytes)
    → c < 256
    → decode_query_component (b'%' ∷ hex_digit (c / 16) ∷ hex_digit (c % 16) ∷ s)
      ≡ c ∷ decode_query_component s
unfolding decode_query_component hex_digit
decode_escaped c s h =
    rw (hex_value-hex_digit (c / 16) (omega arith), hex_value-hex_digit (c % 16) (omega arith))
      (ap (λ k. k ∷ decode_query_component s) whole)
  where
    whole : c / 16 * 16 + c % 16 ≡ c
    whole = omega arith

unreserved-ne-percent : (c : ℕ) → is_unreserved c ≡ true → c ≢ b'%'
unfolding is_unreserved
unreserved-ne-percent c h = ground arith

-- Percent-decoding gives back every byte string that was encoded.
pub decode-encode_query_component :
    (s : Bytes) → All IsByte s → decode_query_component (encode_query_component s) ≡ s
unfolding encode_query_component
decode-encode_query_component [] h = unfold decode_query_component in refl
decode-encode_query_component (c ∷ s) (b, h) = elim (Bool-cases (is_unreserved c)) [
  | inl e ↦
      rw
        (
          e,
          decode_plain c (encode_query_component s) (unreserved-ne-percent c e),
          decode-encode_query_component s h,
        )
        refl
  | inr e ↦
      rw (e, decode_escaped c (encode_query_component s) b, decode-encode_query_component s h) refl
]

-- A character that separates nothing in a URL.
abbrev pub IsInert : ℕ → Type 0
IsInert c =
    (c ≢ b'&')
    × (c ≢ b'=')
    × (c ≢ b'+')
    × (c ≢ b'#')
    × (c ≢ b'?')
    × (c ≢ b'/')
    × (32 < c)
    × (c < 127)

unreserved-IsInert : (c : ℕ) → is_unreserved c ≡ true → IsInert c
unfolding is_unreserved
unreserved-IsInert c h = (
  ground arith,
  ground arith,
  ground arith,
  ground arith,
  ground arith,
  ground arith,
  ground arith,
  ground arith,
)

hex_digit-IsInert : (n : ℕ) → n < 16 → IsInert (hex_digit n)
unfolding hex_digit is_unreserved
hex_digit-IsInert n h = unreserved-IsInert (hex_digit n) (ground arith)

-- Nothing in an encoded component separates: none of its characters is `&`, `=`, `+`, `#`, `?` or `/`,
-- a space, a control character or one that is not ASCII.
pub encode_query_component-IsInert :
    (s : Bytes) → All IsByte s → All IsInert (encode_query_component s)
unfolding encode_query_component
encode_query_component-IsInert [] h = tt
encode_query_component-IsInert (c ∷ s) (b, h) = elim (Bool-cases (is_unreserved c)) [
  | inl e ↦ rw e (unreserved-IsInert c e, encode_query_component-IsInert s h)
  | inr e ↦ rw e (
    (
      ground arith,
      ground arith,
      ground arith,
      ground arith,
      ground arith,
      ground arith,
      ground arith,
      ground arith,
    ),
    (
      hex_digit-IsInert (c / 16) (omega arith),
      (hex_digit-IsInert (c % 16) (omega arith), encode_query_component-IsInert s h),
    ),
  )
]

with_back-ends : (p : Bytes) → ends_with_slash (with_back p) ≡ true
with_back-ends p =
    if_cases (λ q. ends_with_slash q ≡ true) (ends_with_slash p) p (p ++ b'/' ∷ []) (λ e. e)
      (λ _. last_slash p)
  where
    last_slash : (q : Bytes) → ends_with_slash (q ++ b'/' ∷ []) ≡ true
    last_slash [] = refl
    last_slash (c ∷ []) = refl
    last_slash (c ∷ d ∷ q) = last_slash (d ∷ q)

with_back-starts : (p : Bytes) → starts_with_slash p ≡ true → starts_with_slash (with_back p) ≡ true
with_back-starts [] h = cc
with_back-starts (c ∷ s) h =
    if_intro (λ q. starts_with_slash q ≡ true) (ends_with_slash (c ∷ s)) (c ∷ s)
      ((c ∷ s) ++ b'/' ∷ []) h h

with_front-starts : (p : Bytes) → starts_with_slash (with_front p) ≡ true
with_front-starts p =
    if_cases (λ q. starts_with_slash q ≡ true) (starts_with_slash p) p (b'/' ∷ p) (λ e. e)
      (λ _. refl)

-- A normalised path opens and ends with a slash, and to normalise it again changes nothing.
normalize_path_slashes :
    (path : Bytes)
    → (starts_with_slash (normalize_path path) ≡ true)
      × (ends_with_slash (normalize_path path) ≡ true)
      × (normalize_path (normalize_path path) ≡ normalize_path path)
unfolding normalize_path
normalize_path_slashes path =
    let front = with_front (or_default_path path) in
    let starts = with_back-starts front (with_front-starts (or_default_path path)) in
    let ends = with_back-ends front in (starts, ends, again (with_back front) starts ends)
  where
    again :
        (p : Bytes)
        → starts_with_slash p ≡ true
        → ends_with_slash p ≡ true
        → with_back (with_front (or_default_path p)) ≡ p
    again [] s e = cc
    again (c ∷ q) s e = rw (s, e) refl
