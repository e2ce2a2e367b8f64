-- ===== src/JsonParser/Numbers.antt =====
-- src/json_parser.cpp, `parse_nonnegative_int`, and `std::to_string` of a natural number.
use sioxx.Prelude.{
  ℕ, zero, suc, ◌+◌, ◌-◌, ◌*◌, ◌/◌, ◌%◌, ◌≤◌, ◌<◌, ◌≡◌, refl, ◌∙◌, Option, none, some, [], ◌∷◌,
  arith, ltb, ◌==◌, true, if◌then◌else◌, Bool-cases, inl, inr, All, not,
}
use sioxx.Prelude.Bytes.{Bytes, is_digit, IsDigit, codes}

-- `std::numeric_limits<int>::max()`
abbrev pub max_int : ℕ
max_int = 2147483647

-- The loop; the multiplication and the addition stay within `int` by the test before them.
scan : Bytes → ℕ → Option ℕ
scan [] result = some result
scan (c ∷ cs) result =
    let digit = c - b'0' in
    let next = scan cs (result * 10 + digit) in
    if not (is_digit c) then none else if ltb ((max_int - digit) / 10) result then none else next

-- The argument is value[begin, end).
pub parse_nonnegative_int : Bytes → Option ℕ
unfolding scan
parse_nonnegative_int [] = none
parse_nonnegative_int (c ∷ cs) = scan (c ∷ cs) 0

-- `std::to_string`: the fuel `n + 1` is more than the number of digits.
to_digits : ℕ → ℕ → Bytes → Bytes
to_digits zero n out = out
to_digits (suc fuel) n out =
    let rest = to_digits fuel (n / 10) ((b'0' + n % 10) ∷ out) in
    if n / 10 == 0 then (b'0' + n % 10) ∷ out else rest

unfoldable pub decimal : ℕ → Bytes
unfolding to_digits
decimal n = to_digits (suc n) n []

decimal_runs : decimal 2050 ≡ codes "2050"
unfolding decimal
decimal_runs = refl

parse_runs : parse_nonnegative_int (codes "2147483647") ≡ some 2147483647
unfolding parse_nonnegative_int
parse_runs = refl

parse_overflows : parse_nonnegative_int (codes "2147483648") ≡ none
unfolding parse_nonnegative_int
parse_overflows = refl

-- Reading the last digit of `n` behind the digits before it gives `n`.
scan_last : (n : ℕ) (out : Bytes) → n ≤ max_int → scan ((b'0' + n % 10) ∷ out) (n / 10) ≡ scan out n
unfolding scan
scan_last n out h = ground arith

scan_first : (n : ℕ) (out : Bytes) → n < 10 → scan ((b'0' + n) ∷ out) 0 ≡ scan out n
unfolding scan
scan_first n out h = ground arith

scan-to_digits :
    (fuel n : ℕ) (out : Bytes) → n < fuel → n ≤ max_int → scan (to_digits fuel n out) 0 ≡ scan out n
unfolding to_digits
scan-to_digits zero n out f h = absurd (omega arith)
scan-to_digits (suc fuel) n out f h = elim (Bool-cases (n / 10 == 0)) [
  | inl e ↦ rw e (ground (arith, scan_last n out h))
  | inr e ↦ rw e (
      scan-to_digits fuel (n / 10) ((b'0' + n % 10) ∷ out) (ground arith) (omega arith)
      ∙ scan_last n out h)
]

to_digits_cons :
    (fuel n : ℕ) (out : Bytes) (c : ℕ)
    → is_digit c ≡ true
    → (d : ℕ) × (ds : Bytes) × (to_digits fuel n (c ∷ out) ≡ d ∷ ds) × (is_digit d ≡ true)
unfolding to_digits
to_digits_cons zero n out c h = (c, out, refl, h)
to_digits_cons (suc fuel) n out c h = elim (Bool-cases (n / 10 == 0)) [
  | inl e ↦ ((b'0' + n % 10), c ∷ out, rw e refl, ground arith)
  | inr e ↦ rw e (to_digits_cons fuel (n / 10) (c ∷ out) (b'0' + n % 10) (ground arith))
]

-- The print of a number is a digit and more.
pub decimal_cons : (n : ℕ) → (d : ℕ) × (ds : Bytes) × (decimal n ≡ d ∷ ds) × (is_digit d ≡ true)
unfolding decimal
decimal_cons n = elim (Bool-cases (n / 10 == 0)) [
  | inl e ↦ (b'0' + n % 10, [], rw (e, to_digits) refl, ground arith)
  | inr e ↦ rw (e, to_digits) (to_digits_cons n (n / 10) [] (b'0' + n % 10) (ground arith))
]

to_digits-IsDigit :
    (fuel n : ℕ) (out : Bytes) → All IsDigit out → All IsDigit (to_digits fuel n out)
unfolding to_digits
to_digits-IsDigit zero n out h = h
to_digits-IsDigit (suc fuel) n out h = elim (Bool-cases (n / 10 == 0)) [
  | inl e ↦ rw e (ground arith, h)
  | inr e ↦ rw e (to_digits-IsDigit fuel (n / 10) ((b'0' + n % 10) ∷ out) (ground arith, h))
]

pub decimal-IsDigit : (n : ℕ) → All IsDigit (decimal n)
unfolding decimal
decimal-IsDigit n = to_digits-IsDigit (suc n) n [] tt

parse-cons : (s : Bytes) (d : ℕ) (ds : Bytes) → s ≡ d ∷ ds → parse_nonnegative_int s ≡ scan s 0
unfolding parse_nonnegative_int
parse-cons s d ds e = rw (e, parse_nonnegative_int) refl

-- Every number up to the largest `int` is read back from its decimal digits.
pub parse-decimal : (n : ℕ) → n ≤ max_int → parse_nonnegative_int (decimal n) ≡ some n
unfolding scan
parse-decimal n h =
    let (d, ds, e, _) = decimal_cons n in
    parse-cons (decimal n) d ds e ∙ unfold decimal in scan-to_digits (suc n) n [] (omega arith) h

-- No digit makes the number wrap around.
scan-le : (s : Bytes) (n r : ℕ) → n ≤ max_int → scan s n ≡ some r → r ≤ max_int
unfolding scan
scan-le [] n r h e = ground arith
scan-le (c ∷ cs) n r h e = ground (arith, scan-le cs (n * 10 + (c - b'0')) r)

-- Every number that is accepted is within `int`.
parse_nonnegative_int-le : (s : Bytes) (r : ℕ) → parse_nonnegative_int s ≡ some r → r ≤ max_int
unfolding parse_nonnegative_int
parse_nonnegative_int-le [] r e = cc
parse_nonnegative_int-le (c ∷ cs) r e = scan-le (c ∷ cs) 0 r (omega arith) e
