-- ===== src/Reconnection/Float.antt =====
-- The floating-point numbers that src/reconnection.cpp computes with, and what it relies on.
use sioxx.Prelude.{ℕ, ◌*◌, ◌^◌, ◌≤◌, ◌<◌, ◌≡◌, Bool, true, false, ltb}
use sioxx.Prelude.Int.{ℤ, pos, negsuc}

-- `double` and `long double`. `of_int` is the conversion of an integer that is not negative, and
-- `ldexp_one` is `std::ldexp(1.0L, e)`.
pub record Arithmetic : Type 1 where
  pub Double : Type 0
  pub LongDouble : Type 0
  pub less_double : Double → Double → Bool
  pub zero_double : Double
  pub one_double : Double
  pub widen : Double → LongDouble
  pub less : LongDouble → LongDouble → Bool
  pub of_int : ℕ → LongDouble
  pub ldexp_one : ℕ → LongDouble
  pub add : LongDouble → LongDouble → LongDouble
  pub sub : LongDouble → LongDouble → LongDouble
  pub mul : LongDouble → LongDouble → LongDouble
  pub llround : LongDouble → ℤ

-- Below this number `long double` holds every integer, also where it is a `double`.
abbrev pub exact_end : ℕ
exact_end = 2 ^ 53

abbrev pub IsPositive : (a : Arithmetic) → a.LongDouble → Type 0
IsPositive a x = a.less x (a.of_int 0) ≡ false

-- Between 0 and `m`.
abbrev pub Lies : ℤ → ℕ → Type 0
Lies (pos n) m = n ≤ m
Lies (negsuc n) m = ⊥

-- The comparison is that of IEEE 754, which is false at a NaN; so a number that is not below zero is one
-- from zero on, or a NaN. `llround` keeps to the bounds of its argument that are integers.
pub record IsIeee (a : Arithmetic) : Type 0 where
  pub zero_zero : a.less_double a.zero_double a.zero_double ≡ false
  pub one_one : a.less_double a.one_double a.one_double ≡ false
  pub one_zero : a.less_double a.one_double a.zero_double ≡ false
  pub widen_positive :
      (d : a.Double) → a.less_double d a.zero_double ≡ false → IsPositive a (a.widen d)
  pub of_int_positive : (n : ℕ) → IsPositive a (a.of_int n)
  pub ldexp_positive : (e : ℕ) → IsPositive a (a.ldexp_one e)
  pub add_positive :
      (x y : a.LongDouble) → IsPositive a x → IsPositive a y → IsPositive a (a.add x y)
  pub mul_positive :
      (x y : a.LongDouble) → IsPositive a x → IsPositive a y → IsPositive a (a.mul x y)
  pub one_sub_positive :
      (d : a.Double)
      → a.less_double a.one_double d ≡ false
      → IsPositive a (a.sub (a.of_int 1) (a.widen d))
  pub llround_int : (n : ℕ) → n < exact_end → a.llround (a.of_int n) ≡ pos n
  pub llround_below :
      (x : a.LongDouble) (n : ℕ)
      → n < exact_end
      → IsPositive a x
      → a.less x (a.of_int n) ≡ true
      → Lies (a.llround x) n

-- A number from 0 on and below 1, as `std::uniform_real_distribution` gives it.
abbrev pub IsSample : (a : Arithmetic) → a.Double → Type 0
IsSample a d =
    (a.less_double d a.zero_double ≡ false)
    × (a.less_double a.one_double d ≡ false)
    × (a.less_double d a.one_double ≡ true)

-- A power of two scales an integer without rounding; and 0 and 1 are what they are.
pub record IsExact (a : Arithmetic) : Type 0 where
  pub scaled_less :
      (i e n : ℕ)
      → i < exact_end
      → e ≤ 62
      → n < exact_end
      → a.less (a.mul (a.of_int i) (a.ldexp_one e)) (a.of_int n) ≡ ltb (i * 2 ^ e) n
  pub scaled :
      (i e : ℕ) → i * 2 ^ e < exact_end → a.mul (a.of_int i) (a.ldexp_one e) ≡ a.of_int (i * 2 ^ e)
  pub less_int :
      (n m : ℕ) → n < exact_end → m < exact_end → a.less (a.of_int n) (a.of_int m) ≡ ltb n m
  pub no_jitter :
      (n : ℕ) (sample : a.Double)
      → IsSample a sample
      → a.mul (a.of_int n) (
          a.add
            (a.sub (a.of_int 1) (a.widen a.zero_double))
            (a.mul (a.mul (a.of_int 2) (a.widen a.zero_double)) (a.widen sample)))
        ≡ a.of_int n
