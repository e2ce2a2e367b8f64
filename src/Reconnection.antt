-- ===== src/Reconnection.antt =====
-- src/reconnection.cpp, the delay of an attempt to reconnect, and what client.cpp reports of it. The
-- floating-point arithmetic of the platform is a parameter.
pub mod Float
pub mod Bounds
pub mod Backoff
use sioxx.Prelude.{ℕ, ◌-◌, Bool, true, false, if◌then◌else◌, leb, ltb}
use sioxx.Prelude.Int.{ℤ, pos, negsuc}
use sioxx.Reconnection.Float.{Arithmetic}

-- `std::max<int64_t>(0, count)`
abbrev pub at_least_zero : ℤ → ℕ
at_least_zero (pos n) = n
at_least_zero (negsuc n) = 0

-- The doublings of an attempt, which is counted from one.
unfoldable pub exponent_of : ℕ → ℕ
exponent_of attempt = if leb attempt 1 then 0 else if ltb 62 (attempt - 1) then 62 else attempt - 1

module _ (a : Arithmetic) where
  open a use {Double, LongDouble}

  -- `std::min` and `std::clamp`, which test in this order.
  abbrev pub min_of : LongDouble → LongDouble → LongDouble
  min_of x y = if a.less y x then y else x

  unfoldable pub clamp : Double → Double
  clamp v =
      if a.less_double v a.zero_double
      then a.zero_double
      else if a.less_double a.one_double v
      then a.one_double
      else v

  -- `1.0L - factor + 2.0L * factor * sample`
  abbrev pub jitter : Double → Double → LongDouble
  jitter factor sample =
      let f = a.widen factor in
      a.add (a.sub (a.of_int 1) f) (a.mul (a.mul (a.of_int 2) f) (a.widen sample))

  unfoldable pub delayed : (initial maximum exponent : ℕ) → (factor sample : Double) → LongDouble
  delayed initial maximum exponent factor sample =
      let exponential =
        min_of (a.of_int maximum) (a.mul (a.of_int initial) (a.ldexp_one exponent)) in
      min_of (a.of_int maximum) (a.mul exponential (jitter factor sample))

  unfoldable pub reconnect_delay_for_attempt :
      (initial_delay max_delay : ℤ)
      → (jitter_factor : Double) → (attempt : ℕ) → (jitter_sample : Double) → ℤ
  reconnect_delay_for_attempt initial_delay max_delay jitter_factor attempt jitter_sample =
      a.llround (
        delayed (at_least_zero initial_delay) (at_least_zero max_delay) (exponent_of attempt)
          (clamp jitter_factor) (clamp jitter_sample))
