-- ===== src/Reconnection/Bounds.antt =====
-- src/reconnection.cpp: the delay stays within its bounds.
use sioxx.Prelude.{ℕ, ◌<◌, ◌≡◌, false, if_intro, if_cases, arith}
use sioxx.Prelude.Int.{ℤ}
use sioxx.Reconnection.{
  at_least_zero, exponent_of, min_of, clamp, jitter, delayed, reconnect_delay_for_attempt,
}
use sioxx.Reconnection.Float.{Arithmetic, exact_end, IsPositive, Lies, IsIeee}

module _ (a : Arithmetic) (laws : IsIeee a) where
  open a use {Double, LongDouble}

  -- Neither below 0 nor above 1: a number between, or a NaN.
  abbrev IsClamped : Double → Type 0
  IsClamped d = (a.less_double d a.zero_double ≡ false) × (a.less_double a.one_double d ≡ false)

  clamp-IsClamped : (d : Double) → IsClamped (clamp a d)
  unfolding clamp
  clamp-IsClamped d =
      if_cases IsClamped (a.less_double d a.zero_double) a.zero_double _
        (λ e. (laws.zero_zero, laws.one_zero))
        (λ e.
          if_cases IsClamped (a.less_double a.one_double d) a.one_double d
            (λ _. (laws.one_zero, laws.one_one)) (λ e'. (e, e')))

  jitter-IsPositive :
      (factor sample : Double)
      → IsClamped factor
      → IsClamped sample
      → IsPositive a (jitter a factor sample)
  jitter-IsPositive factor sample (f, f') (s, s') =
      laws.add_positive _ _ (laws.one_sub_positive factor f') (
        laws.mul_positive _ _
          (laws.mul_positive _ _ (laws.of_int_positive 2) (laws.widen_positive factor f))
          (laws.widen_positive sample s))

  min_of-IsPositive :
      (x y : LongDouble) → IsPositive a x → IsPositive a y → IsPositive a (min_of a x y)
  min_of-IsPositive x y p q = if_intro (IsPositive a) (a.less y x) y x q p

  -- The lesser of an integer and a number is rounded to no more than the integer.
  llround-min_of :
      (m : ℕ) (x : LongDouble)
      → m < exact_end
      → IsPositive a x
      → Lies (a.llround (min_of a (a.of_int m) x)) m
  llround-min_of m x b p =
      if_cases (λ y. Lies (a.llround y) m) (a.less x (a.of_int m)) x (a.of_int m)
        (λ e. laws.llround_below x m b p e) (λ e. rw (laws.llround_int m b) (omega arith))

  -- Where comparisons are those of IEEE 754 and the maximum of the options is below 2^53 milliseconds,
  -- which every `long double` holds exactly: whatever the other options are, a jitter factor that is a
  -- NaN included, and whatever the attempt, the delay is not negative and at most the maximum, or zero
  -- where that is negative.
  pub reconnect_delay-Lies :
      (initial_delay max_delay : ℤ) (factor : Double) (attempt : ℕ) (sample : Double)
      → at_least_zero max_delay < exact_end
      → Lies
          (reconnect_delay_for_attempt a initial_delay max_delay factor attempt sample)
          (at_least_zero max_delay)
  unfolding reconnect_delay_for_attempt delayed
  reconnect_delay-Lies initial_delay max_delay factor attempt sample b =
      let m = at_least_zero max_delay in
      llround-min_of m _ b (
        laws.mul_positive _ _
          (min_of-IsPositive (a.of_int m) _ (laws.of_int_positive m) (
            laws.mul_positive _ _ (laws.of_int_positive (at_least_zero initial_delay))
              (laws.ldexp_positive (exponent_of attempt))))
          (jitter-IsPositive (clamp a factor) (clamp a sample) (clamp-IsClamped factor)
            (clamp-IsClamped sample)))
