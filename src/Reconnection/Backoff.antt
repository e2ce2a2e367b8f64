-- ===== src/Reconnection/Backoff.antt =====
-- src/reconnection.cpp: the delay without jitter is the exponential back-off.
use sioxx.Prelude.{
  ℕ, zero, suc, ◌+◌, ◌-◌, ◌*◌, ◌^◌, ◌≤◌, ◌<◌, ◌≡◌, refl, ap, ◌∙◌, Bool, true, false, inl, inr,
  Bool-cases, if◌then◌else◌, ltb, leb, ltb→lt, arith,
}
use sioxx.Prelude.Int.{ℤ, pos}
use native.Mathlib.Nat.{lt_trans}
use native.Mathlib.Omega.{pow_step}
use sioxx.Reconnection.{
  at_least_zero, exponent_of, min_of, clamp, jitter, delayed, reconnect_delay_for_attempt,
}
use sioxx.Reconnection.Float.{Arithmetic, exact_end, IsIeee, IsExact, IsSample}

-- A delay that is doubled `n` times.
abbrev pub doubled : (delay n : ℕ) → ℕ
doubled delay zero = delay
doubled delay (suc n) = 2 * doubled delay n

-- The initial delay, doubled with each attempt behind the first, and at most the maximum.
abbrev pub backoff : (initial maximum attempt : ℕ) → ℕ
backoff initial maximum attempt =
    let delay = doubled initial (attempt - 1) in if ltb delay maximum then delay else maximum

-- As the code computes it, with no more than 62 doublings.
abbrev capped : (initial maximum attempt : ℕ) → ℕ
capped initial maximum attempt =
    let delay = initial * 2 ^ exponent_of attempt in if ltb delay maximum then delay else maximum

doubled-pow : (d n : ℕ) → doubled d n ≡ d * 2 ^ n
doubled-pow d zero = omega arith
doubled-pow d (suc n) = rw (doubled-pow d n, pow_step 2 n) (ground arith)

doubled-le : (d k n : ℕ) → d * 2 ^ k ≤ doubled d (k + n)
doubled-le d k zero =
    let whole : k + 0 ≡ k = omega arith in
    let same : doubled d (k + 0) ≡ doubled d k = ap (doubled d) whole in
    omega (arith, same, doubled-pow d k)
doubled-le d k (suc n) =
    let whole : k + suc n ≡ suc (k + n) = omega arith in
    let same : doubled d (k + suc n) ≡ 2 * doubled d (k + n) = ap (doubled d) whole in
    omega (arith, same, doubled-le d k n)

doubled_nothing : (n : ℕ) → doubled 0 n ≡ 0
doubled_nothing zero = refl
doubled_nothing (suc n) = omega (arith, doubled_nothing n)

least : ℕ → ℕ → ℕ
least delay maximum = if ltb delay maximum then delay else maximum

-- More doublings than the code computes are beyond the maximum, unless the delay is zero.
least-doubled : (i m n : ℕ) → 62 ≤ n → m < exact_end → least (i * 2 ^ 62) m ≡ least (doubled i n) m
unfolding least
least-doubled zero m n h b = rw (doubled_nothing n) refl
least-doubled (suc i) m n h b =
    let far : suc i * 2 ^ 62 ≤ doubled (suc i) (62 + (n - 62)) = doubled-le (suc i) 62 (n - 62) in
    let whole : 62 + (n - 62) ≡ n = omega arith in
    let far' : suc i * 2 ^ 62 ≤ doubled (suc i) n = rw whole at far in ground arith

attempt-first : (attempt : ℕ) → leb attempt 1 ≡ true → attempt - 1 ≡ 0
attempt-first attempt e = ground arith

capped-backoff : (i m attempt : ℕ) → m < exact_end → capped i m attempt ≡ backoff i m attempt
unfolding exponent_of least
capped-backoff i m attempt b = elim (Bool-cases (leb attempt 1)) [
  | inl e ↦ rw (e, attempt-first attempt e) (ground arith)
  | inr e ↦ elim (Bool-cases (ltb 62 (attempt - 1))) [
    | inl f ↦ rw (e, f) (least-doubled i m (attempt - 1) (ground arith) b)
    | inr f ↦ rw (e, f, ← doubled-pow i (attempt - 1)) refl
  ]
]

exponent-le : (attempt : ℕ) → exponent_of attempt ≤ 62
unfolding exponent_of
exponent-le attempt = ground arith

module _ (a : Arithmetic) (laws : IsIeee a) (exact : IsExact a) where
  open a use {Double, LongDouble}

  clamp_zero : clamp a a.zero_double ≡ a.zero_double
  unfolding clamp
  clamp_zero = rw (laws.zero_zero, laws.one_zero) refl

  clamp-IsSample : (d : Double) → IsSample a d → clamp a d ≡ d
  unfolding clamp
  clamp-IsSample d (p, q, r) = rw (p, q) refl

  llround_if :
      (b : Bool) (k m : ℕ)
      → k < exact_end
      → m < exact_end
      → a.llround (if b then a.of_int k else a.of_int m) ≡ pos (if b then k else m)
  llround_if true k m bk bm = laws.llround_int k bk
  llround_if false k m bk bm = laws.llround_int m bm

  -- A number that is an integer already, with no jitter.
  delayed-int :
      (m k : ℕ) (sample : Double)
      → m < exact_end
      → k < exact_end
      → IsSample a sample
      → a.llround (min_of a (a.of_int m) (a.mul (a.of_int k) (jitter a a.zero_double sample)))
        ≡ pos (if ltb k m then k else m)
  delayed-int m k sample bm bk s =
      ap (λ x. a.llround (min_of a (a.of_int m) x)) (exact.no_jitter k sample s)
      ∙ ap (λ b. a.llround (if b then a.of_int k else a.of_int m)) (exact.less_int k m bk bm)
      ∙ llround_if (ltb k m) k m bk bm

  exponential-int :
      (i m e : ℕ)
      → i < exact_end
      → m < exact_end
      → e ≤ 62
      → min_of a (a.of_int m) (a.mul (a.of_int i) (a.ldexp_one e))
        ≡ a.of_int (if ltb (i * 2 ^ e) m then i * 2 ^ e else m)
  exponential-int i m e bi bm be =
      let x = a.mul (a.of_int i) (a.ldexp_one e) in
      ap (λ b. if b then x else a.of_int m) (exact.scaled_less i e m bi be bm)
      ∙ elim (Bool-cases (ltb (i * 2 ^ e) m)) [
        | inl less ↦ rw less (exact.scaled i e (lt_trans (ltb→lt _ _ less) bm))
        | inr more ↦ rw more refl
      ]

  -- Where the platform computes exactly below 2^53, and the initial delay and the maximum are below
  -- that, the delay with a jitter factor of zero is the initial one, doubled with each attempt behind the
  -- first, and at most the maximum.
  pub reconnect_delay-backoff :
      (initial_delay max_delay : ℤ) (attempt : ℕ) (sample : Double)
      → at_least_zero initial_delay < exact_end
      → at_least_zero max_delay < exact_end
      → IsSample a sample
      → reconnect_delay_for_attempt a initial_delay max_delay a.zero_double attempt sample
        ≡ pos (backoff (at_least_zero initial_delay) (at_least_zero max_delay) attempt)
  unfolding reconnect_delay_for_attempt delayed
  reconnect_delay-backoff initial_delay max_delay attempt sample bi bm s =
      let i = at_least_zero initial_delay in
      let m = at_least_zero max_delay in
      let e = exponent_of attempt in
      let k = capped i m attempt in
      let bk : k < exact_end = ground arith in
      ap (λ f. a.llround (delayed a i m e f (clamp a sample))) clamp_zero
      ∙ ap (λ d. a.llround (delayed a i m e a.zero_double d)) (clamp-IsSample sample s)
      ∙ ap (λ x. a.llround (min_of a (a.of_int m) (a.mul x (jitter a a.zero_double sample))))
          (exponential-int i m e bi bm (exponent-le attempt))
      ∙ delayed-int m k sample bm bk s
      ∙ ap pos (ground arith)
      ∙ ap pos (capped-backoff i m attempt bm)
