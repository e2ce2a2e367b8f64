-- ===== src/HttpPollingTransport/Blocking/Reading.antt =====
-- src/http_polling_transport.cpp: the loop that reads a response comes to its end.
use sioxx.Prelude.{
  ℕ, zero, suc, ◌≡◌, ◌≤◌, ◌<◌, ◌-◌, refl, Bool, true, Option, some, [], ◌∷◌, ◌==◌, ◌&&◌, not,
  length, arith, inl, inr, Bool-cases, if_cases,
}
use sioxx.Prelude.Bytes.{Bytes}
use sioxx.Url.{drop}
use sioxx.HttpPollingTransport.Blocking.{
  ReadSome, consumes, fails, Response, responds, throws, after_read, read_http_response,
}

length-drop : (n : ℕ) (s : Bytes) → length (drop n s) ≡ length s - n
unfolding drop
length-drop zero s = ground arith
length-drop (suc n) [] = ground arith
length-drop (suc n) (x ∷ s) = omega (arith, length-drop n s)

module _ {P : Type 0} (is_done : P → Bool) (read_some : P → Bytes → ReadSome P) where
  -- The parser that a loop returns has the whole response.
  abbrev pub IsComplete : Response P → Type 0
  IsComplete (responds parser rest) = is_done parser ≡ true
  IsComplete (throws what) = Unit {0}

  abbrev pub Ends : Option (Response P) → Type 0
  Ends r = (e : Response P) × (r ≡ some e) × IsComplete e

  ends-done :
      (fuel : ℕ) (parser : P) (input : Bytes)
      → is_done parser ≡ true
      → read_http_response is_done read_some fuel parser input ≡ some (responds parser input)
  unfolding read_http_response
  ends-done zero parser input e = rw e refl
  ends-done (suc fuel) parser input e = rw (e, read_http_response) refl

  abbrev Loop : ℕ → P → Bytes → Type 0
  Loop fuel parser input = Ends (read_http_response is_done read_some fuel parser input)

  after_read-Ends :
      (fuel : ℕ) (x : ReadSome P) (input : Bytes)
      → ((n : ℕ) (p : P) → x ≡ consumes n p → n ≤ length input)
      → ((p : P) (s : Bytes) → length s < fuel → Loop fuel p s)
      → length input < suc fuel
      → Ends
          (after_read is_done x (λ n p. read_http_response is_done read_some fuel p (drop n input)))
  after_read-Ends fuel (fails ec) input takes ih b = (throws ec, refl, tt)
  after_read-Ends fuel (consumes n p) input takes ih b =
      if_cases Ends (n == 0 && not (is_done p)) _ _ (λ h. (throws _, refl, tt))
        (λ h. elim (Bool-cases (is_done p)) [
          | inl d ↦ (responds p (drop n input), ends-done fuel p (drop n input) d, d)
          | inr d ↦
              let taken : 1 ≤ n = ground arith in
              let few : n ≤ length input = takes n p refl in
              ih p (drop n input) (omega (arith, length-drop n input))
        ])

  -- Where `read_some` takes no more than there is, the loop with one round more than there are bytes
  -- comes to its end, with the whole response or an exception.
  pub read_http_response-total :
      (fuel : ℕ) (parser : P) (input : Bytes)
      → ((p : P) (s : Bytes) (n : ℕ) (p' : P) → read_some p s ≡ consumes n p' → n ≤ length s)
      → length input < fuel
      → Ends (read_http_response is_done read_some fuel parser input)
  unfolding read_http_response
  read_http_response-total zero parser input takes b = ground arith
  read_http_response-total (suc fuel) parser input takes b = elim (Bool-cases (is_done parser)) [
    | inl d ↦ (responds parser input, ends-done (suc fuel) parser input d, d)
    | inr d ↦
        rw (d, read_http_response)
          (after_read-Ends fuel (read_some parser input) input (takes parser input)
            (λ p s h. read_http_response-total fuel p s takes h) b)
  ]
