-- ===== src/Tests/Requests.antt =====
-- The theorems about the requests of the polling transport at concrete inputs.
use native.Mathlib.Omega.{arith}
use sioxx.Prelude.{ℕ, zero, suc, ◌≡◌, ◌≤◌, ◌==◌, refl, Bool, true, false, none, [], ◌∷◌, length}
use sioxx.Prelude.Bytes.{Bytes, codes}
use sioxx.HttpPollingTransport.State.{HttpPollingTransport, make_transport}
use sioxx.HttpPollingTransport.Operation.{start, make_operation, run}
use sioxx.HttpPollingTransport.Blocking.{
  ReadSome, consumes, fails, read_http_response, Calls, request_reply,
}
use sioxx.HttpPollingTransport.Blocking.Reading.{Ends, read_http_response-total}
use sioxx.HttpPollingTransport.Blocking.Stages.{answers, answer_of}
use sioxx.HttpPollingTransport.Blocking.Equivalence.{completions, request-run}

-- A parser that counts the bytes it waits for, and takes one at a time.
abbrev is_done : ℕ → Bool
is_done n = n == 0

abbrev read_some : ℕ → Bytes → ReadSome ℕ
read_some zero s = consumes 0 zero
read_some (suc n) [] = fails (codes "end of stream")
read_some (suc n) (c ∷ s) = consumes 1 n

read_some-le : (p : ℕ) (s : Bytes) (n p' : ℕ) → read_some p s ≡ consumes n p' → n ≤ length s
read_some-le zero s n p' e = ground arith
read_some-le (suc p) [] n p' e = cc
read_some-le (suc p) (c ∷ s) n p' e = ground arith

read_http_response-total_example :
    Ends is_done read_some (read_http_response is_done read_some 4 2 (codes "abc"))
read_http_response-total_example =
    read_http_response-total is_done read_some 4 2 (codes "abc") read_some-le (omega arith)

abbrev transport : HttpPollingTransport
transport = make_transport false

-- A request that is answered.
abbrev answered : Calls
answered = record {
  resolving = none;
  sni = true;
  connecting = none;
  tunnel_writing = none;
  tunnel_reading = none;
  tunnel_status = 0;
  handshaking = none;
  writing = none;
  reading = none;
  status = 200;
  body = codes "40";
  shutting = none;
}

request-run_example :
    answers
      (run
        (codes "Operation aborted")
        transport
        (completions (codes "unknown name") (codes "Operation aborted") transport answered)
        (start make_operation)).1
    ≡ answer_of (request_reply transport answered) ∷ []
request-run_example =
    request-run (codes "unknown name") (codes "Operation aborted") transport answered refl
