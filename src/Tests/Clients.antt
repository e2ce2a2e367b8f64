-- ===== src/Tests/Clients.antt =====
-- The theorems about a client's options, its closing and its delays at concrete inputs.
use native.Mathlib.Omega.{arith}
use sioxx.Prelude.{
  ℕ, ◌+◌, ◌-◌, ◌*◌, ◌^◌, ◌≡◌, refl, Bool, true, false, Option, none, some, List, [], ◌∷◌, ◌++◌, ltb,
  if◌then◌else◌,
}
use sioxx.Prelude.Bytes.{Bytes, codes}
use sioxx.Prelude.Int.{pos}
use sioxx.Message.{null}
use sioxx.Socket.State.{make_socket}
use sioxx.Url.{UrlParts}
use sioxx.HttpPollingTransport.State.{HttpPollingTransport, make_transport}
use sioxx.Client.State.{Client, make_client, absent, left}
use sioxx.Client.Shutdown.{
  Throws, closes, sync_closes, on_engine, waits_for_all, thrown_by, sync_close,
}
use sioxx.Client.Shutdown.Completeness.{
  IsShut, later_calls, joining_of, errors_of, first_of, sync_close-IsShut,
}
use sioxx.Client.Construction.{TransportOptions}
use sioxx.Reconnection.{reconnect_delay_for_attempt}
use sioxx.Reconnection.Float.{Arithmetic, IsIeee, IsExact, Lies}
use sioxx.Reconnection.Bounds.{reconnect_delay-Lies}
use sioxx.Reconnection.Backoff.{backoff, reconnect_delay-backoff}

-- Whole numbers for floating-point ones, as far as their results are whole.
abbrev whole : Arithmetic
whole = record {
  Double = ℕ;
  LongDouble = ℕ;
  less_double = ltb;
  zero_double = 0;
  one_double = 1;
  widen = λ d. d;
  less = ltb;
  of_int = λ n. n;
  ldexp_one = λ e. 2 ^ e;
  add = λ x y. x + y;
  sub = λ x y. x - y;
  mul = λ x y. x * y;
  llround = pos;
}

whole-IsIeee : IsIeee whole
whole-IsIeee = record {
  zero_zero = refl;
  one_one = refl;
  one_zero = refl;
  widen_positive = λ d e. e;
  of_int_positive = λ n. ground arith;
  ldexp_positive = λ e. ground arith;
  add_positive = λ x y p q. ground arith;
  mul_positive = λ x y p q. ground arith;
  one_sub_positive = λ d e. ground arith;
  llround_int = λ n b. refl;
  llround_below = λ x n b p e. ground arith;
}

whole-IsExact : IsExact whole
whole-IsExact = record {
  scaled_less = λ i e n bi be bn. refl;
  scaled = λ i e b. refl;
  less_int = λ n m bn bm. refl;
  no_jitter = λ n sample s. ground arith;
}

reconnect_delay-Lies_example :
    Lies (reconnect_delay_for_attempt whole (pos 1000) (pos 5000) 1 3 0) 5000
reconnect_delay-Lies_example =
    reconnect_delay-Lies whole whole-IsIeee (pos 1000) (pos 5000) 1 3 0 (omega arith)

reconnect_delay-backoff_example :
    reconnect_delay_for_attempt whole (pos 1000) (pos 5000) 0 3 0 ≡ pos (backoff 1000 5000 3)
reconnect_delay-backoff_example =
    reconnect_delay-backoff whole whole-IsIeee whole-IsExact (pos 1000) (pos 5000) 3 0 (omega arith)
      (omega arith) (refl, refl, refl)

-- One socket whose packet cannot be sent, a thread that is left behind, and an engine that throws.
abbrev failing : Throws Bytes
failing = record {
  sending = λ nsp. some (codes "send");
  closing = some (codes "close");
  sync_closing = none;
}

abbrev client : Client
client =
    record (make_client (record {
      force_http_polling = false;
      engineio_path = [];
      query = [];
      reconnect_attempts = 3;
    })) {
      engineio = some 0;
      next_engineio = 1;
      sockets =
          (
            codes "/",
            record (make_socket (codes "/") null) { connected = true; timed_acks = (0, 4) ∷ [] },
          )
          ∷ [];
      reconnect_thread = left;
    }

sync_close-IsShut_example :
    let r = sync_close false failing client in
    let joined = joining_of false client.reconnect_thread in
    (r.0.intentional_close ≡ true)
    × (r.0.reconnect_thread ≡ absent)
    × IsShut failing r.0.sockets
    × (later_calls r.1
        ≡ on_engine client.engineio closes
          ++ (joined ++ (on_engine client.engineio sync_closes ++ waits_for_all client.sockets)))
    × (r.2
        ≡ first_of (
            (errors_of failing client.sockets ++ thrown_by client.engineio failing.closing ∷ [])
            ++ thrown_by client.engineio failing.sync_closing ∷ []))
sync_close-IsShut_example = sync_close-IsShut false failing client

abbrev options : TransportOptions
options = record {
  verify_tls = true;
  extra_headers = (codes "X-Token", codes "7") ∷ [];
  proxy =
      some (record { uri = codes "http://proxy:8080"; username = codes "u"; password = codes "p" });
}

abbrev transport : HttpPollingTransport
transport = record (make_transport true) {
  verify_tls = true;
  extra_headers = (codes "X-Token", codes "7") ∷ [];
  proxy = some (record {
    endpoint = record {
      scheme = codes "http";
      host = codes "proxy";
      port = codes "8080";
      target = codes "/";
      tls = false;
    };
    authorization = codes "Basic dTpw";
  });
}

abbrev server : UrlParts
server = record {
  scheme = codes "http";
  host = codes "server";
  port = codes "80";
  target = codes "/";
  tls = false;
}
