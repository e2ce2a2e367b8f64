-- ===== src/HttpPollingTransport/Blocking/Stages.antt =====
-- src/http_polling_transport.cpp: what an operation on the caller's context answers from each of its
-- stages on.
use sioxx.Prelude.{
  ℕ, ◌/◌, ◌≡◌, refl, ap, Bool, true, false, Option, none, some, List, [], ◌∷◌, ◌++◌, if◌then◌else◌,
  not, ◌==◌, inl, inr, Bool-cases,
}
use sioxx.Prelude.Bytes.{Bytes, codes}
use sioxx.JsonParser.Numbers.{decimal}
use sioxx.Proxy.{ProxyConfig}
use sioxx.HttpPollingTransport.State.{Reply, replied, raised, HttpPollingTransport}
use sioxx.HttpPollingTransport.Operation.{
  Stage, nothing, tcp_connects, proxy_writes, proxy_reads, tls_handshakes, request_writes,
  response_reads, AsyncRequestOperation, Completion, Effect, calls_handler, fails, cancels_resolver,
  closes_socket, finish, through, on_proxy_read, complete, run,
}
use sioxx.HttpPollingTransport.Blocking.{Calls, attempt, establish_proxy_tunnel}

-- The status and the body of an answer; the text of an error is not the same in both modes.
abbrev pub answer_of : Reply → Option (ℕ × Bytes)
answer_of (replied status body) = some (status, body)
answer_of (raised what) = none

abbrev pub answers : List Effect → List (Option (ℕ × Bytes))
answers [] = []
answers (calls_handler reply ∷ es) = answer_of reply ∷ answers es
answers (_ ∷ es) = answers es

answers-append : (es fs : List Effect) → answers (es ++ fs) ≡ answers es ++ answers fs
answers-append [] fs = refl
answers-append (calls_handler reply ∷ es) fs = ap (λ l. answer_of reply ∷ l) (answers-append es fs)
answers-append (fails what ∷ es) fs = answers-append es fs
answers-append (cancels_resolver ∷ es) fs = answers-append es fs
answers-append (closes_socket tls ∷ es) fs = answers-append es fs

-- The completion of an operation without an answer.
abbrev pub ends_with : Option Bytes → Completion
ends_with ec = record { error = ec; sni_error = none; status = 0; body = [] }

abbrev pub exchange_completions : Calls → List Completion
exchange_completions c =
    ends_with c.writing
    ∷ record { error = c.reading; sni_error = none; status = c.status; body = c.body }
    ∷ []

abbrev pub tunnel_completions : Option ProxyConfig → Calls → List Completion
tunnel_completions none c = []
tunnel_completions (some proxy) c =
    ends_with c.tunnel_writing
    ∷ record { error = c.tunnel_reading; sni_error = none; status = c.tunnel_status; body = [] }
    ∷ []

module _ (operation_aborted : Bytes) (t : HttpPollingTransport) where
  abbrev pub answered : List Completion → AsyncRequestOperation → List (Option (ℕ × Bytes))
  answered rs o = answers (run operation_aborted t rs o).1

  -- The operation while a stage of it is outstanding, and when it has ended.
  abbrev pub at : Stage → (plain tls : Bool) → AsyncRequestOperation
  at s plain tls = record {
    stage = s;
    plain_stream = plain;
    tls_stream = tls;
    finished = false;
    registered = true;
  }

  abbrev pub ended : (plain tls : Bool) → AsyncRequestOperation
  ended plain tls = record (at nothing plain tls) { finished = true; registered = false }

  pub run-ended : (rs : List Completion) (plain tls : Bool) → answered rs (ended plain tls) ≡ []
  unfolding run complete
  run-ended [] plain tls = refl
  run-ended (r ∷ rs) plain tls = run-ended rs plain tls

  run-proxy_reads :
      (r : Option Bytes) (status : ℕ) (rs : List Completion) (rest : Reply) (plain tls : Bool)
      → answered rs (at tls_handshakes plain tls) ≡ answer_of rest ∷ []
      → answered
          (record { error = r; sni_error = none; status = status; body = [] } ∷ rs)
          (at proxy_reads plain tls)
        ≡ answer_of (
            attempt r (
              if not (status / 100 == 2)
              then raised (codes "proxy CONNECT returned HTTP " ++ decimal status)
              else rest))
          ∷ []
  unfolding run complete finish on_proxy_read
  run-proxy_reads (some ec) status rs rest plain tls h = ap (λ l. none ∷ l) (run-ended rs plain tls)
  run-proxy_reads none status rs rest plain tls h = elim (Bool-cases (status / 100 == 2)) [
    | inl e ↦ rw e h
    | inr e ↦ rw e (ap (λ l. none ∷ l) (run-ended rs plain tls))
  ]

  run-proxy_writes :
      (w r : Option Bytes) (status : ℕ) (rs : List Completion) (rest : Reply) (plain tls : Bool)
      → answered rs (at tls_handshakes plain tls) ≡ answer_of rest ∷ []
      → answered
          (ends_with w ∷ record { error = r; sni_error = none; status = status; body = [] } ∷ rs)
          (at proxy_writes plain tls)
        ≡ answer_of (
            attempt w (
              attempt r (
                if not (status / 100 == 2)
                then raised (codes "proxy CONNECT returned HTTP " ++ decimal status)
                else rest)))
          ∷ []
  unfolding run complete finish
  run-proxy_writes (some ec) r status rs rest plain tls h =
      ap (λ l. none ∷ l) (run-ended rs plain tls)
  run-proxy_writes none r status rs rest plain tls h = run-proxy_reads r status rs rest plain tls h

  module _ (status : ℕ) (body : Bytes) where
    -- The reading of the response.
    abbrev pub reading_of : Option Bytes → Completion
    reading_of ec = record { error = ec; sni_error = none; status = status; body = body }

    run-reads :
        (r : Option Bytes) (plain tls : Bool)
        → answered (reading_of r ∷ []) (at response_reads plain tls)
          ≡ answer_of (attempt r (replied status body)) ∷ []
    unfolding run complete finish
    run-reads none plain tls = refl
    run-reads (some ec) plain tls = refl

    run-writes :
        (w r : Option Bytes) (plain tls : Bool)
        → answered (ends_with w ∷ reading_of r ∷ []) (at request_writes plain tls)
          ≡ answer_of (attempt w (attempt r (replied status body))) ∷ []
    unfolding run complete finish
    run-writes none r plain tls = run-reads r plain tls
    run-writes (some ec) r plain tls = refl

    run-handshakes :
        (h w r : Option Bytes) (plain tls : Bool)
        → answered (ends_with h ∷ ends_with w ∷ reading_of r ∷ []) (at tls_handshakes plain tls)
          ≡ answer_of (attempt h (attempt w (attempt r (replied status body)))) ∷ []
    unfolding run complete finish
    run-handshakes none w r plain tls = run-writes w r plain tls
    run-handshakes (some ec) w r plain tls = refl

    -- What follows the connecting of a stream with TLS.
    abbrev tunnelled :
        Option ProxyConfig → List Completion → (plain tls : Bool) → List (Option (ℕ × Bytes))
    tunnelled proxy rs plain tls =
        let (o, es) = through proxy (at nothing plain tls) in
        answers (es ++ (run operation_aborted t rs o).1)

    run-through :
        (proxy : Option ProxyConfig) (c : Calls) (h w r : Option Bytes) (plain tls : Bool)
        → tunnelled proxy
            (tunnel_completions proxy c ++ (ends_with h ∷ ends_with w ∷ reading_of r ∷ []))
            plain
            tls
          ≡ answer_of (
              establish_proxy_tunnel proxy c
                (attempt h (attempt w (attempt r (replied status body)))))
            ∷ []
    unfolding run complete finish on_proxy_read establish_proxy_tunnel
    run-through none c h w r plain tls = run-handshakes h w r plain tls
    run-through (some proxy) c h w r plain tls =
        let rs = ends_with h ∷ ends_with w ∷ reading_of r ∷ [] in
        let rest = attempt h (attempt w (attempt r (replied status body))) in
        run-proxy_writes c.tunnel_writing c.tunnel_reading c.tunnel_status rs rest plain tls
          (run-handshakes h w r plain tls)

    -- What follows the resolver where the stream has TLS, and where it has none.
    pub run-connects_tls :
        (proxy : Option ProxyConfig) (c : Calls) (k h w r : Option Bytes) (plain tls : Bool)
        → t.proxy ≡ proxy
        → answered
            (ends_with k
              ∷ (tunnel_completions proxy c ++ (ends_with h ∷ ends_with w ∷ reading_of r ∷ [])))
            (at (tcp_connects true) plain tls)
          ≡ answer_of (
              attempt k (
                establish_proxy_tunnel proxy c
                  (attempt h (attempt w (attempt r (replied status body))))))
            ∷ []
    unfolding run complete finish
    run-connects_tls proxy c (some ec) h w r plain tls e =
        ap (λ l. none ∷ l)
          (run-ended (tunnel_completions proxy c ++ (ends_with h ∷ ends_with w ∷ reading_of r ∷ []))
            plain tls)
    run-connects_tls proxy c none h w r plain tls e = rw e (run-through proxy c h w r plain tls)

    pub run-connects :
        (k w r : Option Bytes) (plain tls : Bool)
        → answered
            (ends_with k ∷ ends_with w ∷ reading_of r ∷ [])
            (at (tcp_connects false) plain tls)
          ≡ answer_of (attempt k (attempt w (attempt r (replied status body)))) ∷ []
    unfolding run complete finish
    run-connects none w r plain tls = run-writes w r plain tls
    run-connects (some ec) w r plain tls = refl
