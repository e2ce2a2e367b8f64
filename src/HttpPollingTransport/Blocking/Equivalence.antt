-- ===== src/HttpPollingTransport/Blocking/Equivalence.antt =====
-- src/http_polling_transport.cpp: a request that blocks and one on the caller's context have the same
-- answer.
use sioxx.Prelude.{
  ◌≡◌, refl, ap, Bool, true, false, Option, none, some, List, [], ◌∷◌, ◌++◌, if◌then◌else◌, not,
}
use sioxx.Prelude.Bytes.{Bytes, codes}
use sioxx.Proxy.{ProxyConfig}
use sioxx.HttpPollingTransport.State.{Reply, replied, raised, HttpPollingTransport}
use sioxx.HttpPollingTransport.Operation.{
  resolves, tcp_connects, Completion, make_operation, start, finish, connect, complete, run,
}
use sioxx.HttpPollingTransport.Blocking.Stages.{
  answer_of, answers, ends_with, exchange_completions, tunnel_completions, answered, at, run-ended,
  run-connects_tls, run-connects,
}
use sioxx.HttpPollingTransport.Blocking.{
  Calls, attempt, shut, establish_proxy_tunnel, exchange, request_reply,
}

abbrev sni_error : Bytes → Bool → Option Bytes
sni_error text ok = if ok then none else some text

module _ (text operation_aborted : Bytes) where
  abbrev completions_with : (tls : Bool) → Option ProxyConfig → Calls → List Completion
  completions_with tls proxy c =
      record { error = c.resolving; sni_error = sni_error text c.sni; status = 0; body = [] }
      ∷ ends_with c.connecting
      ∷ (if tls
          then tunnel_completions proxy c ++ (ends_with c.handshaking ∷ exchange_completions c)
          else exchange_completions c)

  -- What the operations of Boost complete with where the calls of a request that blocks end as they do;
  -- `text` is that of the error of the server name.
  abbrev pub completions : HttpPollingTransport → Calls → List Completion
  completions t c = completions_with t.url.tls t.proxy c

  module _ (t : HttpPollingTransport) where
    run-resolves_tls :
        (q : Option Bytes) (sni : Bool) (rs : List Completion) (rest : Reply)
        → t.url.tls ≡ true
        → answered operation_aborted t rs (at operation_aborted t (tcp_connects true) false true)
          ≡ answer_of rest ∷ []
        → answered operation_aborted t
            (record { error = q; sni_error = sni_error text sni; status = 0; body = [] } ∷ rs)
            (at operation_aborted t resolves false false)
          ≡ answer_of
              (attempt q (if not sni then raised (codes "unable to set TLS server name") else rest))
            ∷ []
    unfolding run complete finish connect
    run-resolves_tls (some ec) sni rs rest e h =
        ap (λ l. none ∷ l) (run-ended operation_aborted t rs false false)
    run-resolves_tls none true rs rest e h = rw e h
    run-resolves_tls none false rs rest e h =
        rw e (ap (λ l. none ∷ l) (run-ended operation_aborted t rs false true))

    run-resolves :
        (q : Option Bytes) (sni : Bool) (rs : List Completion) (rest : Reply)
        → t.url.tls ≡ false
        → answered operation_aborted t rs (at operation_aborted t (tcp_connects false) true false)
          ≡ answer_of rest ∷ []
        → answered operation_aborted t
            (record { error = q; sni_error = sni_error text sni; status = 0; body = [] } ∷ rs)
            (at operation_aborted t resolves false false)
          ≡ answer_of (attempt q rest) ∷ []
    unfolding run complete finish connect
    run-resolves (some ec) sni rs rest e h =
        ap (λ l. none ∷ l) (run-ended operation_aborted t rs false false)
    run-resolves none sni rs rest e h = rw e h

    abbrev reply_with : (tls : Bool) → Calls → Reply
    reply_with tls c = attempt c.resolving (
        if not tls
        then attempt c.connecting (exchange c)
        else if not c.sni
        then raised (codes "unable to set TLS server name")
        else attempt c.connecting
            (establish_proxy_tunnel t.proxy c (attempt c.handshaking (exchange c))))

    same_reply :
        (tls : Bool) (c : Calls)
        → shut c.shutting ≡ none
        → t.url.tls ≡ tls
        → answered operation_aborted t
            (completions_with tls t.proxy c)
            (at operation_aborted t resolves false false)
          ≡ answer_of (reply_with tls c) ∷ []
    same_reply true c e tls =
        let rest =
          attempt c.handshaking (attempt c.writing (attempt c.reading (replied c.status c.body))) in
        rw e (
          run-resolves_tls c.resolving c.sni _
            (attempt c.connecting (establish_proxy_tunnel t.proxy c rest)) tls
            (run-connects_tls operation_aborted t c.status c.body t.proxy c c.connecting
              c.handshaking c.writing c.reading false true refl))
    same_reply false c e plain = rw e (
        run-resolves c.resolving c.sni _
          (attempt c.connecting (attempt c.writing (attempt c.reading (replied c.status c.body))))
          plain
          (run-connects operation_aborted t c.status c.body c.connecting c.writing c.reading true
            false))

    -- A request that blocks and one on the caller's context, whose calls of Boost end in the same way,
    -- the shutdown of the blocking stream without an exception, have the same answer: the status and the
    -- body of the response, or an error; and the handler is called once.
    pub request-run :
        (c : Calls)
        → shut c.shutting ≡ none
        → answers (run operation_aborted t (completions t c) (start make_operation)).1
          ≡ answer_of (request_reply t c) ∷ []
    unfolding request_reply start
    request-run c e = same_reply t.url.tls c e refl
