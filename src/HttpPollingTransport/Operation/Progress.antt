-- ===== src/HttpPollingTransport/Operation/Progress.antt =====
-- src/http_polling_transport.cpp: a request on the caller's context comes to its end.
use sioxx.Prelude.{
  ℕ, ◌≡◌, ◌≤◌, ◌<◌, ◌+◌, ◌-◌, refl, ap, ◌∙◌, Bool, true, false, List, [], ◌∷◌, ◌++◌, length, arith,
}
use sioxx.Prelude.Bytes.{Bytes}
use sioxx.HttpPollingTransport.State.{HttpPollingTransport}
use sioxx.HttpPollingTransport.Operation.{
  Stage, nothing, resolves, tcp_connects, proxy_writes, proxy_reads, tls_handshakes, request_writes,
  response_reads, AsyncRequestOperation, Completion, Effect, calls_handler, fails, cancels_resolver,
  closes_socket, make_operation, start, finish, connect, on_proxy_read, complete_stage,
  complete_from, complete, run,
}

abbrev pub calls : List Effect → ℕ
calls [] = 0
calls (calls_handler reply ∷ es) = 1 + calls es
calls (_ ∷ es) = calls es

-- The operations that an operation and those behind it can take at most.
abbrev left : Stage → ℕ
left nothing = 0
left resolves = 7
left (tcp_connects tls) = 6
left proxy_writes = 5
left proxy_reads = 4
left tls_handshakes = 3
left request_writes = 2
left response_reads = 1

abbrev is_nothing : Stage → Bool
is_nothing nothing = true
is_nothing _ = false

abbrev waits : Stage → ℕ
waits nothing = 0
waits _ = 1

-- The request has ended just where nothing is outstanding.
abbrev IsSound : AsyncRequestOperation → Type 0
IsSound o = o.finished ≡ is_nothing o.stage

abbrev Progresses : Stage → AsyncRequestOperation × List Effect → Type 0
Progresses s (o, es) =
    IsSound o × (calls es + waits o.stage ≡ waits s) × (left o.stage ≤ left s - 1)

calls-append : (es fs : List Effect) → calls (es ++ fs) ≡ calls es + calls fs
calls-append [] fs = omega arith
calls-append (calls_handler reply ∷ es) fs = omega (arith, calls-append es fs)
calls-append (fails what ∷ es) fs = calls-append es fs
calls-append (cancels_resolver ∷ es) fs = calls-append es fs
calls-append (closes_socket tls ∷ es) fs = calls-append es fs

abbrev Advances : Stage → AsyncRequestOperation × List Effect → Type 0
Advances s (o, es) = IsSound o × (calls es + waits o.stage ≡ 1) × (left o.stage < left s)

module _ (operation_aborted : Bytes) (t : HttpPollingTransport) where
  complete_stage-Advances :
      (s : Stage) (r : Completion) (o : AsyncRequestOperation)
      → o.finished ≡ false
      → o.stage ≡ nothing
      → is_nothing s ≡ false
      → Advances s (complete_stage operation_aborted s t r o)
  unfolding finish connect on_proxy_read
  complete_stage-Advances nothing r o f n w = ground arith
  complete_stage-Advances resolves r o f n w = ground arith
  complete_stage-Advances (tcp_connects true) r o f n w = ground arith
  complete_stage-Advances (tcp_connects false) r o f n w = ground arith
  complete_stage-Advances proxy_writes r o f n w = ground arith
  complete_stage-Advances proxy_reads r o f n w = ground arith
  complete_stage-Advances tls_handshakes r o f n w = ground arith
  complete_stage-Advances request_writes r o f n w = ground arith
  complete_stage-Advances response_reads r o f n w = ground arith

  ending-Progresses :
      (s : Stage) (r : Completion) (o : AsyncRequestOperation)
      → o.stage ≡ s
      → IsSound o
      → (is_nothing s ≡ false) × (waits s ≡ 1)
      → Progresses s (complete_stage operation_aborted s t r (record o { stage = nothing }))
  ending-Progresses s r o e v (n, w) =
      let (v', c, l) =
        complete_stage-Advances s r (record o { stage = nothing }) (v ∙ ap is_nothing e ∙ n) refl
          n in
      (v', omega arith, omega arith)

  -- An operation that completes brings the request on, and elsewhere nothing happens.
  complete_from-Progresses :
      (s : Stage) (r : Completion) (o : AsyncRequestOperation)
      → o.stage ≡ s
      → IsSound o
      → Progresses s (complete_from operation_aborted s t r o)
  complete_from-Progresses nothing r o e v =
      (v, omega (arith, ap waits e), omega (arith, ap left e))
  complete_from-Progresses resolves r o e v = ending-Progresses resolves r o e v (refl, refl)
  complete_from-Progresses (tcp_connects tls) r o e v =
      ending-Progresses (tcp_connects tls) r o e v (refl, refl)
  complete_from-Progresses proxy_writes r o e v =
      ending-Progresses proxy_writes r o e v (refl, refl)
  complete_from-Progresses proxy_reads r o e v = ending-Progresses proxy_reads r o e v (refl, refl)
  complete_from-Progresses tls_handshakes r o e v =
      ending-Progresses tls_handshakes r o e v (refl, refl)
  complete_from-Progresses request_writes r o e v =
      ending-Progresses request_writes r o e v (refl, refl)
  complete_from-Progresses response_reads r o e v =
      ending-Progresses response_reads r o e v (refl, refl)

  run-Progresses :
      (rs : List Completion) (o : AsyncRequestOperation)
      → IsSound o
      → let r = run operation_aborted t rs o in
        IsSound r.0
        × (calls r.1 + waits r.0.stage ≡ waits o.stage)
        × (left r.0.stage ≤ left o.stage - length rs)
  unfolding run complete
  run-Progresses [] o v = (v, omega arith, omega arith)
  run-Progresses (r ∷ rs) o v =
      let (o', es) = complete operation_aborted t r o in
      let (v', c, l) = complete_from-Progresses o.stage r o refl v in
      let (v'', c', l') = run-Progresses rs o' v' in
      (
        v'',
        omega (arith, c, c', calls-append es (run operation_aborted t rs o').1),
        omega (arith, l, l'),
      )

  waits_none : (s : Stage) → left s ≡ 0 → waits s ≡ 0
  waits_none nothing e = refl
  waits_none resolves e = omega arith
  waits_none (tcp_connects tls) e = omega arith
  waits_none proxy_writes e = omega arith
  waits_none proxy_reads e = omega arith
  waits_none tls_handshakes e = omega arith
  waits_none request_writes e = omega arith
  waits_none response_reads e = omega arith

  -- Whatever the operations of Boost complete with, the handler of a request is called at most once,
  -- and it has been called once seven of them have completed.
  pub calls-run :
      (rs : List Completion)
      → let n = calls (run operation_aborted t rs (start make_operation)).1 in
        (n ≤ 1) × (7 ≤ length rs → n ≡ 1)
  unfolding start
  calls-run rs =
      let r = run operation_aborted t rs (start make_operation) in
      let (v, c, l) = run-Progresses rs (start make_operation) refl in
      (
        omega (arith, c),
        λ enough. omega (arith, c, waits_none r.0.stage (omega (arith, l, enough))),
      )
