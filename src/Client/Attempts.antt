-- ===== src/Client/Attempts.antt =====
-- src/client.cpp: the attempts to reconnect, over all that the engines report.
use sioxx.Prelude.{
  ℕ, suc, ◌+◌, ◌-◌, ◌≤◌, ◌<◌, ◌≡◌, refl, ap, if_intro, if_cases, Bool, true, false, Option, none,
  some, List, [], ◌∷◌, ◌++◌, if◌then◌else◌, arith, not, ◌&&◌, ◌||◌, ltb, leb,
}
use sioxx.Prelude.Bytes.{Bytes, codes}
use sioxx.Prelude.Map.{Map}
use sioxx.Socket.State
use sioxx.Socket.State.{Socket}
use sioxx.Socket.Acks.{cancel_timed_acks}
use sioxx.Socket.Connection.{notify_change, send_connect, close}
use sioxx.Client.State.{
  Worker, absent, left, waits, Effect, from_socket, opened, failed, reconnecting, reports, closed,
  errors, reconnects, opens, Client, Result, continues, throws, deadlocks, from_all,
}
use sioxx.Client.Engine.{
  ensure_engineio, open_engine, open_at, activate_polling_fallback, is_current, then_effect,
  handle_engineio_error, connect_all, handle_engineio_open, disconnect_all, disconnect_notices,
  start_worker, schedule_reconnect, on_engineio_close, handle_engineio_close, caught, wake,
  close_all, close_client, engine_url,
}

-- What the engines report, the end of the reconnecting thread's wait, and a call of `close`.
pub data Event : Type 0 where
  engine_opens : ℕ → Event
  engine_errors : ℕ → (is_open : Bool) → Bytes → Event
  engine_closes : ℕ → Bytes → Event
  wakes closes : Event

abbrev pub handled : Client × List Effect → Result
handled (c, es) = continues c es

unfoldable pub step : Client → Event → Result
step c (engine_opens engine) = handle_engineio_open engine c
step c (engine_errors engine is_open msg) = handle_engineio_error engine is_open msg c
step c (engine_closes engine reason) = handle_engineio_close engine reason c
step c wakes = wake c.reconnect_thread c
step c closes = handled (close_client c)

-- All that the client does from a result on, an exception leaving it in the state that it has come to.
abbrev pub run_from : List Event → Result → List Effect
run_from es deadlocks = []
run_from [] (continues c fs) = fs
run_from [] (throws c fs) = fs
run_from (e ∷ es) (continues c fs) = fs ++ run_from es (step c e)
run_from (e ∷ es) (throws c fs) = fs ++ run_from es (step c e)

abbrev pub openings : List Effect → ℕ
openings [] = 0
openings (opens engine url ∷ es) = 1 + openings es
openings (_ ∷ es) = openings es

abbrev is_waiting : Worker → ℕ
is_waiting (waits uri) = 1
is_waiting _ = 0

-- The engines that the client may still open: the fallback to polling, one for each attempt that is
-- left, and that of the thread that waits.
abbrev pub spare : Client → ℕ
spare c =
    (if c.using_polling then 0 else 1)
    + ((c.options.reconnect_attempts - c.reconnect_attempts_used) + is_waiting c.reconnect_thread)

abbrev Spends : ℕ → Result → Type 0
Spends n (continues c es) = openings es + spare c ≤ n
Spends n (throws c es) = openings es + spare c ≤ n
Spends n deadlocks = Unit {0}

openings-append : (es fs : List Effect) → openings (es ++ fs) ≡ openings es + openings fs
openings-append [] fs = omega arith
openings-append (opens engine url ∷ es) fs = omega (arith, openings-append es fs)
openings-append (from_socket nsp e ∷ es) fs = openings-append es fs
openings-append (opened ∷ es) fs = openings-append es fs
openings-append (failed ∷ es) fs = openings-append es fs
openings-append (reconnecting ∷ es) fs = openings-append es fs
openings-append (reports ∷ es) fs = openings-append es fs
openings-append (closed reason ∷ es) fs = openings-append es fs
openings-append (errors msg ∷ es) fs = openings-append es fs
openings-append (reconnects n ∷ es) fs = openings-append es fs

openings-from_all : (nsp : Bytes) (es : List State.Effect) → openings (from_all nsp es) ≡ 0
openings-from_all nsp [] = refl
openings-from_all nsp (e ∷ es) = openings-from_all nsp es

openings-connect_all : (m : Map Bytes Socket) → openings (connect_all m) ≡ 0
openings-connect_all [] = refl
openings-connect_all ((nsp, s) ∷ m) = omega (
  arith,
  openings-append (from_all nsp (send_connect s)) (connect_all m),
  openings-from_all nsp (send_connect s),
  openings-connect_all m,
)

openings-disconnect_notices : (m : Map Bytes Socket) → openings (disconnect_notices m) ≡ 0
openings-disconnect_notices [] = refl
openings-disconnect_notices ((nsp, s) ∷ m) = omega (
  arith,
  openings-append (from_all nsp (notify_change false [] s)) (disconnect_notices m),
  openings-from_all nsp (notify_change false [] s),
  openings-disconnect_notices m,
)

openings-close_all : (m : Map Bytes Socket) → openings (close_all m).1 ≡ 0
openings-close_all [] = refl
openings-close_all ((nsp, s) ∷ m) =
    let s' = cancel_timed_acks s in
    let (s'', sent) = close s' in
    if_intro (λ (r : Map Bytes Socket × List Effect). openings r.1 ≡ 0) s'.connected
      ((nsp, s'') ∷ (close_all m).0, from_all nsp sent ++ (close_all m).1)
      ((nsp, s') ∷ (close_all m).0, (close_all m).1)
      (omega (
        arith,
        openings-append (from_all nsp sent) (close_all m).1,
        openings-from_all nsp sent,
        openings-close_all m,
      ))
      (openings-close_all m)

open_engine-Spends :
    (c : Client) (engine : Option ℕ) (url : Option Bytes) (es : List Effect)
    → Spends (1 + (openings es + spare c)) (open_engine c engine url es)
open_engine-Spends c none url es = omega arith
open_engine-Spends c (some engine) none es = omega arith
open_engine-Spends c (some engine) (some url) es =
    omega (arith, openings-append es (opens engine url ∷ []))

open_at-Spends :
    (uri : Bytes) (es : List Effect) (c : Client)
    → Spends (1 + (openings es + spare c)) (open_at uri es c)
unfolding open_at ensure_engineio
open_at-Spends uri es c =
    let engine = c.next_engineio in
    let c' = record c { next_engineio = suc engine } in
    let c'' = record c' { engineio = some engine } in
    if_intro
      (λ (r : Client × Option ℕ).
        Spends (1 + (openings es + spare c)) (open_engine r.0 r.1 (engine_url r.0 uri) es))
      c.intentional_close (c', none) (c'', some engine)
      (open_engine-Spends c' none (engine_url c' uri) es)
      (open_engine-Spends c'' (some engine) (engine_url c'' uri) es)

then_effect-Spends :
    (n : ℕ) (msg : Bytes) (r : Result) → Spends n r → Spends n (then_effect (errors msg) r)
then_effect-Spends n msg (continues c es) v = omega (arith, v, openings-append es (errors msg ∷ []))
then_effect-Spends n msg (throws c es) v = v
then_effect-Spends n msg deadlocks v = v

caught-Spends : (n : ℕ) (r : Result) → Spends n r → Spends n (caught r)
caught-Spends n (continues c es) v = v
caught-Spends n (throws c es) v = omega (arith, v, openings-append es (reports ∷ []))
caught-Spends n deadlocks v = v

Spends-le : {m n : ℕ} (r : Result) → m ≤ n → Spends m r → Spends n r
Spends-le (continues c es) l v = omega arith
Spends-le (throws c es) l v = omega arith
Spends-le deadlocks l v = tt

activate_polling_fallback-Spends : (c : Client) → Spends (spare c) (activate_polling_fallback c)
unfolding activate_polling_fallback
activate_polling_fallback-Spends c =
    let c' = record c { using_polling = true } in
    let es = errors (codes "WebSocket connection failed; switching to HTTP long-polling") ∷ [] in
    if_cases (Spends (spare c)) (c.intentional_close || c.using_polling) (continues c [])
      (open_at c.base_uri es c') (λ e. omega arith)
      (λ e.
        let p : c.using_polling ≡ false = ground arith in
        Spends-le (open_at c.base_uri es c') (ground arith) (open_at-Spends c.base_uri es c'))

start_worker-Spends :
    (c : Client) (es : List Effect) (w : Worker)
    → c.reconnect_thread ≡ w
    → Spends (1 + (openings es + spare c)) (start_worker c es w)
start_worker-Spends c es absent e = omega arith
start_worker-Spends c es left e = omega arith
start_worker-Spends c es (waits uri) e = tt

schedule_reconnect-Spends :
    (c : Client) (es : List Effect) → openings es ≡ 0 → Spends (spare c) (schedule_reconnect c es)
unfolding schedule_reconnect
schedule_reconnect-Spends c es e =
    let attempt = c.reconnect_attempts_used in
    let c' = record c { reconnect_attempts_used = suc attempt } in
    let es' = es ++ reconnects attempt ∷ [] in
    let start = start_worker-Spends c' es' c.reconnect_thread refl in
    let a = openings-append es (reconnects attempt ∷ []) in
    if_cases (Spends (spare c)) (leb c.options.reconnect_attempts attempt)
      (continues c (es ++ failed ∷ []))
      (if c.intentional_close then continues c' es' else start_worker c' es' c.reconnect_thread)
      (λ l. omega (arith, e, openings-append es (failed ∷ [])))
      (λ l.
        let more : attempt < c.options.reconnect_attempts = ground arith in
        if_intro (Spends (spare c)) c.intentional_close (continues c' es')
          (start_worker c' es' c.reconnect_thread) (omega (arith, e, a))
          (Spends-le (start_worker c' es' c.reconnect_thread) (omega (arith, e, a, more)) start))

wake-Spends : (w : Worker) (c : Client) → c.reconnect_thread ≡ w → Spends (spare c) (wake w c)
unfolding wake
wake-Spends absent c e = omega arith
wake-Spends left c e = omega arith
wake-Spends (waits uri) c e =
    let c' = record c { reconnect_thread = left } in
    let r = open_at uri (reconnecting ∷ []) c' in
    if_intro (Spends (spare c)) c.intentional_close (continues c' []) (caught r)
      (omega (arith, ap is_waiting e))
      (caught-Spends (spare c) r
        (Spends-le r (omega (arith, ap is_waiting e)) (open_at-Spends uri (reconnecting ∷ []) c')))

step-Spends : (c : Client) (e : Event) → Spends (spare c) (step c e)
unfolding step handle_engineio_open handle_engineio_error handle_engineio_close on_engineio_close
    close_client is_current
step-Spends c (engine_opens engine) =
    if_intro (Spends (spare c)) (is_current engine c)
      (continues c (connect_all c.sockets ++ opened ∷ [])) (continues c [])
      (omega (
        arith,
        openings-append (connect_all c.sockets) (opened ∷ []),
        openings-connect_all c.sockets,
      ))
      (omega arith)
step-Spends c (engine_errors engine is_open msg) =
    let fallback =
      if not c.using_polling && not is_open then activate_polling_fallback c else continues c [] in
    if_intro (Spends (spare c)) (not (is_current engine c)) (continues c [])
      (then_effect (errors msg) fallback) (omega arith)
      (then_effect-Spends (spare c) msg fallback (
        if_intro (Spends (spare c)) (not c.using_polling && not is_open)
          (activate_polling_fallback c) (continues c []) (activate_polling_fallback-Spends c)
          (omega arith)))
step-Spends c (engine_closes engine reason) =
    let c' = record c { sockets = disconnect_all c.sockets } in
    let es = disconnect_notices c.sockets ++ closed reason ∷ [] in
    let silent : openings es ≡ 0 = omega (
      arith,
      openings-append (disconnect_notices c.sockets) (closed reason ∷ []),
      openings-disconnect_notices c.sockets,
    ) in
    if_intro (Spends (spare c)) (is_current engine c) (on_engineio_close reason c) (continues c [])
      (if_intro (Spends (spare c)) (not c.intentional_close && ltb 0 c.options.reconnect_attempts)
        (schedule_reconnect c' es) (continues c' es) (schedule_reconnect-Spends c' es silent)
        (omega (arith, silent)))
      (omega arith)
step-Spends c wakes = wake-Spends c.reconnect_thread c refl
step-Spends c closes = omega (arith, openings-close_all c.sockets)

run_from-Spends : (es : List Event) (n : ℕ) (r : Result) → Spends n r → openings (run_from es r) ≤ n
run_from-Spends es n deadlocks v = omega arith
run_from-Spends [] n (continues c fs) v = omega arith
run_from-Spends [] n (throws c fs) v = omega arith
run_from-Spends (e ∷ es) n (continues c fs) v = omega (
  arith,
  openings-append fs (run_from es (step c e)),
  run_from-Spends es (spare c) (step c e) (step-Spends c e),
)
run_from-Spends (e ∷ es) n (throws c fs) v = omega (
  arith,
  openings-append fs (run_from es (step c e)),
  run_from-Spends es (spare c) (step c e) (step-Spends c e),
)

-- Whatever a client's engines report, in whatever order, and whenever it is closed, it opens no more
-- engines than one for the fallback to polling, unless it uses polling, one for each attempt that is
-- left, and one for the thread that waits to reconnect.
pub openings-run-le :
    (c : Client) (es : List Event) → openings (run_from es (continues c [])) ≤ spare c
openings-run-le c es = run_from-Spends es (spare c) (continues c []) (omega arith)
