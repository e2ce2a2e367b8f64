-- ===== src/Client/Shutdown/Completeness.antt =====
-- src/client.cpp: closing does all that it has to do, whatever throws.
use sioxx.Prelude.{
  ℕ, ◌≡◌, refl, ap, ◌∙◌, Bool, true, false, Option, none, some, List, [], ◌∷◌, ◌++◌, if◌then◌else◌,
  arith, ◌&&◌,
}
use sioxx.Prelude.Bytes.{Bytes}
use sioxx.Prelude.Map.{Map}
use sioxx.Socket.State.{Socket}
use sioxx.Socket.Acks.{cancel_timed_acks}
use sioxx.Socket.Connection.{close}
use sioxx.Client.State.{Worker, absent, left, waits, Client}
use sioxx.Client.Shutdown.{
  Throws, Effect, from_socket, closes, sync_closes, joins, waits_for_timed_acks, on_engine,
  waits_for_all, capture_shutdown_error, thrown_by, shut_socket, shut_sockets, close_client,
  stop_reconnect_thread, sync_close,
}

-- The calls behind those of the sockets.
abbrev pub later_calls : List Effect → List Effect
later_calls [] = []
later_calls (from_socket nsp e ∷ es) = later_calls es
later_calls (e ∷ es) = e ∷ later_calls es

-- The joining of a thread that is there and is not the one that calls.
abbrev pub joining_of : (on_worker : Bool) → Worker → List Effect
joining_of on_worker absent = []
joining_of true w = []
joining_of false w = joins ∷ []

later_calls-append :
    (es fs : List Effect) → later_calls (es ++ fs) ≡ later_calls es ++ later_calls fs
later_calls-append [] fs = refl
later_calls-append (from_socket nsp e ∷ es) fs = later_calls-append es fs
later_calls-append (closes engine ∷ es) fs = ap (λ l. closes engine ∷ l) (later_calls-append es fs)
later_calls-append (sync_closes engine ∷ es) fs =
    ap (λ l. sync_closes engine ∷ l) (later_calls-append es fs)
later_calls-append (joins ∷ es) fs = ap (λ l. joins ∷ l) (later_calls-append es fs)
later_calls-append (waits_for_timed_acks nsp ∷ es) fs =
    ap (λ l. waits_for_timed_acks nsp ∷ l) (later_calls-append es fs)

later_calls-closes :
    (engine : Option ℕ) → later_calls (on_engine engine closes) ≡ on_engine engine closes
later_calls-closes none = refl
later_calls-closes (some engine) = refl

later_calls-sync_closes :
    (engine : Option ℕ) → later_calls (on_engine engine sync_closes) ≡ on_engine engine sync_closes
later_calls-sync_closes none = refl
later_calls-sync_closes (some engine) = refl

later_calls-joining :
    (on_worker : Bool) (w : Worker) → later_calls (joining_of on_worker w) ≡ joining_of on_worker w
later_calls-joining on_worker absent = refl
later_calls-joining true left = refl
later_calls-joining false left = refl
later_calls-joining true (waits uri) = refl
later_calls-joining false (waits uri) = refl

later_calls-waits : (m : Map Bytes Socket) → later_calls (waits_for_all m) ≡ waits_for_all m
later_calls-waits [] = refl
later_calls-waits ((nsp, s) ∷ m) = ap (λ l. waits_for_timed_acks nsp ∷ l) (later_calls-waits m)

stop-joins :
    (on_worker : Bool) (w : Worker) (c : Client)
    → c.reconnect_thread ≡ w
    → let r = stop_reconnect_thread on_worker c in
      (r.0.engineio ≡ c.engineio)
      × (r.0.sockets ≡ c.sockets)
      × (r.0.intentional_close ≡ c.intentional_close)
      × (r.1 ≡ joining_of on_worker w)
      × (r.0.reconnect_thread ≡ (if on_worker then c.reconnect_thread else absent))
unfolding stop_reconnect_thread
stop-joins on_worker absent c e = ground arith
stop-joins true left c e = ground arith
stop-joins false left c e = ground arith
stop-joins true (waits uri) c e = ground arith
stop-joins false (waits uri) c e = ground arith

module _ {E : Type 0} where
  abbrev pub is_sent : Option E → Bool
  is_sent none = true
  is_sent (some e) = false

  -- No timed acknowledgement is left and none can be added, and a socket whose packet could be sent is
  -- not connected any more.
  abbrev pub IsShut : Throws E → Map Bytes Socket → Type 0
  IsShut f [] = Unit {0}
  IsShut f ((nsp, s) ∷ m) =
      (s.timed_acks ≡ [])
      × (s.timed_acks_closed ≡ true)
      × (s.connected && is_sent (f.sending nsp) ≡ false)
      × IsShut f m

  abbrev pub first_of : List (Option E) → Option E
  first_of [] = none
  first_of (none ∷ es) = first_of es
  first_of (some e ∷ es) = some e

  -- What a socket's call throws: only one that is connected sends, and only while the client is there.
  abbrev pub error_of : Option E → Socket → Option E
  error_of thrown s = if s.connected then (if s.client then thrown else none) else none

  abbrev pub errors_of : Throws E → Map Bytes Socket → List (Option E)
  errors_of f [] = []
  errors_of f ((nsp, s) ∷ m) = error_of (f.sending nsp) s ∷ errors_of f m

  shut_socket-IsShut :
      (nsp : Bytes) (thrown : Option E) (s : Socket)
      → let r = shut_socket nsp thrown s in
        (r.0.timed_acks ≡ [])
        × (r.0.timed_acks_closed ≡ true)
        × (r.0.connected && is_sent thrown ≡ false)
        × (later_calls r.1 ≡ [])
        × (r.2 ≡ error_of thrown s)
  unfolding shut_socket cancel_timed_acks close
  shut_socket-IsShut nsp none s = ground arith
  shut_socket-IsShut nsp (some e) s = ground arith

  first_of-capture :
      (first thrown : Option E) (es : List (Option E))
      → first_of (capture_shutdown_error first thrown ∷ es) ≡ first_of (first ∷ thrown ∷ es)
  first_of-capture none thrown es = refl
  first_of-capture (some e) thrown es = refl

  shut_sockets-IsShut :
      (f : Throws E) (first : Option E) (m : Map Bytes Socket)
      → let r = shut_sockets f first m in
        IsShut f r.0
        × (later_calls r.1 ≡ [])
        × (waits_for_all r.0 ≡ waits_for_all m)
        × (r.2 ≡ first_of (first ∷ errors_of f m))
  unfolding shut_sockets
  shut_sockets-IsShut f none [] = (tt, refl, refl, refl)
  shut_sockets-IsShut f (some e) [] = (tt, refl, refl, refl)
  shut_sockets-IsShut f first ((nsp, s) ∷ m) =
      let thrown = f.sending nsp in
      let (acks, shut, gone, quiet, error) = shut_socket-IsShut nsp thrown s in
      let r = shut_socket nsp thrown s in
      let (v, quiet', same, errors) = shut_sockets-IsShut f (capture_shutdown_error first r.2) m in
      (
        (acks, shut, gone, v),
        later_calls-append r.1 (shut_sockets f (capture_shutdown_error first r.2) m).1
            ∙ ap (λ l. l ++ later_calls (shut_sockets f (capture_shutdown_error first r.2) m).1)
                quiet
            ∙ quiet',
        ap (λ l. waits_for_timed_acks nsp ∷ l) same,
        errors
            ∙ first_of-capture first r.2 (errors_of f m)
            ∙ ap (λ e. first_of (first ∷ e ∷ errors_of f m)) error,
      )

  capture-first_of :
      (es : List (Option E)) (thrown : Option E)
      → capture_shutdown_error (first_of es) thrown ≡ first_of (es ++ thrown ∷ [])
  capture-first_of [] none = refl
  capture-first_of [] (some e) = refl
  capture-first_of (none ∷ es) thrown = capture-first_of es thrown
  capture-first_of (some e ∷ es) thrown = refl

  capture_nothing : (first : Option E) → capture_shutdown_error first none ≡ first
  capture_nothing none = refl
  capture_nothing (some e) = refl

  -- `sync_close` on a client, on the thread that reconnects or on another, where the sending of any
  -- socket's packet and either call of the engine may throw. The client is closed, no timed
  -- acknowledgement is left, a socket whose packet could be sent is not connected, and the reconnecting
  -- thread is joined, unless it is the one that calls. Behind the sockets the current engine is closed,
  -- the thread joined, the engine closed for good and every socket's acknowledgements waited for, in
  -- this order. The exception is the first of those thrown.
  pub sync_close-IsShut :
      (on_worker : Bool) (f : Throws E) (c : Client)
      → let r = sync_close on_worker f c in
        let joined = joining_of on_worker c.reconnect_thread in
        (r.0.intentional_close ≡ true)
        × (r.0.reconnect_thread ≡ (if on_worker then c.reconnect_thread else absent))
        × IsShut f r.0.sockets
        × (later_calls r.1
            ≡ on_engine c.engineio closes
              ++ (joined ++ (on_engine c.engineio sync_closes ++ waits_for_all c.sockets)))
        × (r.2
            ≡ first_of (
                (errors_of f c.sockets ++ thrown_by c.engineio f.closing ∷ [])
                ++ thrown_by c.engineio f.sync_closing ∷ []))
  unfolding sync_close close_client
  sync_close-IsShut on_worker f c =
      let (shut, quiet, same, errors) = shut_sockets-IsShut f none c.sockets in
      let (m, es, first) = shut_sockets f none c.sockets in
      let c' = record c { intentional_close = true; sockets = m } in
      let (engine, sockets, closed, joined, gone) =
        stop-joins on_worker c.reconnect_thread c' refl in
      let closing = on_engine c.engineio closes in
      let later = joining_of on_worker c.reconnect_thread in
      let last = on_engine c.engineio sync_closes in
      let waiting = waits_for_all c.sockets in
      let errs = errors_of f c.sockets in
      let e1 = thrown_by c.engineio f.closing in
      let e3 = thrown_by c.engineio f.sync_closing in
      (
        closed,
        gone,
        rw sockets shut,
        rw (engine, sockets, joined, same)
            (rw
              (
                later_calls-append (es ++ closing) (later ++ (last ++ waiting)),
                later_calls-append es closing,
                later_calls-append later (last ++ waiting),
                later_calls-append last waiting,
                quiet,
                later_calls-closes c.engineio,
                later_calls-joining on_worker c.reconnect_thread,
                later_calls-sync_closes c.engineio,
                later_calls-waits c.sockets,
              )
              refl),
        rw (engine, capture_nothing (capture_shutdown_error first e1))
            (ap (λ x. capture_shutdown_error (capture_shutdown_error x e1) e3) errors
              ∙ ap (λ x. capture_shutdown_error x e3) (capture-first_of errs e1)
              ∙ capture-first_of (errs ++ e1 ∷ []) e3),
      )
