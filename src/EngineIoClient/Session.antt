-- ===== src/EngineIoClient/Session.antt =====
-- src/engineio_client.cpp: messages, the heartbeat and its thread.
use sioxx.Prelude.{
  ℕ, ◌+◌, ◌≤◌, ◌<◌, ◌≡◌, ◌≢◌, ◌⊎◌, refl, inl, inr, Bool, true, false, Option, none, some, List, [],
  ◌∷◌, ◌==◌, arith, Option-cases, if_intro,
}
use sioxx.Prelude.Bytes.{Bytes, codes}
use sioxx.Message.{Json}
use sioxx.EngineIoClient.{
  Effect, transport_sends, transport_closes, on_frame, on_open, on_error, EngineIoClient, Outcome,
  returns, terminates, to_transport, stop_heartbeat_timer, send, start_heartbeat_timer, open_with,
  read_sid, read_timeout, read_handshake, handle_packet, handle_transport_message, heartbeat_runs,
  goes_on, timed_out, heartbeat_wakes,
}

module _ (parse : Bytes → Option Json) (value_int : Bytes → ℕ → Json → Option ℕ)
    (value_string : Bytes → Bytes → Json → Option Bytes) where
  abbrev handle : Bytes → Bool → ℕ → EngineIoClient → Outcome
  handle = handle_transport_message parse value_int value_string

  -- What an open session with a transport sends as a message, text or binary, is one frame, and any
  -- session that receives the frame hands exactly the message on and stays as it is.
  handle-send :
      (payload : Bytes) (is_binary : Bool) (c d : EngineIoClient) (now : ℕ)
      → c.transport ≡ true
      → c.open_flag ≡ true
      → (frame : Bytes) × (send payload is_binary c ≡ transport_sends frame is_binary ∷ [])
        × (handle_transport_message parse value_int value_string frame is_binary now d
            ≡ returns d (on_frame payload is_binary ∷ []))
  unfolding send handle_transport_message
  handle-send payload true c d now t o = (payload, rw (t, o) refl, refl)
  handle-send payload false c d now t o = (b'4' ∷ payload, rw (t, o) refl, refl)

  start-ne-terminates :
      (c : EngineIoClient) (es : List Effect)
      → c.heartbeat ≡ false
      → start_heartbeat_timer c es ≢ terminates
  unfolding start_heartbeat_timer
  start-ne-terminates c es h e = ground arith

  open_with-ne-terminates :
      (c : EngineIoClient) (interval timeout : ℕ) (sid : Bytes) (now : ℕ)
      → c.heartbeat ≡ false
      → open_with parse value_int value_string c interval timeout sid now ≢ terminates
  unfolding open_with
  open_with-ne-terminates c i t sid now h = start-ne-terminates _ (on_open ∷ []) h

  read_sid-ne-terminates :
      (c : EngineIoClient) (j : Json) (i t now : ℕ)
      → c.heartbeat ≡ false
      → read_sid parse value_int value_string c j i t now ≢ terminates
  unfolding read_sid
  read_sid-ne-terminates c j i t now h = elim (Option-cases (value_string (codes "sid") [] j)) [
    | inl n ↦ rw (n, read_sid) (λ e. ground arith)
    | inr (sid, s) ↦ rw (s, read_sid) (open_with-ne-terminates c i t sid now h)
  ]

  read_timeout-ne-terminates :
      (c : EngineIoClient) (j : Json) (i now : ℕ)
      → c.heartbeat ≡ false
      → read_timeout parse value_int value_string c j i now ≢ terminates
  unfolding read_timeout
  read_timeout-ne-terminates c j i now h =
      elim (Option-cases (value_int (codes "pingTimeout") 20000 j)) [
        | inl n ↦ rw (n, read_timeout) (λ e. ground arith)
        | inr (t, s) ↦ rw (s, read_timeout) (read_sid-ne-terminates c j i t now h)
      ]

  read_handshake-ne-terminates :
      (c : EngineIoClient) (handshake : Option Json) (now : ℕ)
      → c.heartbeat ≡ false
      → read_handshake parse value_int value_string c handshake now ≢ terminates
  unfolding read_handshake
  read_handshake-ne-terminates c none now h = open_with-ne-terminates c _ _ [] now h
  read_handshake-ne-terminates c (some j) now h =
      elim (Option-cases (value_int (codes "pingInterval") 25000 j)) [
        | inl n ↦ rw (n, read_handshake) (λ e. ground arith)
        | inr (i, s) ↦ rw (s, read_handshake) (read_timeout-ne-terminates c j i now h)
      ]

  handle_packet-ne-terminates :
      (type : ℕ) (rest : Bytes) (now : ℕ) (c : EngineIoClient)
      → handle_packet parse value_int value_string type rest now c ≢ terminates
  unfolding handle_packet
  handle_packet-ne-terminates type rest now c =
      let s = stop_heartbeat_timer c in
      if_intro (λ o. o ≢ terminates) (type == b'0')
        (read_handshake parse value_int value_string s (parse rest) now) _
        (read_handshake-ne-terminates s (parse rest) now refl) (λ e. ground arith)

  -- Whatever frame a session receives in whatever state, taking it does not end the program by
  -- starting a second heartbeat thread over one that is joinable.
  pub handle_transport_message-ne-terminates :
      (frame : Bytes) (is_binary : Bool) (now : ℕ) (c : EngineIoClient)
      → handle_transport_message parse value_int value_string frame is_binary now c ≢ terminates
  unfolding handle_transport_message
  handle_transport_message-ne-terminates frame true now c e = ground arith
  handle_transport_message-ne-terminates [] false now c e = ground arith
  handle_transport_message-ne-terminates (type ∷ rest) false now c e =
      handle_packet-ne-terminates type rest now c e

heartbeat_wakes-in_time :
    (now t : ℕ) (c : EngineIoClient)
    → heartbeat_runs c ≡ true
    → now ≤ t + (c.ping_interval_ms + c.ping_timeout_ms)
    → heartbeat_wakes now (record c { last_pong = t }) ≡ goes_on
unfolding heartbeat_wakes heartbeat_runs
heartbeat_wakes-in_time now t c r h = ground arith

heartbeat_wakes-late :
    (now t : ℕ) (c : EngineIoClient)
    → heartbeat_runs c ≡ true
    → t + (c.ping_interval_ms + c.ping_timeout_ms) < now
    → heartbeat_wakes now (record c { last_pong = t })
      ≡ timed_out (on_error (codes "engine.io ping timeout") ∷ to_transport c transport_closes)
unfolding heartbeat_wakes heartbeat_runs
heartbeat_wakes-late now t c r h = ground arith

-- The heartbeat of an open session that runs and last heard a ping or a pong at the time `t` goes
-- on when it wakes no later than the interval and the timeout together after `t`; when it wakes
-- later, it reports the timeout and closes the transport, where there is one.
pub heartbeat_wakes-after_ping :
    (parse : Bytes → Option Json) (value_int : Bytes → ℕ → Json → Option ℕ)
    (value_string : Bytes → Bytes → Json → Option Bytes) (rest : Bytes) (type t now : ℕ)
    (c : EngineIoClient)
    → (type ≡ b'2') ⊎ (type ≡ b'3')
    → heartbeat_runs c ≡ true
    → (d : EngineIoClient) × (es : List Effect) × (handle_transport_message parse value_int
          value_string
          (type ∷ rest)
          false
          t
          c
        ≡ returns d es)
      × (now ≤ t + (c.ping_interval_ms + c.ping_timeout_ms) → heartbeat_wakes now d ≡ goes_on)
      × (t + (c.ping_interval_ms + c.ping_timeout_ms) < now
          → heartbeat_wakes now d
            ≡ timed_out
                (on_error (codes "engine.io ping timeout") ∷ to_transport c transport_closes))
unfolding handle_transport_message
heartbeat_wakes-after_ping parse vi vs rest type t now c (inl e) r = (
  record c { last_pong = t },
  to_transport c (transport_sends (codes "3") false),
  rw e refl,
  heartbeat_wakes-in_time now t c r,
  heartbeat_wakes-late now t c r,
)
heartbeat_wakes-after_ping parse vi vs rest type t now c (inr e) r = (
  record c { last_pong = t },
  [],
  rw e refl,
  heartbeat_wakes-in_time now t c r,
  heartbeat_wakes-late now t c r,
)
