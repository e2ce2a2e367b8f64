-- ===== src/Transport.antt =====
-- src/transport.hpp: what the two transports share.
pub mod Channel
use sioxx.Prelude.{ℕ, Bool, List, [], ◌∷◌}
use sioxx.Prelude.Bytes.{Bytes}

-- `transport_state`; `opened` is `open`.
pub data TransportState : Type 0 where
  closed connecting opened closing : TransportState

-- The calls of the four handlers.
pub data Notice : Type 0 where
  on_open : Notice
  on_message : Bytes → Bool → Notice
  on_close on_error : Bytes → Notice
