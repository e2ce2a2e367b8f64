-- ===== src/Client/State.antt =====
-- src/client_impl.hpp: the client's fields. An `engineio_client` is a number that tells it from the
-- others.
use sioxx.Prelude.{ℕ, Bool, false, Option, none, List, [], ◌∷◌}
use sioxx.Prelude.Bytes.{Bytes}
use sioxx.Prelude.Map.{Map, bytes_key}
use sioxx.Socket.State
use sioxx.Socket.State.{Socket}
use sioxx.JsonParser.Decode.{Decoder, idle}

-- What the client uses of `client_options`. The query lists the map's entries in their order.
pub record ClientOptions : Type 0 where
  pub force_http_polling : Bool
  pub engineio_path : Bytes
  pub query : List (Bytes × Bytes)
  pub reconnect_attempts : ℕ

-- `reconnect_thread_`: none that is joinable, one that waits for its delay, which it does without the
-- mutex but ends only with it, or one behind the wait.
pub data Worker : Type 0 where
  absent left : Worker
  waits : Bytes → Worker

-- What the client does outside: an effect of a namespace's socket, its handlers, and `open` of an
-- engine at a URL. `reports` is `on_error_` with the text of an exception.
pub data Effect : Type 0 where
  from_socket : Bytes → State.Effect → Effect
  opened failed reconnecting reports : Effect
  closed errors : Bytes → Effect
  reconnects : ℕ → Effect
  opens : ℕ → Bytes → Effect

-- The sockets' list is in the order of the map's keys. `next_engineio` tells the next engine.
pub record Client : Type 0 where
  pub options : ClientOptions
  pub decoder : Decoder
  pub engineio : Option ℕ
  pub next_engineio : ℕ
  pub base_uri : Bytes
  pub sockets : Map Bytes Socket
  pub reconnect_attempts_used : ℕ
  pub intentional_close : Bool
  pub reconnect_thread : Worker
  pub using_polling : Bool

abbrev pub make_client : ClientOptions → Client
make_client options = record {
  options = options;
  decoder = idle;
  engineio = none;
  next_engineio = 0;
  base_uri = [];
  sockets = [];
  reconnect_attempts_used = 0;
  intentional_close = false;
  reconnect_thread = absent;
  using_polling = false;
}

-- A call goes through, or an exception leaves it, or it waits for ever.
pub data Result : Type 0 where
  continues throws : Client → List Effect → Result
  deadlocks : Result

abbrev pub from_all : Bytes → List State.Effect → List Effect
from_all nsp [] = []
from_all nsp (e ∷ es) = from_socket nsp e ∷ from_all nsp es
