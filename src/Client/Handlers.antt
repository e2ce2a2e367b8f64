-- ===== src/Client/Handlers.antt =====
-- src/client_impl.hpp: the handlers of the user, and which of them hears of what the client does.
use sioxx.Prelude.{
  ℕ, Option, none, some, List, [], ◌∷◌, ◌++◌, ◌≡◌, refl, sym, ap, ◌∙◌, append_assoc,
}
use sioxx.Client.State.{
  Effect, from_socket, opened, failed, reconnecting, reports, closed, errors, reconnects, opens,
}

-- A `std::function` is a number that names it, or `none` when it is empty.
pub record Handlers : Type 0 where
  pub on_open : Option ℕ
  pub on_close : Option ℕ
  pub on_fail : Option ℕ
  pub on_reconnecting : Option ℕ
  pub on_reconnect : Option ℕ
  pub on_error : Option ℕ

abbrev pub no_handlers : Handlers
no_handlers = record {
  on_open = none;
  on_close = none;
  on_fail = none;
  on_reconnecting = none;
  on_reconnect = none;
  on_error = none;
}

unfoldable pub set_open_handler : Option ℕ → Handlers → Handlers
set_open_handler h s = record s { on_open = h }

unfoldable pub set_close_handler : Option ℕ → Handlers → Handlers
set_close_handler h s = record s { on_close = h }

unfoldable pub set_fail_handler : Option ℕ → Handlers → Handlers
set_fail_handler h s = record s { on_fail = h }

unfoldable pub set_reconnecting_handler : Option ℕ → Handlers → Handlers
set_reconnecting_handler h s = record s { on_reconnecting = h }

unfoldable pub set_reconnect_handler : Option ℕ → Handlers → Handlers
set_reconnect_handler h s = record s { on_reconnect = h }

unfoldable pub set_error_handler : Option ℕ → Handlers → Handlers
set_error_handler h s = record s { on_error = h }

-- The handler that is called for what the client does; a socket's effects and the opening of an engine
-- are no call of a handler.
abbrev pub handler_for : Effect → Handlers → Option ℕ
handler_for opened s = s.on_open
handler_for (closed reason) s = s.on_close
handler_for failed s = s.on_fail
handler_for reconnecting s = s.on_reconnecting
handler_for (reconnects attempt) s = s.on_reconnect
handler_for (errors message) s = s.on_error
handler_for reports s = s.on_error
handler_for (from_socket nsp e) s = none
handler_for (opens engine url) s = none

abbrev call_of : Option ℕ → Effect → List (ℕ × Effect)
call_of none e = []
call_of (some handler) e = (handler, e) ∷ []

-- The calls of the handlers, each with what it hears of, where the handlers stay what they are.
unfoldable pub heard : Handlers → List Effect → List (ℕ × Effect)
heard s [] = []
heard s (e ∷ es) = call_of (handler_for e s) e ++ heard s es

-- What comes behind is heard behind.
heard-append : (s : Handlers) (es fs : List Effect) → heard s (es ++ fs) ≡ heard s es ++ heard s fs
unfolding heard
heard-append s [] fs = refl
heard-append s (e ∷ es) fs =
    ap (λ l. call_of (handler_for e s) e ++ l) (heard-append s es fs)
    ∙ sym (append_assoc (call_of (handler_for e s) e) (heard s es) (heard s fs))
