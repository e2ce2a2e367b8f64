-- ===== src/HttpPollingTransport/Request/Equivalence.antt =====
-- src/http_polling_transport.cpp: the requests of the two modes, side by side.
use sioxx.Prelude.{◌≡◌, refl, List, [], ◌∷◌, ◌++◌}
use sioxx.Prelude.Bytes.{Bytes}
use sioxx.HttpPollingTransport.State.{HttpPollingTransport}
use sioxx.HttpPollingTransport.Request.{set_all, set_field}

pub set_all-append :
    (fs gs fields : List (Bytes × Bytes))
    → set_all (fs ++ gs) fields ≡ set_all gs (set_all fs fields)
unfolding set_all
set_all-append [] gs fields = refl
set_all-append (f ∷ fs) gs fields = set_all-append fs gs (set_field f fields)
