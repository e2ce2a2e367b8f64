-- ===== src/Client/Construction/Headers.antt =====
-- src/client.cpp and src/http_polling_transport.cpp: the requests of a transport that is configured.
use sioxx.Prelude.{Bool, ◌≡◌, some, List, [], ◌∷◌, arith}
use sioxx.Prelude.Bytes.{Bytes, codes}
use sioxx.Url.{UrlParts}
use sioxx.Proxy.{authority}
use sioxx.HttpPollingTransport.State.{HttpPollingTransport}
use sioxx.HttpPollingTransport.Polling.{set_proxy}
use sioxx.Client.Construction.{TransportOptions}

-- What the options set of a transport.
abbrev HasOptions : TransportOptions → Bool → HttpPollingTransport → Type 0
HasOptions options io_context t =
    (t.verify_tls ≡ options.verify_tls)
    × (t.extra_headers ≡ options.extra_headers)
    × (t.external ≡ io_context)

set_proxy-HasOptions :
    (options : TransportOptions) (io_context : Bool) (uri username password : Bytes)
    (t t' : HttpPollingTransport)
    → HasOptions options io_context t
    → set_proxy uri username password t ≡ some t'
    → HasOptions options io_context t'
unfolding set_proxy
set_proxy-HasOptions options io_context uri username password t t' h e = ground arith

-- The fields of every request, in front of those of the options.
abbrev pub own_fields : UrlParts → List (Bytes × Bytes)
own_fields url =
    (codes "Host", authority url)
    ∷ (codes "User-Agent", codes "sioxx-client")
    ∷ (codes "Content-Type", codes "text/plain; charset=UTF-8")
    ∷ []
