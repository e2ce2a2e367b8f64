-- ===== src/Proxy/Endpoint.antt =====
-- src/proxy.cpp: the proxies that `make_proxy_config` accepts.
use sioxx.Prelude.{◌≡◌, refl, inl, false, some, [], ◌∷◌, ◌++◌, append-nil, arith}
use sioxx.Prelude.Bytes.{Bytes, codes, bytes_eq}
use sioxx.Url.Parts.{parse_ws_url-parts, url_text, parts, IsHostName, break_scheme-append}
use sioxx.Proxy.{
  configured, make_proxy_config, authorization_of, has_query_or_fragment, check_endpoint,
}

-- An HTTP proxy that is given by a host name and a port, without a query, a fragment or a path, is
-- accepted, with this endpoint and the authorization of the user name and the password.
pub make_proxy_config-url_text :
    (host port username password : Bytes)
    → IsHostName host
    → IsHostName port
    → has_query_or_fragment (host ++ b':' ∷ port) ≡ false
    → make_proxy_config (url_text (codes "http") (host ++ b':' ∷ port) []) username password
      ≡ configured (
          some (record {
            endpoint = parts (codes "http") host port [];
            authorization = authorization_of username password;
          }))
unfolding make_proxy_config
make_proxy_config-url_text host port username password h p q =
    rw
      (
        break_scheme-append (codes "http") ((host ++ b':' ∷ port) ++ []) (ground arith),
        parse_ws_url-parts (codes "http") host port [] (ground arith) (inl h) p tt,
        append-nil (host ++ b':' ∷ port),
        q,
      )
      (unfold check_endpoint bytes_eq in refl)
