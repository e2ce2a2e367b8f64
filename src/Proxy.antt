-- ===== src/Proxy.antt =====
-- src/proxy.cpp: the proxy's configuration and the authorities in requests.
pub mod Endpoint
use sioxx.Prelude.{
  Bool, true, false, Option, none, some, [], ◌∷◌, ◌++◌, if◌then◌else◌, ◌==◌, ◌&&◌, ◌||◌, not,
}
use sioxx.Prelude.Bytes.{Bytes, codes, bytes_eq}
use sioxx.Url.{UrlParts, parse_ws_url, break_scheme}
use sioxx.Base64.{base64_encode}

pub record ProxyConfig : Type 0 where
  pub endpoint : UrlParts
  pub authorization : Bytes

-- `find_first_of("?#")` finds something.
unfoldable pub has_query_or_fragment : Bytes → Bool
has_query_or_fragment [] = false
has_query_or_fragment (c ∷ s) = c == b'?' || c == b'#' || has_query_or_fragment s

abbrev query_behind_scheme : Option (Bytes × Bytes) → Bool
query_behind_scheme none = false
query_behind_scheme (some (_, rest)) = has_query_or_fragment rest

abbrev is_empty : Bytes → Bool
is_empty [] = true
is_empty (_ ∷ _) = false

unfoldable pub authorization_of : Bytes → Bytes → Bytes
authorization_of username password =
    if not (is_empty username) || not (is_empty password)
    then codes "Basic " ++ base64_encode (username ++ b':' ∷ password)
    else []

-- The result, or the exception `std::invalid_argument`.
pub data Configured : Type 0 where
  invalid_argument : Configured
  configured : Option ProxyConfig → Configured

check_endpoint : Bytes → Bytes → Option UrlParts → Configured
check_endpoint username password none = invalid_argument
check_endpoint username password (some endpoint) =
    if not (bytes_eq endpoint.scheme (codes "http"))
    then invalid_argument
    else if not (bytes_eq endpoint.target (codes "/"))
    then invalid_argument
    else configured
        (some (record { endpoint = endpoint; authorization = authorization_of username password }))

unfoldable pub make_proxy_config : Bytes → Bytes → Bytes → Configured
unfolding check_endpoint
make_proxy_config uri username password =
    if is_empty uri
    then configured none
    else if query_behind_scheme (break_scheme uri)
    then invalid_argument
    else check_endpoint username password (parse_ws_url uri)

-- Port 80 without and 443 with TLS are left out.
unfoldable pub authority : UrlParts → Bytes
authority url =
    let default_port =
      (not url.tls && bytes_eq url.port (codes "80"))
      || (url.tls && bytes_eq url.port (codes "443")) in
    if default_port then url.host else url.host ++ b':' ∷ url.port

unfoldable pub connect_authority : UrlParts → Bytes
connect_authority url = url.host ++ b':' ∷ url.port

unfoldable pub absolute_http_target : UrlParts → Bytes → Bytes
absolute_http_target url target =
    (if url.tls then codes "https://" else codes "http://") ++ (authority url ++ target)
