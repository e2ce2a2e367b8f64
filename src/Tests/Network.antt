-- ===== src/Tests/Network.antt =====
-- The theorems about URLs, queries, polling and base64 at concrete inputs.
use native.Mathlib.Omega.{arith}
use sioxx.Prelude.{◌≡◌, refl, inr, false, none, some, [], ◌∷◌, ◌++◌, All, if◌then◌else◌, true, inl}
use sioxx.Prelude.Bytes.{codes}
use sioxx.Base64.{base64_encode, base64_decode}
use sioxx.Base64.RoundTrip.{base64_decode-encode}
use sioxx.Url.{parse_ws_url}
use sioxx.Url.Parts.{
  parse_ws_url-parts, parse_ws_url_address_without_port, url_text, parts, bracketed,
}
use sioxx.Proxy.{configured, make_proxy_config, authorization_of, has_query_or_fragment}
use sioxx.Proxy.Endpoint.{make_proxy_config-url_text}
use sioxx.EngineIoUrl.{build_engineio_url, encode_query_component}
use sioxx.EngineIoUrl.Building.{scheme, is_refused, query_text, slashed, build_engineio_url_lem}
use sioxx.EngineIoUrl.Encoding.{
  decode-encode_query_component, encode_query_component-IsInert, decode_query_component, IsInert,
}
use sioxx.Polling.{polling_split_payload}
use sioxx.Polling.Payload.{join_packets, split-join_packets}

base64_decode-encode_example :
    base64_decode (base64_encode (0 ∷ 255 ∷ 7 ∷ 200 ∷ [])) ≡ some (0 ∷ 255 ∷ 7 ∷ 200 ∷ [])
base64_decode-encode_example = base64_decode-encode (0 ∷ 255 ∷ 7 ∷ 200 ∷ []) (ground arith)

parse_ws_url-parts_example :
    parse_ws_url
      (url_text (codes "wss") (bracketed (codes "::1") ++ b':' ∷ codes "8443") (codes "/x"))
    ≡ some (parts (codes "wss") (bracketed (codes "::1")) (codes "8443") (codes "/x"))
parse_ws_url-parts_example =
    parse_ws_url-parts (codes "wss") (bracketed (codes "::1")) (codes "8443") (codes "/x")
      (ground arith) (inr (codes "::1", refl, ground arith)) (ground arith) refl

parse_ws_url_address_without_port_example :
    parse_ws_url (url_text (codes "ws") (bracketed (codes ":" ++ b':' ∷ codes "1")) (codes "/"))
    ≡ some (parts (codes "ws") (b'[' ∷ codes ":") (codes "1" ++ b']' ∷ []) (codes "/"))
parse_ws_url_address_without_port_example =
    parse_ws_url_address_without_port (codes "ws") (codes ":") (codes "1") (codes "/")
      (ground arith) (ground arith) (ground arith) refl

build_engineio_url_lem_example :
    build_engineio_url
      (scheme true true ++ (codes "://" ++ (codes "h:1" ++ codes "/x?y")))
      (codes "io")
      ((codes "room", codes "a b") ∷ [])
      (codes "polling")
    ≡ (if is_refused ((codes "room", codes "a b") ∷ [])
        then none
        else some (
            (scheme false true ++ (codes "://" ++ codes "h:1"))
            ++ (slashed (codes "io")
                ++ (codes "?EIO=4&transport=" ++ encode_query_component (codes "polling")))
            ++ query_text ((codes "room", codes "a b") ∷ [])))
build_engineio_url_lem_example =
    build_engineio_url_lem true true (codes "h:1") (codes "/x?y") (codes "io")
      ((codes "room", codes "a b") ∷ []) (codes "polling") (ground arith) (inl refl)

decode-encode_query_component_example :
    decode_query_component (encode_query_component (codes "a b&c")) ≡ codes "a b&c"
decode-encode_query_component_example = decode-encode_query_component (codes "a b&c") (ground arith)

encode_query_component-IsInert_example : All IsInert (encode_query_component (codes "a b&c"))
encode_query_component-IsInert_example =
    encode_query_component-IsInert (codes "a b&c") (ground arith)

split-join_packets_example :
    polling_split_payload (join_packets (codes "4a" ∷ codes "2" ∷ [])) ≡ codes "4a" ∷ codes "2" ∷ []
split-join_packets_example = split-join_packets (codes "4a" ∷ codes "2" ∷ []) (ground arith)

local_has_no_query : has_query_or_fragment (codes "localhost" ++ b':' ∷ codes "3128") ≡ false
unfolding has_query_or_fragment
local_has_no_query = refl

make_proxy_config-url_text_example :
    make_proxy_config
      (url_text (codes "http") (codes "localhost" ++ b':' ∷ codes "3128") [])
      (codes "user")
      (codes "pass")
    ≡ configured (
        some (record {
          endpoint = parts (codes "http") (codes "localhost") (codes "3128") [];
          authorization = authorization_of (codes "user") (codes "pass");
        }))
make_proxy_config-url_text_example =
    make_proxy_config-url_text (codes "localhost") (codes "3128") (codes "user") (codes "pass")
      (ground arith) (ground arith) local_has_no_query
