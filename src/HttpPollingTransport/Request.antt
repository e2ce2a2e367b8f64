-- ===== src/HttpPollingTransport/Request.antt =====
-- src/http_polling_transport.cpp: the requests that are sent.
pub mod Equivalence
pub mod Fields
use sioxx.Prelude.{
  ℕ, Bool, true, false, Option, none, some, List, [], ◌∷◌, ◌++◌, if◌then◌else◌, not, ◌&&◌, ◌==◌,
  ◌||◌, ◌+◌, leb, map,
}
use sioxx.Prelude.Bytes.{Bytes, codes, bytes_eq}
use sioxx.Url.{UrlParts}
use sioxx.Proxy.{ProxyConfig, authority, absolute_http_target, connect_authority}
use sioxx.HttpPollingTransport.State.{Method, connects, Request, HttpPollingTransport}

abbrev has_question_mark : Bytes → Bool
has_question_mark [] = false
has_question_mark (c ∷ s) = c == b'?' || has_question_mark s

unfoldable pub poll_target : HttpPollingTransport → Bytes
poll_target t =
    t.url.target
    ++ ((if has_question_mark t.url.target then codes "&sid=" else codes "?sid=") ++ t.sid)

abbrev endpoint_of : Option ProxyConfig → UrlParts → UrlParts
endpoint_of none url = url
endpoint_of (some proxy) url = proxy.endpoint

abbrev is_empty : Bytes → Bool
is_empty [] = true
is_empty (_ ∷ _) = false

-- The field for a proxy that a plain request goes through.
abbrev pub proxy_field : Option ProxyConfig → Bool → List (Bytes × Bytes)
proxy_field none tls = []
proxy_field (some proxy) tls =
    if not tls && not (is_empty proxy.authorization)
    then (codes "Proxy-Authorization", proxy.authorization) ∷ []
    else []

abbrev proxied_target : Option ProxyConfig → UrlParts → Bytes → Bytes
proxied_target none url target = target
proxied_target (some proxy) url target =
    if not url.tls then absolute_http_target url target else target

abbrev pub lower : ℕ → ℕ
lower c = if leb b'A' c && leb c b'Z' then c + 32 else c

-- Names of fields are compared without regard to case.
unfoldable pub same_name : Bytes → Bytes → Bool
same_name m n = bytes_eq (map lower m) (map lower n)

unfoldable pub remove_field : Bytes → List (Bytes × Bytes) → List (Bytes × Bytes)
remove_field name [] = []
remove_field name ((n, v) ∷ fields) =
    let rest = remove_field name fields in if same_name n name then rest else (n, v) ∷ rest

-- `set` of Beast, which takes the fields of that name away before it adds one.
abbrev pub set_field : Bytes × Bytes → List (Bytes × Bytes) → List (Bytes × Bytes)
set_field (name, value) fields = remove_field name fields ++ (name, value) ∷ []

unfoldable pub set_all : List (Bytes × Bytes) → List (Bytes × Bytes) → List (Bytes × Bytes)
set_all [] fields = fields
set_all (f ∷ fs) fields = set_all fs (set_field f fields)

-- `request`, on a thread of the transport: the fields are set one after the other.
unfoldable pub request : Method → Bytes → Bytes → HttpPollingTransport → Request
request method target body t =
    let endpoint = endpoint_of t.proxy t.url in
    let fields =
      (codes "Host", authority t.url)
      ∷ (codes "User-Agent", codes "sioxx-client")
      ∷ (codes "Content-Type", codes "text/plain; charset=UTF-8")
      ∷ [] in
    let set = set_all fields [] in
    record {
      host = endpoint.host;
      port = endpoint.port;
      method = method;
      target = proxied_target t.proxy t.url target;
      fields = set_all t.extra_headers (set_all (proxy_field t.proxy t.url.tls) set);
      body = body;
    }

-- `async_request_operation`: its constructor, and where `start` sends it.
unfoldable pub async_request_operation : Method → Bytes → Bytes → HttpPollingTransport → Request
async_request_operation method target body t =
    let endpoint = endpoint_of t.proxy t.url in
    record {
      host = endpoint.host;
      port = endpoint.port;
      method = method;
      target = target;
      fields =
          set_all
            ((codes "Host", authority t.url)
              ∷ (codes "User-Agent", codes "sioxx-client")
              ∷ (codes "Content-Type", codes "text/plain; charset=UTF-8")
              ∷ (proxy_field t.proxy t.url.tls ++ t.extra_headers))
            [];
      body = body;
    }

-- `async_request`, on the caller's context.
unfoldable pub async_request : Method → Bytes → Bytes → HttpPollingTransport → Request
async_request method target body t =
    async_request_operation method (proxied_target t.proxy t.url target) body t

-- The CONNECT request of `establish_proxy_tunnel` and `write_proxy_connect`.
unfoldable pub proxy_connect : UrlParts → ProxyConfig → Request
proxy_connect destination proxy = record {
  host = proxy.endpoint.host;
  port = proxy.endpoint.port;
  method = connects;
  target = connect_authority destination;
  fields =
      (codes "Host", connect_authority destination)
      ∷ (codes "User-Agent", codes "sioxx-client")
      ∷ (if not (is_empty proxy.authorization)
          then (codes "Proxy-Authorization", proxy.authorization) ∷ []
          else []);
  body = [];
}

-- The request in the mode of the transport.
abbrev pub request_in_mode : Method → Bytes → Bytes → HttpPollingTransport → Request
request_in_mode method target body t =
    if t.external then async_request method target body t else request method target body t
