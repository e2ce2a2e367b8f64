-- ===== src/EngineIoUrl.antt =====
-- src/engineio_url.cpp: `build_engineio_url`. `none` is the exception `std::invalid_argument`; the query
-- is the list of the map's entries in its order.
pub mod Building
pub mod Encoding
use sioxx.Prelude.{
  ℕ, zero, suc, ◌+◌, ◌-◌, ◌/◌, ◌%◌, ◌≡◌, refl, Bool, true, false, Option, none, some, List, [], ◌∷◌,
  ◌++◌, if◌then◌else◌, leb, ltb, ◌==◌, ◌&&◌, ◌||◌, ◌>>=◌, ◌>>◌, guard, not,
}
use sioxx.Prelude.Bytes.{Bytes, codes, bytes_eq, is_digit, break_at}
use sioxx.Url.{break_scheme}

-- `std::isalnum` in the "C" locale, or one of `-._~`.
unfoldable pub is_unreserved : ℕ → Bool
is_unreserved c =
    is_digit c
    || (leb b'A' c && leb c b'Z')
    || (leb b'a' c && leb c b'z')
    || c == b'-'
    || c == b'.'
    || c == b'_'
    || c == b'~'

-- A digit of `std::hex` with `std::uppercase`.
unfoldable pub hex_digit : ℕ → ℕ
hex_digit n = if ltb n 10 then b'0' + n else b'A' + (n - 10)

unfoldable pub encode_query_component : Bytes → Bytes
encode_query_component [] = []
encode_query_component (c ∷ s) =
    if is_unreserved c
    then c ∷ encode_query_component s
    else b'%' ∷ hex_digit (c / 16) ∷ hex_digit (c % 16) ∷ encode_query_component s

abbrev scheme_of : Option (Bytes × Bytes) → Bytes
scheme_of none = []
scheme_of (some (scheme, _)) = scheme

abbrev drop_4 : Bytes → Bytes
drop_4 (_ ∷ _ ∷ _ ∷ _ ∷ s) = s
drop_4 _ = []

abbrev drop_5 : Bytes → Bytes
drop_5 (_ ∷ s) = drop_4 s
drop_5 [] = []

-- The URL with a WebSocket scheme.
unfoldable pub with_scheme : Bytes → Bytes
with_scheme uri =
    let scheme = scheme_of (break_scheme uri) in
    if bytes_eq scheme (codes "http")
    then codes "ws" ++ drop_4 uri
    else if bytes_eq scheme (codes "https")
    then codes "wss" ++ drop_5 uri
    else if not (bytes_eq scheme (codes "ws")) && not (bytes_eq scheme (codes "wss"))
    then codes "ws://" ++ uri
    else uri

-- Up to the first slash or question mark.
unfoldable pub up_to_path : Bytes → Bytes
up_to_path [] = []
up_to_path (c ∷ s) = if c == b'/' || c == b'?' then [] else c ∷ up_to_path s

-- Scheme and authority; `with_scheme` has a scheme always.
abbrev pub base_of : Bytes → Option (Bytes × Bytes) → Bytes
base_of url none = url
base_of url (some (scheme, rest)) = scheme ++ (codes "://" ++ up_to_path rest)

abbrev pub ends_with_slash : Bytes → Bool
ends_with_slash [] = false
ends_with_slash (c ∷ []) = c == b'/'
ends_with_slash (c ∷ d ∷ s) = ends_with_slash (d ∷ s)

abbrev pub starts_with_slash : Bytes → Bool
starts_with_slash [] = false
starts_with_slash (c ∷ s) = c == b'/'

abbrev pub or_default_path : Bytes → Bytes
or_default_path [] = codes "/socket.io/"
or_default_path (c ∷ s) = c ∷ s

abbrev pub with_front : Bytes → Bytes
with_front p = if starts_with_slash p then p else b'/' ∷ p

abbrev pub with_back : Bytes → Bytes
with_back p = if ends_with_slash p then p else p ++ b'/' ∷ []

unfoldable pub normalize_path : Bytes → Bytes
normalize_path path = with_back (with_front (or_default_path path))

unfoldable pub is_reserved : Bytes → Bool
is_reserved key =
    bytes_eq key (codes "EIO") || bytes_eq key (codes "transport") || bytes_eq key (codes "sid")

-- The loop over the query.
unfoldable pub append_query : Bytes → List (Bytes × Bytes) → Option Bytes
append_query base [] = some base
append_query base ((key, value) ∷ query) =
    let more =
      append_query
        (base ++ (b'&' ∷ encode_query_component key) ++ (b'=' ∷ encode_query_component value))
        query in
    if is_reserved key then none else more

unfoldable pub build_engineio_url : Bytes → Bytes → List (Bytes × Bytes) → Bytes → Option Bytes
build_engineio_url uri path query transport =
    let url = with_scheme uri in
    append_query
      (base_of url (break_scheme url)
        ++ (normalize_path path ++ (codes "?EIO=4&transport=" ++ encode_query_component transport)))
      query

build_runs :
    build_engineio_url
      (codes "https://h:1/x?y")
      (codes "io")
      ((codes "a", codes "b c") ∷ [])
      (codes "polling")
    ≡ some (codes "wss://h:1/io/?EIO=4&transport=polling&a=b%20c")
unfolding build_engineio_url with_scheme break_scheme up_to_path normalize_path append_query
    is_reserved encode_query_component hex_digit is_unreserved bytes_eq
build_runs = refl
