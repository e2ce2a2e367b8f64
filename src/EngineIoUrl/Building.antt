-- ===== src/EngineIoUrl/Building.antt =====
-- src/engineio_url.cpp: what `build_engineio_url` makes of a URL with one of the four schemes.
use sioxx.Prelude.{
  ℕ, ◌≡◌, ◌≢◌, ◌⊎◌, refl, sym, ap, ◌∙◌, inl, inr, Bool, true, false, none, some, List, [], ◌∷◌,
  ◌++◌, if◌then◌else◌, ◌==◌, ◌||◌, All, Bool-cases, append_assoc, append-nil, arith,
}
use sioxx.Prelude.Bytes.{Bytes, codes, bytes_eq}
use sioxx.Url.{break_scheme}
use sioxx.EngineIoUrl.{
  encode_query_component, is_reserved, append_query, build_engineio_url, normalize_path,
  with_scheme, up_to_path, ends_with_slash,
}

-- The query has the key.
abbrev has_key : Bytes → List (Bytes × Bytes) → Bool
has_key key [] = false
has_key key ((k, _) ∷ query) = bytes_eq k key || has_key key query

-- The query has one of the three keys of Engine.IO.
abbrev pub is_refused : List (Bytes × Bytes) → Bool
is_refused query =
    has_key (codes "EIO") query || has_key (codes "transport") query || has_key (codes "sid") query

-- The query as text, each pair behind an ampersand.
abbrev pub query_text : List (Bytes × Bytes) → Bytes
query_text [] = []
query_text ((key, value) ∷ query) =
    ((b'&' ∷ encode_query_component key) ++ (b'=' ∷ encode_query_component value))
    ++ query_text query

is_refused-cons :
    (k v : Bytes) (query : List (Bytes × Bytes))
    → is_refused ((k, v) ∷ query) ≡ (is_reserved k || is_refused query)
unfolding is_reserved
is_refused-cons k v query =
    regroup (bytes_eq k (codes "EIO")) (bytes_eq k (codes "transport")) (bytes_eq k (codes "sid"))
      (has_key (codes "EIO") query) (has_key (codes "transport") query)
      (has_key (codes "sid") query)
  where
    regroup :
        (a b c d e f : Bool) → (a || d || (b || e) || (c || f)) ≡ (a || b || c || (d || e || f))
    regroup a b c d e f = ground arith

append_query_lem :
    (base : Bytes) (query : List (Bytes × Bytes))
    → append_query base query ≡ (if is_refused query then none else some (base ++ query_text query))
unfolding append_query
append_query_lem base [] = ap some (sym (append-nil base))
append_query_lem base ((key, value) ∷ query) = elim (Bool-cases (is_reserved key)) [
  | inl e ↦ rw (is_refused-cons key value query, e) refl
  | inr e ↦
      rw (is_refused-cons key value query, e)
        (append_query_lem
            (base ++ (b'&' ∷ encode_query_component key) ++ (b'=' ∷ encode_query_component value))
            query
          ∙ ap (λ t. if is_refused query then none else some t) regroup)
]
  where
    regroup :
        (base ++ (b'&' ∷ encode_query_component key) ++ (b'=' ∷ encode_query_component value))
          ++ query_text query
        ≡ base
          ++ (((b'&' ∷ encode_query_component key) ++ (b'=' ∷ encode_query_component value))
              ++ query_text query)
    regroup = simp append_assoc

-- The schemes of a page and those of a socket.
abbrev pub scheme : (is_page secure : Bool) → Bytes
scheme true false = codes "http"
scheme true true = codes "https"
scheme false false = codes "ws"
scheme false true = codes "wss"

-- An authority ends where a path or a query opens.
abbrev pub IsAuthority : Bytes → Type 0
IsAuthority = All (λ c. (c ≢ b'/') × (c ≢ b'?'))

abbrev pub OpensPath : Bytes → Type 0
OpensPath [] = Unit {0}
OpensPath (c ∷ s) = (c ≡ b'/') ⊎ (c ≡ b'?')

-- The last character.
abbrev last : ℕ → Bytes → ℕ
last c [] = c
last c (d ∷ s) = last d s

-- The path with a slash in front and one behind, where it has none there.
abbrev pub slashed : Bytes → Bytes
slashed [] = codes "/socket.io/"
slashed (c ∷ s) =
    (if c == b'/' then [] else b'/' ∷ [])
    ++ ((c ∷ s) ++ (if last c s == b'/' then [] else b'/' ∷ []))

ends_with_slash-last : (c : ℕ) (s : Bytes) → ends_with_slash (c ∷ s) ≡ (last c s == b'/')
ends_with_slash-last c [] = refl
ends_with_slash-last c (d ∷ s) = ends_with_slash-last d s

normalize_path-slashed : (path : Bytes) → normalize_path path ≡ slashed path
unfolding normalize_path
normalize_path-slashed [] = refl
normalize_path-slashed (c ∷ s) = elim (Bool-cases (c == b'/')) [
  | inl e ↦ elim (Bool-cases (last c s == b'/')) [
    | inl l ↦ rw (e, ends_with_slash-last c s, l, append-nil s) refl
    | inr l ↦ rw (e, ends_with_slash-last c s, l) refl
  ]
  | inr e ↦ elim (Bool-cases (last c s == b'/')) [
    | inl l ↦ rw (e, ends_with_slash-last c s, l, append-nil s) refl
    | inr l ↦ rw (e, ends_with_slash-last c s, l) refl
  ]
]

up_to_path-authority : (a t : Bytes) → IsAuthority a → OpensPath t → up_to_path (a ++ t) ≡ a
unfolding up_to_path
up_to_path-authority [] [] i o = refl
up_to_path-authority [] (c ∷ t) i (inl o) = rw o refl
up_to_path-authority [] (c ∷ t) i (inr o) = rw o refl
up_to_path-authority (c ∷ a) t ((i, j), is) o = rw (up_to_path-authority a t is o) (ground arith)

with_scheme-scheme :
    (is_page secure : Bool) (rest : Bytes)
    → (with_scheme (scheme is_page secure ++ (codes "://" ++ rest))
        ≡ scheme false secure ++ (codes "://" ++ rest))
      × (break_scheme (scheme false secure ++ (codes "://" ++ rest))
          ≡ some (scheme false secure, rest))
unfolding with_scheme break_scheme bytes_eq
with_scheme-scheme true false rest = (refl, refl)
with_scheme-scheme true true rest = (refl, refl)
with_scheme-scheme false false rest = (refl, refl)
with_scheme-scheme false true rest = (refl, refl)

-- Given a URL of the scheme http, https, ws or wss, an authority and whatever follows it: it is refused
-- exactly when the query has a key EIO, transport or sid. Else the URL for the engine has the socket's
-- scheme of the same security, the authority, the path of the options between slashes (`/socket.io/` when it
-- is empty), the parameters EIO=4 and transport, and then each pair of the query in order, its key and
-- its value percent-encoded.
pub build_engineio_url_lem :
    (is_page secure : Bool) (authority tail path : Bytes) (query : List (Bytes × Bytes))
    (transport : Bytes)
    → IsAuthority authority
    → OpensPath tail
    → build_engineio_url
        (scheme is_page secure ++ (codes "://" ++ (authority ++ tail)))
        path
        query
        transport
      ≡ (if is_refused query
          then none
          else some (
              (scheme false secure ++ (codes "://" ++ authority))
              ++ (slashed path ++ (codes "?EIO=4&transport=" ++ encode_query_component transport))
              ++ query_text query))
unfolding build_engineio_url
build_engineio_url_lem is_page secure authority tail path query transport i o =
    let (schemes, breaks) = with_scheme-scheme is_page secure (authority ++ tail) in
    rw (schemes, breaks, up_to_path-authority authority tail i o, normalize_path-slashed path)
      (append_query_lem _ query)
