-- ===== src/Url.antt =====
-- src/url_parse.cpp: `parse_ws_url`. `none` is the exception `std::invalid_argument`; positions are
-- optional numbers, with `none` for `npos`.
pub mod Parts
use sioxx.Prelude.{
  ℕ, zero, suc, ◌+◌, ◌≡◌, refl, Bool, true, false, Option, none, some, List, [], ◌∷◌, ◌++◌,
  if◌then◌else◌, ltb, ◌==◌, ◌&&◌, ◌||◌, ◌>>=◌,
}
use sioxx.Prelude.Bytes.{Bytes, codes, bytes_eq, break_at}

pub record UrlParts : Type 0 where
  pub scheme : Bytes
  pub host : Bytes
  pub port : Bytes
  pub target : Bytes
  pub tls : Bool

-- `url.find("://")`: what stands before it and what behind it.
unfoldable pub break_scheme : Bytes → Option (Bytes × Bytes)
break_scheme [] = none
break_scheme (a ∷ s) =
    let rest : Option (Bytes × Bytes) = elim (break_scheme s) [
      | none ↦ none
      | some (before, after) ↦ some (a ∷ before, after)
    ] in
    elim s [
      | [] ↦ none
      | b ∷ s' ↦ elim s' [
        | [] ↦ none
        | c ∷ s'' ↦ if a == b':' && b == b'/' && c == b'/' then some ([], s'') else rest
      ]
    ]

abbrev shift : Option ℕ → Option ℕ
shift none = none
shift (some n) = some (suc n)

-- `s.find(c)`
unfoldable pub index_of : ℕ → Bytes → Option ℕ
index_of c [] = none
index_of c (x ∷ xs) = if x == c then some 0 else shift (index_of c xs)

-- `s.rfind(c)`
unfoldable pub last_index_of : ℕ → Bytes → Option ℕ
last_index_of c [] = none
last_index_of c (x ∷ xs) = elim (last_index_of c xs) [
  | none ↦ if x == c then some 0 else none
  | some n ↦ some (suc n)
]

-- `s.find(c, position)`
unfoldable pub index_from : ℕ → ℕ → Bytes → Option ℕ
index_from c zero s = index_of c s
index_from c (suc n) [] = none
index_from c (suc n) (x ∷ xs) = shift (index_from c n xs)

unfoldable pub take : ℕ → Bytes → Bytes
take zero s = []
take (suc n) [] = []
take (suc n) (x ∷ xs) = x ∷ take n xs

unfoldable pub drop : ℕ → Bytes → Bytes
drop zero s = s
drop (suc n) [] = []
drop (suc n) (x ∷ xs) = drop n xs

-- The colon in front of the port: the last one, or the first one behind a closing bracket that
-- stands before the last one.
unfoldable pub port_colon : Bytes → Option ℕ
port_colon authority = elim (last_index_of b':' authority) [
  | none ↦ none
  | some colon ↦ elim (index_of b']' authority) [
    | none ↦ some colon
    | some bracket ↦ if ltb bracket colon then index_from b':' bracket authority else some colon
  ]
]

abbrev pub is_tls : Bytes → Bool
is_tls scheme = bytes_eq scheme (codes "wss") || bytes_eq scheme (codes "https")

abbrev pub default_port : Bool → Bytes
default_port tls = if tls then codes "443" else codes "80"

-- Host and port.
unfoldable pub split_authority : Bool → Bytes → Bytes × Bytes
split_authority tls authority = elim (port_colon authority) [
  | none ↦ (authority, default_port tls)
  | some colon ↦ (take colon authority, drop (suc colon) authority)
]

-- Authority and target of what stands behind the scheme.
unfoldable pub split_target : Bytes → Bytes × Bytes
split_target s = elim (break_at b'/' s) [
  | none ↦ (s, codes "/")
  | some (authority, path) ↦ (authority, b'/' ∷ path)
]

unfoldable pub parse_ws_url : Bytes → Option UrlParts
parse_ws_url url = break_scheme url >>= λ (scheme, rest).
    let tls = is_tls scheme in
    let (authority, target) = split_target rest in
    let (host, port) = split_authority tls authority in
    some (record { scheme = scheme; host = host; port = port; target = target; tls = tls })

parse_runs :
    parse_ws_url (codes "wss://[::1]:8080/x?y=1")
    ≡ some (record {
      scheme = codes "wss";
      host = codes "[::1]";
      port = codes "8080";
      target = codes "/x?y=1";
      tls = true;
    })
unfolding parse_ws_url break_scheme split_target split_authority port_colon last_index_of index_of
    index_from take drop break_at bytes_eq
parse_runs = refl
