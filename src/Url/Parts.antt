-- ===== src/Url/Parts.antt =====
-- src/url_parse.cpp: what `parse_ws_url` makes of a URL that is put together from its parts.
use sioxx.Prelude.{
  ℕ, suc, ◌+◌, ◌≡◌, ◌≢◌, refl, ap, subst, ◌∙◌, inl, inr, Bool, none, some, [], ◌∷◌, ◌++◌,
  append_assoc, append-nil, ◌⊎◌, length, length-append, All-append, arith,
}
use sioxx.Prelude.Bytes.{Bytes, codes, Lacks, break_at-append, break_at-none}
use sioxx.Url.{
  UrlParts, break_scheme, index_of, last_index_of, index_from, take, drop, port_colon, is_tls,
  default_port, split_authority, split_target, parse_ws_url, shift,
}

pub break_scheme-append :
    (scheme rest : Bytes)
    → Lacks b':' scheme
    → break_scheme (scheme ++ (b':' ∷ b'/' ∷ b'/' ∷ rest)) ≡ some (scheme, rest)
unfolding break_scheme
break_scheme-append [] rest _ = refl
break_scheme-append (a ∷ []) rest (h, t) = ground arith
break_scheme-append (a ∷ b ∷ []) rest (h, t) = ground (arith, break_scheme-append (b ∷ []) rest t)
break_scheme-append (a ∷ b ∷ c ∷ s) rest (h, t) =
    ground (arith, break_scheme-append (b ∷ c ∷ s) rest t)

index_of-append :
    (c : ℕ) (xs ys : Bytes) → Lacks c xs → index_of c (xs ++ c ∷ ys) ≡ some (length xs)
unfolding index_of
index_of-append c [] ys _ = ground arith
index_of-append c (x ∷ xs) ys (h, t) = ground (arith, index_of-append c xs ys t)

index_of-none : (c : ℕ) (xs : Bytes) → Lacks c xs → index_of c xs ≡ none
unfolding index_of
index_of-none c [] _ = refl
index_of-none c (x ∷ xs) (h, t) = ground (arith, index_of-none c xs t)

last_index_of-none : (c : ℕ) (xs : Bytes) → Lacks c xs → last_index_of c xs ≡ none
unfolding last_index_of
last_index_of-none c [] _ = refl
last_index_of-none c (x ∷ xs) (h, t) = ground (arith, last_index_of-none c xs t)

last_index_of-append :
    (c : ℕ) (xs ys : Bytes) → Lacks c ys → last_index_of c (xs ++ c ∷ ys) ≡ some (length xs)
unfolding last_index_of
last_index_of-append c [] ys h = ground (arith, last_index_of-none c ys h)
last_index_of-append c (x ∷ xs) ys h = ground (arith, last_index_of-append c xs ys h)

index_from-append :
    (c : ℕ) (xs ys : Bytes)
    → index_of c ys ≡ some 1
    → index_from c (length xs) (xs ++ ys) ≡ some (suc (length xs))
unfolding index_from
index_from-append c [] ys h = h
index_from-append c (x ∷ xs) ys h = ap shift (index_from-append c xs ys h)

take-append : (xs ys : Bytes) → take (length xs) (xs ++ ys) ≡ xs
unfolding take
take-append [] ys = refl
take-append (x ∷ xs) ys = ap (λ l. x ∷ l) (take-append xs ys)

drop-append : (xs ys : Bytes) (c : ℕ) → drop (suc (length xs)) (xs ++ c ∷ ys) ≡ ys
unfolding drop
drop-append [] ys c = refl
drop-append (x ∷ xs) ys c = drop-append xs ys c

-- Where the port's colon is known, host and port are.
split_authority-colon :
    (tls : Bool) (host port : Bytes)
    → port_colon (host ++ b':' ∷ port) ≡ some (length host)
    → split_authority tls (host ++ b':' ∷ port) ≡ (host, port)
unfolding split_authority
split_authority-colon tls host port e =
    rw (e, split_authority, take-append host (b':' ∷ port), drop-append host port b':') refl

-- A host name or IPv4 address: no colon, slash or bracket.
abbrev pub IsHostName : Bytes → Type 0
IsHostName host = Lacks b':' host × Lacks b'/' host × Lacks b']' host

-- An IPv6 address, without its brackets.
abbrev pub IsAddress : Bytes → Type 0
IsAddress a = Lacks b'/' a × Lacks b']' a

abbrev pub bracketed : Bytes → Bytes
bracketed a = b'[' ∷ (a ++ b']' ∷ [])

port_colon-IsHostName :
    (host port : Bytes)
    → IsHostName host
    → IsHostName port
    → port_colon (host ++ b':' ∷ port) ≡ some (length host)
unfolding port_colon
port_colon-IsHostName host port h p =
    let bare : index_of b']' (host ++ b':' ∷ port) ≡ none =
      index_of-none b']' (host ++ b':' ∷ port)
        (All-append (λ x. x ≢ b']') host (b':' ∷ port) h.2 ((omega arith), p.2)) in
    rw (last_index_of-append b':' host port p.0, port_colon, bare) refl

length-bracketed : (a : Bytes) → length (bracketed a) ≡ length a + 2
length-bracketed a = omega (arith, length-append a (b']' ∷ []))

-- In `[a]:port` the colon behind the bracket is found, whatever colons the address has.
port_colon-bracketed :
    (a port : Bytes)
    → IsAddress a
    → IsHostName port
    → port_colon (bracketed a ++ b':' ∷ port) ≡ some (length (bracketed a))
unfolding port_colon
port_colon-bracketed a port h p =
    let last = last_index_of-append b':' (bracketed a) port p.0 in
    let text : bracketed a ++ b':' ∷ port ≡ b'[' ∷ (a ++ (b']' ∷ b':' ∷ port)) =
      ap (λ l. b'[' ∷ l) (append_assoc a (b']' ∷ []) (b':' ∷ port)) in
    let bracket : index_of b']' (bracketed a ++ b':' ∷ port) ≡ some (suc (length a)) =
      rw text (index_of-append b']' (b'[' ∷ a) (b':' ∷ port) ((omega arith), h.1)) in
    let behind : index_from b':' (suc (length a)) (bracketed a ++ b':' ∷ port)
        ≡ some (length (bracketed a)) =
      rw text (
        index_from-append b':' (b'[' ∷ a) (b']' ∷ b':' ∷ port) (unfold index_of in refl)
        ∙ ap some (omega (arith, length-bracketed a))) in
    rw (last, port_colon, bracket) (ground (arith, behind, length-bracketed a))

abbrev pub IsTarget : Bytes → Type 0
IsTarget [] = Unit {0}
IsTarget (c ∷ s) = c ≡ b'/'

abbrev pub target_of : Bytes → Bytes
target_of [] = codes "/"
target_of (c ∷ s) = c ∷ s

split_target-append :
    (authority target : Bytes)
    → Lacks b'/' authority
    → IsTarget target
    → split_target (authority ++ target) ≡ (authority, target_of target)
unfolding split_target
split_target-append authority [] h _ =
    ap split_target (append-nil authority) ∙ rw (break_at-none b'/' authority h, split_target) refl
split_target-append authority (c ∷ s) h slash =
    rw (slash, split_target, break_at-append b'/' authority s h) refl

-- A URL that is put together from its scheme, authority and target comes apart into them.
parse-authority :
    (scheme authority target host port : Bytes)
    → Lacks b':' scheme
    → Lacks b'/' authority
    → IsTarget target
    → split_authority (is_tls scheme) authority ≡ (host, port)
    → parse_ws_url (scheme ++ (b':' ∷ b'/' ∷ b'/' ∷ (authority ++ target)))
      ≡ some (record {
        scheme = scheme;
        host = host;
        port = port;
        target = target_of target;
        tls = is_tls scheme;
      })
unfolding parse_ws_url
parse-authority scheme authority target host port s a t e =
    rw
      (
        break_scheme-append scheme (authority ++ target) s,
        split_target-append authority target a t,
        e,
      )
      refl

abbrev pub parts : Bytes → Bytes → Bytes → Bytes → UrlParts
parts scheme host port target = record {
  scheme = scheme;
  host = host;
  port = port;
  target = target_of target;
  tls = is_tls scheme;
}

abbrev pub url_text : Bytes → Bytes → Bytes → Bytes
url_text scheme authority target = scheme ++ (b':' ∷ b'/' ∷ b'/' ∷ (authority ++ target))

-- A URL of a scheme without a colon, a host name or a bracketed address, a port, and a target that
-- is empty or opens with a slash, where a host name and a port have no colon, slash or closing
-- bracket and an address no slash or closing bracket, is taken apart into exactly these; an empty
-- target is "/", and TLS follows from the scheme.
pub parse_ws_url-parts :
    (scheme host port target : Bytes)
    → Lacks b':' scheme
    → (IsHostName host) ⊎ ((a : Bytes) × (host ≡ bracketed a) × IsAddress a)
    → IsHostName port
    → IsTarget target
    → parse_ws_url (url_text scheme (host ++ b':' ∷ port) target)
      ≡ some (parts scheme host port target)
parse_ws_url-parts scheme host port target s (inl h) p t =
    parse-authority scheme (host ++ b':' ∷ port) target host port s
      (All-append (λ x. x ≢ b'/') host (b':' ∷ port) h.1 ((omega arith), p.1)) t
      (split_authority-colon (is_tls scheme) host port (port_colon-IsHostName host port h p))
parse_ws_url-parts scheme host port target s (inr (a, e, h)) p t = rw e (
    parse-authority scheme (bracketed a ++ b':' ∷ port) target (bracketed a) port s
      (All-append (λ x. x ≢ b'/') (bracketed a) (b':' ∷ port)
        ((omega arith), All-append (λ x. x ≢ b'/') a (b']' ∷ []) h.0 ((omega arith), tt))
        ((omega arith), p.1))
      t
      (split_authority-colon (is_tls scheme) (bracketed a) port (port_colon-bracketed a port h p)))

split_authority_none :
    (tls : Bool) (host : Bytes)
    → Lacks b':' host
    → split_authority tls host ≡ (host, default_port tls)
unfolding split_authority port_colon
split_authority_none tls host h =
    rw (last_index_of-none b':' host h, split_authority, port_colon) refl

-- A URL of a scheme without a colon, a host name without a colon, slash or closing bracket, no
-- port, and a target that is empty or opens with a slash is taken apart into these, with the port
-- of the scheme, 443 with TLS and 80 without; an empty target is "/".
parse_ws_url-default_port :
    (scheme host target : Bytes)
    → Lacks b':' scheme
    → IsHostName host
    → IsTarget target
    → parse_ws_url (url_text scheme host target)
      ≡ some (parts scheme host (default_port (is_tls scheme)) target)
parse_ws_url-default_port scheme host target s h t =
    parse-authority scheme host target host (default_port (is_tls scheme)) s h.1 t
      (split_authority_none (is_tls scheme) host h.0)

-- `[a:b]` where `b` has no colon: the last colon stands before the bracket, and is taken.
port_colon_in_address :
    (a b : Bytes)
    → IsAddress (a ++ b':' ∷ b)
    → Lacks b':' b
    → port_colon ((b'[' ∷ a) ++ b':' ∷ (b ++ b']' ∷ [])) ≡ some (length (b'[' ∷ a))
unfolding port_colon
port_colon_in_address a b h n =
    let last =
      last_index_of-append b':' (b'[' ∷ a) (b ++ b']' ∷ [])
        (All-append (λ x. x ≢ b':') b (b']' ∷ []) n ((omega arith), tt)) in
    let bracket : index_of b']' ((b'[' ∷ a) ++ b':' ∷ (b ++ b']' ∷ []))
        ≡ some (suc (length (a ++ b':' ∷ b))) =
      rw (← append_assoc a (b':' ∷ b) (b']' ∷ []))
        (index_of-append b']' (b'[' ∷ (a ++ b':' ∷ b)) [] ((omega arith), h.1)) in
    rw (last, port_colon, bracket) (ground (arith, length-append a (b':' ∷ b)))

-- A bracketed address with a colon, without a slash or closing bracket, and without a port behind
-- it, in a URL of a scheme without a colon and a target that is empty or opens with a slash, is cut
-- at its last colon: the host has no closing bracket, and the port holds it.
pub parse_ws_url_address_without_port :
    (scheme a b target : Bytes)
    → Lacks b':' scheme
    → IsAddress (a ++ b':' ∷ b)
    → Lacks b':' b
    → IsTarget target
    → parse_ws_url (url_text scheme (bracketed (a ++ b':' ∷ b)) target)
      ≡ some (parts scheme (b'[' ∷ a) (b ++ b']' ∷ []) target)
parse_ws_url_address_without_port scheme a b target s h n t =
    let text : bracketed (a ++ b':' ∷ b) ≡ (b'[' ∷ a) ++ b':' ∷ (b ++ b']' ∷ []) =
      ap (λ l. b'[' ∷ l) (append_assoc a (b':' ∷ b) (b']' ∷ [])) in
    let plain : Lacks b'/' (bracketed (a ++ b':' ∷ b)) = (
      (omega arith),
      All-append (λ x. x ≢ b'/') (a ++ b':' ∷ b) (b']' ∷ []) h.0 ((omega arith), tt),
    ) in
    ap (λ x. parse_ws_url (url_text scheme x target)) text
    ∙ parse-authority scheme ((b'[' ∷ a) ++ b':' ∷ (b ++ b']' ∷ [])) target (b'[' ∷ a)
        (b ++ b']' ∷ []) s (subst (Lacks b'/') text plain) t
        (split_authority-colon (is_tls scheme) (b'[' ∷ a) (b ++ b']' ∷ [])
          (port_colon_in_address a b h n))
