-- ===== src/Proxy/Parse.antt =====
-- `ParseLine` and `ParseAll` of proxy/proxy.go. The expression `uriRE` is written out: each of its
-- groups ends at the first byte that the group excludes, so a match needs no search.
use route_fork.Base.{
  ℕ, ◌≡◌, refl, Bool, true, false, not, ◌&&◌, ◌||◌, Option, none, some, List, [], ◌∷◌, ◌++◌, leb,
  ◌==◌, if◌then◌else◌,
}
use route_fork.Base.Int.{ℤ, pos, ltb_ℤ, to_ℕ}
use route_fork.Text.{Text, codes, ◌==ₜ◌, trim_space, has_prefix, split, fields, to_lower}
use route_fork.Text.Decimal.{atoi, itoa}
use route_fork.Proxy.{Proxy, new_proxy}

-- `\s` of a Go expression
unfoldable pub is_blank : ℕ → Bool
is_blank c = c == 9 || c == 10 || c == 12 || c == 13 || c == 32

unfoldable pub is_digit : ℕ → Bool
is_digit c = leb b'0' c && leb c b'9'

unfoldable pub all_bytes : (ℕ → Bool) → Text → Bool
all_bytes p [] = true
all_bytes p (c ∷ s) = p c && all_bytes p s

-- The text before and after the first `sep`.
unfoldable pub cut : ℕ → Text → Option (Text × Text)
cut sep [] = none
cut sep (c ∷ s) =
    let rest = cut sep s in
    if c == sep then some ([], s) else elim rest [ none ↦ none | some (a, b) ↦ some (c ∷ a, b) ]

unfoldable pub nonempty_without : (ℕ → Bool) → Text → Bool
unfolding all_bytes
nonempty_without p [] = false
nonempty_without p (c ∷ s) = all_bytes (λ b. not (p b)) (c ∷ s)

-- `([^:\s]+):(\d+)$`
unfoldable pub match_host_port : Text → Option (Text × Text)
unfolding cut nonempty_without is_digit is_blank
match_host_port s = elim (cut b':' s) [
  | none ↦ none
  | some (host, port) ↦
      if nonempty_without is_blank host && nonempty_without (λ c. not (is_digit c)) port
      then some (host, port)
      else none
]

-- `([^:@\s]+):([^@\s]*)@` and then the host and port
unfoldable pub match_auth : Text → Option (Text × Text × Text × Text)
unfolding match_host_port
match_auth s = elim (cut b':' s) [
  | none ↦ none
  | some (user, after) ↦ elim (cut b'@' after) [
    | none ↦ none
    | some (password, rest) ↦ elim (match_host_port rest) [
      | none ↦ none
      | some (host, port) ↦
          if nonempty_without (λ c. c == b'@' || is_blank c) user
            && all_bytes (λ c. not (is_blank c)) password
          then some (user, password, host, port)
          else none
    ]
  ]
]

-- The optional group is tried first.
unfoldable pub match_rest : Text → Option (Text × Text × Text × Text)
unfolding match_auth
match_rest s = elim (match_auth s) [
  | some m ↦ some m
  | none ↦ elim (match_host_port s) [ none ↦ none | some (host, port) ↦ some ([], [], host, port) ]
]

-- `(?i)^(socks[45])://`: the scheme in lower case, and what follows
unfoldable pub match_scheme : Text → Option (Text × Text)
unfolding to_lower has_prefix
match_scheme (a ∷ (b ∷ (c ∷ (d ∷ (e ∷ (f ∷ (x ∷ (y ∷ (z ∷ rest))))))))) =
    let scheme = to_lower (a ∷ b ∷ c ∷ d ∷ e ∷ f ∷ []) in
    if ((scheme ==ₜ codes "socks4") || (scheme ==ₜ codes "socks5"))
      && ((x ∷ y ∷ z ∷ []) ==ₜ codes "://")
    then some (scheme, rest)
    else none
match_scheme _ = none

-- The groups 1 to 5.
unfoldable pub match_uri : Text → Option (Text × Text × Text × Text × Text)
unfolding match_scheme match_rest
match_uri line = elim (match_scheme line) [
  | none ↦ none
  | some (scheme, rest) ↦ elim (match_rest rest) [
    | none ↦ none
    | some (user, password, host, port) ↦ some (scheme, user, password, host, port)
  ]
]

unfoldable pub valid_port : ℤ → Bool
valid_port n = not (ltb_ℤ n (pos 1)) && not (ltb_ℤ (pos 65535) n)

-- A match decides: the port's conversion error is dropped, since its value is then out of range.
unfoldable pub from_groups : Text × Text × Text × Text × Text → Option Proxy
unfolding valid_port
from_groups (scheme, user, password, host, digits) =
    let port = (atoi digits).0 in
    if valid_port port then some (new_proxy host (to_ℕ port) scheme user password) else none

-- `break` out of the switch is `none`.
unfoldable pub from_parts : List Text → Option Proxy
unfolding valid_port
from_parts (host ∷ (digits ∷ (user ∷ (password ∷ [])))) =
    let (port, parsed) = atoi digits in
    if not parsed || not (valid_port port) || (host ==ₜ [])
    then none
    else some (new_proxy host (to_ℕ port) (codes "socks5") user password)
from_parts (host ∷ (digits ∷ [])) =
    let (port, parsed) = atoi digits in
    if not parsed || not (valid_port port) || (host ==ₜ [])
    then none
    else some (new_proxy host (to_ℕ port) (codes "socks5") [] [])
from_parts _ = none

unfoldable pub from_fields : List Text → Option Proxy
unfolding valid_port
from_fields (host ∷ (digits ∷ [])) =
    let (port, parsed) = atoi digits in
    if parsed && valid_port port
    then some (new_proxy host (to_ℕ port) (codes "socks5") [] [])
    else none
from_fields _ = none

-- `ParseLine` behind the trim.
unfoldable pub parse_trimmed : Text → Option Proxy
unfolding from_groups from_parts from_fields
parse_trimmed line =
    if (line ==ₜ []) || has_prefix line (codes "#") then none else elim (match_uri line) [
      | some groups ↦ from_groups groups
      | none ↦ elim (from_parts (split line b':')) [
        | some p ↦ some p
        | none ↦ from_fields (fields line)
      ]
    ]

unfoldable pub parse_line : Text → Option Proxy
unfolding parse_trimmed
parse_line line = parse_trimmed (trim_space line)

-- "%s:%d:%s"
unfoldable pub key : Proxy → Text
key p = p.host ++ b':' ∷ (itoa p.port ++ b':' ∷ p.proto)

unfoldable pub mem_text : Text → List Text → Bool
mem_text k [] = false
mem_text k (s ∷ seen) = (k ==ₜ s) || mem_text k seen

-- One round of the loop over the lines, on its variables `seen` and `out`.
unfoldable pub add_proxy : Option Proxy → List Text × List Proxy → List Text × List Proxy
unfolding mem_text
add_proxy none (seen, out) = (seen, out)
add_proxy (some p) (seen, out) =
    if mem_text (key p) seen then (seen, out) else (key p ∷ seen, out ++ p ∷ [])

unfoldable pub add_lines : List Text → List Text × List Proxy → List Text × List Proxy
unfolding add_proxy
add_lines [] state = state
add_lines (line ∷ lines) state = add_lines lines (add_proxy (parse_line line) state)

unfoldable pub parse_all : Text → List Proxy
unfolding add_lines
parse_all text = (add_lines (split text b'\n') ([], [])).1

parse_test :
    parse_line (codes "  SOCKS4://me:a:b@h:81\n")
    ≡ some (new_proxy (codes "h") 81 (codes "socks4") (codes "me") (codes "a:b"))
unfolding parse_line match_uri trim_space atoi all_bytes
parse_test = refl

fields_test :
    parse_line (codes "10.0.0.1 1080")
    ≡ some (new_proxy (codes "10.0.0.1") 1080 (codes "socks5") [] [])
unfolding parse_line match_uri trim_space atoi split fields
fields_test = refl
