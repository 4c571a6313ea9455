-- ===== src/Proxy/RoundTrip.antt =====
-- `URI` against `ParseLine`.
use route_fork.Base.{
  ◌≤◌, ◌≡◌, refl, sym, ap, ◌∙◌, ◌≢◌, ◌⊎◌, inl, inr, false, none, some, [], ◌∷◌, ◌++◌, append_assoc,
  arith, if◌then◌else◌, Bool-cases, All-append, All-mono,
}
use route_fork.Text.{Text, codes, Lacks, ◌==ₜ◌, is_space, trim_space, has_prefix}
use route_fork.Text.Decimal.{itoa, itoa-IsDigit, atoi-itoa}
use route_fork.Text.Parts.{NoSpace, trim_space_none}
use route_fork.Proxy.{Proxy, new_proxy, address, uri}
use route_fork.Proxy.Parse.{
  match_host_port, match_auth, match_rest, match_scheme, match_uri, from_groups, parse_trimmed,
  parse_line,
}
use route_fork.Proxy.Groups.{digit_space, match_host_port-print, match_auth-none, match_auth-print}

abbrev pub IsScheme : Text → Type 0
IsScheme proto = (proto ≡ codes "socks4") ⊎ (proto ≡ codes "socks5")

-- The proxies whose URI can be read back: no field holds a byte that ends it, and there is no
-- password without a user name.
pub record IsPrintable (p : Proxy) : Type 0 where
  pub scheme : IsScheme p.proto
  pub named : p.host ≢ []
  pub host_word : NoSpace p.host
  pub host_lacks : Lacks b':' p.host
  pub low : 1 ≤ p.port
  pub high : p.port ≤ 65535
  pub user_word : NoSpace p.username
  pub user_lacks : Lacks b':' p.username
  pub user_lacks_at : Lacks b'@' p.username
  pub password_word : NoSpace p.password
  pub password_lacks : Lacks b'@' p.password
  pub no_user : p.username ≡ [] → p.password ≡ []

-- What follows the scheme in a URI.
unfoldable after_scheme : Proxy → Text
after_scheme p =
    if p.username ==ₜ [] then address p else p.username ++ b':' ∷ (p.password ++ b'@' ∷ address p)

uri-after_scheme : (p : Proxy) → uri p ≡ p.proto ++ codes "://" ++ after_scheme p
unfolding uri after_scheme
uri-after_scheme p = elim (Bool-cases (p.username ==ₜ [])) [
  | inl e ↦ rw e
  | inr e ↦ rw e (append_assoc (p.proto ++ codes "://") p.username _)
]

empty_text : (s : Text) → (s ≡ []) ⊎ ((s ≢ []) × ((s ==ₜ []) ≡ false))
empty_text [] = inl refl
empty_text (c ∷ s) = inr ((λ e. cc), refl)

match_rest_auth :
    (s : Text) (m : Text × Text × Text × Text) → match_auth s ≡ some m → match_rest s ≡ some m
unfolding match_rest
match_rest_auth s m e = rw (e, match_rest)

match_rest_plain :
    (s host port : Text)
    → match_auth s ≡ none
    → match_host_port s ≡ some (host, port)
    → match_rest s ≡ some ([], [], host, port)
unfolding match_rest
match_rest_plain s host port e e' = rw (e, match_rest) (rw e')

after_scheme_plain : (p : Proxy) → p.username ≡ [] → after_scheme p ≡ p.host ++ b':' ∷ itoa p.port
unfolding after_scheme address
after_scheme_plain p e = rw e

after_scheme_user :
    (p : Proxy)
    → (p.username ==ₜ []) ≡ false
    → after_scheme p ≡ p.username ++ b':' ∷ (p.password ++ b'@' ∷ (p.host ++ b':' ∷ itoa p.port))
unfolding after_scheme address
after_scheme_user p e = rw e

match_rest-print :
    (p : Proxy)
    → IsPrintable p
    → match_rest (after_scheme p) ≡ some (p.username, p.password, p.host, itoa p.port)
match_rest-print p v =
    let found = match_host_port-print p.host p.port v.named v.host_word v.host_lacks in
    elim (empty_text p.username) [
      | inl e ↦
          rw (after_scheme_plain p e, e, v.no_user e)
            (match_rest_plain _ p.host (itoa p.port) (match_auth-none p.host p.port v.host_lacks)
              found)
      | inr (ne, e) ↦ rw (after_scheme_user p e) (
          match_rest_auth _ (p.username, p.password, p.host, itoa p.port)
            (match_auth-print p.username p.password p.host p.port ne v.user_word v.user_lacks
              v.user_lacks_at v.password_word v.password_lacks found))
    ]

match_scheme-print :
    (proto rest : Text)
    → IsScheme proto
    → match_scheme (proto ++ codes "://" ++ rest) ≡ some (proto, rest)
unfolding match_scheme
match_scheme-print proto rest (inl e) = rw e
match_scheme-print proto rest (inr e) = rw e

match_uri-parts :
    (line scheme rest user password host port : Text)
    → match_scheme line ≡ some (scheme, rest)
    → match_rest rest ≡ some (user, password, host, port)
    → match_uri line ≡ some (scheme, user, password, host, port)
unfolding match_uri
match_uri-parts line scheme rest user password host port e e' = rw (e, match_uri) (rw e')

match_uri-print :
    (p : Proxy)
    → IsPrintable p
    → match_uri (uri p) ≡ some (p.proto, p.username, p.password, p.host, itoa p.port)
match_uri-print p v = rw (uri-after_scheme p) (
    match_uri-parts _ p.proto (after_scheme p) p.username p.password p.host (itoa p.port)
      (match_scheme-print p.proto (after_scheme p) v.scheme) (match_rest-print p v))

from_groups-print :
    (p : Proxy)
    → 1 ≤ p.port
    → p.port ≤ 65535
    → from_groups (p.proto, p.username, p.password, p.host, itoa p.port)
      ≡ some (new_proxy p.host p.port p.proto p.username p.password)
unfolding from_groups
from_groups-print p low high = rw (atoi-itoa p.port (omega arith)) (ground arith)

starts_plainly :
    (proto rest : Text)
    → IsScheme proto
    → ((proto ++ codes "://" ++ rest ==ₜ []) ≡ false)
      × (has_prefix (proto ++ codes "://" ++ rest) (codes "#") ≡ false)
unfolding has_prefix
starts_plainly proto rest (inl e) = rw e (refl, refl)
starts_plainly proto rest (inr e) = rw e (refl, refl)

parse_trimmed_uri :
    (line : Text) (groups : Text × Text × Text × Text × Text)
    → (line ==ₜ []) ≡ false
    → has_prefix line (codes "#") ≡ false
    → match_uri line ≡ some groups
    → parse_trimmed line ≡ from_groups groups
unfolding parse_trimmed
parse_trimmed_uri line groups a b e = rw (a, b) (rw e)

scheme_word : (proto : Text) → IsScheme proto → NoSpace proto
unfolding is_space
scheme_word proto (inl e) = rw e (refl, (refl, (refl, (refl, (refl, (refl, tt))))))
scheme_word proto (inr e) = rw e (refl, (refl, (refl, (refl, (refl, (refl, tt))))))

address_word : (p : Proxy) → IsPrintable p → NoSpace (address p)
unfolding address is_space
address_word p v =
    All-append _ p.host (b':' ∷ itoa p.port) v.host_word
      (refl, All-mono digit_space (itoa p.port) (itoa-IsDigit p.port))

after_scheme_word : (p : Proxy) → IsPrintable p → NoSpace (after_scheme p)
unfolding after_scheme is_space
after_scheme_word p v = elim (Bool-cases (p.username ==ₜ [])) [
  | inl e ↦ rw e (address_word p v)
  | inr e ↦ rw e (
      All-append _ p.username _ v.user_word
        (refl, All-append _ p.password (b'@' ∷ address p) v.password_word (refl, address_word p v)))
]

uri_word : (p : Proxy) → IsPrintable p → NoSpace (uri p)
unfolding is_space
uri_word p v = rw (uri-after_scheme p) (
    All-append _ (p.proto ++ codes "://") (after_scheme p)
      (All-append _ p.proto (codes "://") (scheme_word p.proto v.scheme) (refl, (refl, (refl, tt))))
      (after_scheme_word p v))

parse_trimmed-uri :
    (p : Proxy)
    → IsPrintable p
    → parse_trimmed (uri p) ≡ some (new_proxy p.host p.port p.proto p.username p.password)
parse_trimmed-uri p v =
    let (a, b) = starts_plainly p.proto (after_scheme p) v.scheme in
    let e = sym (uri-after_scheme p) in
    parse_trimmed_uri (uri p) (p.proto, p.username, p.password, p.host, itoa p.port) (rw e at a)
      (rw e at b) (match_uri-print p v)
    ∙ from_groups-print p v.low v.high

parse_line_trim : (line : Text) → parse_line line ≡ parse_trimmed (trim_space line)
unfolding parse_line
parse_line_trim line = refl

-- `ParseLine` reads back the host, port, protocol, user name and password from the URI of a printable
-- proxy: of SOCKS4 or SOCKS5, with a host, a port from 1 to 65535, no white space in the host, the user
-- name and the password, no colon in the host, no colon and no @ in the user name, no @ in the
-- password, and no password without a user name.
pub parse_line-uri :
    (p : Proxy)
    → IsPrintable p
    → parse_line (uri p) ≡ some (new_proxy p.host p.port p.proto p.username p.password)
parse_line-uri p v =
    parse_line_trim (uri p)
    ∙ ap parse_trimmed (trim_space_none (uri p) (uri_word p v))
    ∙ parse_trimmed-uri p v
