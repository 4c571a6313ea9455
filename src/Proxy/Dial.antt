-- ===== src/Proxy/Dial.antt =====
-- `DialThroughProxy`, `Validate`, `FetchEgressIP` and `socks4Handshake` of proxy/validate.go. What a
-- dial to the proxy comes to is an argument, and so are the first address that the resolver has for
-- a host, the texts that are IPv6 addresses with their IPv4 form, if any, and the country of an
-- address. A check is given the clock's readings at its start and its end.
pub mod Fetch
mod Examples
use route_fork.Base.{
  ℕ, zero, suc, ◌+◌, ◌-◌, ◌*◌, ◌/◌, ◌%◌, ◌^◌, ◌≤◌, ◌<◌, ◌≡◌, refl, sym, ap, ◌∙◌, subst, ◌≢◌, ◌↔◌,
  ◌⊎◌, inl, inr, Bool, true, false, not, ◌&&◌, ◌||◌, Option, none, some, List, [], ◌∷◌, ◌++◌, map,
  append-nil, append_assoc, arith, ltb, leb, ◌==◌, if◌then◌else◌, leb→le, not_leb, ==_iff,
  Bool-cases, Option-cases, length, get_elem?, get_or, length-append, get_elem?-lt, take, drop,
  take-drop, length-take, same_front, All, All-append, All-left, All-right, All-mono,
}
use route_fork.Base.Result.{Result, ok, err}
use route_fork.Text.{
  Text, codes, Lacks, ◌==ₜ◌, is_space, trim_left, trim_space, has_prefix, contains, cons_head,
  split, split_n, join, fields, lower, upper, to_lower, to_upper,
}
use route_fork.Text.Hex.{hex_byte}
use route_fork.Net.{Conn, Session, Reply, chain, ◌>>=◌, ◌>>◌, fail, return, write, read, byte}
use route_fork.Net.Ip.{parse_ipv4}
use route_fork.Net.Socks.{port_bytes}
use route_fork.Proxy.{Proxy}
use route_fork.Proxy.Handshake.{socks5_handshake}
use route_fork.Proxy.Egress.{extract_public_ip}

pub record Resolver : Type 0 where
  pub look_up : Text → Option Text
  pub parse_ipv6 : Text → Option (Option Text)

-- net.ParseIP: an address with its four bytes, if it has them
unfoldable pub parse_ip : Resolver → Text → Option (Option Text)
parse_ip r s = elim (parse_ipv4 s) [ some ip ↦ some (some ip) | none ↦ r.parse_ipv6 s ]

-- The four bytes of a parsed address; `To4` has none of a missing one.
abbrev pub to4 : Option (Option Text) → Option Text
to4 none = none
to4 (some ip) = ip

abbrev pub ipv4_or_error : Option Text → Result Text Text
ipv4_or_error none = err (codes "SOCKS4 requires IPv4")
ipv4_or_error (some ip) = ok ip

unfoldable pub socks4_address : Resolver → Text → Result Text Text
unfolding parse_ip
socks4_address r host = elim (parse_ip r host) [
  | some ip ↦ ipv4_or_error ip
  | none ↦ (elim (r.look_up host) [
    | none ↦ err (codes "DNS resolution failed")
    | some addr ↦ ipv4_or_error (to4 (parse_ip r addr))
  ])
]

unfoldable pub socks4_error : ℕ → Text
socks4_error n =
    if n == 0x5b
    then codes "request rejected"
    else if n == 0x5c
    then codes "cannot connect to identd"
    else if n == 0x5d
    then codes "identd mismatch"
    else codes "SOCKS4 code 0x" ++ hex_byte n

unfoldable pub socks4_request : Text → ℕ → Text
unfolding port_bytes
socks4_request ip port = (4 ∷ 1 ∷ port_bytes port) ++ (ip ++ 0 ∷ [])

abbrev pub resolved : Result Text Text → Session Text
resolved (ok ip) = return ip
resolved (err e) = fail e

unfoldable pub socks4_handshake : Resolver → Text → ℕ → Session Unit
unfolding socks4_address socks4_error socks4_request
socks4_handshake r host port = do
  ip ← resolved (socks4_address r host)
  write (socks4_request ip port)
  resp ← read 8
  if byte resp 1 == 0x5a then return tt else fail (socks4_error (byte resp 1))

abbrev pub handshake : Resolver → Proxy → Text → ℕ → Session Unit
handshake r p host port =
    if p.proto ==ₜ codes "socks5"
    then socks5_handshake host port p.username p.password
    else socks4_handshake r host port

abbrev pub opened : Reply Unit → Result Text Conn
opened (ok u, c) = ok c
opened (err e, c) = err e

unfoldable pub dial_through_proxy :
    Resolver → Result Text Conn → Proxy → Text → ℕ → Result Text Conn
dial_through_proxy r (err e) p host port = err e
dial_through_proxy r (ok conn) p host port = opened (handshake r p host port conn)

-- The result, the latency and the error text.
abbrev pub checked : ℕ → ℕ → Reply Unit → Bool × ℕ × Text
checked t0 t1 (ok u, c) = (true, (t1 - t0) / 1000000, [])
checked t0 t1 (err e, c) = (false, 0, e)

unfoldable pub validate : Resolver → Result Text Conn → ℕ → ℕ → Proxy → Text → ℕ → Bool × ℕ × Text
validate r (err e) t0 t1 p test_host test_port = (false, 0, e)
validate r (ok conn) t0 t1 p test_host test_port =
    checked t0 t1 (handshake r p test_host test_port conn)

-- The loop that fills the buffer of 2048 bytes; a read gets a byte at least, so 2048 rounds do.
unfoldable pub read_rest : ℕ → Text → Conn → Text
read_rest zero got c = got
read_rest (suc rounds) got c =
    let (result, c') = read (2048 - length got) c in
    if ltb (length got) 2048
    then (elim result [ err e ↦ got | ok bs ↦ read_rest rounds (got ++ bs) c' ])
    else got

abbrev pub blank_line : Text
blank_line = 13 ∷ 10 ∷ 13 ∷ 10 ∷ []

-- What follows the headers, if they end.
unfoldable pub after_headers : Text → Option Text
unfolding has_prefix
after_headers [] = none
after_headers (c ∷ s) =
    let later = after_headers s in
    if has_prefix (c ∷ s) blank_line then some (drop 4 (c ∷ s)) else later

unfoldable pub egress_request : Text → Text
egress_request host =
    codes "GET / HTTP/1.0\r\nHost: " ++ host ++ codes "\r\nConnection: close\r\n\r\n"

-- What a service answers.
abbrev pub answer_after : Reply Unit → Option Text
answer_after (err e, c) = none
answer_after (ok u, c) = after_headers (read_rest 2048 [] c)

-- A service with its place in the list.
pub record Service : Type 0 where
  pub place : ℕ
  pub host : Text
  pub port : ℕ

abbrev pub services : List Service
services =
    record { place = 0; host = codes "portquiz.net"; port = 8080 }
    ∷ record { place = 1; host = codes "api.ipify.org"; port = 80 }
    ∷ record { place = 2; host = codes "checkip.amazonaws.com"; port = 80 }
    ∷ []

module _ (r : Resolver) (dial : ℕ → Result Text Conn) (country : Text → Text) (p : Proxy) where
  -- The body that comes back from a service through the proxy, if one does.
  unfoldable pub body_of : Service → Option Text
  unfolding dial_through_proxy read_rest after_headers egress_request
  body_of s = elim (dial_through_proxy r (dial s.place) p s.host s.port) [
    | err e ↦ none
    | ok conn ↦ answer_after (write (egress_request s.host) conn)
  ]

  unfoldable pub egress_seen : Service → Text
  unfolding body_of
  egress_seen s = elim (body_of s) [ none ↦ [] | some body ↦ extract_public_ip body ]

  abbrev pub found_egress : Text → Result Text Text × Proxy
  found_egress ip = (ok ip, record p { egress_ip = ip; country = country ip })

  -- The loop over the services.
  unfoldable pub fetch_from : List Service → Result Text Text × Proxy
  unfolding egress_seen
  fetch_from [] = (err (codes "could not determine egress IP"), p)
  fetch_from (s ∷ rest) =
      let later = fetch_from rest in
      let ip = egress_seen s in if not (ip ==ₜ []) then found_egress ip else later

  unfoldable pub fetch_egress_ip : Result Text Text × Proxy
  unfolding fetch_from
  fetch_egress_ip = fetch_from services
