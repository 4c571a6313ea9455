-- ===== src/Relay.antt =====
-- relay/relay.go: the bridge from a SOCKS4 client to a proxy. `net.DialTimeout` is the argument
-- `dial`, and the copying of bytes both ways after the reply is left to `io.Copy`: a `Handled`
-- names the connection that it would run with.
pub mod Tunnel
pub mod Bridge
pub mod Splices
mod Examples
pub mod Granted
pub mod Requests
use route_fork.Base.{
  ℕ, zero, suc, ◌+◌, ◌-◌, ◌*◌, ◌/◌, ◌%◌, ◌^◌, ◌≤◌, ◌<◌, ◌≡◌, refl, sym, ap, ◌∙◌, subst, ◌≢◌, ◌↔◌,
  ◌⊎◌, inl, inr, Bool, true, false, not, ◌&&◌, ◌||◌, Option, none, some, List, [], ◌∷◌, ◌++◌, map,
  append-nil, append_assoc, arith, ltb, leb, ◌==◌, if◌then◌else◌, leb→le, not_leb, ==_iff,
  Bool-cases, Option-cases, length, get_elem?, get_or, length-append, get_elem?-lt, take, drop,
  take-drop, length-take, same_front, All, All-append, All-left, All-right, All-mono,
}
use route_fork.Base.Result.{Result, ok, err}
use route_fork.Text.{
  Text, codes, Lacks, ◌==ₜ◌, is_space, trim_left, trim_space, has_prefix, contains, cons_head,
  split, split_n, join, fields, lower, upper, to_lower, to_upper,
}
use route_fork.Text.Decimal.{itoa}
use route_fork.Text.Hex.{hex_byte}
pub use route_fork.Net.{byte}
use route_fork.Net.{Conn, Session, Reply, chain, ◌>>=◌, ◌>>◌, fail, return, write, read_full}
use route_fork.Net.Ip.{dotted}
use route_fork.Net.Socks.{port_bytes, greeting, login, connect_request, socks4a_request}
use route_fork.Proxy.{Proxy, address}

-- The switch on the method that the proxy chose.
unfoldable pub authenticate : ℕ → Text → Text → Session Unit
authenticate method user pass =
    if method == 255
    then fail (codes "no acceptable auth method")
    else if method == 2
    then (if user ==ₜ [] then fail (codes "auth required") else do
      write (login user pass)
      ar ← read_full 2
      if byte ar 1 == 0 then return tt else fail (codes "authentication failed"))
    else return tt

unfoldable pub reply_error : ℕ → Text
reply_error n =
    if n == 1
    then codes "SOCKS5: general failure"
    else if n == 2
    then codes "SOCKS5: not allowed"
    else if n == 3
    then codes "SOCKS5: network unreachable"
    else if n == 4
    then codes "SOCKS5: host unreachable"
    else if n == 5
    then codes "SOCKS5: connection refused"
    else codes "SOCKS5 error 0x" ++ hex_byte n

-- A call whose error is not looked at.
abbrev pub ignore : {A : Type 0} → Session A → Session Unit
ignore m c = (ok tt, (m c).1)

-- The length byte stays 0 when it cannot be read.
drain_domain : Session Unit
drain_domain c = by_length (read_full 1 c)
  where
    by_length : Reply Text → Reply Unit
    by_length (ok lb, c') = ignore (read_full (byte lb 0 + 2)) c'
    by_length (err e, c') = ignore (read_full 2) c'

unfoldable pub drain_bound : ℕ → Session Unit
unfolding drain_domain
drain_bound atyp =
    if atyp == 1
    then ignore (read_full 6)
    else if atyp == 3
    then drain_domain
    else if atyp == 4
    then ignore (read_full 18)
    else return tt

unfoldable pub socks5_connect : Text → ℕ → Text → Text → Session Unit
socks5_connect host port user pass = do
  write (greeting user)
  resp ← read_full 2
  if byte resp 0 == 5 then return tt else fail (codes "not a SOCKS5 server")
  authenticate (byte resp 1) user pass
  write (connect_request host port)
  hdr ← read_full 4
  if byte hdr 1 == 0 then return tt else fail (reply_error (byte hdr 1))
  drain_bound (byte hdr 3)

unfoldable pub rejected : ℕ → Text
rejected code = codes "SOCKS4a rejected (code " ++ hex_byte code ++ codes ")"

unfoldable pub socks4a_connect : Text → ℕ → Session Unit
socks4a_connect host port = do
  write (socks4a_request host port)
  resp ← read_full 8
  if byte resp 1 == 90 then return tt else fail (rejected (byte resp 1))

-- The bytes up to the next 0, behind those read so far, and the segments after it: within a
-- segment, and then in those that follow. `Read` gets one byte at a time.
unfoldable pub scan_segment :
    Text → List Text → (Text → Option (Text × List Text)) → Text → Option (Text × List Text)
scan_segment [] ss later out = later out
scan_segment (b ∷ s) ss later out =
    let more = scan_segment s ss later (out ++ b ∷ []) in
    if b == 0 then some (out, s ∷ ss) else more

unfoldable pub scan_string : List Text → Text → Option (Text × List Text)
unfolding scan_segment
scan_string [] out = none
scan_string (s ∷ ss) out = scan_segment s ss (scan_string ss) out

unfoldable pub read_string_until_null : Session Text
unfolding scan_string
read_string_until_null c = elim (scan_string c.segments []) [
  | none ↦ (err c.closing, record c { segments = [] })
  | some (out, ss) ↦ (ok out, record c { segments = ss })
]

unfoldable pub read_until_null : Session Unit
unfolding read_string_until_null
read_until_null = do out ← read_string_until_null; return tt

pub record Request : Type 0 where
  pub port : ℕ
  pub ip : Text
  pub host : Text

unfoldable pub target_host : Text → Session Text
target_host ip =
    if byte ip 0 == 0 && byte ip 1 == 0 && byte ip 2 == 0 && not (byte ip 3 == 0)
    then read_string_until_null
    else return (dotted ip)

-- The part of `handle` that reads the request. It returns silently on an error.
unfoldable pub read_request : Session Request
read_request = do
  hdr ← read_full 8
  if byte hdr 0 == 4 && byte hdr 1 == 1 then return tt else fail []
  read_until_null
  host ← target_host (drop 4 hdr)
  return (record { port = byte hdr 2 * 256 + byte hdr 3; ip = drop 4 hdr; host = host })

-- A handshake that fails closes the connection.
unfoldable pub shaken : Reply Unit → Result Text Conn
shaken (ok u, c) = ok c
shaken (err e, c) = err e

unfoldable pub dial_upstream : Proxy → Result Text Conn → Text → ℕ → Result Text Conn
unfolding shaken
dial_upstream px (err e) host port = err e
dial_upstream px (ok conn) host port =
    if px.proto ==ₜ codes "socks5"
    then shaken (socks5_connect host port px.username px.password conn)
    else shaken (socks4a_connect host port conn)

unfoldable pub socks4_reply : ℕ → ℕ → Text → Text
unfolding port_bytes
socks4_reply code port ip = 0 ∷ code ∷ port_bytes port ++ ip

pub record Handled : Type 0 where
  pub client : Conn
  -- the upstream connection, if its bytes are copied to the client and back
  pub spliced : Option Conn
  pub log : List Text

-- ` → `, in UTF-8
abbrev pub arrow : Text
arrow = 32 ∷ 226 ∷ 134 ∷ 146 ∷ 32 ∷ []

unfoldable pub log_line : Proxy → Text → Request → Text → Text
log_line px mark r tail = mark ++ address px ++ arrow ++ r.host ++ b':' ∷ itoa r.port ++ tail

unfoldable pub reply_client : Proxy → Request → Conn → Reply Unit → Handled
unfolding log_line
reply_client px r upstream (err e, client) = record { client = client; spliced = none; log = [] }
reply_client px r upstream (ok u, client) = record {
  client = client;
  spliced = some upstream;
  log = log_line px (codes "[~] relay: ") r (codes " OK\n") ∷ [];
}

unfoldable pub tunnel : Proxy → Request → Result Text Conn → Conn → Handled
unfolding reply_client
tunnel px r (err e) client = record {
  client = client;
  spliced = none;
  log = log_line px (codes "[-] relay: ") r (codes " FAILED: " ++ e ++ codes "\n") ∷ [];
}
tunnel px r (ok upstream) client =
    reply_client px r upstream (write (socks4_reply 90 r.port r.ip) client)

unfoldable pub serve_request : Proxy → (Text → Result Text Conn) → Reply Request → Handled
unfolding tunnel
serve_request px dial (err e, client) = record { client = client; spliced = none; log = [] }
serve_request px dial (ok r, client) =
    tunnel px r (dial_upstream px (dial (address px)) r.host r.port) client

unfoldable pub handle : Proxy → (Text → Result Text Conn) → Conn → Handled
unfolding serve_request
handle px dial client = serve_request px dial (read_request client)
