-- ===== src/Proxy/Handshake.antt =====
-- `socks5Handshake` of proxy/validate.go: the handshake of the checks and of the scanner's dials. It
-- reads with single calls of `Read`; a buffer that is not filled keeps its zeros.
pub mod Granted
mod Examples
use route_fork.Base.{
  ℕ, zero, suc, ◌+◌, ◌-◌, ◌*◌, ◌/◌, ◌%◌, ◌^◌, ◌≤◌, ◌<◌, ◌≡◌, refl, sym, ap, ◌∙◌, subst, ◌≢◌, ◌↔◌,
  ◌⊎◌, inl, inr, Bool, true, false, not, ◌&&◌, ◌||◌, Option, none, some, List, [], ◌∷◌, ◌++◌, map,
  append-nil, append_assoc, arith, ltb, leb, ◌==◌, if◌then◌else◌, leb→le, not_leb, ==_iff,
  Bool-cases, Option-cases, length, get_elem?, get_or, length-append, get_elem?-lt, take, drop,
  take-drop, length-take, same_front, All, All-append, All-left, All-right, All-mono,
}
use route_fork.Base.Result.{Result, ok, err}
use route_fork.Text.{
  Text, codes, Lacks, ◌==ₜ◌, is_space, trim_left, trim_space, has_prefix, contains, cons_head,
  split, split_n, join, fields, lower, upper, to_lower, to_upper,
}
use route_fork.Text.Hex.{hex_byte}
use route_fork.Net.{
  Conn, Session, Reply, chain, ◌>>=◌, ◌>>◌, fail, return, write, written, read, take_segment,
  incoming, concat, byte,
}
use route_fork.Net.Reading.{first_result, write-took, write-lem, test_passed, no_reply, reply_parts}
use route_fork.Net.Socks.{greeting, login, connect_request}
use route_fork.Net.Server.{IsLogin, without, password, credentials, ==ₜ_nil}

unfoldable pub choose : ℕ → Text → Text → Session Unit
choose method user pass =
    if method == 255
    then fail (codes "no acceptable auth method")
    else if method == 2
    then (if user ==ₜ [] then fail (codes "auth required but no credentials") else do
      write (login user pass)
      ar ← read 2
      if byte ar 1 == 0 then return tt else fail (codes "authentication failed"))
    else return tt

unfoldable pub handshake_error : ℕ → Text
handshake_error n =
    if n == 1
    then codes "general failure"
    else if n == 2
    then codes "not allowed"
    else if n == 3
    then codes "network unreachable"
    else if n == 4
    then codes "host unreachable"
    else if n == 5
    then codes "connection refused"
    else if n == 6
    then codes "TTL expired"
    else codes "SOCKS5 error 0x" ++ hex_byte n

abbrev pub no_response : {A : Type 0} → Session A
no_response = fail (codes "no CONNECT response")

-- The error of the last read is replaced.
abbrev pub or_no_response : Reply Text → Reply Text
or_no_response (ok bs, c) = (ok bs, c)
or_no_response (err e, c) = no_response c

abbrev pub read_reply : Session Text
read_reply c = or_no_response (read 262 c)

-- Success is `ok`, and an error is its `errStr`.
unfoldable pub socks5_handshake : Text → ℕ → Text → Text → Session Unit
socks5_handshake host port user pass = do
  write (greeting user)
  resp ← read 2
  if byte resp 0 == 5 then return tt else fail (codes "not a SOCKS5 server")
  choose (byte resp 1) user pass
  write (connect_request host port)
  buf ← read_reply
  if leb 2 (length buf) then return tt else no_response
  if byte buf 1 == 0 then return tt else fail (handshake_error (byte buf 1))
