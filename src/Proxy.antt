-- ===== src/Proxy.antt =====
-- The record `Proxy` of proxy/proxy.go and the texts that are printed of it.
pub mod Errors
pub mod Handshake
pub mod Egress
pub mod Dial
pub mod Parse
pub mod Groups
pub mod RoundTrip
pub mod Dedupe
mod Examples
use route_fork.Base.{
  ℕ, zero, suc, ◌+◌, ◌-◌, ◌*◌, ◌/◌, ◌%◌, ◌^◌, ◌≤◌, ◌<◌, ◌≡◌, refl, sym, ap, ◌∙◌, subst, ◌≢◌, ◌↔◌,
  ◌⊎◌, inl, inr, Bool, true, false, not, ◌&&◌, ◌||◌, Option, none, some, List, [], ◌∷◌, ◌++◌, map,
  append-nil, append_assoc, arith, ltb, leb, ◌==◌, if◌then◌else◌, leb→le, ==_iff, Bool-cases,
  Option-cases, length, get_elem?, get_or, length-append, get_elem?-lt, All, All-append, All-left,
  All-right, All-mono,
}
use route_fork.Text.{
  Text, codes, Lacks, ◌==ₜ◌, is_space, trim_left, trim_space, has_prefix, contains, cons_head,
  split, split_n, join, fields, lower, upper, to_lower, to_upper,
}
use route_fork.Text.Decimal.{itoa}

pub data Status : Type 0 where
  pending valid invalid : Status

-- `LatencyMs` is a float64 that only ever holds a whole number of milliseconds.
pub record Proxy : Type 0 where
  pub host : Text
  pub port : ℕ
  pub proto : Text
  pub username : Text
  pub password : Text
  pub latency_ms : ℕ
  pub status : Status
  pub fail_reason : Text
  pub egress_ip : Text
  pub country : Text

-- A proxy as the parsers make it: the fields that they do not set are zero.
unfoldable pub new_proxy : Text → ℕ → Text → Text → Text → Proxy
new_proxy host port proto username password = record {
  host = host;
  port = port;
  proto = proto;
  username = username;
  password = password;
  latency_ms = 0;
  status = pending;
  fail_reason = [];
  egress_ip = [];
  country = [];
}

-- "%s:%d"
unfoldable pub address : Proxy → Text
address p = p.host ++ b':' ∷ itoa p.port

-- "%s://%s:%s@%s:%d", or "%s://%s:%d" without a user name
unfoldable pub uri : Proxy → Text
unfolding address
uri p =
    if p.username ==ₜ []
    then p.proto ++ codes "://" ++ address p
    else p.proto ++ codes "://" ++ p.username ++ b':' ∷ (p.password ++ b'@' ∷ address p)

spaces : ℕ → Text
spaces zero = []
spaces (suc n) = b' ' ∷ spaces n

-- "%-{w}s"
unfoldable pub pad_right : ℕ → Text → Text
unfolding spaces
pad_right w s = s ++ spaces (w - length s)

unfoldable pub display_valid : Proxy → Text
unfolding pad_right address
display_valid p =
    let s =
      pad_right 24 (address p)
      ++ codes "  "
      ++ pad_right 7 p.proto
      ++ codes "  "
      ++ itoa p.latency_ms
      ++ codes " ms" in
    if p.egress_ip ==ₜ []
    then s
    else if p.country ==ₜ []
    then s ++ codes "  egress:" ++ p.egress_ip
    else s ++ codes "  egress:" ++ p.egress_ip ++ codes " [" ++ p.country ++ codes "]"

unfoldable pub display_failed : Proxy → Text
unfolding pad_right address
display_failed p =
    pad_right 24 (address p) ++ codes "  " ++ pad_right 7 p.proto ++ codes "  " ++ p.fail_reason

uri_test : uri (new_proxy (codes "h") 80 (codes "socks5") (codes "u") []) ≡ codes "socks5://u:@h:80"
unfolding uri itoa new_proxy
uri_test = refl
