-- ===== src/Scanner/Direct.antt =====
-- The scan of scanner/scanner.go that goes through one proxy after another without a quorum: `Scan`,
-- `buildDialer` with `socks4Dialer`, and `MergePortSpecs` with its caller in cli/cli.go. The dialer
-- for SOCKS5 is a library's and an argument; hosts have no brackets. The jobs of a scan only share
-- the channel of their results, which are listed in the order of the jobs.
mod Examples
use route_fork.Base.{
  ℕ, zero, suc, ◌+◌, ◌-◌, ◌*◌, ◌/◌, ◌%◌, ◌^◌, ◌≤◌, ◌<◌, ◌≡◌, refl, sym, ap, ◌∙◌, subst, ◌≢◌, ◌↔◌,
  ◌⊎◌, inl, inr, Bool, true, false, not, ◌&&◌, ◌||◌, Option, none, some, List, [], ◌∷◌, ◌++◌, map,
  append-nil, append_assoc, arith, ltb, leb, ◌==◌, if◌then◌else◌, leb→le, not_leb, ==_iff,
  Bool-cases, Option-cases, length, get_elem?, get_or, length-append, get_elem?-lt, take, drop,
  take-drop, length-take, same_front, All, All-append, All-left, All-right, All-mono,
}
use route_fork.Base.Result.{Result, ok, err}
use route_fork.Text.{
  Text, codes, Lacks, ◌==ₜ◌, is_space, trim_left, trim_space, has_prefix, contains, cons_head,
  split, split_n, join, fields, lower, upper, to_lower, to_upper,
}
use route_fork.Text.Decimal.{itoa}
use route_fork.Text.Hex.{hex_byte}
use route_fork.Net.{Conn, Session, Reply, chain, ◌>>=◌, ◌>>◌, fail, return, write, read_full, byte}
use route_fork.Proxy.{Proxy, address}
use route_fork.Proxy.Dial.{Resolver, parse_ip, to4, socks4_request, opened}
use route_fork.Scanner.Ports.{PortError, parse_ports, compress_ports}
use route_fork.Scanner.Expand.{Expanded, ExpandError, expand_target}
use route_fork.Scanner.Services.{is_among, read_banner, parse_banner}
use route_fork.Scanner.Rotate.{grid}

-- A set of ports: what is added again stays where it is.
unfoldable pub add_to_set : List ℕ → List ℕ → List ℕ
unfolding is_among
add_to_set set [] = set
add_to_set set (p ∷ ports) = add_to_set (if is_among p set then set else set ++ p ∷ []) ports

-- A specification that cannot be read adds nothing.
abbrev pub add_spec : List ℕ → Result PortError (List ℕ) → List ℕ
add_spec set (err e) = set
add_spec set (ok ports) = add_to_set set ports

abbrev pub is_everything : Text → Bool
is_everything s = s ==ₜ codes "1-65535" || s ==ₜ codes "0-65535"

unfoldable pub merge_port_specs : Text → Text → Text
unfolding add_to_set
merge_port_specs a b =
    let a' = trim_space a in
    let b' = trim_space b in
    if is_everything a' || is_everything b'
    then codes "1-65535"
    else compress_ports (add_spec (add_spec [] (parse_ports a')) (parse_ports b'))

abbrev pub common_port_spec : Text
common_port_spec =
    codes "21,22,23,25,53,80,110,111,135,139,143,443,445,993,995,"
    ++ codes "1723,3306,3389,5900,8080,8443,8888"

-- `mergeCommonPorts` of cli/cli.go and of gui/app.go
unfoldable pub merge_common_ports : Text → Text
unfolding merge_port_specs
merge_common_ports spec =
    let s = trim_space spec in if is_everything s then s else merge_port_specs s common_port_spec

abbrev pub dns_failed : Text → Text
dns_failed host = codes "socks4: DNS failed for " ++ host

abbrev pub ipv4_of : Text → Option Text → Result Text Text
ipv4_of host none = err (codes "socks4: IPv4 required, got " ++ host)
ipv4_of host (some ip) = ok ip

unfoldable pub dial_address : Resolver → Text → Result Text Text
unfolding parse_ip
dial_address r host = elim (parse_ip r host) [
  | some ip ↦ ipv4_of host ip
  | none ↦ (elim (r.look_up host) [
    | none ↦ err (dns_failed host)
    | some addr ↦ ipv4_of host (to4 (parse_ip r addr))
  ])
]

unfoldable pub socks4_connect : Text → ℕ → Session Unit
unfolding socks4_request
socks4_connect ip port = do
  write (socks4_request ip port)
  resp ← read_full 8
  if byte resp 1 == 0x5a
      then return tt
      else fail (codes "socks4: rejected (code " ++ hex_byte (byte resp 1) ++ codes ")")

abbrev pub connected_to : ℕ → Conn → Result Text Text → Result Text Conn
connected_to port conn (err e) = err e
connected_to port conn (ok ip) = opened (socks4_connect ip port conn)

-- `socks4Dialer.Dial`, with what its dial to the proxy comes to
unfoldable pub socks4_dial : Resolver → Result Text Conn → Text → ℕ → Result Text Conn
unfolding dial_address socks4_connect
socks4_dial r (err e) host port = err e
socks4_dial r (ok conn) host port =
    if contains host (b':' ∷ [])
    then err
        (codes "address " ++ host ++ codes ":" ++ itoa port ++ codes ": too many colons in address")
    else connected_to port conn (dial_address r host)

pub record OpenPort : Type 0 where
  pub host : Text
  pub port : ℕ
  pub proxy : Proxy
  pub service : Text
  pub version : Text
  pub banner : Text

-- What the surroundings answer the i-th job, and what `expand_target` is given.
pub record DirectWorld : Type 0 where
  pub rounds : ℕ
  pub expand6 : Text → Expanded
  pub resolver : Resolver
  pub get_proxy : ℕ → Proxy
  -- the TCP connection to the proxy, and the SOCKS5 dialer
  pub tcp : ℕ → Result Text Conn
  pub socks5_dial : ℕ → Proxy → Text → ℕ → Result Text Conn
  -- whether the context is done before the job
  pub stopped : ℕ → Bool
  -- whether it is done, or the time is over, before the dial, or the result is taken
  pub gave_up : ℕ → Bool

-- `buildDialer`, and the dialer's `Dial`
unfoldable pub dial_by : DirectWorld → ℕ → Text → ℕ → Result Text Conn
unfolding socks4_dial
dial_by w i host port =
    let px = w.get_proxy i in
    if px.proto ==ₜ codes "socks5"
    then w.socks5_dial i px host port
    else socks4_dial w.resolver (w.tcp i) host port

unfoldable pub open_port : Text → ℕ → Proxy → Conn → OpenPort
open_port host port px conn =
    let banner = (read_banner conn).0 in
    let parsed = parse_banner banner in
    record {
      host = host;
      port = port;
      proxy = px;
      service = parsed.0;
      version = parsed.1;
      banner = banner;
    }

-- The goroutine of a job.
unfoldable pub scan_one : DirectWorld → ℕ → Text → ℕ → List OpenPort
unfolding dial_by open_port
scan_one w i host port = elim (dial_by w i host port) [
  | err e ↦ []
  | ok conn ↦ if w.gave_up i then [] else open_port host port (w.get_proxy i) conn ∷ []
]

-- The loop over the jobs from the i-th on, and whether the scan came to its end.
unfoldable pub scan_jobs : DirectWorld → List (Text × ℕ) → ℕ → List OpenPort × Bool
unfolding scan_one
scan_jobs w [] i = ([], true)
scan_jobs w ((host, port) ∷ jobs) i =
    let rest = scan_jobs w jobs (i + 1) in
    if w.stopped i then ([], false) else (scan_one w i host port ++ rest.0, rest.1)

pub data DirectError : Type 0 where
  bad_target : ExpandError → DirectError
  bad_ports : PortError → DirectError

unfoldable pub with_hosts :
    DirectWorld → Text → Expanded → Result DirectError (List OpenPort × Bool)
unfolding scan_jobs
with_hosts w spec (err e) = err (bad_target e)
with_hosts w spec (ok hosts) = elim (parse_ports spec) [
  | err e ↦ err (bad_ports e)
  | ok ports ↦ ok (scan_jobs w (grid hosts ports) 0)
]

-- There is no result if the expansion of the target does not end.
unfoldable pub direct_scan :
    DirectWorld → Text → Text → Option (Result DirectError (List OpenPort × Bool))
unfolding with_hosts
direct_scan w target spec = elim (expand_target w.rounds w.expand6 target) [
  | none ↦ none
  | some hosts ↦ some (with_hosts w spec hosts)
]
