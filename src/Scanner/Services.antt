-- ===== src/Scanner/Services.antt =====
-- scanner/services.go without `CleanBanner`, and scanner/probe.go. What the Go library's TLS client
-- comes to on a connection is the argument `handshake`: the version and the subject, if any, and the
-- connection after it. A connection's bytes are what the server volunteers, and what it sends on a
-- request is the argument `answers`.
pub mod Quiet
mod Examples
use route_fork.Base.{
  ℕ, zero, suc, ◌+◌, ◌-◌, ◌*◌, ◌/◌, ◌%◌, ◌^◌, ◌≤◌, ◌<◌, ◌≡◌, refl, sym, ap, ◌∙◌, subst, ◌≢◌, ◌↔◌,
  ◌⊎◌, inl, inr, Bool, true, false, not, ◌&&◌, ◌||◌, Option, none, some, List, [], ◌∷◌, ◌++◌, map,
  append-nil, append_assoc, arith, ltb, leb, ◌==◌, if◌then◌else◌, leb→le, not_leb, ==_iff,
  Bool-cases, Option-cases, length, get_elem?, get_or, length-append, get_elem?-lt, take, drop,
  take-drop, length-take, same_front, All, All-append, All-left, All-right, All-mono,
}
use route_fork.Text.{
  Text, codes, Lacks, ◌==ₜ◌, is_space, trim_left, trim_space, has_prefix, contains, cons_head,
  split, split_n, join, fields, lower, upper, to_lower, to_upper,
}
use route_fork.Base.Result.{Result, ok, err}
use route_fork.Text.Hex.{hex_byte}
use route_fork.Net.{Conn, Reply, read, write}
use route_fork.Scanner.Banner.{clean_banner}

-- A map with numbers as keys: the text of the first entry with the key, or the empty text.
unfoldable pub named : ℕ → List (ℕ × Text) → Text
named port [] = []
named port ((p, name) ∷ rest) = if p == port then name else named port rest

abbrev pub well_known_ports : List (ℕ × Text)
well_known_ports =
    (21, codes "ftp")
    ∷ (22, codes "ssh")
    ∷ (23, codes "telnet")
    ∷ (25, codes "smtp")
    ∷ (53, codes "domain")
    ∷ (80, codes "http")
    ∷ (110, codes "pop3")
    ∷ (111, codes "rpcbind")
    ∷ (135, codes "msrpc")
    ∷ (139, codes "netbios-ssn")
    ∷ (143, codes "imap")
    ∷ (389, codes "ldap")
    ∷ (443, codes "https")
    ∷ (445, codes "microsoft-ds")
    ∷ (465, codes "smtps")
    ∷ (587, codes "submission")
    ∷ (636, codes "ldaps")
    ∷ (993, codes "imaps")
    ∷ (995, codes "pop3s")
    ∷ (1080, codes "socks")
    ∷ (1194, codes "openvpn")
    ∷ (1433, codes "ms-sql-s")
    ∷ (1521, codes "oracle")
    ∷ (1723, codes "pptp")
    ∷ (2049, codes "nfs")
    ∷ (2375, codes "docker")
    ∷ (2376, codes "docker-tls")
    ∷ (3306, codes "mysql")
    ∷ (3389, codes "ms-wbt-server")
    ∷ (5432, codes "postgresql")
    ∷ (5900, codes "vnc")
    ∷ (5985, codes "wsman")
    ∷ (5986, codes "wsmans")
    ∷ (6379, codes "redis")
    ∷ (6443, codes "k8s-api")
    ∷ (8080, codes "http-proxy")
    ∷ (8443, codes "https-alt")
    ∷ (8888, codes "http-alt")
    ∷ (9200, codes "elasticsearch")
    ∷ (9300, codes "elasticsearch-tcp")
    ∷ (27017, codes "mongodb")
    ∷ (27018, codes "mongodb-shard")
    ∷ []

unfoldable pub port_service : ℕ → Text
unfolding named
port_service port = named port well_known_ports

unfoldable pub is_among : ℕ → List ℕ → Bool
is_among port [] = false
is_among port (p ∷ ps) = p == port || is_among port ps

abbrev pub tls_ports : List ℕ
tls_ports = 443 ∷ 8443 ∷ 993 ∷ 995 ∷ 465 ∷ 990 ∷ 636 ∷ 989 ∷ 992 ∷ 994 ∷ 9443 ∷ []

abbrev pub http_ports : List ℕ
http_ports = 80 ∷ 81 ∷ 591 ∷ 3000 ∷ 5000 ∷ 8000 ∷ 8008 ∷ 8080 ∷ 8081 ∷ 8888 ∷ []

unfoldable pub first_line : Text → Text
first_line [] = []
first_line (c ∷ s) = let rest = first_line s in if c == 13 || c == 10 then [] else c ∷ rest

unfoldable pub after_code : Text → Text
after_code b =
    if ltb 4 (length b) && (get_or b 3 0 == 32 || get_or b 3 0 == b'-')
    then trim_space (drop 4 b)
    else trim_space b

-- strings.EqualFold, for a pattern of ASCII letters
unfoldable pub equal_fold : Text → Text → Bool
equal_fold s t = to_lower s ==ₜ to_lower t

-- The loop over the lines of a response.
unfoldable pub server_of : List Text → Text
unfolding equal_fold
server_of [] = []
server_of (l ∷ lines) =
    let line = trim_space l in
    let rest = server_of lines in
    if leb 7 (length line) && equal_fold (take 7 line) (codes "server:")
    then trim_space (drop 7 line)
    else rest

unfoldable pub http_server : Text → Text
unfolding server_of
http_server resp = server_of (split resp 10)

-- strings.TrimPrefix
unfoldable pub trim_prefix : Text → Text → Text
trim_prefix s prefix = if has_prefix s prefix then drop (length prefix) s else s

-- The version in an SSH banner: what follows its second dash.
unfoldable pub ssh_version : List Text → Text
ssh_version (a ∷ b ∷ c ∷ []) = trim_space c
ssh_version _ = []

-- The switch, for the trimmed banner.
unfoldable pub classify : Text → Text → Text × Text
unfolding http_server ssh_version after_code trim_prefix
classify b raw =
    let up = to_upper b in
    if has_prefix b (codes "SSH-")
    then (codes "ssh", ssh_version (split_n b b'-' 3))
    else if has_prefix up (codes "HTTP/")
    then (codes "http", http_server raw)
    else if has_prefix b (codes "220") && contains up (codes "FTP")
    then (codes "ftp", after_code b)
    else if has_prefix b (codes "220")
        && (contains up (codes "SMTP") || contains up (codes "ESMTP") || contains up (codes "MAIL"))
    then (codes "smtp", after_code b)
    else if has_prefix b (codes "+OK")
    then (codes "pop3", trim_space (trim_prefix b (codes "+OK")))
    else if has_prefix b (codes "* OK") && contains up (codes "IMAP")
    then (codes "imap", trim_space (trim_prefix b (codes "* OK")))
    else ([], [])

unfoldable pub parse_banner : Text → Text × Text
unfolding classify
parse_banner raw = if trim_space raw ==ₜ [] then ([], []) else classify (trim_space raw) raw

-- The bytes that a read got, none on an error.
abbrev pub got : Result Text Text → Text
got (ok bs) = bs
got (err e) = []

unfoldable pub read_banner : Conn → Text × Conn
read_banner c = (clean_banner (got (read 512 c).0), (read 512 c).1)

unfoldable pub http_request : Text → Text
http_request host =
    codes "GET / HTTP/1.0\r\nHost: "
    ++ (if host ==ₜ [] then codes "scan" else host)
    ++ codes "\r\nUser-Agent: rofk\r\nConnection: close\r\n\r\n"

-- The server sends `answers` once it has the request.
unfoldable pub response : List Text → Reply Unit → Text × Conn
response answers (err e, c) = ([], c)
response answers (ok u, c) =
    let r = read 1024 (record c { segments = c.segments ++ answers }) in (got r.0, r.1)

unfoldable pub probe_http : List Text → Text → Conn → Text × Conn
unfolding http_request response
probe_http answers host c = response answers (write (http_request host) c)

unfoldable pub tls_version_name : ℕ → Text
tls_version_name v =
    if v == 0x0304
    then codes "TLSv1.3"
    else if v == 0x0303
    then codes "TLSv1.2"
    else if v == 0x0302
    then codes "TLSv1.1"
    else if v == 0x0301
    then codes "TLSv1.0"
    else codes "TLS(0x" ++ hex_byte (v / 256) ++ hex_byte (v % 256) ++ codes ")"

pub record Identity : Type 0 where
  pub service : Text
  pub version : Text
  pub banner : Text

unfoldable pub tls_identity : ℕ → Text → Identity
unfolding tls_version_name
tls_identity v subject =
    let ver = tls_version_name v in
    record {
      service = codes "ssl";
      version = ver;
      banner = if subject ==ₜ [] then ver else ver ++ codes " (CN=" ++ subject ++ codes ")";
    }

abbrev pub Handshake : Type 0
Handshake = Text → Conn → Option (ℕ × Text) × Conn

abbrev pub static_name : ℕ → Text → Identity
static_name port banner = record { service = port_service port; version = []; banner = banner }

unfoldable pub after_tls : ℕ → Option (ℕ × Text) → Identity
unfolding tls_identity
after_tls port none = static_name port []
after_tls port (some (v, subject)) = tls_identity v subject

unfoldable pub after_banner : ℕ → Text → Identity
after_banner port banner =
    let parsed = parse_banner banner in
    if parsed.0 ==ₜ []
    then static_name port banner
    else record { service = parsed.0; version = parsed.1; banner = banner }

unfoldable pub after_http : ℕ → Text → Identity
after_http port resp =
    let parsed = parse_banner resp in
    if parsed.0 ==ₜ []
    then static_name port []
    else record { service = parsed.0; version = parsed.1; banner = first_line resp }

unfoldable pub identify_service : Handshake → List Text → Conn → Text → ℕ → Identity × Conn
unfolding is_among after_tls after_banner after_http
identify_service handshake answers c host port =
    let (passive, c') = read_banner c in
    let (resp, c'') = probe_http answers host c' in
    if is_among port tls_ports
    then (after_tls port (handshake host c).0, (handshake host c).1)
    else if not (passive ==ₜ [])
    then (after_banner port passive, c')
    else if is_among port http_ports
    then (after_http port resp, c'')
    else (static_name port [], c')
