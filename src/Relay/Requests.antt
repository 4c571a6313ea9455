-- ===== src/Relay/Requests.antt =====
-- The request that `handle` of relay/relay.go reads, and the requests that the relay writes.
use route_fork.Base.{
  ℕ, zero, suc, ◌+◌, ◌*◌, ◌/◌, ◌%◌, ◌<◌, ◌≡◌, refl, ap, true, false, some, List, [], ◌∷◌, ◌++◌,
  append-nil, append_assoc, arith, ◌==◌, length, get_or, length-append, take,
}
use route_fork.Base.Result.{ok}
use route_fork.Text.{Text, Lacks}
use route_fork.Net.{Conn, incoming, concat}
use route_fork.Net.Reading.{read_full-lem}
use route_fork.Net.Socks.{port_bytes, connect_request, requested}
use route_fork.Relay.{
  scan_segment, scan_string, read_string_until_null, read_until_null, target_host, read_request,
}

abbrev Scanned : List Text → Text → Text → Text → Type 0
Scanned ss out s rest =
    (ss' : List Text) × (scan_string ss out ≡ some (out ++ s, ss')) × (concat ss' ≡ rest)

heads : {c d : ℕ} {xs ys : Text} → c ∷ xs ≡ d ∷ ys → (c ≡ d) × (xs ≡ ys)
heads e = (cc, cc)

no_bytes : {x : ℕ} {xs : Text} → [] ≡ x ∷ xs → ⊥
no_bytes e = cc

scan_segment-lem :
    (seg : Text) (ss : List Text) (s out rest : Text)
    → ((s' out' : Text) → Lacks 0 s' → concat ss ≡ s' ++ 0 ∷ rest → Scanned ss out' s' rest)
    → Lacks 0 s
    → seg ++ concat ss ≡ s ++ 0 ∷ rest
    → (ss' : List Text) × (scan_segment seg ss (scan_string ss) out ≡ some (out ++ s, ss'))
      × (concat ss' ≡ rest)
unfolding scan_segment
scan_segment-lem [] ss s out rest ih l e = ih s out l e
scan_segment-lem (b ∷ seg) ss [] out rest ih l e =
    let zero_byte : (b == 0) ≡ true = ground (arith, (heads e).0) in
    (seg ∷ ss, rw (zero_byte, append-nil) refl, (heads e).1)
scan_segment-lem (b ∷ seg) ss (a ∷ s) out rest ih l e =
    let other : (b == 0) ≡ false = ground (arith, (heads e).0, l.0) in
    let (ss', r, left) = scan_segment-lem seg ss s (out ++ b ∷ []) rest ih l.1 (heads e).1 in
    (ss', rw (other, r, append_assoc out (b ∷ []) s, (heads e).0) refl, left)

scan_string-lem :
    (ss : List Text) (s out rest : Text)
    → Lacks 0 s
    → concat ss ≡ s ++ 0 ∷ rest
    → Scanned ss out s rest
unfolding scan_string
scan_string-lem [] [] out rest l e = absurd (no_bytes e)
scan_string-lem [] (a ∷ s) out rest l e = absurd (no_bytes e)
scan_string-lem (seg ∷ ss) s out rest l e =
    scan_segment-lem seg ss s out rest (λ s' out' l' e'. scan_string-lem ss s' out' rest l' e') l e

-- A string without 0 is read up to the 0 behind it, whatever segments it comes in.
pub read_string_until_null-Lacks :
    (s rest : Text) (c : Conn)
    → Lacks 0 s
    → incoming c ≡ s ++ 0 ∷ rest
    → (ss : List Text) × (read_string_until_null c ≡ (ok s, record c { segments = ss }))
      × (concat ss ≡ rest)
unfolding read_string_until_null
read_string_until_null-Lacks s rest c l e =
    let (ss, r, left) = scan_string-lem c.segments s [] rest l e in
    (ss, rw (r, read_string_until_null) refl, left)

pub port-port_bytes : (port : ℕ) → port < 65536 → (port / 256) % 256 * 256 + port % 256 ≡ port
port-port_bytes port h = omega arith

-- A SOCKS4a request, with any user and any of the addresses that ask for a name, is read as the
-- host and port that it was made of, and nothing after it is taken.
pub read_request-lem :
    (port : ℕ) (x : ℕ) (user host rest : Text) (c : Conn)
    → port < 65536
    → 0 < x
    → Lacks 0 user
    → Lacks 0 host
    → incoming c
      ≡ (4 ∷ 1 ∷ port_bytes port ++ 0 ∷ 0 ∷ 0 ∷ x ∷ []) ++ (user ++ 0 ∷ (host ++ 0 ∷ rest))
    → (ss : List Text) × (read_request c ≡ (
      ok (record { port = port; ip = 0 ∷ 0 ∷ 0 ∷ x ∷ []; host = host }),
      record c { segments = ss },
    ))
      × (concat ss ≡ rest)
unfolding read_request port_bytes target_host read_until_null
read_request-lem port x user host rest c hp hx lu lh e =
    let (s1, e1, i1) =
      read_full-lem 8 (4 ∷ 1 ∷ port_bytes port ++ 0 ∷ 0 ∷ 0 ∷ x ∷ [])
        (user ++ 0 ∷ (host ++ 0 ∷ rest)) c e refl in
    let (s2, e2, i2) =
      read_string_until_null-Lacks user (host ++ 0 ∷ rest) (record c { segments = s1 }) lu i1 in
    let (s3, e3, i3) = read_string_until_null-Lacks host rest (record c { segments = s2 }) lh i2 in
    let named : (x == 0) ≡ false = ground (arith, hx) in
    (s3, rw (e1, e2, named, e3, port-port_bytes port hp) refl, i3)

get_or-append :
    (xs ys : Text) (n i d : ℕ) → n ≡ length xs + i → get_or (xs ++ ys) n d ≡ get_or ys i d
get_or-append [] ys n i d e = ap (λ k. get_or ys k d) (omega arith)
get_or-append (x ∷ xs) ys zero i d e = absurd (omega arith)
get_or-append (x ∷ xs) ys (suc n) i d e = get_or-append xs ys n i d (omega arith)

take-append : (xs ys : Text) → take (length xs) (xs ++ ys) ≡ xs
take-append [] ys = refl
take-append (x ∷ xs) ys = ap (λ r. x ∷ r) (take-append xs ys)

-- A server reads the request for a host of at most 255 bytes as the host and the port.
pub requested-connect_request :
    (host : Text) (port : ℕ)
    → length host < 256
    → port < 65536
    → requested (connect_request host port) ≡ some (host, port)
unfolding requested connect_request port_bytes
requested-connect_request host port h k =
    let short : length host % 256 ≡ length host = omega arith in
    let bytes = (port / 256) % 256 ∷ port % 256 ∷ [] in
    let whole : (length (host ++ bytes) == length host + 2) ≡ true =
      ground (arith, length-append host bytes) in
    rw
      (
        short,
        whole,
        take-append host bytes,
        get_or-append host bytes (length host) 0 0 (omega arith),
        get_or-append host bytes (length host + 1) 1 0 refl,
        port-port_bytes port k,
      )
      refl
