-- ===== src/Relay/Tunnel.antt =====
-- The outbound handshakes of relay/relay.go against a proxy that follows RFC 1928.
use route_fork.Base.{
  ℕ, ◌+◌, ◌≡◌, refl, ◌∙◌, false, List, [], ◌∷◌, ◌++◌, append-nil, append_assoc, arith, ◌==◌, length,
}
use route_fork.Base.Result.{ok}
use route_fork.Text.{Text}
use route_fork.Net.{Conn, incoming, concat}
use route_fork.Net.Reading.{write-lem, read_full-lem}
use route_fork.Net.Server.{
  IsLogin, without, password, credentials, IsBound, ipv4, ipv6, domain, grant, ==ₜ_nil,
}
use route_fork.Net.Socks.{greeting, login, connect_request, socks4a_request}
use route_fork.Relay.{authenticate, drain_bound, socks5_connect, socks4a_connect}

authenticate-IsLogin :
    (method : ℕ) (user pass answer rest : Text) (c : Conn)
    → IsLogin user method answer
    → c.writes ≡ []
    → incoming c ≡ answer ++ rest
    → (ss : List Text) × (authenticate method user pass c
        ≡ (ok tt, record c { segments = ss; sent = c.sent ++ credentials method user pass }))
      × (concat ss ≡ rest)
unfolding authenticate
authenticate-IsLogin method user pass answer rest c (without h k) w e =
    let two : (method == 2) ≡ false = ground (arith, h) in
    let none_left : (method == 255) ≡ false = ground (arith, k) in
    (c.segments, rw (two, none_left, append-nil) refl, e)
authenticate-IsLogin method user pass answer rest c (password v h) w e =
    let c' = record c { sent = c.sent ++ login user pass } in
    let (ss, r, left) = read_full-lem 2 (v ∷ 0 ∷ []) rest c' e refl in
    (ss, rw (==ₜ_nil user h, write-lem (login user pass) c w, r) refl, left)

drain_bound-IsBound :
    (atyp : ℕ) (bs rest : Text) (c : Conn)
    → IsBound atyp bs
    → incoming c ≡ bs ++ rest
    → (ss : List Text) × (drain_bound atyp c ≡ (ok tt, record c { segments = ss }))
      × (concat ss ≡ rest)
unfolding drain_bound
drain_bound-IsBound atyp bs rest c (ipv4 l) e =
    let (ss, r, left) = read_full-lem 6 bs rest c e l in (ss, rw r refl, left)
drain_bound-IsBound atyp bs rest c (ipv6 l) e =
    let (ss, r, left) = read_full-lem 18 bs rest c e l in (ss, rw r refl, left)
drain_bound-IsBound atyp bs rest c (domain {bs = name} n l) e =
    let (ss, r, left) = read_full-lem 1 (n ∷ []) (name ++ rest) c e refl in
    let (ss', r', left') = read_full-lem (n + 2) name rest (record c { segments = ss }) left l in
    (ss', rw (r, r') refl, left')

-- With a proxy that lets it in by a method of its choice and grants the connection, the SOCKS5
-- handshake succeeds, whatever segments the proxy's bytes come in: it sends the greeting, the
-- credentials if the proxy wants them, and the request, and leaves exactly the bytes that follow
-- the proxy's reply to the tunnel.
pub socks5_connect-IsLogin :
    (host : Text) (port : ℕ) (user pass : Text) (c : Conn) (method : ℕ) (answer : Text)
    (v r atyp : ℕ) (bound rest : Text)
    → IsLogin user method answer
    → IsBound atyp bound
    → c.writes ≡ []
    → incoming c ≡ grant method answer v r atyp bound ++ rest
    → (ss : List Text) × (socks5_connect host port user pass c ≡ (
      ok tt,
      record c {
        segments = ss;
        sent = c.sent ++ greeting user ++ credentials method user pass ++ connect_request host port;
      },
    ))
      × (concat ss ≡ rest)
unfolding socks5_connect
socks5_connect-IsLogin host port user pass c method answer v r atyp bound rest l b w e =
    let c1 = record c { sent = c.sent ++ greeting user } in
    let (s1, e1, i1) =
      read_full-lem 2 (5 ∷ method ∷ []) (answer ++ (v ∷ 0 ∷ r ∷ atyp ∷ bound) ++ rest) c1 e refl in
    let c2 = record c1 { segments = s1 } in
    let (s2, e2, i2) =
      authenticate-IsLogin method user pass answer ((v ∷ 0 ∷ r ∷ atyp ∷ bound) ++ rest) c2 l w
        (i1 ∙ append_assoc answer (v ∷ 0 ∷ r ∷ atyp ∷ bound) rest) in
    let c3 = record c2 { segments = s2; sent = c2.sent ++ credentials method user pass } in
    let c4 = record c3 { sent = c3.sent ++ connect_request host port } in
    let (s4, e4, i4) = read_full-lem 4 (v ∷ 0 ∷ r ∷ atyp ∷ []) (bound ++ rest) c4 i2 refl in
    let (s5, e5, i5) = drain_bound-IsBound atyp bound rest (record c4 { segments = s4 }) b i4 in
    (
      s5,
      rw (write-lem (greeting user) c w, e1, e2, write-lem (connect_request host port) c3 w, e4, e5)
          refl,
      i5,
    )

-- With a proxy that answers 0x5A, the SOCKS4a handshake succeeds and takes exactly the eight bytes
-- of the reply.
pub socks4a_connect-lem :
    (host : Text) (port : ℕ) (c : Conn) (v : ℕ) (tail rest : Text)
    → length tail ≡ 6
    → c.writes ≡ []
    → incoming c ≡ (v ∷ 90 ∷ tail) ++ rest
    → (ss : List Text) × (socks4a_connect host port c
        ≡ (ok tt, record c { segments = ss; sent = c.sent ++ socks4a_request host port }))
      × (concat ss ≡ rest)
unfolding socks4a_connect
socks4a_connect-lem host port c v tail rest l w e =
    let c1 = record c { sent = c.sent ++ socks4a_request host port } in
    let (s1, e1, i1) = read_full-lem 8 (v ∷ 90 ∷ tail) rest c1 e (omega (arith, l)) in
    (s1, rw (write-lem (socks4a_request host port) c w, e1) refl, i1)
