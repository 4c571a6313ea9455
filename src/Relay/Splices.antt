-- ===== src/Relay/Splices.antt =====
-- The whole way of a request through `handle` of relay/relay.go.
use route_fork.Base.{ℕ, ◌/◌, ◌%◌, ◌<◌, ◌≡◌, refl, sym, ap, ◌∙◌, some, [], ◌∷◌, ◌++◌, length}
use route_fork.Base.Result.{Result, ok}
use route_fork.Text.{Text, codes, Lacks}
use route_fork.Proxy.{Proxy, address}
use route_fork.Net.{Conn, incoming}
use route_fork.Net.Reading.{write-lem}
use route_fork.Net.Socks.{port_bytes, greeting, connect_request}
use route_fork.Relay.{
  shaken, dial_upstream, socks4_reply, reply_client, tunnel, serve_request, handle,
}
use route_fork.Net.Server.{
  IsLogin, IsBound, grant, credentials, hello, password_message, connect_message, greeting-hello,
  credentials-password_message, port_bytes-big_endian, connect_request-connect_message,
}
use route_fork.Relay.Tunnel.{socks5_connect-IsLogin}
use route_fork.Relay.Requests.{read_request-lem}

handle-spliced :
    (px : Proxy) (dial : Text → Result Text Conn) (client proxy : Conn) (port x : ℕ)
    (user host data_out : Text) (method : ℕ) (answer : Text) (v r atyp : ℕ) (bound data_in : Text)
    → px.proto ≡ codes "socks5"
    → dial (address px) ≡ ok proxy
    → client.writes ≡ []
    → proxy.writes ≡ []
    → port < 65536
    → 0 < x
    → Lacks 0 user
    → Lacks 0 host
    → incoming client
      ≡ (4 ∷ 1 ∷ port_bytes port ++ 0 ∷ 0 ∷ 0 ∷ x ∷ []) ++ (user ++ 0 ∷ (host ++ 0 ∷ data_out))
    → IsLogin px.username method answer
    → IsBound atyp bound
    → incoming proxy ≡ grant method answer v r atyp bound ++ data_in
    → (u : Conn) × ((handle px dial client).spliced ≡ some u)
      × (incoming u ≡ data_in)
      × (u.sent
          ≡ proxy.sent
            ++ greeting px.username
            ++ credentials method px.username px.password
            ++ connect_request host port)
      × (incoming (handle px dial client).client ≡ data_out)
      × ((handle px dial client).client.sent
          ≡ client.sent ++ socks4_reply 90 port (0 ∷ 0 ∷ 0 ∷ x ∷ []))
unfolding handle serve_request tunnel reply_client dial_upstream shaken
handle-spliced px dial client proxy port x user host data_out method answer v r atyp bound data_in
      is5 dialled wc wp hp hx lu lh from_client l b from_proxy =
    let (sc, ec, ic) = read_request-lem port x user host data_out client hp hx lu lh from_client in
    let (su, eu, iu) =
      socks5_connect-IsLogin host port px.username px.password proxy method answer v r atyp bound
        data_in l b wp from_proxy in
    let c1 = record client { segments = sc } in
    let told = write-lem (socks4_reply 90 port (0 ∷ 0 ∷ 0 ∷ x ∷ [])) c1 wc in
    let u = record proxy {
      segments = su;
      sent =
          proxy.sent
          ++ greeting px.username
          ++ credentials method px.username px.password
          ++ connect_request host port;
    } in
    (
      u,
      rw (ec, dialled, is5, eu, told) refl,
      iu,
      refl,
      rw (ec, dialled, is5, eu, told) ic,
      rw (ec, dialled, is5, eu, told) refl,
    )

-- The whole way: a client's SOCKS4a request, its strings without 0 bytes, then its data, and a
-- SOCKS5 proxy that lets the relay in and grants the request, then the target's data, each in any
-- segments, no failing write, and a host, user name and password below 256 bytes. The proxy is sent
-- byte by byte what RFC 1928 and RFC 1929 have for the client's host and port, the client is sent
-- SOCKS4's reply of success with its own port and address, and what is spliced are the client's data
-- and the target's, complete.
pub handle-splices :
    (px : Proxy) (dial : Text → Result Text Conn) (client proxy : Conn) (port x : ℕ)
    (user host data_out : Text) (method : ℕ) (answer : Text) (v r atyp : ℕ) (bound data_in : Text)
    → px.proto ≡ codes "socks5"
    → dial (address px) ≡ ok proxy
    → client.writes ≡ []
    → proxy.writes ≡ []
    → port < 65536
    → 0 < x
    → Lacks 0 user
    → Lacks 0 host
    → length host < 256
    → length px.username < 256
    → length px.password < 256
    → incoming client
      ≡ (4 ∷ 1 ∷ port / 256 ∷ port % 256 ∷ 0 ∷ 0 ∷ 0 ∷ x ∷ [])
        ++ (user ++ 0 ∷ (host ++ 0 ∷ data_out))
    → IsLogin px.username method answer
    → IsBound atyp bound
    → incoming proxy ≡ grant method answer v r atyp bound ++ data_in
    → (u : Conn) × ((handle px dial client).spliced ≡ some u)
      × (incoming u ≡ data_in)
      × (u.sent
          ≡ proxy.sent
            ++ hello px.username
            ++ password_message method px.username px.password
            ++ connect_message host port)
      × (incoming (handle px dial client).client ≡ data_out)
      × ((handle px dial client).client.sent
          ≡ client.sent ++ 0 ∷ 90 ∷ port / 256 ∷ port % 256 ∷ 0 ∷ 0 ∷ 0 ∷ x ∷ [])
unfolding socks4_reply
handle-splices px dial client proxy port x user host data_out method answer v r atyp bound data_in
      is5 dialled wc wp hp hx lu lh sh su sp from_client l b from_proxy =
    let bytes = port_bytes-big_endian port hp in
    let (u, spliced, received, asked, left, told) =
      handle-spliced px dial client proxy port x user host data_out method answer v r atyp bound
        data_in is5 dialled wc wp hp hx lu lh
        (from_client
          ∙ ap (λ p. (4 ∷ 1 ∷ p ++ 0 ∷ 0 ∷ 0 ∷ x ∷ []) ++ (user ++ 0 ∷ (host ++ 0 ∷ data_out)))
              (sym bytes))
        l b from_proxy in
    (
      u,
      spliced,
      received,
      asked
          ∙ ap
              (λ g.
                proxy.sent
                ++ g
                ++ credentials method px.username px.password
                ++ connect_request host port)
              (greeting-hello px.username)
          ∙ ap (λ m. proxy.sent ++ hello px.username ++ m ++ connect_request host port)
              (credentials-password_message method px.username px.password su sp)
          ∙ ap
              (λ m.
                proxy.sent
                ++ hello px.username
                ++ password_message method px.username px.password
                ++ m)
              (connect_request-connect_message host port sh hp),
      left,
      told ∙ ap (λ p. client.sent ++ (0 ∷ 90 ∷ p ++ 0 ∷ 0 ∷ 0 ∷ x ∷ [])) bytes,
    )
