-- ===== src/Relay/Examples.antt =====
-- Tests of the relay, and its theorems at a concrete request.
use route_fork.Base.{ℕ, ◌/◌, ◌%◌, ◌≡◌, refl, some, List, [], ◌∷◌, ◌++◌, arith}
use route_fork.Base.Result.{ok}
use route_fork.Text.{Text, codes}
use route_fork.Proxy.{Proxy, new_proxy}
use route_fork.Net.{Conn, read_full, write, incoming, concat}
use route_fork.Net.Socks.{port_bytes, greeting, login, connect_request, requested}
use route_fork.Relay.{read_request, socks5_connect, handle, authenticate, drain_bound}
use route_fork.Net.Server.{
  IsLogin, password, ipv4, credentials, grant, hello, password_message, connect_message,
}
use route_fork.Relay.Tunnel.{socks5_connect-IsLogin}
use route_fork.Relay.Granted.{socks5_connect-granted}
use route_fork.Relay.Requests.{read_request-lem, requested-connect_request}
use route_fork.Relay.Splices.{handle-splices}

abbrev login_proxy : Proxy
unfolding new_proxy
login_proxy = new_proxy (codes "p") 1080 (codes "socks5") (codes "u") (codes "w")

-- A proxy that asks for a password and grants the request, in four segments, with data behind.
abbrev granting : Conn
granting = record {
  segments =
      (5 ∷ [])
      ∷ (2 ∷ 1 ∷ 0 ∷ [])
      ∷ (5 ∷ 0 ∷ 0 ∷ [])
      ∷ (1 ∷ 9 ∷ 9 ∷ 9 ∷ 9 ∷ 0 ∷ 7 ∷ 72 ∷ 73 ∷ [])
      ∷ [];
  closing = codes "EOF";
  sent = [];
  writes = [];
}

abbrev client : Conn
client = record {
  segments = (4 ∷ 1 ∷ 0 ∷ 80 ∷ 0 ∷ []) ∷ (0 ∷ 0 ∷ 1 ∷ 0 ∷ 104 ∷ []) ∷ (111 ∷ 0 ∷ 65 ∷ []) ∷ [];
  closing = codes "EOF";
  sent = [];
  writes = [];
}

is_login : IsLogin (codes "u") 2 (1 ∷ 0 ∷ [])
is_login = password 1 (λ e. cc)

socks5_connect-IsLogin_example :
    (ss : List Text) × (socks5_connect (codes "ho") 80 (codes "u") (codes "w") granting ≡ (
      ok tt,
      record granting {
        segments = ss;
        sent =
            []
            ++ greeting (codes "u")
            ++ credentials 2 (codes "u") (codes "w")
            ++ connect_request (codes "ho") 80;
      },
    ))
    × (concat ss ≡ 72 ∷ 73 ∷ [])
socks5_connect-IsLogin_example =
    socks5_connect-IsLogin (codes "ho") 80 (codes "u") (codes "w") granting 2 (1 ∷ 0 ∷ []) 5 0 1
      (9 ∷ 9 ∷ 9 ∷ 9 ∷ 0 ∷ 7 ∷ []) (72 ∷ 73 ∷ []) is_login (ipv4 refl) refl refl

granted_run : socks5_connect (codes "ho") 80 (codes "u") (codes "w") granting ≡ (
  ok tt,
  record {
    segments = (72 ∷ 73 ∷ []) ∷ [];
    closing = codes "EOF";
    sent = 5 ∷ 2 ∷ 0 ∷ 2 ∷ 1 ∷ 1 ∷ 117 ∷ 1 ∷ 119 ∷ 5 ∷ 1 ∷ 0 ∷ 3 ∷ 2 ∷ 104 ∷ 111 ∷ 0 ∷ 80 ∷ [];
    writes = [];
  },
)
unfolding socks5_connect authenticate drain_bound read_full write greeting login connect_request
    port_bytes
granted_run = refl

socks5_connect-granted_example :
    (method : ℕ) × (answer : Text) × (v r atyp : ℕ) × (more : Text) × IsLogin
      (codes "u")
      method
      answer
    × (incoming granting ≡ grant method answer v r atyp more)
socks5_connect-granted_example =
    socks5_connect-granted (codes "ho") 80 (codes "u") (codes "w") granting _ granted_run

read_request-lem_example :
    (ss : List Text) × (read_request client ≡ (
      ok (record { port = 80; ip = 0 ∷ 0 ∷ 0 ∷ 1 ∷ []; host = codes "ho" }),
      record client { segments = ss },
    ))
    × (concat ss ≡ codes "A")
unfolding port_bytes
read_request-lem_example =
    read_request-lem 80 1 [] (codes "ho") (codes "A") client (omega arith) (omega arith) tt
      ((λ e. omega (arith, e)), ((λ e. omega (arith, e)), tt)) refl

requested-connect_request_example :
    requested (connect_request (codes "ho") 8080) ≡ some (codes "ho", 8080)
requested-connect_request_example =
    requested-connect_request (codes "ho") 8080 (omega arith) (omega arith)

handle-splices_example :
    (u : Conn) × ((handle login_proxy (λ a. ok granting) client).spliced ≡ some u)
    × (incoming u ≡ 72 ∷ 73 ∷ [])
    × (u.sent
        ≡ []
          ++ hello (codes "u")
          ++ password_message 2 (codes "u") (codes "w")
          ++ connect_message (codes "ho") 80)
    × (incoming (handle login_proxy (λ a. ok granting) client).client ≡ codes "A")
    × ((handle login_proxy (λ a. ok granting) client).client.sent
        ≡ [] ++ 0 ∷ 90 ∷ 80 / 256 ∷ 80 % 256 ∷ 0 ∷ 0 ∷ 0 ∷ 1 ∷ [])
unfolding port_bytes login_proxy
handle-splices_example =
    handle-splices login_proxy (λ a. ok granting) client granting 80 1 [] (codes "ho") (codes "A") 2
      (1 ∷ 0 ∷ []) 5 0 1 (9 ∷ 9 ∷ 9 ∷ 9 ∷ 0 ∷ 7 ∷ []) (72 ∷ 73 ∷ []) refl refl refl refl
      (omega arith) (omega arith) tt ((λ e. omega (arith, e)), ((λ e. omega (arith, e)), tt))
      (omega arith) (omega arith) (omega arith) refl is_login (ipv4 refl) refl
