-- ===== src/Proxy/Handshake/Examples.antt =====
-- Tests of `socks5Handshake`, and its theorems at concrete proxies.
use route_fork.Base.{◌≤◌, ◌≡◌, refl, List, [], ◌∷◌, ◌++◌, arith, length}
use route_fork.Base.Result.{ok, err}
use route_fork.Text.{Text, codes}
use route_fork.Net.{Conn, read, write, take_segment, incoming, byte}
use route_fork.Net.Socks.{port_bytes, greeting, connect_request}
use route_fork.Net.Server.{without, hello, password_message, connect_message}
use route_fork.Proxy.Handshake.{socks5_handshake, choose}
use route_fork.Proxy.Handshake.Granted.{LetsIn, socks5_handshake-IsLogin, socks5_handshake-granted}

abbrev sending : List Text → Conn
sending segments = record { segments = segments; closing = codes "EOF"; sent = []; writes = [] }

abbrev granting : Conn
granting = sending ((5 ∷ 0 ∷ []) ∷ (5 ∷ 0 ∷ 0 ∷ 1 ∷ []) ∷ [])

-- A proxy that accepts no method, in two segments: the choice is read as no authentication.
short_choice :
    (socks5_handshake (codes "h") 80 [] [] (sending ((5 ∷ []) ∷ (255 ∷ []) ∷ []))).0
    ≡ err (codes "no CONNECT response")
unfolding socks5_handshake choose read take_segment write greeting connect_request port_bytes
short_choice = refl

whole_choice :
    (socks5_handshake (codes "h") 80 [] [] (sending ((5 ∷ 255 ∷ []) ∷ []))).0
    ≡ err (codes "no acceptable auth method")
unfolding socks5_handshake choose read take_segment write greeting connect_request port_bytes
whole_choice = refl

granted_run : socks5_handshake (codes "h") 80 [] [] granting ≡ (
  ok tt,
  record {
    segments = [] ∷ [];
    closing = codes "EOF";
    sent = 5 ∷ 1 ∷ 0 ∷ 5 ∷ 1 ∷ 0 ∷ 3 ∷ 1 ∷ 104 ∷ 0 ∷ 80 ∷ [];
    writes = [];
  },
)
unfolding socks5_handshake choose read take_segment write greeting connect_request port_bytes
granted_run = refl

socks5_handshake-granted_example :
    (choice answer reply : Text) × (incoming granting ≡ choice ++ (answer ++ (reply ++ [])))
    × (byte choice 0 ≡ 5)
    × LetsIn [] (byte choice 1) answer
    × (2 ≤ length reply)
    × (byte reply 1 ≡ 0)
socks5_handshake-granted_example =
    socks5_handshake-granted (codes "h") 80 [] [] granting _ granted_run

socks5_handshake-IsLogin_example :
    (ss : List Text) × (socks5_handshake (codes "h") 80 [] [] granting ≡ (
      ok tt,
      record granting {
        segments = ss;
        sent = [] ++ hello [] ++ password_message 0 [] [] ++ connect_message (codes "h") 80;
      },
    ))
socks5_handshake-IsLogin_example =
    socks5_handshake-IsLogin (codes "h") 80 [] [] granting 0 [] 5 (0 ∷ 1 ∷ []) [] (omega arith)
      (omega arith) (omega arith) (omega arith)
      (without (λ e. omega (arith, e)) (λ e. omega (arith, e))) refl refl
