-- ===== src/Net/Server.antt =====
-- What a SOCKS5 server sends, after RFC 1928 and RFC 1929.
use route_fork.Base.{
  ℕ, ◌+◌, ◌/◌, ◌%◌, ◌<◌, ◌≡◌, refl, ◌≢◌, false, [], ◌∷◌, ◌++◌, arith, ◌==◌, if◌then◌else◌, length,
}
use route_fork.Text.{Text, ◌==ₜ◌}
use route_fork.Net.Socks.{port_bytes, greeting, login, connect_request}

-- What a proxy sends after its choice of a method, and what the client owes it.
pub data IsLogin : Text → ℕ → Text → Type 0 where
  without : {user : Text} {method : ℕ} → method ≢ 2 → method ≢ 255 → IsLogin user method []
  password : {user : Text} (v : ℕ) → user ≢ [] → IsLogin user 2 (v ∷ 0 ∷ [])

abbrev pub credentials : ℕ → Text → Text → Text
credentials method user pass = if method == 2 then login user pass else []

-- A bound address of the type, with its port.
pub data IsBound : ℕ → Text → Type 0 where
  ipv4 : {bs : Text} → length bs ≡ 6 → IsBound 1 bs
  domain : {bs : Text} (n : ℕ) → length bs ≡ n + 2 → IsBound 3 (n ∷ bs)
  ipv6 : {bs : Text} → length bs ≡ 18 → IsBound 4 bs

-- What a proxy sends that lets the client in and reaches the host.
abbrev pub grant : ℕ → Text → (v r atyp : ℕ) → Text → Text
grant method answer v r atyp bound = 5 ∷ method ∷ answer ++ (v ∷ 0 ∷ r ∷ atyp ∷ bound)

pub ==ₜ_nil : (user : Text) → user ≢ [] → (user ==ₜ []) ≡ false
==ₜ_nil [] h = absurd (h refl)
==ₜ_nil (c ∷ user) h = refl

-- The greeting of RFC 1928: without a user the one method 0, and else the methods 0 and 2.
abbrev pub hello : Text → Text
hello [] = 5 ∷ 1 ∷ 0 ∷ []
hello (c ∷ user) = 5 ∷ 2 ∷ 0 ∷ 2 ∷ []

-- The user name and the password of RFC 1929, for a proxy that chose method 2.
abbrev pub password_message : ℕ → Text → Text → Text
password_message method user pass =
    if method == 2 then 1 ∷ length user ∷ user ++ (length pass ∷ pass) else []

pub greeting-hello : (user : Text) → greeting user ≡ hello user
unfolding greeting
greeting-hello [] = refl
greeting-hello (c ∷ user) = refl

pub credentials-password_message :
    (method : ℕ) (user pass : Text)
    → length user < 256
    → length pass < 256
    → credentials method user pass ≡ password_message method user pass
unfolding login
credentials-password_message method user pass h k =
    let short : length user % 256 ≡ length user = omega arith in
    let short' : length pass % 256 ≡ length pass = omega arith in rw (short, short') refl

-- The request of RFC 1928 for a host by its name.
abbrev pub connect_message : Text → ℕ → Text
connect_message host port = 5 ∷ 1 ∷ 0 ∷ 3 ∷ length host ∷ host ++ port / 256 ∷ port % 256 ∷ []

pub port_bytes-big_endian :
    (port : ℕ) → port < 65536 → port_bytes port ≡ port / 256 ∷ port % 256 ∷ []
unfolding port_bytes
port_bytes-big_endian port h =
    let short : (port / 256) % 256 ≡ port / 256 = omega arith in rw short refl

pub connect_request-connect_message :
    (host : Text) (port : ℕ)
    → length host < 256
    → port < 65536
    → connect_request host port ≡ connect_message host port
unfolding connect_request
connect_request-connect_message host port h k =
    let short : length host % 256 ≡ length host = omega arith in
    rw (short, port_bytes-big_endian port k) refl
