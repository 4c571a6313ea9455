-- ===== src/Proxy/Dial/Examples.antt =====
-- Tests of the dials of proxy/validate.go, and the theorem on `FetchEgressIP` at a concrete proxy.
use route_fork.Base.{ℕ, zero, suc, ◌≡◌, refl, true, false, none, some, List, [], ◌∷◌, if◌then◌else◌}
use route_fork.Base.Result.{Result, ok}
use route_fork.Text.{Text, codes, ◌==ₜ◌, split}
use route_fork.Net.{Conn, write, read}
use route_fork.Net.Ip.{octet, parse_ipv4}
use route_fork.Net.Socks.{port_bytes, greeting, connect_request}
use route_fork.Proxy.{Proxy, new_proxy}
use route_fork.Proxy.Handshake.{socks5_handshake, choose}
use route_fork.Proxy.Egress.{
  extract_public_ip, first_public, fields_func, is_dot_or_digit, is_public_ip,
}
use route_fork.Proxy.Dial.{
  Resolver, parse_ip, socks4_address, socks4_error, socks4_handshake, dial_through_proxy, validate,
  read_rest, after_headers, body_of, egress_seen, fetch_from, fetch_egress_ip,
}

abbrev resolver : Resolver
resolver = record {
  look_up = λ h. if h ==ₜ codes "t" then some (codes "192.0.2.7") else none;
  parse_ipv6 = λ h. if h ==ₜ codes "::1" then some none else none;
}

abbrev peer : List Text → Result Text Conn
peer segments = ok (record { segments = segments; closing = codes "EOF"; sent = []; writes = [] })

abbrev socks4 : Proxy
unfolding new_proxy
socks4 = new_proxy (codes "a") 1 (codes "socks4") [] []

abbrev socks5 : Proxy
unfolding new_proxy
socks5 = new_proxy (codes "a") 1 (codes "socks5") [] []

valid_test :
    validate resolver
      (peer ((0 ∷ 90 ∷ 0 ∷ 0 ∷ 0 ∷ 0 ∷ 0 ∷ 0 ∷ []) ∷ []))
      5000000
      8000000
      socks4
      (codes "t")
      80
    ≡ (true, 3, [])
unfolding socks4 validate socks4_handshake socks4_address parse_ip parse_ipv4 split octet write read
valid_test = refl

rejected_test :
    validate resolver (peer ((0 ∷ 91 ∷ []) ∷ [])) 0 0 socks4 (codes "192.0.2.7") 80
    ≡ (false, 0, codes "request rejected")
unfolding socks4 validate socks4_handshake socks4_address socks4_error parse_ip parse_ipv4 split
    octet write read
rejected_test = refl

ipv6_test :
    validate resolver (peer []) 0 0 socks4 (codes "::1") 80
    ≡ (false, 0, codes "SOCKS4 requires IPv4")
unfolding socks4 validate socks4_handshake socks4_address parse_ip parse_ipv4 split octet
ipv6_test = refl

-- The first service answers without headers, and the second with an address.
abbrev dial : ℕ → Result Text Conn
dial zero = peer ((5 ∷ 0 ∷ []) ∷ (5 ∷ 0 ∷ []) ∷ codes "oops" ∷ [])
dial (suc i) = peer ((5 ∷ 0 ∷ []) ∷ (5 ∷ 0 ∷ []) ∷ codes "HTTP/1.0 200 OK\r\n\r\n203.0.113.9" ∷ [])

abbrev seen_from : Text → Text
seen_from ip = codes "DE"

fetch_test : fetch_egress_ip resolver dial seen_from socks5 ≡ (
  ok (codes "203.0.113.9"),
  record socks5 { egress_ip = codes "203.0.113.9"; country = codes "DE" },
)
unfolding socks5 fetch_egress_ip fetch_from egress_seen body_of dial_through_proxy socks5_handshake
    choose greeting connect_request port_bytes write read read_rest after_headers extract_public_ip
    first_public fields_func is_dot_or_digit is_public_ip parse_ipv4 split octet
fetch_test = refl
