-- ===== src/Scanner/Services/Examples.antt =====
-- Tests of the identification of services, and its theorem at a concrete connection.
use route_fork.Base.{◌≡◌, refl, none, List, [], ◌∷◌}
use route_fork.Text.{
  Text, codes, trim_space, has_prefix, contains, split, split_n, to_lower, to_upper,
}
use route_fork.Net.{Conn, read, take_segment, write}
use route_fork.Scanner.Banner.{clean_banner}
use route_fork.Scanner.Services.{
  is_among, read_banner, probe_http, Handshake, identify_service, first_line, port_service,
  parse_banner,
}
use route_fork.Scanner.Services.Quiet.{IsPolite, identify_service-sent}

abbrev no_tls : Handshake
no_tls host c = (none, c)

abbrev sending : List Text → Conn
sending segments = record { segments = segments; closing = codes "timeout"; sent = []; writes = [] }

ssh :
    parse_banner (codes "SSH-2.0-OpenSSH_9.6p1 Debian")
    ≡ (codes "ssh", codes "OpenSSH_9.6p1 Debian")
unfolding parse_banner trim_space has_prefix split_n
ssh = refl

http :
    parse_banner (codes "HTTP/1.1 200 OK\r\nserver: nginx/1.24\r\n")
    ≡ (codes "http", codes "nginx/1.24")
unfolding parse_banner trim_space has_prefix to_upper split to_lower
http = refl

smtp : parse_banner (codes "220 mx ESMTP ready") ≡ (codes "smtp", codes "mx ESMTP ready")
unfolding parse_banner trim_space has_prefix to_upper contains
smtp = refl

telnet : port_service 23 ≡ codes "telnet"
unfolding port_service
telnet = refl

-- A web server that waits for the request.
asked :
    (identify_service no_tls
      (codes "HTTP/1.0 200 OK\r\nServer: x\r\n" ∷ [])
      (sending [])
      (codes "h")
      80).0
    ≡ record { service = codes "http"; version = codes "x"; banner = codes "HTTP/1.0 200 OK" }
unfolding identify_service is_among read_banner read take_segment clean_banner probe_http write
    parse_banner trim_space has_prefix to_upper split to_lower first_line
asked = refl

identify_service-sent_example :
    IsPolite
      (codes "h")
      80
      (sending [])
      (identify_service no_tls (codes "HTTP/1.0 200 OK" ∷ []) (sending []) (codes "h") 80).1.sent
unfolding is_among
identify_service-sent_example =
    identify_service-sent no_tls (codes "HTTP/1.0 200 OK" ∷ []) (sending []) (codes "h") 80 refl
