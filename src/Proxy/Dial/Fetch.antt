-- ===== src/Proxy/Dial/Fetch.antt =====
-- What `FetchEgressIP` of proxy/validate.go reports.
use route_fork.Base.{ℕ, ◌≡◌, Option, none, some, List, [], ◌∷◌, ◌++◌, All}
use route_fork.Base.Result.{Result, ok, err}
use route_fork.Text.{Text, codes}
use route_fork.Net.{Conn, write}
use route_fork.Net.Ip.{parse_ipv4}
use route_fork.Proxy.{Proxy}
use route_fork.Proxy.Egress.{extract_public_ip}
use route_fork.Proxy.Egress.Public.{IsOutside, number}
use route_fork.Proxy.Dial.{
  Resolver, handshake, read_rest, after_headers, egress_request, Service, egress_seen, found_egress,
}

module _ (r : Resolver) (dial : ℕ → Result Text Conn) (country : Text → Text) (p : Proxy) where
  -- An address that a service saw: the proxy was reached and let the client through to the service,
  -- the request was sent whole, the body of the answer has the address as its first public one.
  pub record Seen (s : Service) (ip : Text) : Type 0 where
    pub conn : Conn
    pub through : Conn
    pub bytes : Text
    pub body : Text
    pub reached : dial s.place ≡ ok conn
    pub granted : handshake r p s.host s.port conn ≡ (ok tt, through)
    pub asked :
        (write (egress_request s.host) through).1.sent ≡ through.sent ++ egress_request s.host
    pub answered :
        after_headers (read_rest 2048 [] (write (egress_request s.host) through).1) ≡ some body
    pub extracted : extract_public_ip body ≡ ip
    pub address : parse_ipv4 ip ≡ some bytes
    pub outside : IsOutside (number bytes)

  -- What is reported: the address that the first service saw that saw one, kept in the proxy with
  -- its country, or an error with the proxy as it was, after no service saw any.
  pub data Fetched (ss : List Service) : Result Text Text × Proxy → Type 0 where
    found :
        (before after : List Service) (s : Service) (ip : Text)
        → ss ≡ before ++ s ∷ after
        → All (λ t. egress_seen r dial country p t ≡ []) before
        → Seen s ip
        → Fetched ss (found_egress r dial country p ip)
    unknown :
        All (λ t. egress_seen r dial country p t ≡ []) ss
        → Fetched ss (err (codes "could not determine egress IP"), p)

  Answered : Service → Option Text → Type 0
  Answered s none = Unit
  Answered s (some body) =
      (conn through : Conn) × (dial s.place ≡ ok conn)
      × (handshake r p s.host s.port conn ≡ (ok tt, through))
      × ((write (egress_request s.host) through).1.sent ≡ through.sent ++ egress_request s.host)
      × (after_headers (read_rest 2048 [] (write (egress_request s.host) through).1) ≡ some body)

  module _ (s : Service) (conn through : Conn) (reached : dial s.place ≡ ok conn)
      (granted : handshake r p s.host s.port conn ≡ (ok tt, through)) where
    abbrev request : Text
    request = egress_request s.host
