-- ===== src/Relay/Bridge.antt =====
-- `handle` of relay/relay.go: what the client is told.
use route_fork.Base.{ℕ, ◌/◌, ◌%◌, ◌≡◌, Option, none, some, List, [], ◌∷◌, ◌++◌, take}
use route_fork.Base.Result.{Result, ok, err}
use route_fork.Text.{Text}
use route_fork.Proxy.{Proxy, address}
use route_fork.Net.{Conn}
use route_fork.Relay.{Request, read_request, dial_upstream, Handled}

-- Nothing is spliced, and the client was sent nothing.
abbrev pub IsSilent : Text → Handled → Type 0
IsSilent sent h = (h.spliced ≡ none) × (h.client.sent ≡ sent)

-- SOCKS4's reply of success, with the port and the address of the request.
abbrev pub success : Request → Text
success r = 0 ∷ 90 ∷ (r.port / 256) % 256 ∷ r.port % 256 ∷ r.ip

-- The next call of `Write` returns no error.
abbrev pub WriteSucceeds : List (Option (ℕ × Text)) → Type 0
WriteSucceeds [] = Unit
WriteSucceeds (none ∷ ws) = Unit
WriteSucceeds (some e ∷ ws) = ⊥

-- What becomes of a client, by its request and by what the proxy does.
pub data IsHandled (px : Proxy) (dial : Text → Result Text Conn) (client : Conn) (h : Handled)
    : Type 0 where
  -- it sends no request
  unread :
      {e : Text} {c : Conn}
      → read_request client ≡ (err e, c)
      → IsSilent client.sent h
      → IsHandled px dial client h
  -- the proxy cannot be reached
  unreached :
      {r : Request} {c : Conn} {e : Text}
      → read_request client ≡ (ok r, c)
      → dial (address px) ≡ err e
      → IsSilent client.sent h
      → IsHandled px dial client h
  -- the proxy does not grant the request
  refused :
      {r : Request} {c accepted : Conn} {e : Text}
      → read_request client ≡ (ok r, c)
      → dial (address px) ≡ ok accepted
      → dial_upstream px (ok accepted) r.host r.port ≡ err e
      → IsSilent client.sent h
      → IsHandled px dial client h
  -- it does, and the reply fails on its way
  untold :
      {r : Request} {c accepted upstream : Conn} {n : ℕ} {e : Text} {ws : List (Option (ℕ × Text))}
      → read_request client ≡ (ok r, c)
      → dial (address px) ≡ ok accepted
      → dial_upstream px (ok accepted) r.host r.port ≡ ok upstream
      → c.writes ≡ some (n, e) ∷ ws
      → h.spliced ≡ none
      → h.client.sent ≡ client.sent ++ take n (success r)
      → IsHandled px dial client h
  -- it does, and the reply is written
  bridged :
      {r : Request} {c accepted upstream : Conn}
      → read_request client ≡ (ok r, c)
      → dial (address px) ≡ ok accepted
      → dial_upstream px (ok accepted) r.host r.port ≡ ok upstream
      → WriteSucceeds c.writes
      → h.spliced ≡ some upstream
      → h.client.sent ≡ client.sent ++ success r
      → IsHandled px dial client h
