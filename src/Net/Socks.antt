-- ===== src/Net/Socks.antt =====
-- The messages of a SOCKS client, which relay/relay.go and proxy/validate.go build alike.
use route_fork.Base.{
  ℕ, ◌+◌, ◌*◌, ◌/◌, ◌%◌, ◌&&◌, Option, none, some, [], ◌∷◌, ◌++◌, ◌==◌, if◌then◌else◌, length,
  get_or, take,
}
use route_fork.Text.{Text, ◌==ₜ◌}

-- `byte(port>>8), byte(port)`
unfoldable pub port_bytes : ℕ → Text
port_bytes port = (port / 256) % 256 ∷ port % 256 ∷ []

unfoldable pub greeting : Text → Text
greeting user = if user ==ₜ [] then 5 ∷ 1 ∷ 0 ∷ [] else 5 ∷ 2 ∷ 0 ∷ 2 ∷ []

unfoldable pub login : Text → Text → Text
login user pass = 1 ∷ length user % 256 ∷ user ++ (length pass % 256 ∷ pass)

unfoldable pub connect_request : Text → ℕ → Text
unfolding port_bytes
connect_request host port = 5 ∷ 1 ∷ 0 ∷ 3 ∷ length host % 256 ∷ host ++ port_bytes port

unfoldable pub socks4a_request : Text → ℕ → Text
unfolding port_bytes
socks4a_request host port = 4 ∷ 1 ∷ port_bytes port ++ 0 ∷ 0 ∷ 0 ∷ 1 ∷ 0 ∷ host ++ 0 ∷ []

-- What a server reads of a request: the host by its length, and the two bytes of the port.
unfoldable pub requested : Text → Option (Text × ℕ)
requested (v ∷ c ∷ r ∷ a ∷ n ∷ rest) =
    if v == 5 && c == 1 && r == 0 && a == 3 && length rest == n + 2
    then some (take n rest, get_or rest n 0 * 256 + get_or rest (n + 1) 0)
    else none
requested _ = none
