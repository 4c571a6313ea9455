-- ===== src/Scanner/Ports/Examples.antt =====
-- The theorems on port specifications at concrete ones.
use route_fork.Base.{◌≡◌, refl, [], ◌∷◌, arith}
use route_fork.Base.Result.{ok}
use route_fork.Text.{codes, trim_space, contains, split, split_n}
use route_fork.Base.Sort.{sort}
use route_fork.Text.Decimal.{atoi}
use route_fork.Scanner.Ports.{parse_ports, parse_part, compress_ports}
use route_fork.Scanner.Ports.Parse.{IsBounded, parse_ports-IsBounded}
use route_fork.Scanner.Ports.RoundTrip.{parse_ports-compress_ports}

parsed : parse_ports (codes "22,80-81") ≡ ok (22 ∷ 80 ∷ 81 ∷ [])
unfolding parse_ports parse_part split split_n contains trim_space atoi
parsed = refl

parse_ports-IsBounded_example : IsBounded (22 ∷ 80 ∷ 81 ∷ [])
parse_ports-IsBounded_example = parse_ports-IsBounded (codes "22,80-81") (22 ∷ 80 ∷ 81 ∷ []) parsed

parse_ports-compress_ports_example :
    parse_ports (compress_ports (81 ∷ 22 ∷ 80 ∷ 22 ∷ [])) ≡ ok (sort (81 ∷ 22 ∷ 80 ∷ 22 ∷ []))
parse_ports-compress_ports_example =
    parse_ports-compress_ports (81 ∷ 22 ∷ 80 ∷ 22 ∷ []) (cc) (omega arith) (omega arith)
