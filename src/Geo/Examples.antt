-- ===== src/Geo/Examples.antt =====
-- The table search at a concrete table.
use route_fork.Base.{◌≡◌, refl, ◌↔◌, none, some, List, [], ◌∷◌, arith}
use route_fork.Text.{codes}
use route_fork.Geo.{Entry, search_from, search_first, ends_at, lookup}
use route_fork.Geo.Lookup.{Covers, lookup-Covers}

abbrev ranges : List Entry
ranges =
    record { start = 10; end = 19; cc = codes "SE" }
    ∷ record { start = 20; end = 20; cc = codes "DE" }
    ∷ record { start = 30; end = 99; cc = codes "NO" }
    ∷ []

inside : lookup ranges 20 ≡ some (codes "DE")
unfolding lookup search_first search_from ends_at
inside = refl

between : lookup ranges 25 ≡ none
unfolding lookup search_first search_from ends_at
between = refl

lookup-Covers_example : (lookup ranges 20 ≡ some (codes "DE")) ↔ Covers ranges 20 (codes "DE")
lookup-Covers_example = lookup-Covers ranges 20 (codes "DE") (
  omega arith,
  (omega arith, (omega arith, tt)),
  (omega arith, (omega arith, tt), (omega arith, tt, tt)),
)
