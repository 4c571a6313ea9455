-- ===== src/Scanner/Throttle/Examples.antt =====
-- Tests of the throttle, and its theorems at concrete calls.
use route_fork.Base.{ℕ, ◌≡◌, refl, false, some, List, [], ◌∷◌, arith}
use route_fork.Base.Int.{pos}
use route_fork.Text.{Text, codes}
use route_fork.Text.Map.{lookup, insert}
use route_fork.Scanner.Throttle.{Throttle, ready}
use route_fork.Scanner.Throttle.Spacing.{Spaced, grants, grants-Spaced}

abbrev calls : List (ℕ × Text)
calls = (10, codes "a") ∷ (12, codes "a") ∷ (13, codes "b") ∷ (16, codes "a") ∷ []

abbrev used : Throttle
used = record { interval = pos 5; last_use = (codes "a", 10) ∷ [] }

grants_test :
    grants (some (record { interval = pos 5; last_use = [] })) (codes "a") calls ≡ 10 ∷ 16 ∷ []
unfolding grants lookup insert
grants_test = refl

grants-Spaced_example :
    Spaced 5
      (lookup (codes "a") [])
      (grants (some (record { interval = pos 5; last_use = [] })) (codes "a") calls)
grants-Spaced_example = grants-Spaced 5 [] (codes "a") calls (omega arith)

refused_test : (ready (some used) 12 (codes "a")).1 ≡ false
unfolding ready lookup
refused_test = refl
