-- ===== src/Scanner/Examples.antt =====
-- The theorem on the verdict at concrete tallies.
use route_fork.Base.{◌≡◌, ◌↔◌, false, arith}
use route_fork.Scanner.Quorum.{quorum_unconfirmed, decide_quorum, Means, decide_quorum-Means}

decide_quorum-Means_example :
    (decide_quorum 1 2 false ≡ quorum_unconfirmed) ↔ Means quorum_unconfirmed 1 2 false
decide_quorum-Means_example = decide_quorum-Means quorum_unconfirmed 1 2 false (omega arith)
