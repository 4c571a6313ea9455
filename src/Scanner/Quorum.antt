-- ===== src/Scanner/Quorum.antt =====
-- scanner/quorum.go. Vote counts and the quorum are never negative where the scanner calls it.
use route_fork.Base.{ℕ, ◌≤◌, ◌<◌, ◌≡◌, ◌↔◌, Bool, true, false, arith, ltb, leb, if◌then◌else◌}

pub data QuorumVerdict : Type 0 where
  quorum_unreachable quorum_open quorum_refuted quorum_unconfirmed : QuorumVerdict

unfoldable pub decide_quorum : ℕ → ℕ → Bool → QuorumVerdict
decide_quorum confirmations quorum refuted =
    if refuted
    then quorum_refuted
    else if leb quorum confirmations
    then quorum_open
    else if ltb 0 confirmations
    then quorum_unconfirmed
    else quorum_unreachable

unfoldable pub is_open : QuorumVerdict → Bool
is_open quorum_open = true
is_open _ = false

-- What the verdict says of the tally, for a quorum of at least one.
abbrev pub Means : QuorumVerdict → ℕ → ℕ → Bool → Type 0
Means quorum_refuted c q r = r ≡ true
Means quorum_open c q r = (r ≡ false) × (q ≤ c)
Means quorum_unconfirmed c q r = (r ≡ false) × (0 < c) × (c < q)
Means quorum_unreachable c q r = (r ≡ false) × (c ≡ 0)

-- A verdict is reached exactly by the tallies that its documentation describes.
pub decide_quorum-Means :
    (v : QuorumVerdict) (c q : ℕ) (r : Bool) → 1 ≤ q → (decide_quorum c q r ≡ v) ↔ Means v c q r
unfolding decide_quorum
decide_quorum-Means quorum_refuted c q r h = (ground arith, ground arith)
decide_quorum-Means quorum_open c q r h = (ground arith, ground arith)
decide_quorum-Means quorum_unconfirmed c q r h = (ground arith, ground arith)
decide_quorum-Means quorum_unreachable c q r h = (ground arith, ground arith)
