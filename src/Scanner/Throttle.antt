-- ===== src/Scanner/Throttle.antt =====
-- scanner/throttle.go. A time is a number of nanoseconds, an argument of each call; `none` stands
-- for a nil throttle. Each call holds the lock throughout, so it is one step.
pub mod Spacing
mod Examples
use route_fork.Base.{
  ℕ, zero, suc, ◌+◌, ◌-◌, ◌*◌, ◌/◌, ◌%◌, ◌^◌, ◌≤◌, ◌<◌, ◌≡◌, refl, sym, ap, ◌∙◌, subst, ◌≢◌, ◌↔◌,
  ◌⊎◌, inl, inr, Bool, true, false, not, ◌&&◌, ◌||◌, Option, none, some, List, [], ◌∷◌, ◌++◌, map,
  append-nil, append_assoc, arith, ltb, leb, ◌==◌, if◌then◌else◌, leb→le, ==_iff, Bool-cases,
  Option-cases, length, get_elem?, get_or, length-append, get_elem?-lt, All, All-append, All-left,
  All-right, All-mono,
}
use route_fork.Base.Int.{ℤ, pos, negsuc, ltb_ℤ, to_ℕ, negate}
use route_fork.Text.{
  Text, codes, Lacks, ◌==ₜ◌, is_space, trim_left, trim_space, has_prefix, contains, cons_head,
  split, split_n, join, fields, lower, upper, to_lower, to_upper,
}
use route_fork.Text.Map.{lookup, insert}

pub record Throttle : Type 0 where
  pub interval : ℤ
  pub last_use : List (Text × ℕ)

unfoldable pub new_throttle : ℤ → Throttle
new_throttle interval = record { interval = interval; last_use = [] }

-- `now.Sub(last) < t.interval`, for a positive interval
unfoldable pub too_soon : Option ℕ → ℕ → ℕ → Bool
too_soon none interval now = false
too_soon (some last) interval now = ltb now (last + interval)

unfoldable pub ready : Option Throttle → ℕ → Text → Option Throttle × Bool
unfolding too_soon
ready none now addr = (none, true)
ready (some t) now addr =
    if not (ltb_ℤ (pos 0) t.interval)
    then (some t, true)
    else if too_soon (lookup addr t.last_use) (to_ℕ t.interval) now
    then (some t, false)
    else (some (record t { last_use = insert addr now t.last_use }), true)
