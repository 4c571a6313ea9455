-- ===== src/Scanner/Throttle/Spacing.antt =====
-- How far apart a throttle keeps the uses of one proxy.
use route_fork.Base.{
  ℕ, ◌+◌, ◌≤◌, ◌<◌, ◌≡◌, refl, subst, inl, inr, true, false, ◌&&◌, Option, none, some, List, [],
  ◌∷◌, arith, if◌then◌else◌, Bool-cases,
}
use route_fork.Base.Int.{pos, to_ℕ}
use route_fork.Text.{Text, ◌==ₜ◌}
use route_fork.Text.Map.{lookup, insert, lookup-insert}
use route_fork.Text.Search.{eq_of_==ₜ}
use route_fork.Scanner.Throttle.{Throttle, too_soon, ready}

-- A run of `Ready` calls, from any goroutines, in the order in which they take the lock: the times
-- at which the proxy at `addr` is granted.
unfoldable pub grants : Option Throttle → Text → List (ℕ × Text) → List ℕ
unfolding ready
grants t addr [] = []
grants t addr ((now, a) ∷ calls) =
    let rest = grants (ready t now a).0 addr calls in
    if (ready t now a).1 && (a ==ₜ addr) then now ∷ rest else rest

-- The time is at least `d` after the last one, if there is a last one.
abbrev After : ℕ → Option ℕ → ℕ → Type 0
After d none now = Unit
After d (some last) now = last + d ≤ now

-- Each time of the list is at least `d` after the one before it, the first after `last`.
abbrev pub Spaced : ℕ → Option ℕ → List ℕ → Type 0
Spaced d last [] = Unit
Spaced d last (now ∷ times) = After d last now × Spaced d (some now) times

too_soon-After : (d now : ℕ) (last : Option ℕ) → too_soon last d now ≡ false → After d last now
unfolding too_soon
too_soon-After d now none h = tt
too_soon-After d now (some last) h = ground arith

module _ (d : ℕ) (positive : 0 < d) where
  limited : List (Text × ℕ) → Throttle
  limited uses = record { interval = pos d; last_use = uses }

  ready_early :
      (uses : List (Text × ℕ)) (now : ℕ) (a : Text)
      → too_soon (lookup a uses) d now ≡ true
      → ready (some (limited uses)) now a ≡ (some (limited uses), false)
  unfolding ready limited
  ready_early uses now a h = rw h (ground arith)

  ready_late :
      (uses : List (Text × ℕ)) (now : ℕ) (a : Text)
      → too_soon (lookup a uses) d now ≡ false
      → ready (some (limited uses)) now a ≡ (some (limited (insert a now uses)), true)
  unfolding ready limited
  ready_late uses now a h = rw h (ground arith)

  grants-limited :
      (addr : Text) (calls : List (ℕ × Text)) (uses : List (Text × ℕ))
      → Spaced d (lookup addr uses) (grants (some (limited uses)) addr calls)
  unfolding grants
  grants-limited addr [] uses = tt
  grants-limited addr ((now, a) ∷ calls) uses = elim (Bool-cases (too_soon (lookup a uses) d now)) [
    | inl early ↦ rw (ready_early uses now a early) (grants-limited addr calls uses)
    | inr late ↦
        let ih = grants-limited addr calls (insert a now uses) in
        rw (ready_late uses now a late) (elim (Bool-cases (a ==ₜ addr)) [
          | inl e ↦ rw e (
            subst (λ x. After d (lookup x uses) now) (eq_of_==ₜ a addr e)
                (too_soon-After d now (lookup a uses) late),
            rw (lookup-insert a addr now uses, e) at ih,
          )
          | inr e ↦ rw e (rw (lookup-insert a addr now uses, e) at ih)
        ])
  ]

-- Under a throttle with a positive interval, any two consecutive uses of one proxy that `Ready`
-- grants are at least the interval apart, whatever calls for other proxies come between and
-- whether or not the clock is steady; the first use is as far from the recorded last one.
pub grants-Spaced :
    (d : ℕ) (uses : List (Text × ℕ)) (addr : Text) (calls : List (ℕ × Text))
    → 0 < d
    → Spaced d
        (lookup addr uses)
        (grants (some (record { interval = pos d; last_use = uses })) addr calls)
grants-Spaced d uses addr calls h = unfold limited in grants-limited d h addr calls uses

too_soon_within :
    (o : Option ℕ) (d now : ℕ)
    → too_soon o d now ≡ true
    → (last : ℕ) × (o ≡ some last) × (now < last + d)
unfolding too_soon
too_soon_within none d now h = cc
too_soon_within (some last) d now h = (last, refl, ground arith)

ready_refused :
    (t : Throttle) (now : ℕ) (addr : Text)
    → (ready (some t) now addr).1 ≡ false
    → (too_soon (lookup addr t.last_use) (to_ℕ t.interval) now ≡ true)
      × ((ready (some t) now addr).0 ≡ some t)
unfolding ready
ready_refused t now addr h = ground arith

-- A refusal is never spurious: `Ready` returns false only within the interval after a recorded use,
-- and then leaves the throttle as it was.
pub ready-refuses :
    (t : Throttle) (now : ℕ) (addr : Text)
    → (ready (some t) now addr).1 ≡ false
    → (last : ℕ) × (lookup addr t.last_use ≡ some last)
      × (now < last + to_ℕ t.interval)
      × ((ready (some t) now addr).0 ≡ some t)
ready-refuses t now addr h =
    let (early, same) = ready_refused t now addr h in
    let (last, found, within) =
      too_soon_within (lookup addr t.last_use) (to_ℕ t.interval) now early in
    (last, found, within, same)
