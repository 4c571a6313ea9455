-- ===== src/Scanner/Region/Examples.antt =====
-- Tests of the region check, and its theorems at concrete countries.
use mathlib.Core.List.{Perm}
use route_fork.Base.{ℕ, zero, suc, ◌≡◌, refl, ◌↔◌, List, [], ◌∷◌, map}
use route_fork.Base.Int.{pos}
use route_fork.Text.{Text, codes, contains, to_lower}
use route_fork.Text.Map.{lookup}
use route_fork.Text.Order.{leb_text, sort_texts, IsAscending}
use route_fork.Text.Decimal.{itoa}
use route_fork.Proxy.{Proxy, new_proxy, address}
use route_fork.Proxy.Errors.{is_proxy_error}
use route_fork.Scanner.Batch.{Dialed, connected, failed}
use route_fork.Scanner.Region.{
  CountryProbe, bucket, at_most, region_jobs, count_jobs, new_probe, countries, clamp_per_country,
  probe_region, decide_region_block, region_blocked_somewhere,
}
use route_fork.Scanner.Region.Verdict.{
  Means, seen_open, seen_blocked, decide_region_block-Means, decide_region_block-perm,
}
use route_fork.Scanner.Region.Tallies.{separately, at_least_one, probe_region-separately}

abbrev proxy_named : Text → Proxy
unfolding new_proxy
proxy_named host = new_proxy host 1 (codes "socks5") [] []

abbrev two_countries : List (Text × List Proxy)
two_countries =
    (codes "SE", proxy_named (codes "a") ∷ proxy_named (codes "b") ∷ [])
    ∷ (codes "DE", proxy_named (codes "c") ∷ proxy_named (codes "d") ∷ proxy_named (codes "e") ∷ [])
    ∷ []

-- The first two jobs are Germany's.
abbrev dials : ℕ → Proxy → Dialed
dials zero p = connected [] [] []
dials (suc zero) p = failed (codes "EOF")
dials (suc (suc k)) p = failed (codes "connection refused")

abbrev seen : List CountryProbe
seen =
    record { country = codes "DE"; open_count = 1; refused_count = 0; errored_count = 1 }
    ∷ record { country = codes "SE"; open_count = 0; refused_count = 2; errored_count = 0 }
    ∷ []

probed : probe_region dials two_countries (pos 2) ≡ seen
unfolding probe_region countries clamp_per_country region_jobs at_most bucket lookup sort_texts
    count_jobs new_probe is_proxy_error contains to_lower address itoa proxy_named leb_text
probed = refl

blocked : (decide_region_block seen).verdict ≡ region_blocked_somewhere
unfolding decide_region_block
blocked = refl

decide_region_block-Means_example :
    ((decide_region_block seen).verdict ≡ region_blocked_somewhere)
    ↔ Means region_blocked_somewhere seen
decide_region_block-Means_example = decide_region_block-Means region_blocked_somewhere seen

decide_region_block-perm_example :
    IsAscending (decide_region_block seen).open_in
    × Perm (decide_region_block seen).open_in (seen_open seen)
    × IsAscending (decide_region_block seen).blocked_in
    × Perm (decide_region_block seen).blocked_in (seen_blocked seen)
decide_region_block-perm_example = decide_region_block-perm seen

probe_region-separately_example :
    (cs : List Text) × IsAscending cs
    × Perm cs (map (λ entry. entry.0) two_countries)
    × (probe_region dials two_countries (pos 2)
        ≡ separately dials two_countries (at_least_one (pos 2)) 0 cs)
probe_region-separately_example = probe_region-separately dials two_countries (pos 2)
