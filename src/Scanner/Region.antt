-- ===== src/Scanner/Region.antt =====
-- scanner/region.go. A map from countries to proxies is a list of pairs with different keys. What the
-- dial of the ji-th job comes to is an argument; a job that finds the context done is cancelled.
pub mod Verdict
pub mod Probe
pub mod Tallies
mod Examples
use route_fork.Base.{
  ℕ, zero, suc, ◌+◌, ◌-◌, ◌*◌, ◌/◌, ◌%◌, ◌^◌, ◌≤◌, ◌<◌, ◌≡◌, refl, sym, ap, ◌∙◌, subst, ◌≢◌, ◌↔◌,
  ◌⊎◌, inl, inr, Bool, true, false, not, ◌&&◌, ◌||◌, Option, none, some, List, [], ◌∷◌, ◌++◌, map,
  append-nil, append_assoc, arith, ltb, leb, ◌==◌, if◌then◌else◌, leb→le, not_leb, ==_iff,
  Bool-cases, Option-cases, length, get_elem?, get_or, length-append, get_elem?-lt, take, drop,
  take-drop, length-take, same_front, All, All-append, All-left, All-right, All-mono,
}
use route_fork.Base.Int.{ℤ, pos, negsuc, ltb_ℤ, to_ℕ, negate}
use route_fork.Text.{
  Text, codes, Lacks, ◌==ₜ◌, is_space, trim_left, trim_space, has_prefix, contains, cons_head,
  split, split_n, join, fields, lower, upper, to_lower, to_upper,
}
use route_fork.Text.Map.{lookup}
use route_fork.Text.Order.{sort_texts}
use route_fork.Proxy.{Proxy, address}
use route_fork.Proxy.Errors.{is_proxy_error}
use route_fork.Scanner.Batch.{Dialed, connected, failed, cancelled, Vote, opened, refused, errored}

pub record CountryProbe : Type 0 where
  pub country : Text
  pub open_count : ℕ
  pub refused_count : ℕ
  pub errored_count : ℕ

unfoldable pub total : CountryProbe → ℕ
total c = c.open_count + c.refused_count + c.errored_count

pub data RegionStatus : Type 0 where
  region_status_inconclusive region_status_open region_status_blocked : RegionStatus

unfoldable pub status : CountryProbe → RegionStatus
status c =
    if ltb 0 c.open_count
    then region_status_open
    else if ltb 0 c.refused_count
    then region_status_blocked
    else region_status_inconclusive

pub data RegionVerdict : Type 0 where
  region_inconclusive region_open_everywhere region_blocked_somewhere : RegionVerdict

pub record RegionReport : Type 0 where
  pub verdict : RegionVerdict
  pub probes : List CountryProbe
  pub open_in : List Text
  pub blocked_in : List Text

-- The switch of the loop over the probes.
unfoldable pub place : RegionStatus → Text → List Text × List Text → List Text × List Text
place region_status_open c (open_in, blocked_in) = (open_in ++ c ∷ [], blocked_in)
place region_status_blocked c (open_in, blocked_in) = (open_in, blocked_in ++ c ∷ [])
place region_status_inconclusive c lists = lists

unfoldable pub place_all : List CountryProbe → List Text × List Text → List Text × List Text
unfolding place status
place_all [] lists = lists
place_all (p ∷ ps) lists = place_all ps (place (status p) p.country lists)

unfoldable pub region_verdict : ℕ → ℕ → RegionVerdict
region_verdict opens blocks =
    if ltb 0 opens && ltb 0 blocks
    then region_blocked_somewhere
    else if ltb 0 opens
    then region_open_everywhere
    else region_inconclusive

unfoldable pub decide_region_block : List CountryProbe → RegionReport
unfolding place_all region_verdict
decide_region_block probes =
    let lists = place_all probes ([], []) in
    record {
      verdict = region_verdict (length lists.0) (length lists.1);
      probes = probes;
      open_in = sort_texts lists.0;
      blocked_in = sort_texts lists.1;
    }

-- `byCountry[c]`
unfoldable pub bucket : List (Text × List Proxy) → Text → List Proxy
bucket by_country c = elim (lookup c by_country) [ none ↦ [] | some ps ↦ ps ]

unfoldable pub at_most : ℕ → List Proxy → List Proxy
at_most n ps = if ltb n (length ps) then take n ps else ps

-- The jobs of the countries from the ci-th on.
unfoldable pub region_jobs : List (Text × List Proxy) → ℕ → ℕ → List Text → List (ℕ × Proxy)
unfolding at_most bucket
region_jobs by_country per ci [] = []
region_jobs by_country per ci (c ∷ cs) =
    map (λ p. (ci, p)) (at_most per (bucket by_country c)) ++ region_jobs by_country per (ci + 1) cs

-- What the goroutine of a job leaves in `votes`.
unfoldable pub region_vote : Dialed → Proxy → Vote
region_vote cancelled p = errored
region_vote (failed e) p = if is_proxy_error (address p) (some e) then errored else refused
region_vote (connected service version banner) p = opened

unfoldable pub count_region : Vote → CountryProbe → CountryProbe
count_region opened c = record c { open_count = c.open_count + 1 }
count_region refused c = record c { refused_count = c.refused_count + 1 }
count_region errored c = record c { errored_count = c.errored_count + 1 }

unfoldable pub update_at : ℕ → (CountryProbe → CountryProbe) → List CountryProbe → List CountryProbe
update_at i f [] = []
update_at zero f (x ∷ xs) = f x ∷ xs
update_at (suc i) f (x ∷ xs) = x ∷ update_at i f xs

-- The loop over the votes from the ji-th on.
unfoldable pub count_jobs :
    (ℕ → Proxy → Dialed) → ℕ → List (ℕ × Proxy) → List CountryProbe → List CountryProbe
unfolding update_at count_region region_vote
count_jobs dial ji [] probes = probes
count_jobs dial ji ((ci, p) ∷ jobs) probes =
    count_jobs dial (ji + 1) jobs (update_at ci (count_region (region_vote (dial ji p) p)) probes)

unfoldable pub new_probe : Text → CountryProbe
new_probe c = record { country = c; open_count = 0; refused_count = 0; errored_count = 0 }

unfoldable pub countries : List (Text × List Proxy) → List Text
countries by_country = sort_texts (map (λ entry. entry.0) by_country)

unfoldable pub clamp_per_country : ℤ → ℕ
clamp_per_country n = if ltb_ℤ n (pos 1) then 1 else to_ℕ n

unfoldable pub probe_region :
    (ℕ → Proxy → Dialed) → List (Text × List Proxy) → ℤ → List CountryProbe
unfolding countries clamp_per_country
probe_region dial by_country per_country =
    let cs = countries by_country in
    count_jobs dial 0 (region_jobs by_country (clamp_per_country per_country) 0 cs)
      (map new_probe cs)
