-- ===== src/Scanner/Region/Probe.antt =====
-- `ProbeRegion` of scanner/region.go against a count for each country by itself.
use route_fork.Base.{
  ℕ, zero, suc, ◌+◌, ◌≡◌, refl, sym, ap, ◌∙◌, List, [], ◌∷◌, ◌++◌, map, append_assoc, arith, length,
  length-append,
}
use route_fork.Base.Int.{ℤ}
use route_fork.Text.{Text}
use route_fork.Proxy.{Proxy}
use route_fork.Scanner.Batch.{Dialed, Vote, opened, refused, errored}
use route_fork.Scanner.Region.{
  CountryProbe, total, bucket, at_most, region_jobs, region_vote, count_region, update_at,
  count_jobs, new_probe, countries, clamp_per_country, probe_region,
}

-- The votes of one country's proxies, the first of which has the job `ji`.
abbrev pub own : (ℕ → Proxy → Dialed) → ℕ → List Proxy → CountryProbe → CountryProbe
own dial ji [] x = x
own dial ji (p ∷ ps) x = own dial (ji + 1) ps (count_region (region_vote (dial ji p) p) x)

abbrev pub chosen : List (Text × List Proxy) → ℕ → Text → List Proxy
chosen by_country per c = at_most per (bucket by_country c)

-- Each country's count by itself, with the code's own steps.
abbrev pub separately_own :
    (ℕ → Proxy → Dialed) → List (Text × List Proxy) → ℕ → ℕ → List Text → List CountryProbe
separately_own dial by_country per ji [] = []
separately_own dial by_country per ji (c ∷ cs) =
    own dial ji (chosen by_country per c) (new_probe c)
    ∷ separately_own dial by_country per (ji + length (chosen by_country per c)) cs

update_at-append :
    (pre : List CountryProbe) (k : ℕ) (f : CountryProbe → CountryProbe) (x : CountryProbe)
    (post : List CountryProbe)
    → k ≡ length pre
    → update_at k f (pre ++ x ∷ post) ≡ pre ++ f x ∷ post
unfolding update_at
update_at-append [] zero f x post e = refl
update_at-append [] (suc k) f x post e = absurd (omega arith)
update_at-append (y ∷ pre) zero f x post e = absurd (omega arith)
update_at-append (y ∷ pre) (suc k) f x post e =
    ap (λ r. y ∷ r) (update_at-append pre k f x post (omega arith))

module _ (dial : ℕ → Proxy → Dialed) where
  count_jobs-own :
      (ji k : ℕ) (ps : List Proxy) (jobs : List (ℕ × Proxy)) (pre post : List CountryProbe)
      (x : CountryProbe)
      → k ≡ length pre
      → count_jobs dial ji (map (λ p. (k, p)) ps ++ jobs) (pre ++ x ∷ post)
        ≡ count_jobs dial (ji + length ps) jobs (pre ++ own dial ji ps x ∷ post)
  unfolding count_jobs
  count_jobs-own ji k [] jobs pre post x e =
      ap (λ n. count_jobs dial n jobs (pre ++ x ∷ post)) (omega arith)
  count_jobs-own ji k (p ∷ ps) jobs pre post x e =
      let y = count_region (region_vote (dial ji p) p) x in
      ap (λ l. count_jobs dial (ji + 1) (map (λ q. (k, q)) ps ++ jobs) l)
        (update_at-append pre k (count_region (region_vote (dial ji p) p)) x post e)
      ∙ count_jobs-own (ji + 1) k ps jobs pre post y e
      ∙ ap (λ n. count_jobs dial n jobs (pre ++ own dial (ji + 1) ps y ∷ post)) (omega arith)

  count_jobs-separately :
      (by_country : List (Text × List Proxy)) (per ji k : ℕ) (cs : List Text)
      (pre : List CountryProbe)
      → k ≡ length pre
      → count_jobs dial ji (region_jobs by_country per k cs) (pre ++ map new_probe cs)
        ≡ pre ++ separately_own dial by_country per ji cs
  unfolding region_jobs
  count_jobs-separately by_country per ji k [] pre e = unfold count_jobs in refl
  count_jobs-separately by_country per ji k (c ∷ cs) pre e =
      let ps = chosen by_country per c in
      let y = own dial ji ps (new_probe c) in
      let jobs = region_jobs by_country per (k + 1) cs in
      count_jobs-own ji k ps jobs pre (map new_probe cs) (new_probe c) e
      ∙ ap (λ l. count_jobs dial (ji + length ps) jobs l)
          (sym (append_assoc pre (y ∷ []) (map new_probe cs)))
      ∙ count_jobs-separately by_country per (ji + length ps) (k + 1) cs (pre ++ y ∷ [])
          (omega (arith, e, length-append pre (y ∷ [])))
      ∙ append_assoc pre (y ∷ []) (separately_own dial by_country per (ji + length ps) cs)

  pub probe_region-own :
      (by_country : List (Text × List Proxy)) (per_country : ℤ)
      → probe_region dial by_country per_country
        ≡ separately_own dial by_country (clamp_per_country per_country) 0 (countries by_country)
  unfolding probe_region
  probe_region-own by_country per_country =
      count_jobs-separately by_country (clamp_per_country per_country) 0 0 (countries by_country) []
        refl

  total-count_region : (v : Vote) (x : CountryProbe) → total (count_region v x) ≡ total x + 1
  unfolding total count_region
  total-count_region opened x = omega arith
  total-count_region refused x = omega arith
  total-count_region errored x = omega arith

  total-own :
      (ji : ℕ) (ps : List Proxy) (x : CountryProbe) → total (own dial ji ps x) ≡ total x + length ps
  total-own ji [] x = omega arith
  total-own ji (p ∷ ps) x = omega (
    arith,
    total-own (ji + 1) ps (count_region (region_vote (dial ji p) p) x),
    total-count_region (region_vote (dial ji p) p) x,
  )

  totals-separately :
      (by_country : List (Text × List Proxy)) (per ji : ℕ) (cs : List Text)
      → map total (separately_own dial by_country per ji cs)
        ≡ map (λ c. length (chosen by_country per c)) cs
  totals-separately by_country per ji [] = refl
  totals-separately by_country per ji (c ∷ cs) =
      let first : total (own dial ji (chosen by_country per c) (new_probe c))
          ≡ length (chosen by_country per c) =
        total-own ji (chosen by_country per c) (new_probe c)
        ∙ unfold total new_probe in omega arith in
      rw first (
        ap (λ r. length (chosen by_country per c) ∷ r)
          (totals-separately by_country per (ji + length (chosen by_country per c)) cs))

  -- Each country's votes add up to the number of its proxies that were probed.
  pub totals-probe_region :
      (by_country : List (Text × List Proxy)) (per_country : ℤ)
      → map total (probe_region dial by_country per_country)
        ≡ map
            (λ c. length (at_most (clamp_per_country per_country) (bucket by_country c)))
            (countries by_country)
  totals-probe_region by_country per_country =
      rw (probe_region-own by_country per_country)
        (totals-separately by_country (clamp_per_country per_country) 0 (countries by_country))
