-- ===== src/Scanner/Region/Tallies.antt =====
-- `ProbeRegion` of scanner/region.go against tallies of each country's dials.
use route_fork.Base.{
  ℕ, zero, suc, ◌+◌, ◌-◌, ◌<◌, ◌≡◌, refl, sym, ap, ◌∙◌, inl, inr, Option, none, some, List, [], ◌∷◌,
  map, arith, ltb, ◌==◌, if◌then◌else◌, Bool-cases, length, take,
}
use route_fork.Base.Int.{ℤ, pos, negsuc}
use mathlib.Core.List.{Perm}
use route_fork.Text.Map.{lookup}
use route_fork.Text.Order.{IsAscending, sort_texts-IsAscending, sort_texts-perm}
use route_fork.Proxy.Errors.{is_proxy_error}
use route_fork.Text.{Text}
use route_fork.Proxy.{Proxy, address}
use route_fork.Scanner.Batch.{Dialed, connected, failed, cancelled}
use route_fork.Scanner.Region.{
  CountryProbe, bucket, at_most, region_vote, count_region, new_probe, countries, clamp_per_country,
  probe_region,
}
use route_fork.Scanner.Region.Probe.{own, chosen, separately_own, probe_region-own}

-- How many of the dials got a connection, the first with the number `ji`.
abbrev pub one_if_open : Dialed → ℕ
one_if_open (connected service version banner) = 1
one_if_open _ = 0

-- A refusal is an error that is not the proxy's.
abbrev pub one_if_refused : Proxy → Dialed → ℕ
one_if_refused p (failed e) = if is_proxy_error (address p) (some e) then 0 else 1
one_if_refused p _ = 0

abbrev pub opens_of : (ℕ → Proxy → Dialed) → ℕ → List Proxy → ℕ
opens_of dial ji [] = 0
opens_of dial ji (p ∷ ps) = one_if_open (dial ji p) + opens_of dial (ji + 1) ps

abbrev pub refusals_of : (ℕ → Proxy → Dialed) → ℕ → List Proxy → ℕ
refusals_of dial ji [] = 0
refusals_of dial ji (p ∷ ps) = one_if_refused p (dial ji p) + refusals_of dial (ji + 1) ps

-- The number of proxies that is asked of each country, 1 at least.
abbrev pub at_least_one : ℤ → ℕ
at_least_one (negsuc n) = 1
at_least_one (pos n) = if n == 0 then 1 else n

abbrev pub listed : Option (List Proxy) → List Proxy
listed none = []
listed (some ps) = ps

-- The first proxies of a country, up to the number.
abbrev pub probed_in : List (Text × List Proxy) → ℕ → Text → List Proxy
probed_in by_country n c = take n (listed (lookup c by_country))

-- The tally of a country by itself: what its own proxies saw, the first of which has the job `ji`.
-- What is neither a connection nor a refusal is an error.
abbrev pub tally_of : (ℕ → Proxy → Dialed) → ℕ → Text → List Proxy → CountryProbe
tally_of dial ji c ps = record {
  country = c;
  open_count = opens_of dial ji ps;
  refused_count = refusals_of dial ji ps;
  errored_count = length ps - opens_of dial ji ps - refusals_of dial ji ps;
}

abbrev pub separately :
    (ℕ → Proxy → Dialed) → List (Text × List Proxy) → ℕ → ℕ → List Text → List CountryProbe
separately dial by_country n ji [] = []
separately dial by_country n ji (c ∷ cs) =
    tally_of dial ji c (probed_in by_country n c)
    ∷ separately dial by_country n (ji + length (probed_in by_country n c)) cs

-- One count more in each tally than in the code's own.
record Adds (x y : CountryProbe) (opens refusals all : ℕ) : Type 0 where
  country : y.country ≡ x.country
  opens_added : y.open_count ≡ x.open_count + opens
  refusals_added : y.refused_count ≡ x.refused_count + refusals
  errors_added : y.errored_count + opens + refusals ≡ x.errored_count + all

module _ (dial : ℕ → Proxy → Dialed) where
  Adds-vote :
      (p : Proxy) (d : Dialed) (x : CountryProbe)
      → Adds x (count_region (region_vote d p) x) (one_if_open d) (one_if_refused p d) 1
  unfolding count_region region_vote
  Adds-vote p cancelled x = record {
    country = refl;
    opens_added = omega arith;
    refusals_added = omega arith;
    errors_added = omega arith;
  }
  Adds-vote p (connected s v b) x = record {
    country = refl;
    opens_added = refl;
    refusals_added = omega arith;
    errors_added = omega arith;
  }
  Adds-vote p (failed e) x = elim (Bool-cases (is_proxy_error (address p) (some e))) [
    | inl t ↦ rw t (record {
      country = refl;
      opens_added = omega arith;
      refusals_added = omega arith;
      errors_added = omega arith;
    })
    | inr t ↦ rw t (record {
      country = refl;
      opens_added = omega arith;
      refusals_added = refl;
      errors_added = omega arith;
    })
  ]

  Adds-own :
      (ji : ℕ) (ps : List Proxy) (x : CountryProbe)
      → Adds x (own dial ji ps x) (opens_of dial ji ps) (refusals_of dial ji ps) (length ps)
  Adds-own ji [] x = record {
    country = refl;
    opens_added = omega arith;
    refusals_added = omega arith;
    errors_added = omega arith;
  }
  Adds-own ji (p ∷ ps) x =
      let y = count_region (region_vote (dial ji p) p) x in
      let first = Adds-vote p (dial ji p) x in
      let rest = Adds-own (ji + 1) ps y in
      record {
        country = rest.country ∙ first.country;
        opens_added = omega (arith, first.opens_added, rest.opens_added);
        refusals_added = omega (arith, first.refusals_added, rest.refusals_added);
        errors_added = omega (arith, first.errors_added, rest.errors_added);
      }

  same_tally :
      (x y : CountryProbe)
      → x.country ≡ y.country
      → x.open_count ≡ y.open_count
      → x.refused_count ≡ y.refused_count
      → x.errored_count ≡ y.errored_count
      → x ≡ y
  same_tally x y a b c d = cc

  own-tally_of :
      (ji : ℕ) (c : Text) (ps : List Proxy) → own dial ji ps (new_probe c) ≡ tally_of dial ji c ps
  unfolding new_probe
  own-tally_of ji c ps =
      let a = Adds-own ji ps (new_probe c) in
      same_tally (own dial ji ps (new_probe c)) (tally_of dial ji c ps) a.country
        (omega (arith, a.opens_added)) (omega (arith, a.refusals_added))
        (omega (arith, a.errors_added))

take_all {ℓ} : {A : Type ℓ} (n : ℕ) (xs : List A) → ¬ (n < length xs) → take n xs ≡ xs
take_all zero [] h = refl
take_all zero (x ∷ xs) h = absurd (h (omega arith))
take_all (suc n) [] h = refl
take_all (suc n) (x ∷ xs) h = ap (λ r. x ∷ r) (take_all n xs (λ k. h (omega arith)))

at_most-take : (n : ℕ) (ps : List Proxy) → at_most n ps ≡ take n ps
unfolding at_most
at_most-take n ps = elim (Bool-cases (ltb n (length ps))) [
  | inl e ↦ rw e refl
  | inr e ↦ rw e (sym (take_all n ps (ground arith)))
]

bucket-listed :
    (by_country : List (Text × List Proxy)) (c : Text)
    → bucket by_country c ≡ listed (lookup c by_country)
unfolding bucket
bucket-listed by_country c = by_entry (lookup c by_country)
  where
    by_entry : (o : Option (List Proxy)) → (elim o [ none ↦ [] | some ps ↦ ps ]) ≡ listed o
    by_entry none = refl
    by_entry (some ps) = refl

chosen-probed_in :
    (by_country : List (Text × List Proxy)) (n : ℕ) (c : Text)
    → chosen by_country n c ≡ probed_in by_country n c
chosen-probed_in by_country n c =
    at_most-take n (bucket by_country c) ∙ ap (take n) (bucket-listed by_country c)

clamp_per_country-at_least_one : (q : ℤ) → clamp_per_country q ≡ at_least_one q
unfolding clamp_per_country
clamp_per_country-at_least_one (negsuc n) = refl
clamp_per_country-at_least_one (pos n) = ground arith

separately_own-separately :
    (dial : ℕ → Proxy → Dialed) (by_country : List (Text × List Proxy)) (n ji : ℕ) (cs : List Text)
    → separately_own dial by_country n ji cs ≡ separately dial by_country n ji cs
separately_own-separately dial by_country n ji [] = refl
separately_own-separately dial by_country n ji (c ∷ cs) =
    ap (λ x. x ∷ separately_own dial by_country n (ji + length (chosen by_country n c)) cs)
      (own-tally_of dial ji c (chosen by_country n c))
    ∙ ap (λ ps. tally_of dial ji c ps ∷ separately_own dial by_country n (ji + length ps) cs)
        (chosen-probed_in by_country n c)
    ∙ ap (λ r. tally_of dial ji c (probed_in by_country n c) ∷ r)
        (separately_own-separately dial by_country n (ji + length (probed_in by_country n c)) cs)

-- `ProbeRegion` has one tally for each country of the map, in ascending order. It counts, of the
-- country's first proxies up to the number asked for, and of at least one, those whose dial got a
-- connection, those whose dial failed with an error that is not the proxy's, and the others.
pub probe_region-separately :
    (dial : ℕ → Proxy → Dialed) (by_country : List (Text × List Proxy)) (per_country : ℤ)
    → (cs : List Text) × IsAscending cs
      × Perm cs (map (λ entry. entry.0) by_country)
      × (probe_region dial by_country per_country
          ≡ separately dial by_country (at_least_one per_country) 0 cs)
unfolding countries
probe_region-separately dial by_country per_country = (
  countries by_country,
  sort_texts-IsAscending (map (λ entry. entry.0) by_country),
  sort_texts-perm (map (λ entry. entry.0) by_country),
  probe_region-own dial by_country per_country
      ∙ separately_own-separately dial by_country (clamp_per_country per_country) 0
          (countries by_country)
      ∙ ap (λ n. separately dial by_country n 0 (countries by_country))
          (clamp_per_country-at_least_one per_country),
)
