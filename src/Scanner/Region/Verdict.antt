-- ===== src/Scanner/Region/Verdict.antt =====
-- What the verdict of `DecideRegionBlock` of scanner/region.go means.
use mathlib.Core.List.{Perm}
use route_fork.Base.{
  ℕ, ◌<◌, ◌≡◌, refl, ap, subst, ◌≢◌, ◌↔◌, ◌⊎◌, inl, inr, true, false, ◌&&◌, List, [], ◌∷◌, ◌++◌,
  append-nil, append_assoc, arith, ltb, ◌==◌, if◌then◌else◌, Bool-cases, length,
}
use route_fork.Text.{Text}
use route_fork.Text.Order.{sort_texts, IsAscending, sort_texts-IsAscending, sort_texts-perm}
use route_fork.Scanner.Region.{
  CountryProbe, RegionStatus, region_status_inconclusive, region_status_open, region_status_blocked,
  status, RegionVerdict, region_inconclusive, region_open_everywhere, region_blocked_somewhere,
  place, place_all, region_verdict, decide_region_block,
}

-- The countries with the status, in the order of the probes.
abbrev pub opens : RegionStatus → List Text → Text → List Text
opens region_status_open rest c = c ∷ rest
opens _ rest c = rest

abbrev pub blocks : RegionStatus → List Text → Text → List Text
blocks region_status_blocked rest c = c ∷ rest
blocks _ rest c = rest

abbrev pub open_countries : List CountryProbe → List Text
open_countries [] = []
open_countries (p ∷ ps) = opens (status p) (open_countries ps) p.country

abbrev pub blocked_countries : List CountryProbe → List Text
blocked_countries [] = []
blocked_countries (p ∷ ps) = blocks (status p) (blocked_countries ps) p.country

place_all-countries :
    (ps : List CountryProbe) (o b : List Text)
    → place_all ps (o, b) ≡ (o ++ open_countries ps, b ++ blocked_countries ps)
unfolding place_all
place_all-countries [] o b = rw (append-nil o, append-nil b) refl
place_all-countries (p ∷ ps) o b = by_status (status p) (λ o' b'. place_all-countries ps o' b')
  where
    by_status :
        (s : RegionStatus)
        → ((o' b' : List Text)
            → place_all ps (o', b') ≡ (o' ++ open_countries ps, b' ++ blocked_countries ps))
        → place_all ps (place s p.country (o, b)) ≡ (
          o ++ opens s (open_countries ps) p.country,
          b ++ blocks s (blocked_countries ps) p.country,
        )
    by_status region_status_open ih =
        rw (ih (o ++ p.country ∷ []) b, append_assoc o (p.country ∷ []) (open_countries ps)) refl
    by_status region_status_blocked ih =
        rw (ih o (b ++ p.country ∷ []), append_assoc b (p.country ∷ []) (blocked_countries ps)) refl
    by_status region_status_inconclusive ih = ih o b

-- Some entry of the list has the status.
abbrev pub Sees : RegionStatus → List CountryProbe → Type 0
Sees s [] = ⊥
Sees s (p ∷ ps) = (status p ≡ s) ⊎ Sees s ps

-- At least one proxy of the country connected.
abbrev pub SeesOpen : CountryProbe → Type 0
SeesOpen p = 0 < p.open_count

-- None connected, and the target refused at least one.
abbrev pub SeesBlocked : CountryProbe → Type 0
SeesBlocked p = (p.open_count ≡ 0) × (0 < p.refused_count)

abbrev pub Some : (CountryProbe → Type 0) → List CountryProbe → Type 0
Some P [] = ⊥
Some P (p ∷ ps) = P p ⊎ Some P ps

-- What the verdict says of the tallies.
abbrev pub Means : RegionVerdict → List CountryProbe → Type 0
Means region_blocked_somewhere ps = Some SeesOpen ps × Some SeesBlocked ps
Means region_open_everywhere ps = Some SeesOpen ps × ¬ (Some SeesBlocked ps)
Means region_inconclusive ps = ¬ (Some SeesOpen ps)

status-SeesOpen : (p : CountryProbe) → (status p ≡ region_status_open) ↔ SeesOpen p
unfolding status
status-SeesOpen p = elim (Bool-cases (ltb 0 p.open_count)) [
  | inl e ↦ rw e ((λ h. ground arith), (λ h. refl))
  | inr e ↦ rw e (elim (Bool-cases (ltb 0 p.refused_count)) [
    | inl f ↦ rw f ((λ h. absurd (cc h)), (λ h. ground arith))
    | inr f ↦ rw f ((λ h. absurd (cc h)), (λ h. ground arith))
  ])
]

status-SeesBlocked : (p : CountryProbe) → (status p ≡ region_status_blocked) ↔ SeesBlocked p
unfolding status
status-SeesBlocked p = elim (Bool-cases (ltb 0 p.open_count)) [
  | inl e ↦ rw e ((λ h. absurd (cc h)), (λ h. ground arith))
  | inr e ↦ rw e (elim (Bool-cases (ltb 0 p.refused_count)) [
    | inl f ↦ rw f ((λ h. (ground arith, ground arith)), (λ h. refl))
    | inr f ↦ rw f ((λ h. absurd (cc h)), (λ h. ground arith))
  ])
]

Sees-Some :
    (s : RegionStatus) (P : CountryProbe → Type 0)
    → ((p : CountryProbe) → (status p ≡ s) ↔ P p)
    → (ps : List CountryProbe) → Sees s ps ↔ Some P ps
Sees-Some s P same [] = ((λ h. h), (λ h. h))
Sees-Some s P same (p ∷ ps) =
    let later = Sees-Some s P same ps in
    (
      (λ h. elim h [ inl e ↦ inl ((same p).0 e) | inr k ↦ inr (later.0 k) ]),
      (λ h. elim h [ inl e ↦ inl ((same p).1 e) | inr k ↦ inr (later.1 k) ]),
    )

-- The countries that see the port open, and those that are refused, in the order of the probes.
abbrev pub seen_open : List CountryProbe → List Text
seen_open [] = []
seen_open (p ∷ ps) = if ltb 0 p.open_count then p.country ∷ seen_open ps else seen_open ps

abbrev pub seen_blocked : List CountryProbe → List Text
seen_blocked [] = []
seen_blocked (p ∷ ps) =
    if p.open_count == 0 && ltb 0 p.refused_count
    then p.country ∷ seen_blocked ps
    else seen_blocked ps

open_countries-seen_open : (ps : List CountryProbe) → open_countries ps ≡ seen_open ps
unfolding status
open_countries-seen_open [] = refl
open_countries-seen_open (p ∷ ps) = elim (Bool-cases (ltb 0 p.open_count)) [
  | inl e ↦ rw e (ap (λ r. p.country ∷ r) (open_countries-seen_open ps))
  | inr e ↦ rw e (elim (Bool-cases (ltb 0 p.refused_count)) [
    | inl f ↦ rw f (open_countries-seen_open ps)
    | inr f ↦ rw f (open_countries-seen_open ps)
  ])
]

blocked_countries-seen_blocked : (ps : List CountryProbe) → blocked_countries ps ≡ seen_blocked ps
unfolding status
blocked_countries-seen_blocked [] = refl
blocked_countries-seen_blocked (p ∷ ps) = elim (Bool-cases (ltb 0 p.open_count)) [
  | inl e ↦
      let some : (p.open_count == 0) ≡ false = ground (arith, e) in
      rw (e, some) (blocked_countries-seen_blocked ps)
  | inr e ↦
      let none_open : (p.open_count == 0) ≡ true = ground (arith, e) in
      rw (e, none_open)
        (elim (Bool-cases (ltb 0 p.refused_count)) [
          | inl f ↦ rw f (ap (λ r. p.country ∷ r) (blocked_countries-seen_blocked ps))
          | inr f ↦ rw f (blocked_countries-seen_blocked ps)
        ])
]

-- An entry with another status changes nothing.
skipped :
    {s t : RegionStatus} {n : ℕ} (ps : List CountryProbe)
    → s ≢ t
    → ((0 < n) ↔ Sees t ps)
    → (0 < n) ↔ ((s ≡ t) ⊎ Sees t ps)
skipped ps d ih = ((λ h. inr (ih.0 h)), (λ h. elim h [ inl e ↦ absurd (d e) | inr k ↦ ih.1 k ]))

open_countries-Sees :
    (ps : List CountryProbe) → (0 < length (open_countries ps)) ↔ Sees region_status_open ps
open_countries-Sees [] = ((λ h. omega arith), (λ h. absurd h))
open_countries-Sees (p ∷ ps) = by_status (status p) (open_countries-Sees ps)
  where
    by_status :
        (s : RegionStatus)
        → ((0 < length (open_countries ps)) ↔ Sees region_status_open ps)
        → (0 < length (opens s (open_countries ps) p.country))
          ↔ ((s ≡ region_status_open) ⊎ Sees region_status_open ps)
    by_status region_status_open ih = ((λ h. inl refl), (λ h. omega arith))
    by_status region_status_blocked ih = skipped ps (λ e. cc e) ih
    by_status region_status_inconclusive ih = skipped ps (λ e. cc e) ih

blocked_countries-Sees :
    (ps : List CountryProbe) → (0 < length (blocked_countries ps)) ↔ Sees region_status_blocked ps
blocked_countries-Sees [] = ((λ h. omega arith), (λ h. absurd h))
blocked_countries-Sees (p ∷ ps) = by_status (status p) (blocked_countries-Sees ps)
  where
    by_status :
        (s : RegionStatus)
        → ((0 < length (blocked_countries ps)) ↔ Sees region_status_blocked ps)
        → (0 < length (blocks s (blocked_countries ps) p.country))
          ↔ ((s ≡ region_status_blocked) ⊎ Sees region_status_blocked ps)
    by_status region_status_blocked ih = ((λ h. inl refl), (λ h. omega arith))
    by_status region_status_open ih = skipped ps (λ e. cc e) ih
    by_status region_status_inconclusive ih = skipped ps (λ e. cc e) ih

verdict-Means :
    (v : RegionVerdict) (ps : List CountryProbe) (o b : ℕ)
    → ((0 < o) ↔ Some SeesOpen ps)
    → ((0 < b) ↔ Some SeesBlocked ps)
    → (region_verdict o b ≡ v) ↔ Means v ps
unfolding region_verdict
verdict-Means region_blocked_somewhere ps o b ho hb = (
  (λ e. (ho.0 (ground (arith, e)), hb.0 (ground (arith, e)))),
  (λ m. ground (arith, ho.1 m.0, hb.1 m.1)),
)
verdict-Means region_open_everywhere ps o b ho hb = (
  (λ e. (ho.0 (ground (arith, e)), (λ s. ground (arith, e, hb.1 s)))),
  (λ m. let none_blocked : ¬ (0 < b) = λ h. m.1 (hb.0 h) in ground (arith, ho.1 m.0, none_blocked)),
)
verdict-Means region_inconclusive ps o b ho hb = (
  (λ e s. ground (arith, e, ho.1 s)),
  (λ m. let none_open : ¬ (0 < o) = λ h. m (ho.0 h) in ground (arith, none_open)),
)

both : {P Q R : Type 0} → (P ↔ Q) → (Q ↔ R) → P ↔ R
both f g = ((λ p. g.0 (f.0 p)), (λ r. f.1 (g.1 r)))

-- A verdict is reached exactly by the tallies that its documentation describes: the port is blocked
-- somewhere if a proxy of some country connected, and in some other country none connected and the
-- target refused one; it is open everywhere if a proxy of some country connected and there is no
-- such other country; and else there is nothing to conclude.
pub decide_region_block-Means :
    (v : RegionVerdict) (ps : List CountryProbe)
    → ((decide_region_block ps).verdict ≡ v) ↔ Means v ps
unfolding decide_region_block
decide_region_block-Means v ps = rw (place_all-countries ps [] []) (
    verdict-Means v ps (length (open_countries ps)) (length (blocked_countries ps))
      (both (open_countries-Sees ps) (Sees-Some region_status_open SeesOpen status-SeesOpen ps))
      (both (blocked_countries-Sees ps)
        (Sees-Some region_status_blocked SeesBlocked status-SeesBlocked ps)))

-- The two lists of a report are, in ascending order and each as often as it was probed, the
-- countries of which a proxy connected, and those of which none connected and the target refused
-- one.
pub decide_region_block-perm :
    (ps : List CountryProbe)
    → IsAscending (decide_region_block ps).open_in
      × Perm (decide_region_block ps).open_in (seen_open ps)
      × IsAscending (decide_region_block ps).blocked_in
      × Perm (decide_region_block ps).blocked_in (seen_blocked ps)
unfolding decide_region_block
decide_region_block-perm ps = rw (place_all-countries ps [] []) (
  sort_texts-IsAscending (open_countries ps),
  subst (Perm (sort_texts (open_countries ps))) (open_countries-seen_open ps)
      (sort_texts-perm (open_countries ps)),
  sort_texts-IsAscending (blocked_countries ps),
  subst (Perm (sort_texts (blocked_countries ps))) (blocked_countries-seen_blocked ps)
      (sort_texts-perm (blocked_countries ps)),
)
