-- ===== src/Geo/Lookup.antt =====
-- The binary search of geo/geo.go finds the range of an address.
use route_fork.Base.{
  ℕ, zero, suc, ◌+◌, ◌/◌, ◌≤◌, ◌<◌, ◌≡◌, refl, ap, subst, ◌↔◌, inl, inr, Bool, true, false, ◌&&◌,
  Option, none, some, List, [], ◌∷◌, arith, ltb, leb, leb→le, Bool-cases, length, get_elem?, All,
}
use route_fork.Text.{Text}
use route_fork.Geo.{Entry, search_from, search_first, ends_at, country_at, lookup}

-- The ranges are not empty, ascending and disjoint.
abbrev pub IsOrdered : List Entry → Type 0
IsOrdered [] = Unit
IsOrdered (e ∷ es) = (e.start ≤ e.end) × All (λ f. e.end < f.start) es × IsOrdered es

-- A test that is never false after it was true.
abbrev IsMonotone : (ℕ → Bool) → Type 0
IsMonotone f = (a b : ℕ) → a ≤ b → f a ≡ true → f b ≡ true

-- What a search returns: the test fails below it and holds from it on, up to the last place.
record IsFirst (f : ℕ → Bool) (j r : ℕ) : Type 0 where
  below : (k : ℕ) → k < r → f k ≡ false
  above : r < j → f r ≡ true

not_both : {b : Bool} → b ≡ true → b ≡ false → ⊥
not_both h k = cc

fails_below : (f : ℕ → Bool) → IsMonotone f → (a b : ℕ) → a ≤ b → f b ≡ false → f a ≡ false
fails_below f mono a b h k = elim (Bool-cases (f a)) [
  | inl e ↦ absurd (not_both (mono a b h e) k)
  | inr e ↦ e
]

module _ (f : ℕ → Bool) (mono : IsMonotone f) where
  search_from-IsFirst :
      (rounds i j n : ℕ)
      → i ≤ j
      → j ≤ i + rounds
      → ((k : ℕ) → k < i → f k ≡ false)
      → (j < n → f j ≡ true)
      → IsFirst f n (search_from rounds f i j)
  unfolding search_from
  search_from-IsFirst zero i j n h l below above =
      let same : j ≡ i = omega arith in
      record { below = below; above = λ k. subst (λ x. f x ≡ true) same (above (omega arith)) }
  search_from-IsFirst (suc rounds) i j n h l below above = elim (Bool-cases (ltb i j)) [
    | inr e ↦
        let same : j ≡ i = ground arith in
        rw e (record {
          below = below;
          above = λ k. subst (λ x. f x ≡ true) same (above (omega arith));
        })
    | inl e ↦
        let m = (i + j) / 2 in
        let less : i < j = ground arith in
        elim (Bool-cases (f m)) [
          | inl t ↦
              rw (e, t)
                (search_from-IsFirst rounds i m n (omega arith) (omega arith) below (λ k. t))
          | inr t ↦
              rw (e, t)
                (search_from-IsFirst rounds (m + 1) j n (omega arith) (omega arith)
                  (λ k b. fails_below f mono k m (omega arith) t) above)
        ]
  ]

  search_first-IsFirst : (n : ℕ) → IsFirst f n (search_first n f)
  unfolding search_first
  search_first-IsFirst n =
      search_from-IsFirst n 0 n n (omega arith) (omega arith) (λ k b. absurd (omega arith))
        (λ b. absurd (omega arith))

All-get :
    (P : Entry → Type 0) (t : List Entry) (i : ℕ) (e : Entry)
    → All P t
    → get_elem? t i ≡ some e
    → P e
All-get P [] i e h k = cc
All-get P (x ∷ t) zero e h k = subst P (same_entry k) h.0
  where
    same_entry : {a b : Entry} → some a ≡ some b → a ≡ b
    same_entry k = cc
All-get P (x ∷ t) (suc i) e h k = All-get P t i e h.1 k

not_empty : (t : List Entry) → IsOrdered t → All (λ f. f.start ≤ f.end) t
not_empty [] o = tt
not_empty (y ∷ t) o = (o.0, not_empty t o.2)

ends_at-cons :
    (x : Entry) (t : List Entry) (ip b : ℕ)
    → IsOrdered (x ∷ t)
    → ip ≤ x.end
    → ends_at (x ∷ t) ip (suc b) ≡ true
unfolding ends_at
ends_at-cons x t ip b o h = by_place (get_elem? t b) refl
  where
    by_place :
        (p : Option Entry)
        → get_elem? t b ≡ p
        → elim p [ none ↦ true | some e ↦ leb ip e.end ] ≡ true
    by_place none k = refl
    by_place (some e) k =
        let gap = All-get (λ f. x.end < f.start) t b e o.1 k in
        let full = All-get (λ f. f.start ≤ f.end) t b e (not_empty t o.2) k in
        ground (arith, gap, full)

ends_at-IsMonotone : (t : List Entry) (ip : ℕ) → IsOrdered t → IsMonotone (ends_at t ip)
unfolding ends_at
ends_at-IsMonotone [] ip o a b h k = refl
ends_at-IsMonotone (x ∷ t) ip o zero zero h k = k
ends_at-IsMonotone (x ∷ t) ip o zero (suc b) h k = ends_at-cons x t ip b o (leb→le ip x.end k)
ends_at-IsMonotone (x ∷ t) ip o (suc a) zero h k = absurd (omega arith)
ends_at-IsMonotone (x ∷ t) ip o (suc a) (suc b) h k =
    ends_at-IsMonotone t ip o.2 a b (omega arith) k

-- Some entry of the table contains the address and names the country.
abbrev pub Covers : List Entry → ℕ → Text → Type 0
Covers t ip cc =
    (i : ℕ) × (e : Entry) × (get_elem? t i ≡ some e) × (e.start ≤ ip) × (ip ≤ e.end) × (e.cc ≡ cc)

nothing : {e : Entry} → none ≡ some e → ⊥
nothing g = cc

-- Entries below the one that contains an address end before it.
ends_before :
    (t : List Entry) (ip i : ℕ) (e : Entry)
    → IsOrdered t
    → get_elem? t i ≡ some e
    → e.start ≤ ip
    → (k : ℕ) → k < i
    → ends_at t ip k ≡ false
unfolding ends_at
ends_before [] ip i e o g h k l = absurd (nothing g)
ends_before (x ∷ t) ip zero e o g h k l = absurd (omega arith)
ends_before (x ∷ t) ip (suc i) e o g h zero l =
    let gap = All-get (λ f. x.end < f.start) t i e o.1 g in ground (arith, gap)
ends_before (x ∷ t) ip (suc i) e o g h (suc k) l = ends_before t ip i e o.2 g h k (omega arith)

get-lt : (t : List Entry) (i : ℕ) (e : Entry) → get_elem? t i ≡ some e → i < length t
get-lt [] i e g = absurd (nothing g)
get-lt (x ∷ t) zero e g = omega arith
get-lt (x ∷ t) (suc i) e g = omega (arith, get-lt t i e g)

-- The search stops at the entry that contains the address.
search-finds :
    (t : List Entry) (ip i : ℕ) (e : Entry)
    → IsOrdered t
    → get_elem? t i ≡ some e
    → e.start ≤ ip
    → ip ≤ e.end
    → search_first (length t) (ends_at t ip) ≡ i
unfolding ends_at
search-finds t ip i e o g low high =
    let f = ends_at t ip in
    let n = length t in
    let r = search_first n f in
    let first = search_first-IsFirst f (ends_at-IsMonotone t ip o) n in
    let here : f i ≡ true = rw (g, ends_at) (ground (arith, high)) in
    let inside = get-lt t i e g in
    elim (Bool-cases (ltb r i)) [
      | inl k ↦
          let less : r < i = ground arith in
          absurd (
            not_both (first.above (omega (arith, less, inside)))
              (ends_before t ip i e o g low r less))
      | inr k ↦ elim (Bool-cases (ltb i r)) [
        | inl l ↦ absurd (not_both here (first.below i (ground arith)))
        | inr l ↦ ground arith
      ]
    ]

same_text : {a b : Text} → some a ≡ some b → a ≡ b
same_text h = cc

no_text : {b : Text} → none ≡ some b → ⊥
no_text h = cc

-- On a table of ascending, disjoint ranges, the binary search gives a country for an address exactly
-- when an entry with this country contains the address.
pub lookup-Covers :
    (t : List Entry) (ip : ℕ) (cc : Text) → IsOrdered t → (lookup t ip ≡ some cc) ↔ Covers t ip cc
unfolding lookup country_at
lookup-Covers t ip code o =
    let r = search_first (length t) (ends_at t ip) in
    (
      (λ h. found r (get_elem? t r) refl h),
      (λ (i, e, g, low, high, same).
          rw (search-finds t ip i e o g low high, g) (contained e low high same)),
    )
  where
    found :
        (r : ℕ) (p : Option Entry)
        → get_elem? t r ≡ p
        → country_at ip p ≡ some code
        → Covers t ip code
    found r none g h = cc
    found r (some e) g h = elim (Bool-cases (leb e.start ip && leb ip e.end)) [
      | inl t ↦ (r, e, g, ground arith, ground arith, same_text (rw t at h))
      | inr t ↦ absurd (no_text (rw t at h))
    ]

    contained :
        (e : Entry) → e.start ≤ ip → ip ≤ e.end → e.cc ≡ code → country_at ip (some e) ≡ some code
    contained e low high same =
        let both : (leb e.start ip && leb ip e.end) ≡ true = ground arith in
        rw both (ap (λ c. some c) same)
