-- ===== src/Text/Search.antt =====
-- Comparing texts and looking for one text in another.
use route_fork.Base.{◌≡◌, refl, ap, inl, inr, true, [], ◌∷◌, ◌++◌, append_assoc, arith, Bool-cases}
use route_fork.Text.{Text, ◌==ₜ◌, has_prefix, contains}

pub ==ₜ-refl : (s : Text) → (s ==ₜ s) ≡ true
==ₜ-refl [] = refl
==ₜ-refl (c ∷ s) = ground (arith, ==ₜ-refl s)

pub eq_of_==ₜ : (s t : Text) → (s ==ₜ t) ≡ true → s ≡ t
eq_of_==ₜ [] [] h = refl
eq_of_==ₜ [] (d ∷ t) h = ground arith
eq_of_==ₜ (c ∷ s) [] h = ground arith
eq_of_==ₜ (c ∷ s) (d ∷ t) h = ground (arith, eq_of_==ₜ s t)

pub has_prefix-append : (s t : Text) → has_prefix (s ++ t) s ≡ true
unfolding has_prefix
has_prefix-append [] t = refl
has_prefix-append (c ∷ s) t = ground (arith, has_prefix-append s t)

pub has_prefix_split : (s t : Text) → has_prefix s t ≡ true → (r : Text) × (s ≡ t ++ r)
unfolding has_prefix
has_prefix_split s [] h = (s, refl)
has_prefix_split [] (d ∷ t) h = cc
has_prefix_split (c ∷ s) (d ∷ t) h =
    let (r, e) = has_prefix_split s t (ground arith) in (r, ground (arith, e))

-- What `contains` finds is a cut of the text in three.
pub contains_split :
    (s t : Text) → contains s t ≡ true → (before after : Text) × (s ≡ before ++ t ++ after)
unfolding contains
contains_split [] t h = let (r, e) = has_prefix_split [] t h in ([], r, e)
contains_split (c ∷ s) t h = elim (Bool-cases (has_prefix (c ∷ s) t)) [
  | inl e ↦ let (r, eq) = has_prefix_split (c ∷ s) t e in ([], r, eq)
  | inr e ↦
      let (before, after, eq) = contains_split s t (rw e at h) in
      (c ∷ before, after, ap (λ r. c ∷ r) eq)
]

contains_of_prefix : (s t : Text) → has_prefix s t ≡ true → contains s t ≡ true
unfolding contains
contains_of_prefix [] t h = h
contains_of_prefix (c ∷ s) t h = rw h

pub contains_around : (before t after : Text) → contains (before ++ t ++ after) t ≡ true
unfolding contains
contains_around [] t after = contains_of_prefix (t ++ after) t (has_prefix-append t after)
contains_around (c ∷ before) t after = ground (arith, contains_around before t after)

regroup : (a b t c d : Text) → a ++ (b ++ t ++ c) ++ d ≡ (a ++ b) ++ t ++ (c ++ d)
regroup a b t c d = simp append_assoc

pub contains_trans :
    (s t u : Text) → contains s t ≡ true → contains t u ≡ true → contains s u ≡ true
contains_trans s t u h k =
    let (a, d, e) = contains_split s t h in
    let (b, c, e') = contains_split t u k in
    rw (e, e', regroup a b u c d) (contains_around (a ++ b) u (c ++ d))

pub ==ₜ_sym : (s t : Text) → (s ==ₜ t) ≡ (t ==ₜ s)
==ₜ_sym [] [] = refl
==ₜ_sym [] (d ∷ t) = refl
==ₜ_sym (c ∷ s) [] = refl
==ₜ_sym (c ∷ s) (d ∷ t) = ground (arith, ==ₜ_sym s t)
