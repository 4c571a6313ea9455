-- ===== src/Text/Parts.antt =====
-- Splitting, joining and trimming.
use mathlib.Core.List.{reverse, reverse-cons, reverse-reverse}
use route_fork.Base.{
  ℕ, ◌≡◌, ◌≢◌, refl, ap, ◌∙◌, true, false, List, [], ◌∷◌, ◌++◌, arith, All, All-append,
}
use route_fork.Text.{Text, Lacks, split, split_n, join, is_space, trim_left, trim_space, contains}

pub split_lacking : (s : Text) (sep : ℕ) → Lacks sep s → split s sep ≡ s ∷ []
unfolding split
split_lacking [] sep h = refl
split_lacking (c ∷ s) sep h = ground (arith, split_lacking s sep h.1)

pub split-append :
    (p : Text) (sep : ℕ) (s : Text) → Lacks sep p → split (p ++ sep ∷ s) sep ≡ p ∷ split s sep
unfolding split
split-append [] sep s h = ground arith
split-append (c ∷ p) sep s h = ground (arith, split-append p sep s h.1)

-- Splitting a joined list gives the parts back, if there is one and none holds the separator.
pub split-join :
    (p : Text) (ps : List Text) (sep : ℕ)
    → All (Lacks sep) (p ∷ ps)
    → split (join (p ∷ ps) sep) sep ≡ p ∷ ps
unfolding join
split-join p [] sep h = split_lacking p sep h.0
split-join p (q ∷ ps) sep h =
    split-append p sep (join (q ∷ ps) sep) h.0 ∙ ap (λ r. p ∷ r) (split-join q ps sep h.1)

pub split-join_any :
    (ps : List Text) (sep : ℕ) → ps ≢ [] → All (Lacks sep) ps → split (join ps sep) sep ≡ ps
split-join_any [] sep h _ = absurd (h refl)
split-join_any (p ∷ ps) sep _ h = split-join p ps sep h

-- One cut at the first separator.
pub split_n-append :
    (p : Text) (sep : ℕ) (s : Text) → Lacks sep p → split_n (p ++ sep ∷ s) sep 2 ≡ p ∷ s ∷ []
unfolding split_n
split_n-append [] sep s h = ground arith
split_n-append (c ∷ p) sep s h = ground (arith, split_n-append p sep s h.1)

abbrev pub NoSpace : Text → Type 0
NoSpace = All (λ c. is_space c ≡ false)

trim_left_none : (s : Text) → NoSpace s → trim_left s ≡ s
unfolding trim_left
trim_left_none [] h = refl
trim_left_none (c ∷ s) h = rw (h.0)

pub NoSpace-reverse : (s : Text) → NoSpace s → NoSpace (reverse s)
NoSpace-reverse [] h = tt
NoSpace-reverse (c ∷ s) h =
    rw reverse-cons (All-append _ (reverse s) (c ∷ []) (NoSpace-reverse s h.1) (h.0, tt))

-- A text without white space is left alone.
pub trim_space_none : (s : Text) → NoSpace s → trim_space s ≡ s
unfolding trim_space
trim_space_none s h =
    rw (trim_left_none s h, trim_left_none (reverse s) (NoSpace-reverse s h)) (reverse-reverse s)

pub contains_lacking : (s : Text) (b : ℕ) → Lacks b s → contains s (b ∷ []) ≡ false
unfolding contains
contains_lacking [] b h = refl
contains_lacking (c ∷ s) b h = ground (arith, contains_lacking s b h.1)

pub contains-Lacks : (s : Text) (b : ℕ) → contains s (b ∷ []) ≡ false → Lacks b s
unfolding contains
contains-Lacks [] b h = tt
contains-Lacks (c ∷ s) b h = ground (arith, contains-Lacks s b)

pub contains-append : (p : Text) (b : ℕ) (s : Text) → contains (p ++ b ∷ s) (b ∷ []) ≡ true
unfolding contains
contains-append [] b s = ground arith
contains-append (c ∷ p) b s = ground (arith, contains-append p b s)
