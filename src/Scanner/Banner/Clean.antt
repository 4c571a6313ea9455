-- ===== src/Scanner/Banner/Clean.antt =====
-- What `CleanBanner` of scanner/services.go makes of any bytes.
use mathlib.Core.List.{reverse, reverse-append, reverse-reverse}
use route_fork.Base.{
  ℕ, zero, suc, ◌≤◌, ◌<◌, ◌≡◌, refl, sym, ap, ◌∙◌, subst, inl, inr, Bool, true, false, ◌&&◌, ◌||◌,
  [], ◌∷◌, ◌++◌, append_assoc, arith, ltb, leb, ◌==◌, Bool-cases, length, All, All-left, All-right,
}
use route_fork.Text.{Text, is_space, trim_left, trim_space, has_prefix, contains}
use route_fork.Text.Search.{contains_around, contains_trans}
use route_fork.Scanner.Banner.{keep_printable, two_spaces, replace_pairs, collapse, clean_banner}

abbrev pub IsPrintable : ℕ → Type 0
IsPrintable c = (32 ≤ c) × (c < 127)

keep_printable-IsPrintable : (raw : Text) → All IsPrintable (keep_printable raw)
unfolding keep_printable
keep_printable-IsPrintable [] = tt
keep_printable-IsPrintable (c ∷ raw) = elim (Bool-cases (leb 32 c && ltb c 127)) [
  | inl e ↦ rw e ((ground arith, ground arith), keep_printable-IsPrintable raw)
  | inr e ↦ elim (Bool-cases (c == 9 || c == 10 || c == 13)) [
    | inl f ↦ rw (e, f) ((omega arith, omega arith), keep_printable-IsPrintable raw)
    | inr f ↦ rw (e, f) (keep_printable-IsPrintable raw)
  ]
]

replace_pairs-IsPrintable : (s : Text) → All IsPrintable s → All IsPrintable (replace_pairs s)
unfolding replace_pairs
replace_pairs-IsPrintable [] h = tt
replace_pairs-IsPrintable (c ∷ []) h = h
replace_pairs-IsPrintable (c ∷ d ∷ s) h = elim (Bool-cases (c == 32 && d == 32)) [
  | inl e ↦ rw e ((omega arith, omega arith), replace_pairs-IsPrintable s h.1.1)
  | inr e ↦ rw e (h.0, replace_pairs-IsPrintable (d ∷ s) h.1)
]

length-replace_pairs : (s : Text) → length (replace_pairs s) ≤ length s
unfolding replace_pairs
length-replace_pairs [] = omega arith
length-replace_pairs (c ∷ []) = omega arith
length-replace_pairs (c ∷ d ∷ s) = elim (Bool-cases (c == 32 && d == 32)) [
  | inl e ↦ rw e (omega (arith, length-replace_pairs s))
  | inr e ↦ rw e (omega (arith, length-replace_pairs (d ∷ s)))
]

replace_pairs_shorter :
    (s : Text) → contains s two_spaces ≡ true → length (replace_pairs s) < length s
unfolding replace_pairs contains has_prefix
replace_pairs_shorter [] h = cc
replace_pairs_shorter (c ∷ []) h = ground arith
replace_pairs_shorter (c ∷ d ∷ s) h = elim (Bool-cases (c == 32 && d == 32)) [
  | inl e ↦ rw e (omega (arith, length-replace_pairs s))
  | inr e ↦
      let later : contains (d ∷ s) two_spaces ≡ true = ground (arith, e) in
      rw e (omega (arith, replace_pairs_shorter (d ∷ s) later))
]

-- Enough rounds leave no two spaces next to each other.
collapse-single :
    (rounds : ℕ) (s : Text) → length s ≤ rounds → contains (collapse rounds s) two_spaces ≡ false
unfolding collapse
collapse-single zero [] h = unfold contains in refl
collapse-single zero (c ∷ s) h = absurd (omega arith)
collapse-single (suc rounds) s h = elim (Bool-cases (contains s two_spaces)) [
  | inl e ↦
      rw e (collapse-single rounds (replace_pairs s) (omega (arith, replace_pairs_shorter s e)))
  | inr e ↦ rw (e, e) refl
]

collapse-IsPrintable :
    (rounds : ℕ) (s : Text) → All IsPrintable s → All IsPrintable (collapse rounds s)
unfolding collapse
collapse-IsPrintable zero s h = h
collapse-IsPrintable (suc rounds) s h = elim (Bool-cases (contains s two_spaces)) [
  | inl e ↦ rw e (collapse-IsPrintable rounds (replace_pairs s) (replace_pairs-IsPrintable s h))
  | inr e ↦ rw e h
]

trim_left-split : (s : Text) → (before : Text) × (s ≡ before ++ trim_left s)
unfolding trim_left
trim_left-split [] = ([], refl)
trim_left-split (c ∷ s) = elim (Bool-cases (is_space c)) [
  | inl e ↦ let (before, h) = trim_left-split s in (c ∷ before, rw e (ap (λ r. c ∷ r) h))
  | inr e ↦ ([], rw e refl)
]

-- Trimming takes a front and an end away.
trim_space-split : (s : Text) → (before after : Text) × (s ≡ before ++ trim_space s ++ after)
unfolding trim_space
trim_space-split s =
    let (before, e) = trim_left-split s in
    let (behind, f) = trim_left-split (reverse (trim_left s)) in
    let back : trim_left s ≡ reverse (trim_left (reverse (trim_left s))) ++ reverse behind =
      sym (reverse-reverse (trim_left s))
      ∙ ap (λ r. reverse r) f
      ∙ reverse-append behind (trim_left (reverse (trim_left s))) in
    (
      before,
      reverse behind,
      e
          ∙ ap (λ r. before ++ r) back
          ∙ sym
              (append_assoc before (reverse (trim_left (reverse (trim_left s)))) (reverse behind)),
    )

lacks_pair :
    (t before after : Text)
    → t ≡ before ++ trim_space t ++ after
    → contains t two_spaces ≡ false
    → contains (trim_space t) two_spaces ≡ false
lacks_pair t before after e single = elim (Bool-cases (contains (trim_space t) two_spaces)) [
  | inl h ↦
      let whole : contains t (trim_space t) ≡ true =
        subst (λ x. contains x (trim_space t) ≡ true) (sym e)
          (contains_around before (trim_space t) after) in
      absurd (not_both (contains_trans t (trim_space t) two_spaces whole h) single)
  | inr h ↦ h
]
  where
    not_both : {b : Bool} → b ≡ true → b ≡ false → ⊥
    not_both h k = cc

-- A cleaned banner has printable ASCII bytes only, and no two spaces next to each other.
pub clean_banner-IsPrintable :
    (raw : Text)
    → All IsPrintable (clean_banner raw) × (contains (clean_banner raw) two_spaces ≡ false)
unfolding clean_banner
clean_banner-IsPrintable raw =
    let s = keep_printable raw in
    let t = collapse (length s) s in
    let printable = collapse-IsPrintable (length s) s (keep_printable-IsPrintable raw) in
    let (before, after, e) = trim_space-split t in
    (
      All-right IsPrintable before (trim_space t) (
          All-left IsPrintable (before ++ trim_space t) after
            (subst (λ x. All IsPrintable x) e printable)),
      lacks_pair t before after e (collapse-single (length s) s (omega arith)),
    )
