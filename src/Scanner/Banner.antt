-- ===== src/Scanner/Banner.antt =====
-- `CleanBanner` of scanner/services.go.
pub mod Clean
mod Examples
use route_fork.Base.{
  ℕ, zero, suc, ◌+◌, ◌-◌, ◌*◌, ◌/◌, ◌%◌, ◌^◌, ◌≤◌, ◌<◌, ◌≡◌, refl, sym, ap, ◌∙◌, subst, ◌≢◌, ◌↔◌,
  ◌⊎◌, inl, inr, Bool, true, false, not, ◌&&◌, ◌||◌, Option, none, some, List, [], ◌∷◌, ◌++◌, map,
  append-nil, append_assoc, arith, ltb, leb, ◌==◌, if◌then◌else◌, leb→le, not_leb, ==_iff,
  Bool-cases, Option-cases, length, get_elem?, get_or, length-append, get_elem?-lt, take, drop,
  take-drop, length-take, same_front, All, All-append, All-left, All-right, All-mono,
}
use route_fork.Text.{
  Text, codes, Lacks, ◌==ₜ◌, is_space, trim_left, trim_space, has_prefix, contains, cons_head,
  split, split_n, join, fields, lower, upper, to_lower, to_upper,
}

-- The loop over the bytes.
unfoldable pub keep_printable : Text → Text
keep_printable [] = []
keep_printable (c ∷ raw) =
    let rest = keep_printable raw in
    if leb 32 c && ltb c 127
    then c ∷ rest
    else if c == 9 || c == 10 || c == 13
    then 32 ∷ rest
    else rest

abbrev pub two_spaces : Text
two_spaces = 32 ∷ 32 ∷ []

-- strings.ReplaceAll of two spaces by one
unfoldable pub replace_pairs : Text → Text
replace_pairs [] = []
replace_pairs (c ∷ []) = c ∷ []
replace_pairs (c ∷ d ∷ s) =
    let after = replace_pairs s in
    let next = replace_pairs (d ∷ s) in if c == 32 && d == 32 then 32 ∷ after else c ∷ next

-- The loop that collapses runs of spaces. Each round but the last makes the text shorter, so its
-- length bounds the rounds.
unfoldable pub collapse : ℕ → Text → Text
unfolding replace_pairs
collapse zero s = s
collapse (suc rounds) s =
    let rest = collapse rounds (replace_pairs s) in if contains s two_spaces then rest else s

unfoldable pub clean_banner : Text → Text
unfolding keep_printable collapse
clean_banner raw = let s = keep_printable raw in trim_space (collapse (length s) s)
