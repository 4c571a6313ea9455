-- ===== src/Geo.antt =====
-- geo/geo.go: the search of the table of address ranges. The embedded data is the argument `t`.
pub mod Lookup
pub mod Database
mod Examples
use route_fork.Base.{
  ℕ, zero, suc, ◌+◌, ◌-◌, ◌*◌, ◌/◌, ◌%◌, ◌^◌, ◌≤◌, ◌<◌, ◌≡◌, refl, sym, ap, ◌∙◌, subst, ◌≢◌, ◌↔◌,
  ◌⊎◌, inl, inr, Bool, true, false, not, ◌&&◌, ◌||◌, Option, none, some, List, [], ◌∷◌, ◌++◌, map,
  append-nil, append_assoc, arith, ltb, leb, ◌==◌, if◌then◌else◌, leb→le, not_leb, ==_iff,
  Bool-cases, Option-cases, length, get_elem?, get_or, length-append, get_elem?-lt, take, drop,
  take-drop, length-take, same_front, All, All-append, All-left, All-right, All-mono,
}
use route_fork.Text.{
  Text, codes, Lacks, ◌==ₜ◌, is_space, trim_left, trim_space, has_prefix, contains, cons_head,
  split, split_n, join, fields, lower, upper, to_lower, to_upper,
}

pub record Entry : Type 0 where
  pub start : ℕ
  pub end : ℕ
  pub cc : Text

-- sort.Search: the rounds are bounded by the places, of which each round drops at least one.
unfoldable pub search_from : ℕ → (ℕ → Bool) → ℕ → ℕ → ℕ
search_from zero f i j = i
search_from (suc rounds) f i j =
    let h = (i + j) / 2 in
    let low = search_from rounds f i h in
    let high = search_from rounds f (h + 1) j in if ltb i j then (if f h then low else high) else i

unfoldable pub search_first : ℕ → (ℕ → Bool) → ℕ
search_first n f = search_from n f 0 n

-- The predicate of the search. It is asked only about places of the table.
unfoldable pub ends_at : List Entry → ℕ → ℕ → Bool
ends_at t ip i = elim (get_elem? t i) [ none ↦ true | some e ↦ leb ip e.end ]

-- The country of the entry, if it contains the address.
unfoldable pub country_at : ℕ → Option Entry → Option Text
country_at ip none = none
country_at ip (some e) = if leb e.start ip && leb ip e.end then some e.cc else none

unfoldable pub lookup : List Entry → ℕ → Option Text
unfolding country_at
lookup t ip = country_at ip (get_elem? t (search_first (length t) (ends_at t ip)))
