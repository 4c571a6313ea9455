-- ===== src/Proxy/Egress.antt =====
-- `extractPublicIP` of proxy/validate.go.
pub mod Public
mod Examples
use route_fork.Base.{
  ℕ, zero, suc, ◌+◌, ◌-◌, ◌*◌, ◌/◌, ◌%◌, ◌^◌, ◌≤◌, ◌<◌, ◌≡◌, refl, sym, ap, ◌∙◌, subst, ◌≢◌, ◌↔◌,
  ◌⊎◌, inl, inr, Bool, true, false, not, ◌&&◌, ◌||◌, Option, none, some, List, [], ◌∷◌, ◌++◌, map,
  append-nil, append_assoc, arith, ltb, leb, ◌==◌, if◌then◌else◌, leb→le, not_leb, ==_iff,
  Bool-cases, Option-cases, length, get_elem?, get_or, length-append, get_elem?-lt, take, drop,
  take-drop, length-take, same_front, All, All-append, All-left, All-right, All-mono,
}
use route_fork.Text.{
  Text, codes, Lacks, ◌==ₜ◌, is_space, trim_left, trim_space, has_prefix, contains, cons_head,
  split, split_n, join, fields, lower, upper, to_lower, to_upper,
}
use route_fork.Net.{byte}
use route_fork.Net.Ip.{parse_ipv4}

-- What is no digit and no dot separates, a character outside of ASCII byte by byte.
unfoldable pub is_dot_or_digit : ℕ → Bool
is_dot_or_digit c = (leb b'0' c && leb c b'9') || c == b'.'

-- strings.FieldsFunc, the field so far behind the flag that there is one
unfoldable pub fields_from : (ℕ → Bool) → Text → Text → List Text
fields_from keep [] [] = []
fields_from keep [] (w ∷ ws) = (w ∷ ws) ∷ []
fields_from keep (c ∷ s) word =
    let grow = fields_from keep s (word ++ c ∷ []) in
    let next = fields_from keep s [] in
    if keep c then grow else (elim word [ [] ↦ next | w ∷ ws ↦ (w ∷ ws) ∷ next ])

unfoldable pub fields_func : (ℕ → Bool) → Text → List Text
unfolding fields_from
fields_func keep s = fields_from keep s []

-- The switch over the first two bytes.
unfoldable pub is_public : Text → Bool
is_public ip =
    let a = byte ip 0 in
    let b = byte ip 1 in
    not (
      a == 0
      || a == 10
      || a == 127
      || (a == 169 && b == 254)
      || (a == 172 && leb 16 b && leb b 31)
      || (a == 192 && b == 168))

unfoldable pub is_public_ip : Text → Bool
unfolding is_public
is_public_ip f = elim (parse_ipv4 f) [ none ↦ false | some ip ↦ is_public ip ]

unfoldable pub first_public : List Text → Text
unfolding is_public_ip
first_public [] = []
first_public (f ∷ fs) = let rest = first_public fs in if is_public_ip f then f else rest

unfoldable pub extract_public_ip : Text → Text
unfolding first_public
extract_public_ip text = first_public (fields_func is_dot_or_digit text)

prose_test :
    extract_public_ip (codes "via 10.0.0.1: your IP is 203.0.113.9 .") ≡ codes "203.0.113.9"
unfolding extract_public_ip fields_func is_dot_or_digit is_public_ip parse_ipv4 split
prose_test = refl
