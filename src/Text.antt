-- ===== src/Text.antt =====
-- What the program uses of Go's `strings` and `strconv`. A string is the list of its bytes; white
-- space and letter case are those of ASCII.
pub mod Decimal
pub mod Parts
pub mod Search
pub mod Trim
pub mod Map
pub mod Hex
pub mod Order
use Prim.Native.Char.{code}
use Prim.Native.String.{String}
use mathlib.Core.List.{reverse}
use route_fork.Base.{
  ℕ, zero, suc, ◌+◌, ◌-◌, ◌≡◌, ◌≢◌, refl, Bool, true, false, ◌&&◌, ◌||◌, List, [], ◌∷◌, ◌++◌, map,
  ◌==◌, leb, if◌then◌else◌, length, All,
}

abbrev pub Text : Type 0
Text = List ℕ

-- The bytes of an ASCII literal. `String` has its own `[]` and `∷`.
abbrev pub codes : String → Text
codes String.[] = []
codes (String.◌∷◌ c s) = code c ∷ codes s

abbrev pub Lacks : ℕ → Text → Type 0
Lacks b = All (λ c. c ≢ b)

infix 50 ◌==ₜ◌
abbrev pub ◌==ₜ◌ : Text → Text → Bool
[] ==ₜ [] = true
[] ==ₜ (d ∷ t) = false
(c ∷ s) ==ₜ [] = false
(c ∷ s) ==ₜ (d ∷ t) = (c == d) && (s ==ₜ t)

unfoldable pub is_space : ℕ → Bool
is_space c = (leb 9 c && leb c 13) || c == 32

unfoldable pub trim_left : Text → Text
unfolding is_space
trim_left [] = []
trim_left (c ∷ s) = let rest = trim_left s in if is_space c then rest else c ∷ s

-- strings.TrimSpace
unfoldable pub trim_space : Text → Text
unfolding trim_left
trim_space s = reverse (trim_left (reverse (trim_left s)))

unfoldable pub has_prefix : Text → Text → Bool
has_prefix s [] = true
has_prefix [] (p ∷ ps) = false
has_prefix (c ∷ s) (p ∷ ps) = (c == p) && has_prefix s ps

-- strings.Contains
unfoldable pub contains : Text → Text → Bool
unfolding has_prefix
contains [] t = has_prefix [] t
contains (c ∷ s) t = has_prefix (c ∷ s) t || contains s t

abbrev pub cons_head : ℕ → List Text → List Text
cons_head c [] = (c ∷ []) ∷ []
cons_head c (p ∷ ps) = (c ∷ p) ∷ ps

-- strings.Split at a separator of one byte
unfoldable pub split : Text → ℕ → List Text
split [] sep = [] ∷ []
split (c ∷ s) sep = let rest = split s sep in if c == sep then [] ∷ rest else cons_head c rest

-- strings.SplitN at a separator of one byte, for a positive count
unfoldable pub split_n : Text → ℕ → ℕ → List Text
split_n s sep zero = []
split_n s sep (suc zero) = s ∷ []
split_n [] sep (suc (suc n)) = [] ∷ []
split_n (c ∷ s) sep (suc (suc n)) =
    let cut = split_n s sep (suc n) in
    let keep = split_n s sep (suc (suc n)) in if c == sep then [] ∷ cut else cons_head c keep

-- strings.Join with a separator of one byte
unfoldable pub join : List Text → ℕ → Text
join [] sep = []
join (p ∷ []) sep = p
join (p ∷ (q ∷ ps)) sep = p ++ sep ∷ join (q ∷ ps) sep

-- strings.Fields, the word so far behind the flag that there is one
unfoldable pub fields_from : Text → Text → List Text
unfolding is_space
fields_from [] [] = []
fields_from [] (w ∷ ws) = (w ∷ ws) ∷ []
fields_from (c ∷ s) word =
    let next = fields_from s [] in
    let grow = fields_from s (word ++ c ∷ []) in
    if is_space c then (elim word [ [] ↦ next | w ∷ ws ↦ (w ∷ ws) ∷ next ]) else grow

unfoldable pub fields : Text → List Text
unfolding fields_from
fields s = fields_from s []

unfoldable pub lower : ℕ → ℕ
lower c = if leb b'A' c && leb c b'Z' then c + 32 else c

unfoldable pub upper : ℕ → ℕ
upper c = if leb b'a' c && leb c b'z' then c - 32 else c

-- strings.ToLower and strings.ToUpper
unfoldable pub to_lower : Text → Text
unfolding lower
to_lower s = map lower s

unfoldable pub to_upper : Text → Text
unfolding upper
to_upper s = map upper s

trim_test : trim_space (codes " \t a b\n") ≡ codes "a b"
unfolding trim_space
trim_test = refl

split_n_test : split_n (codes "1-2-3") b'-' 2 ≡ codes "1" ∷ codes "2-3" ∷ []
unfolding split_n
split_n_test = refl

fields_test : fields (codes " ab  c ") ≡ codes "ab" ∷ codes "c" ∷ []
unfolding fields
fields_test = refl

join_test : join (codes "a" ∷ [] ∷ codes "b" ∷ []) b',' ≡ codes "a,,b"
unfolding join
join_test = refl
