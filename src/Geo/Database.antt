-- ===== src/Geo/Database.antt =====
-- The rest of geo/geo.go: the readers of the embedded data, and `Lookup`, `Name` and `Flag`. The
-- data are given as the lines that a line scanner yields, with whether it ended with an error, and
-- the addresses that are IPv6 with their four bytes, if any, are an argument.
mod Examples
use route_fork.Base.{
  ℕ, zero, suc, ◌+◌, ◌-◌, ◌*◌, ◌/◌, ◌%◌, ◌^◌, ◌≤◌, ◌<◌, ◌≡◌, refl, sym, ap, ◌∙◌, subst, ◌≢◌, ◌↔◌,
  ◌⊎◌, inl, inr, Bool, true, false, not, ◌&&◌, ◌||◌, Option, none, some, List, [], ◌∷◌, ◌++◌, map,
  append-nil, append_assoc, arith, ltb, leb, ◌==◌, if◌then◌else◌, leb→le, not_leb, ==_iff,
  Bool-cases, Option-cases, length, get_elem?, get_or, length-append, get_elem?-lt, take, drop,
  take-drop, length-take, same_front, All, All-append, All-left, All-right, All-mono,
}
use route_fork.Text.{
  Text, codes, Lacks, ◌==ₜ◌, is_space, trim_left, trim_space, has_prefix, contains, cons_head,
  split, split_n, join, fields, lower, upper, to_lower, to_upper,
}
use route_fork.Text.Map.{lookup, insert}
use route_fork.Net.Ip.{parse_ipv4}
use route_fork.Proxy.Parse.{cut, is_digit}
use route_fork.Geo
use route_fork.Geo.{Entry}

unfoldable pub digits_from : ℕ → Text → Option ℕ
unfolding is_digit
digits_from n [] = some n
digits_from n (c ∷ s) =
    let rest = digits_from (n * 10 + (c - b'0')) s in if is_digit c then rest else none

abbrev pub below_32 : Option ℕ → Option ℕ
below_32 none = none
below_32 (some n) = if ltb n (2 ^ 32) then some n else none

-- strconv.ParseUint in base 10 with 32 bits
unfoldable pub parse_uint32 : Text → Option ℕ
unfolding digits_from
parse_uint32 [] = none
parse_uint32 (c ∷ s) = below_32 (digits_from 0 (c ∷ s))

abbrev pub with_numbers : Text → Option ℕ → Option ℕ → Option Entry
with_numbers cc (some start) (some end) = some (record { start = start; end = end; cc = cc })
with_numbers cc none end = none
with_numbers cc (some start) none = none

abbrev pub with_fields : Text → Option (Text × Text) → Option Entry
with_fields start none = none
with_fields start (some (end, cc)) =
    if ltb (length cc) 2
    then none
    else with_numbers (take 2 cc) (parse_uint32 start) (parse_uint32 end)

unfoldable pub parse_entry : Text → Option Entry
unfolding cut parse_uint32
parse_entry line = elim (cut b',' line) [
  | none ↦ none
  | some (start, rest) ↦ with_fields start (cut b',' rest)
]

abbrev pub add_entry : Option Entry → List Entry → List Entry
add_entry none t = t
add_entry (some e) t = e ∷ t

unfoldable pub parse_entries : List Text → List Entry
unfolding parse_entry
parse_entries [] = []
parse_entries (line ∷ lines) = add_entry (parse_entry line) (parse_entries lines)

-- sort.Slice by the start. Ranges that start at one address are kept in their order.
unfoldable pub insert_entry : Entry → List Entry → List Entry
insert_entry e [] = e ∷ []
insert_entry e (f ∷ t) = if leb e.start f.start then e ∷ f ∷ t else f ∷ insert_entry e t

unfoldable pub sort_entries : List Entry → List Entry
unfolding insert_entry
sort_entries [] = []
sort_entries (e ∷ t) = insert_entry e (sort_entries t)

unfoldable pub parse_table : List Text × Bool → List Entry
unfolding parse_entries sort_entries
parse_table (lines, failed) = let t = parse_entries lines in if failed then t else sort_entries t

abbrev pub add_name : Option (Text × Text) → List (Text × Text) → List (Text × Text)
add_name none m = m
add_name (some (code, name)) m = if length code == 2 then insert code name m else m

unfoldable pub add_names : List Text → List (Text × Text) → List (Text × Text)
unfolding cut
add_names [] m = m
add_names (line ∷ lines) m = add_names lines (add_name (cut b'\t' line) m)

unfoldable pub parse_names : List Text → List (Text × Text)
unfolding add_names
parse_names lines = add_names lines []

-- What `ensureLoaded` makes of the data.
pub record Database : Type 0 where
  pub tbl : List Entry
  pub name_map : List (Text × Text)

unfoldable pub ensure_loaded : Option (List Text × Bool) → List Text → Database
unfolding parse_table parse_names
ensure_loaded none names = record { tbl = []; name_map = parse_names names }
ensure_loaded (some data_lines) names = record {
  tbl = parse_table data_lines;
  name_map = parse_names names;
}

abbrev pub big_endian : ℕ → Text → ℕ
big_endian n [] = n
big_endian n (b ∷ bs) = big_endian (n * 256 + b) bs

unfoldable pub ipv4_to_uint : Option Text → Option ℕ
ipv4_to_uint none = none
ipv4_to_uint (some ip) = some (big_endian 0 ip)

abbrev pub or_nothing : Option Text → Text
or_nothing none = []
or_nothing (some cc) = cc

abbrev pub country_of : Database → Option ℕ → Text
country_of db none = []
country_of db (some n) = or_nothing (Geo.lookup db.tbl n)

unfoldable pub lookup_country : Database → (Text → Option (Option Text)) → Text → Text
unfolding ipv4_to_uint Geo.lookup
lookup_country db parse_ipv6 ip_str =
    let s = trim_space ip_str in
    elim (parse_ipv4 s) [
      | some ip ↦ country_of db (ipv4_to_uint (some ip))
      | none ↦ (elim (parse_ipv6 s) [ none ↦ [] | some ip ↦ country_of db (ipv4_to_uint ip) ])
    ]

unfoldable pub country_name : Database → Text → Text
unfolding lookup
country_name db code =
    let code' = to_upper (trim_space code) in
    if code' ==ₜ [] then [] else elim (lookup code' db.name_map) [ some n ↦ n | none ↦ code' ]

abbrev pub is_capital : ℕ → Bool
is_capital c = leb b'A' c && leb c b'Z'

-- The UTF-8 of a regional indicator symbol.
abbrev pub indicator : ℕ → Text
indicator c = 240 ∷ 159 ∷ 135 ∷ (166 + (c - b'A')) ∷ []

abbrev pub indicators : Text → Text
indicators (a ∷ b ∷ []) = if is_capital a && is_capital b then indicator a ++ indicator b else []
indicators [] = []
indicators (a ∷ []) = []
indicators (a ∷ b ∷ c ∷ s) = []

unfoldable pub flag : Text → Text
flag code = indicators (to_upper (trim_space code))
