-- ===== src/Geo/Database/Examples.antt =====
-- Tests of the readers of geo/geo.go.
use route_fork.Base.{◌≡◌, refl, false, none, some, [], ◌∷◌}
use route_fork.Text.{codes, trim_space, split, to_upper}
use route_fork.Text.Map.{lookup, insert}
use route_fork.Net.Ip.{octet, parse_ipv4}
use route_fork.Proxy.Parse.{cut, is_digit}
use route_fork.Geo
use route_fork.Geo.{search_first, search_from, ends_at, country_at}
use route_fork.Geo.Database.{
  Database, digits_from, parse_uint32, parse_entry, parse_entries, insert_entry, sort_entries,
  parse_table, add_names, parse_names, ensure_loaded, ipv4_to_uint, lookup_country, country_name,
  flag,
}

abbrev database : Database
unfolding ensure_loaded
database =
    ensure_loaded
      (some (
        codes "16777216,16777471,AU"
            ∷ codes "x"
            ∷ codes "0,16777215,ZZZ"
            ∷ codes "1,99999999999,DE"
            ∷ [],
        false,
      ))
      (codes "AU\tAustralia" ∷ codes "bad" ∷ [])

lookup_test : lookup_country database (λ s. none) (codes " 1.0.0.7 ") ≡ codes "AU"
unfolding database lookup_country ipv4_to_uint Geo.lookup search_first search_from ends_at
    country_at parse_table parse_entries parse_entry parse_uint32 digits_from sort_entries
    insert_entry cut is_digit parse_ipv4 octet split trim_space
lookup_test = refl

name_test : country_name database (codes "au") ≡ codes "Australia"
unfolding database country_name parse_names add_names cut lookup insert trim_space to_upper
name_test = refl

unknown_test : country_name database (codes "xx") ≡ codes "XX"
unfolding database country_name parse_names add_names cut lookup insert trim_space to_upper
unknown_test = refl

flag_test : flag (codes "de") ≡ 240 ∷ 159 ∷ 135 ∷ 169 ∷ 240 ∷ 159 ∷ 135 ∷ 170 ∷ []
unfolding flag trim_space to_upper
flag_test = refl
