-- ===== src/Scanner/Ports/Parse.antt =====
-- What `ParsePorts` accepts.
use route_fork.Base.{
  ℕ, zero, suc, ◌+◌, ◌-◌, ◌≤◌, ◌≡◌, refl, inl, inr, Bool, List, [], ◌∷◌, ◌++◌, arith, Bool-cases,
  length, length-append, All, All-append,
}
use route_fork.Base.Int.{ℤ, pos, negsuc, to_ℕ}
use route_fork.Base.Result.{ok, first_value}
use route_fork.Text.{Text, codes, trim_space, contains, split}
use route_fork.Text.Decimal.{atoi}
use route_fork.Scanner.Ports.{
  max_parsed_ports, count_up, interval, add_range, add_port, parse_part, parse_parts, parse_ports,
  bound,
}

abbrev pub IsPort : ℕ → Type 0
IsPort p = (1 ≤ p) × (p ≤ 65535)

pub length-count_up : (k i : ℕ) → length (count_up i k) ≡ k
unfolding count_up
length-count_up zero i = refl
length-count_up (suc k) i = omega (arith, length-count_up k (i + 1))

pub count_up-IsPort : (k i : ℕ) → 1 ≤ i → i + k ≤ 65536 → All IsPort (count_up i k)
unfolding count_up
count_up-IsPort zero i h m = tt
count_up-IsPort (suc k) i h m =
    ((omega arith, omega arith), count_up-IsPort k (i + 1) (omega arith) (omega arith))

-- The ports gathered so far are valid and within the limit.
pub record IsBounded (ports : List ℕ) : Type 0 where
  pub valid : All IsPort ports
  pub within : length ports ≤ max_parsed_ports

-- The tests of `add_range` behind an accepted range.
add_range-ok :
    (part : Text) (a b : ℤ × Bool) (ports r : List ℕ)
    → add_range part a b ports ≡ ok r
    → (1 ≤ to_ℕ a.0)
      × (to_ℕ b.0 ≤ 65535)
      × (to_ℕ a.0 ≤ to_ℕ b.0)
      × (length ports + (to_ℕ b.0 - to_ℕ a.0 + 1) ≤ max_parsed_ports)
      × (r ≡ ports ++ interval (to_ℕ a.0) (to_ℕ b.0))
unfolding add_range
add_range-ok part (pos s, p) (pos e, q) ports r h = ground arith
add_range-ok part (pos s, p) (negsuc e, q) ports r h = ground arith
add_range-ok part (negsuc s, p) (b, q) ports r h = ground arith

add_port-ok :
    (part : Text) (a : ℤ × Bool) (ports r : List ℕ)
    → add_port part a ports ≡ ok r
    → IsPort (to_ℕ a.0) × (length ports + 1 ≤ max_parsed_ports) × (r ≡ ports ++ to_ℕ a.0 ∷ [])
unfolding add_port
add_port-ok part (pos n, p) ports r h = ground arith
add_port-ok part (negsuc n, p) ports r h = ground arith

interval-IsBounded :
    (start end : ℕ) (ports : List ℕ)
    → IsBounded ports
    → 1 ≤ start
    → end ≤ 65535
    → start ≤ end
    → length ports + (end - start + 1) ≤ max_parsed_ports
    → IsBounded (ports ++ interval start end)
interval-IsBounded start end ports v h k m fits = record {
  valid =
      All-append IsPort ports _ v.valid (count_up-IsPort (end + 1 - start) start h (omega arith));
  within =
      omega
        (arith, length-append ports (interval start end), length-count_up (end + 1 - start) start);
}

add_range-IsBounded :
    (part : Text) (a b : ℤ × Bool) (ports r : List ℕ)
    → IsBounded ports
    → add_range part a b ports ≡ ok r
    → IsBounded r
add_range-IsBounded part a b ports r v h =
    let (low, high, order, fits, e) = add_range-ok part a b ports r h in
    rw e (interval-IsBounded (to_ℕ a.0) (to_ℕ b.0) ports v low high order fits)

add_port-IsBounded :
    (part : Text) (a : ℤ × Bool) (ports r : List ℕ)
    → IsBounded ports
    → add_port part a ports ≡ ok r
    → IsBounded r
add_port-IsBounded part a ports r v h =
    let (valid, fits, e) = add_port-ok part a ports r h in
    rw e (record {
      valid = All-append IsPort ports _ v.valid (valid, tt);
      within = omega (arith, length-append ports (to_ℕ a.0 ∷ []));
    })

parse_part-IsBounded :
    (part : Text) (ports r : List ℕ) → IsBounded ports → parse_part part ports ≡ ok r → IsBounded r
unfolding parse_part
parse_part-IsBounded part ports r v h = elim (Bool-cases (contains part (codes "-"))) [
  | inl e ↦ add_range-IsBounded part (bound part 0) (bound part 1) ports r v (rw e at h)
  | inr e ↦ add_port-IsBounded part (atoi part) ports r v (rw e at h)
]

pub parse_parts-IsBounded :
    (parts : List Text) (ports r : List ℕ)
    → IsBounded ports
    → parse_parts parts ports ≡ ok r
    → IsBounded r
unfolding parse_parts
parse_parts-IsBounded [] ports r v h = ground (arith, h)
parse_parts-IsBounded (part ∷ parts) ports r v h =
    let (s, e, rest) = first_value (parse_part (trim_space part) ports) (parse_parts parts) h in
    parse_parts-IsBounded parts s r (parse_part-IsBounded (trim_space part) ports s v e) rest

-- Every port of a specification that `ParsePorts` accepts lies in 1..65535, and there are at most
-- 2^20 of them, however the ranges overlap.
pub parse_ports-IsBounded : (spec : Text) (r : List ℕ) → parse_ports spec ≡ ok r → IsBounded r
unfolding parse_ports
parse_ports-IsBounded spec r h =
    parse_parts-IsBounded (split spec b',') [] r (record { valid = tt; within = omega arith }) h
