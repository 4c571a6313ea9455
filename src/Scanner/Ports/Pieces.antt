-- ===== src/Scanner/Ports/Pieces.antt =====
-- What `CompressPorts` prints between two commas.
use route_fork.Base.{
  ℕ, ◌+◌, ◌-◌, ◌≤◌, ◌≡◌, inl, inr, true, false, List, [], ◌∷◌, ◌++◌, arith, ◌==◌, Bool-cases,
  length, All, All-append, All-mono,
}
use route_fork.Base.Int.{pos}
use route_fork.Base.Result.{ok}
use route_fork.Text.{Text, codes, Lacks, is_space, contains}
use route_fork.Text.Decimal.{atoi, itoa, itoa-IsDigit, atoi-itoa}
use route_fork.Text.Parts.{
  NoSpace, trim_space_none, split_n-append, contains_lacking, contains-append,
}
use route_fork.Scanner.Ports.{
  max_parsed_ports, count_up, interval, bound, add_range, add_port, parse_part, piece,
}
use route_fork.Scanner.Ports.Parse.{IsPort}

-- What a piece is made of: digits and the dash.
abbrev IsPieceByte : ℕ → Type 0
IsPieceByte c = (b'-' ≤ c) × (c ≤ b'9')

digits-IsPieceByte : (n : ℕ) → All IsPieceByte (itoa n)
digits-IsPieceByte n = All-mono (λ c h. omega arith) (itoa n) (itoa-IsDigit n)

piece-bytes : (s e : ℕ) → All IsPieceByte (piece s e)
unfolding piece
piece-bytes s e = elim (Bool-cases (s == e)) [
  | inl t ↦ rw t (digits-IsPieceByte s)
  | inr t ↦ rw t (
      All-append IsPieceByte (itoa s) (b'-' ∷ itoa e) (digits-IsPieceByte s)
        (omega arith, digits-IsPieceByte e))
]

is_space_digit : (c : ℕ) → IsPieceByte c → is_space c ≡ false
unfolding is_space
is_space_digit c h = ground arith

pub piece-NoSpace : (s e : ℕ) → NoSpace (piece s e)
piece-NoSpace s e = All-mono is_space_digit (piece s e) (piece-bytes s e)

itoa-NoSpace : (n : ℕ) → NoSpace (itoa n)
itoa-NoSpace n = All-mono is_space_digit (itoa n) (digits-IsPieceByte n)

itoa-Lacks_dash : (n : ℕ) → Lacks b'-' (itoa n)
itoa-Lacks_dash n = All-mono (λ c h. omega arith) (itoa n) (itoa-IsDigit n)

pub piece-Lacks_comma : (s e : ℕ) → Lacks b',' (piece s e)
piece-Lacks_comma s e = All-mono (λ c h. omega arith) (piece s e) (piece-bytes s e)

bound_low : (s e : ℕ) → s ≤ 65535 → bound (itoa s ++ b'-' ∷ itoa e) 0 ≡ (pos s, true)
unfolding bound
bound_low s e h =
    rw (split_n-append (itoa s) b'-' (itoa e) (itoa-Lacks_dash s))
      (rw (trim_space_none (itoa s) (itoa-NoSpace s)) (atoi-itoa s (omega arith)))

bound_high : (s e : ℕ) → e ≤ 65535 → bound (itoa s ++ b'-' ∷ itoa e) 1 ≡ (pos e, true)
unfolding bound
bound_high s e h =
    rw (split_n-append (itoa s) b'-' (itoa e) (itoa-Lacks_dash s))
      (rw (trim_space_none (itoa e) (itoa-NoSpace e)) (atoi-itoa e (omega arith)))

add_range-accepts :
    (part : Text) (s e : ℕ) (ports : List ℕ)
    → 1 ≤ s
    → s ≤ e
    → e ≤ 65535
    → length ports + (e - s + 1) ≤ max_parsed_ports
    → add_range part (pos s, true) (pos e, true) ports ≡ ok (ports ++ interval s e)
unfolding add_range
add_range-accepts part s e ports h k m fits = ground arith

add_port-accepts :
    (part : Text) (n : ℕ) (ports : List ℕ)
    → IsPort n
    → length ports + 1 ≤ max_parsed_ports
    → add_port part (pos n, true) ports ≡ ok (ports ++ n ∷ [])
unfolding add_port
add_port-accepts part n ports h fits = ground arith

pub interval_one : (n : ℕ) → interval n n ≡ n ∷ []
unfolding count_up
interval_one n = let e : n + 1 - n ≡ 1 = omega arith in rw e

parse_part_range :
    (part : Text) (ports : List ℕ)
    → contains part (codes "-") ≡ true
    → parse_part part ports ≡ add_range part (bound part 0) (bound part 1) ports
unfolding parse_part
parse_part_range part ports h = rw h

parse_part_port :
    (part : Text) (ports : List ℕ)
    → contains part (codes "-") ≡ false
    → parse_part part ports ≡ add_port part (atoi part) ports
unfolding parse_part
parse_part_port part ports h = rw h

pub parse_part-single :
    (n : ℕ) (ports : List ℕ)
    → IsPort n
    → length ports + 1 ≤ max_parsed_ports
    → parse_part (itoa n) ports ≡ ok (ports ++ n ∷ [])
parse_part-single n ports h fits =
    rw (parse_part_port (itoa n) ports (contains_lacking (itoa n) b'-' (itoa-Lacks_dash n)))
      (rw (atoi-itoa n (omega arith)) (add_port-accepts (itoa n) n ports h fits))

pub parse_part-run :
    (s e : ℕ) (ports : List ℕ)
    → 1 ≤ s
    → s ≤ e
    → e ≤ 65535
    → length ports + (e - s + 1) ≤ max_parsed_ports
    → parse_part (itoa s ++ b'-' ∷ itoa e) ports ≡ ok (ports ++ interval s e)
parse_part-run s e ports h k m fits =
    rw
      (
        parse_part_range (itoa s ++ b'-' ∷ itoa e) ports (contains-append (itoa s) b'-' (itoa e)),
        bound_low s e (omega arith),
        bound_high s e m,
      )
      (add_range-accepts _ s e ports h k m fits)
