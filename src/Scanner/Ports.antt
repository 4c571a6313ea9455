-- ===== src/Scanner/Ports.antt =====
-- Port specifications: `ParsePorts`, `CompressPorts` and `MergePortSpecs` of scanner/scanner.go.
pub mod Parse
pub mod Pieces
pub mod RoundTrip
mod Examples
use route_fork.Base.{
  ℕ, zero, suc, ◌+◌, ◌-◌, ◌^◌, ◌≡◌, refl, Bool, true, false, not, ◌||◌, List, [], ◌∷◌, ◌++◌, arith,
  ltb, leb, ◌==◌, if◌then◌else◌, length, get_or,
}
use route_fork.Base.Int.{ℤ, pos, ltb_ℤ, to_ℕ}
use route_fork.Base.Result.{Result, ok, err, ◌>>=◌}
use route_fork.Base.Sort.{sort}
use route_fork.Text.{Text, codes, ◌==ₜ◌, trim_space, contains, split, split_n, join}
use route_fork.Text.Decimal.{atoi, itoa}

pub data PortError : Type 0 where
  invalid_range : Text → PortError
  invalid_port : Text → PortError
  too_many_ports : PortError

abbrev pub max_parsed_ports : ℕ
max_parsed_ports = 2 ^ 20

-- `for i := start; i <= end; i++`, by the rounds left
unfoldable pub count_up : ℕ → ℕ → List ℕ
count_up i zero = []
count_up i (suc rounds) = i ∷ count_up (i + 1) rounds

abbrev pub interval : ℕ → ℕ → List ℕ
interval start end = count_up start (end + 1 - start)

-- The tests on a range, and the ports that it adds.
unfoldable pub add_range : Text → ℤ × Bool → ℤ × Bool → List ℕ → Result PortError (List ℕ)
unfolding count_up
add_range part (start, parsed) (end, parsed') ports =
    if not parsed || not parsed' || ltb_ℤ start (pos 1) || ltb_ℤ (pos 65535) end || ltb_ℤ end start
    then err (invalid_range part)
    else if ltb max_parsed_ports (length ports + (to_ℕ end - to_ℕ start + 1))
    then err too_many_ports
    else ok (ports ++ interval (to_ℕ start) (to_ℕ end))

unfoldable pub add_port : Text → ℤ × Bool → List ℕ → Result PortError (List ℕ)
add_port part (n, parsed) ports =
    if not parsed || ltb_ℤ n (pos 1) || ltb_ℤ (pos 65535) n
    then err (invalid_port part)
    else if ltb max_parsed_ports (length ports + 1)
    then err too_many_ports
    else ok (ports ++ to_ℕ n ∷ [])

-- `strconv.Atoi(strings.TrimSpace(bounds[i]))`
unfoldable pub bound : Text → ℕ → ℤ × Bool
bound part i = atoi (trim_space (get_or (split_n part b'-' 2) i []))

-- One round of the loop over the parts; the part is trimmed.
unfoldable pub parse_part : Text → List ℕ → Result PortError (List ℕ)
unfolding add_range add_port bound
parse_part part ports =
    if contains part (codes "-")
    then add_range part (bound part 0) (bound part 1) ports
    else add_port part (atoi part) ports

unfoldable pub parse_parts : List Text → List ℕ → Result PortError (List ℕ)
parse_parts [] ports = ok ports
parse_parts (part ∷ parts) ports = parse_part (trim_space part) ports >>= parse_parts parts

unfoldable pub parse_ports : Text → Result PortError (List ℕ)
unfolding parse_parts
parse_ports spec = parse_parts (split spec b',') []

unfoldable pub piece : ℕ → ℕ → Text
piece start end = if start == end then itoa start else itoa start ++ b'-' ∷ itoa end

-- The loop over the sorted ports after the first: `start` and `end` are the open run.
unfoldable pub runs : List ℕ → ℕ → ℕ → List Text → List Text
runs [] start end parts = parts ++ piece start end ∷ []
runs (p ∷ ps) start end parts =
    let grow = runs ps start p parts in
    let flush = runs ps p p (parts ++ piece start end ∷ []) in if p == end + 1 then grow else flush

unfoldable pub compress_sorted : List ℕ → Text
unfolding runs
compress_sorted [] = []
compress_sorted (p ∷ ps) = join (runs ps p p []) b','

unfoldable pub compress_ports : List ℕ → Text
unfolding compress_sorted
compress_ports ports = compress_sorted (sort ports)

parse_test : parse_ports (codes "22, 80,1000-1002") ≡ ok (22 ∷ 80 ∷ 1000 ∷ 1001 ∷ 1002 ∷ [])
unfolding parse_ports parse_part split split_n contains trim_space atoi
parse_test = refl

compress_test : compress_ports (443 ∷ 81 ∷ 80 ∷ 82 ∷ 443 ∷ []) ≡ codes "80-82,443,443"
unfolding compress_ports piece itoa join sort
compress_test = refl
