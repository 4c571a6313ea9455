-- ===== src/Scanner/Expand.antt =====
-- `ExpandTarget` and `incIP` of scanner/scanner.go, with `net.ParseCIDR` and `net.IPNet` for IPv4.
-- What becomes of a network of IPv6 is the argument `expand6`. The loop over the addresses of a
-- network has a bound on its rounds, and no result where the bound does not do.
pub mod Addresses
pub mod Hosts
pub mod Targets
mod Examples
use route_fork.Base.{
  ℕ, zero, suc, ◌+◌, ◌-◌, ◌*◌, ◌/◌, ◌%◌, ◌^◌, ◌≤◌, ◌<◌, ◌≡◌, refl, sym, ap, ◌∙◌, subst, ◌≢◌, ◌↔◌,
  ◌⊎◌, inl, inr, Bool, true, false, not, ◌&&◌, ◌||◌, Option, none, some, List, [], ◌∷◌, ◌++◌, map,
  append-nil, append_assoc, arith, ltb, leb, ◌==◌, if◌then◌else◌, leb→le, not_leb, ==_iff,
  Bool-cases, Option-cases, length, get_elem?, get_or, length-append, get_elem?-lt, take, drop,
  take-drop, length-take, same_front, All, All-append, All-left, All-right, All-mono,
}
use route_fork.Base.Result.{Result, ok, err}
use route_fork.Text.{
  Text, codes, Lacks, ◌==ₜ◌, is_space, trim_left, trim_space, has_prefix, contains, cons_head,
  split, split_n, join, fields, lower, upper, to_lower, to_upper,
}
use route_fork.Net.Ip.{parse_ipv4, dotted}

-- The bytes of an address as one number, the first the most significant.
abbrev pub number_from : ℕ → Text → ℕ
number_from n [] = n
number_from n (b ∷ ip) = number_from (n * 256 + b) ip

abbrev pub number : Text → ℕ
number ip = number_from 0 ip

-- The four bytes of a number.
unfoldable pub bytes_of : ℕ → Text
bytes_of n = (n / 256 / 256 / 256) % 256 ∷ (n / 256 / 256) % 256 ∷ (n / 256) % 256 ∷ n % 256 ∷ []

-- The number of addresses of an IPv4 network with a mask of `ones` bits.
abbrev pub block_size : ℕ → ℕ
block_size ones = 2 ^ (32 - ones)

pub record Network : Type 0 where
  pub ip : Text
  pub ones : ℕ

-- The digits of a mask, which are no number from 0xFFFFFF on.
unfoldable pub mask_from : ℕ → Text → Option ℕ
mask_from n [] = some n
mask_from n (c ∷ s) =
    let m = n * 10 + (c - b'0') in
    let rest = mask_from m s in if ltb c b'0' || ltb b'9' c || leb 0xffffff m then none else rest

unfoldable pub parse_mask : Text → Option ℕ
unfolding mask_from
parse_mask [] = none
parse_mask (c ∷ s) = elim (mask_from 0 (c ∷ s)) [
  | none ↦ none
  | some n ↦ if ltb 32 n then none else some n
]

-- The network of an address: the bits behind its mask are 0.
unfoldable pub network_of : Text → ℕ → Network
unfolding bytes_of
network_of ip ones = record {
  ip = bytes_of (number ip / block_size ones * block_size ones);
  ones = ones;
}

unfoldable pub parse_cidr4 : Text → Text → Option Network
unfolding network_of parse_mask
parse_cidr4 addr mask = elim (parse_ipv4 addr) [
  | none ↦ none
  | some ip ↦ (elim (parse_mask mask) [ none ↦ none | some ones ↦ some (network_of ip ones) ])
]

-- `netip.ParseAddr` reads IPv6 if a colon comes before every dot and percent sign.
unfoldable pub is_ipv6 : Text → Bool
is_ipv6 [] = false
is_ipv6 (c ∷ s) =
    let rest = is_ipv6 s in
    if c == b':' then true else if c == b'.' || c == b'%' then false else rest

unfoldable pub contains_ip : Network → Text → Bool
contains_ip n ip = number ip / block_size n.ones == number n.ip / block_size n.ones

-- The bytes of `incIP`, and whether the loop goes on past the first of them.
unfoldable pub inc_bytes : Text → Text × Bool
inc_bytes [] = ([], true)
inc_bytes (b ∷ ip) =
    let (rest, carry) = inc_bytes ip in
    if carry then ((b + 1) % 256 ∷ rest, (b + 1) % 256 == 0) else (b ∷ rest, false)

unfoldable pub inc_ip : Text → Text
unfolding inc_bytes
inc_ip ip = (inc_bytes ip).0

-- The loop from an address on.
unfoldable pub addresses : ℕ → Network → Text → Option (List Text)
unfolding contains_ip inc_ip
addresses zero n ip = none
addresses (suc rounds) n ip = elim (contains_ip n ip) [
  | false ↦ some []
  | true ↦ (elim (addresses rounds n (inc_ip ip)) [
    | none ↦ none
    | some hosts ↦ some (dotted ip ∷ hosts)
  ])
]

-- Without the addresses of the network itself and of its broadcast.
unfoldable pub drop_ends : ℕ → List Text → List Text
drop_ends ones hosts =
    if ltb 1 (32 - ones) && ltb 2 (length hosts)
    then take (length hosts - 2) (drop 1 hosts)
    else hosts

pub data ExpandError : Type 0 where
  invalid_cidr : Text → ExpandError

abbrev pub Expanded : Type 0
Expanded = Result ExpandError (List Text)

unfoldable pub expand_network : ℕ → Network → Option Expanded
unfolding addresses drop_ends
expand_network rounds n = elim (addresses rounds n n.ip) [
  | none ↦ none
  | some hosts ↦ some (ok (drop_ends n.ones hosts))
]

unfoldable pub expand_cidr : ℕ → (Text → Expanded) → Text → List Text → Option Expanded
unfolding is_ipv6 parse_cidr4
expand_cidr rounds expand6 target (addr ∷ mask ∷ []) =
    if is_ipv6 addr then some (expand6 target) else (elim (parse_cidr4 addr mask) [
      | none ↦ some (err (invalid_cidr target))
      | some n ↦ expand_network rounds n
    ])
expand_cidr rounds expand6 target _ = some (err (invalid_cidr target))

unfoldable pub expand_target : ℕ → (Text → Expanded) → Text → Option Expanded
unfolding expand_cidr
expand_target rounds expand6 target =
    if not (contains target (b'/' ∷ []))
    then some (ok (target ∷ []))
    else expand_cidr rounds expand6 target (split_n target b'/' 2)
