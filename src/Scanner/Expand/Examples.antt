-- ===== src/Scanner/Expand/Examples.antt =====
-- Tests of scanner/scanner.go's `ExpandTarget`.
use route_fork.Base.{◌^◌, ◌≡◌, refl, some, [], ◌∷◌, arith}
use route_fork.Base.Result.{ok, err}
use route_fork.Text.{Text, codes, contains, split, split_n, join}
use route_fork.Text.Decimal.{itoa}
use route_fork.Net.Ip.{octet, parse_ipv4}
use route_fork.Scanner.Ports.{count_up}
use route_fork.Scanner.Expand.{
  bytes_of, Network, network_of, mask_from, parse_mask, parse_cidr4, is_ipv6, Expanded,
  invalid_cidr, expand_network, expand_cidr, expand_target, contains_ip, inc_ip, addresses,
  drop_ends,
}
use route_fork.Scanner.Expand.Targets.{IsNetwork, expand_target-ends}

abbrev no_ipv6 : Text → Expanded
no_ipv6 t = err (invalid_cidr t)

inc_test : inc_ip (10 ∷ 0 ∷ 255 ∷ 255 ∷ []) ≡ 10 ∷ 1 ∷ 0 ∷ 0 ∷ []
unfolding inc_ip
inc_test = refl

wrap_test : inc_ip (255 ∷ 255 ∷ 255 ∷ 255 ∷ []) ≡ 0 ∷ 0 ∷ 0 ∷ 0 ∷ []
unfolding inc_ip
wrap_test = refl

host_test : expand_target 3 no_ipv6 (codes "example.org") ≡ some (ok (codes "example.org" ∷ []))
unfolding expand_target contains
host_test = refl

mask_test :
    expand_target 3 no_ipv6 (codes "10.0.0.7/33") ≡ some (err (invalid_cidr (codes "10.0.0.7/33")))
unfolding expand_target contains expand_cidr is_ipv6 parse_cidr4 parse_ipv4 parse_mask mask_from
    split split_n octet
mask_test = refl

pair_test :
    expand_target 9 no_ipv6 (codes "10.0.0.255/31")
    ≡ some (ok (codes "10.0.0.254" ∷ codes "10.0.0.255" ∷ []))
unfolding expand_target contains expand_cidr is_ipv6 parse_cidr4 parse_ipv4 parse_mask mask_from
    split split_n octet network_of bytes_of expand_network addresses contains_ip inc_ip drop_ends
    itoa join
pair_test = refl

abbrev quarter : Network
quarter = record { ip = 10 ∷ 0 ∷ 0 ∷ 4 ∷ []; ones = 30 }

quarter-IsNetwork : IsNetwork (codes "10.0.0.7/30") quarter
unfolding is_ipv6 parse_cidr4 parse_ipv4 octet parse_mask split network_of
quarter-IsNetwork = record {
  addr = codes "10.0.0.7";
  mask = codes "30";
  shape = refl;
  no_slash = omega arith;
  not_ipv6 = refl;
  reads = refl;
}

expand_target-ends_example :
    expand_target (2 ^ 32) no_ipv6 (codes "10.0.0.7/30")
    ≡ some (ok (codes "10.0.0.5" ∷ codes "10.0.0.6" ∷ []))
unfolding count_up bytes_of itoa join
expand_target-ends_example =
    expand_target-ends (2 ^ 32) no_ipv6 (codes "10.0.0.7/30") quarter quarter-IsNetwork
      (omega arith)
