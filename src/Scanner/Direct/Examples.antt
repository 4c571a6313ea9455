-- ===== src/Scanner/Direct/Examples.antt =====
-- Tests of the scan without a quorum.
use route_fork.Base.{ℕ, ◌≡◌, refl, Bool, false, Option, none, some, List, [], ◌∷◌, map, ◌==◌}
use route_fork.Base.Result.{Result, ok, err}
use route_fork.Text.{Text, codes, trim_space, contains, split, split_n, join}
use route_fork.Text.Decimal.{itoa, atoi}
use route_fork.Base.Sort.{sort}
use route_fork.Net.{write, read, read_full}
use route_fork.Net.Ip.{octet, parse_ipv4}
use route_fork.Proxy.{new_proxy}
use route_fork.Proxy.Dial.{parse_ip}
use route_fork.Scanner.Ports.{parse_ports, parse_part, piece, compress_ports}
use route_fork.Scanner.Banner.{clean_banner}
use route_fork.Scanner.Services.{is_among, read_banner, parse_banner, classify}
use route_fork.Scanner.Rotate.{grid, with_ports}
use route_fork.Scanner.Expand.{invalid_cidr, expand_target}
use route_fork.Scanner.Direct.{
  merge_port_specs, merge_common_ports, dial_address, socks4_connect, socks4_dial, DirectWorld,
  dial_by, open_port, scan_one, scan_jobs, with_hosts, direct_scan, DirectError, OpenPort,
}

merge_test : merge_port_specs (codes " 80,22") (codes "21-23,x") ≡ codes "22,80"
unfolding merge_port_specs parse_ports parse_part split split_n contains trim_space atoi is_among
    compress_ports piece itoa join sort
merge_test = refl

all_test : merge_common_ports (codes " 0-65535 ") ≡ codes "0-65535"
unfolding merge_common_ports trim_space
all_test = refl

abbrev world : DirectWorld
unfolding new_proxy
world = record {
  rounds = 5;
  expand6 = λ t. err (invalid_cidr t);
  resolver = record { look_up = λ h. none; parse_ipv6 = λ h. none };
  get_proxy = λ i. new_proxy (codes "a") 1 (codes "socks4") [] [];
  tcp = λ i. ok (record {
    segments = (0 ∷ 90 ∷ 0 ∷ 0 ∷ 0 ∷ 0 ∷ 0 ∷ 0 ∷ []) ∷ codes "SSH-2.0-x" ∷ [];
    closing = codes "EOF";
    sent = [];
    writes = [];
  });
  socks5_dial = λ i px h p. err [];
  stopped = λ i. false;
  gave_up = λ i. i == 1;
}

abbrev open_ports : Option (Result DirectError (List OpenPort × Bool)) → List (ℕ × Text)
open_ports none = []
open_ports (some (err e)) = []
open_ports (some (ok r)) = map summary r.0
  where
    summary : OpenPort → ℕ × Text
    summary o = (o.port, o.service)

scan_test :
    open_ports (direct_scan world (codes "192.0.2.7") (codes "22,23,24"))
    ≡ (22, codes "ssh") ∷ (24, codes "ssh") ∷ []
unfolding world direct_scan with_hosts scan_jobs scan_one dial_by open_port socks4_dial
    socks4_connect dial_address expand_target grid with_ports parse_ports parse_part split split_n
    contains trim_space atoi parse_ip parse_ipv4 octet write read read_full read_banner clean_banner
    parse_banner classify
scan_test = refl
