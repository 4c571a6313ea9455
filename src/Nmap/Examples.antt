-- ===== src/Nmap/Examples.antt =====
-- Tests of the readers of nmap's lines, and their theorem on a concrete report.
use route_fork.Base.{◌≡◌, refl, inl, inr, true, false, some, List, [], ◌∷◌, arith}
use route_fork.Text.{Text, codes, is_space, trim_space, has_prefix, contains, fields}
use route_fork.Text.Decimal.{itoa}
use route_fork.Proxy.Parse.{is_blank, is_digit}
use route_fork.Nmap.{
  span, protocol, cut_port, open_at, has_open, match_detail, exec_flat_nmap, count_open,
  parse_port_line, add_extra, build_nmap_argv,
}
use route_fork.Nmap.Lines.{PortLine, IsPortLine, port_line}
use route_fork.Nmap.Headings.{heading_line}
use route_fork.Nmap.Reading.{
  HostReport, IsReport, print_ports, print_reports, results_of, exec_flat_nmap-print_reports,
}

abbrev ssh : PortLine
ssh = record {
  number = 22;
  udp = false;
  blanks = codes "  ";
  blanks' = codes "  ";
  blanks'' = codes " ";
  service = codes "ssh";
  version = codes "OpenSSH 8.9";
}

abbrev dns : PortLine
dns = record ssh { number = 53; udp = true; service = codes "domain"; version = [] }

abbrev report : HostReport
report = record {
  heading = record { host = codes "h.example"; suffix = codes " (192.0.2.1)" };
  ports = ssh ∷ dns ∷ [];
}

abbrev printed : List Text
printed =
    codes "Nmap scan report for h.example (192.0.2.1)"
    ∷ codes "22/tcp  open  ssh OpenSSH 8.9"
    ∷ codes "53/udp  open  domain"
    ∷ []

print_test : print_reports (report ∷ []) ≡ printed
unfolding print_reports print_ports heading_line port_line itoa
print_test = refl

closed_test : has_open (codes "80/tcp  closed http") ≡ false
unfolding has_open open_at cut_port span protocol is_digit is_blank has_prefix
closed_test = refl

count_test : count_open (codes "x" ∷ printed) (0, false) ≡ (2, false)
unfolding count_open has_open open_at cut_port span protocol is_digit is_blank has_prefix contains
count_test = refl

prose_test :
    parse_port_line (codes " no port ")
    ≡ record { port = codes "no port"; proto = []; service = []; version = [] }
unfolding parse_port_line match_detail cut_port span is_digit trim_space
prose_test = refl

argv_test :
    build_nmap_argv (codes "80") (codes "-Pn -sV") (codes "socks4://x") (codes "h") true
    ≡ codes "nmap"
      ∷ codes "-sT"
      ∷ codes "-p"
      ∷ codes "80"
      ∷ codes "--proxies=socks4://x"
      ∷ codes "--open"
      ∷ codes "h"
      ∷ codes "-Pn"
      ∷ codes "-sV"
      ∷ []
unfolding build_nmap_argv add_extra fields
argv_test = refl

ssh-IsPortLine : IsPortLine ssh
unfolding is_space is_blank
ssh-IsPortLine = record {
  fits = omega arith;
  gap = ((λ e. cc), ground arith);
  gap' = ((λ e. cc), ground arith);
  gap'' = ((λ e. cc), ground arith);
  word = ((λ e. cc), ground arith);
  tight = inr (record {
    first = b'O';
    rest = codes "penSSH 8.9";
    starts = refl;
    first_kept = refl;
    init = codes "OpenSSH 8.";
    last = b'9';
    ends = refl;
    last_kept = refl;
  });
}

dns-IsPortLine : IsPortLine dns
unfolding is_space is_blank
dns-IsPortLine = record {
  fits = omega arith;
  gap = ((λ e. cc), ground arith);
  gap' = ((λ e. cc), ground arith);
  gap'' = ((λ e. cc), ground arith);
  word = ((λ e. cc), ground arith);
  tight = inl refl;
}

report-IsReport : IsReport report
unfolding is_space has_prefix contains is_blank port_line itoa
report-IsReport = (
  record { word = ((λ e. cc), ground arith); stops = refl; no_slash = omega arith },
  ((ssh-IsPortLine, refl), ((dns-IsPortLine, refl), tt)),
)

exec_flat_nmap-print_reports_example :
    (exec_flat_nmap (some printed) (codes "socks5://p:1")).0
    ≡ results_of (codes "socks5://p:1") (report ∷ [])
unfolding print_reports print_ports heading_line port_line itoa
exec_flat_nmap-print_reports_example =
    exec_flat_nmap-print_reports (codes "socks5://p:1") (report ∷ []) (report-IsReport, tt)
