-- ===== src/Cli/Output/Examples.antt =====
-- Tests of cli/output.go, and its theorems at concrete results.
use route_fork.Base.{ℕ, ◌≡◌, refl, none, some, List, [], ◌∷◌, ◌++◌, map, arith, take}
use route_fork.Base.Result.{err}
use route_fork.Text.{Text, codes, trim_space, contains, join, to_lower}
use route_fork.Text.Decimal.{itoa}
use route_fork.Text.Map.{lookup, insert}
use route_fork.Net.{Conn, write}
use route_fork.Proxy.{pad_right}
use route_fork.Proxy.Errors.{contains_any}
use route_fork.Cli.Output.{
  ScanResult, XmlHost, txt_line, replace_byte, csv_esc, csv_header, csv_line, write_csv_lines,
  write_csv, write_results, group_result, group_results, ordered_hosts, xml_report,
}
use route_fork.Cli.Output.Csv.{row, read_csv, IsPlain}
use route_fork.Cli.Output.Writing.{Written, write_results-Written}
use route_fork.Cli.Output.RoundTrip.{header_row, read_csv-write_csv}

abbrev web : ScanResult
web = record {
  host = codes "h";
  port = 80;
  proto = codes "tcp";
  service = codes "http";
  version = [];
  banner = codes "say \"a,b\"";
  proxy = codes "p";
}

abbrev ssh : ScanResult
ssh = record web { host = codes "g"; port = 22; service = codes "ssh"; banner = [] }

csv_test : csv_line web ≡ codes "h,80,tcp,http,,\"say \"\"a,b\"\"\",p\n"
unfolding csv_line csv_esc contains_any contains replace_byte join itoa
csv_test = refl

txt_test : txt_line web ≡ codes "h                     80/tcp  http  [say \"a,b\"]  via p\n"
unfolding txt_line pad_right itoa
txt_test = refl

abbrev summary : XmlHost → Text × List ℕ
summary h = (h.addr, map (λ p. p.port_id) h.ports)

xml_test :
    map summary (xml_report (web ∷ ssh ∷ record web { port = 81 } ∷ []))
    ≡ (codes "h", 80 ∷ 81 ∷ []) ∷ (codes "g", 22 ∷ []) ∷ []
unfolding xml_report group_results group_result ordered_hosts lookup insert
xml_test = refl

-- A file on which the third write fails.
abbrev full_disk : Conn
full_disk = record {
  segments = [];
  closing = [];
  sent = codes "#";
  writes = none ∷ none ∷ some (3, codes "no space left on device") ∷ [];
}

full_disk_test : write_results (λ r. []) (λ r. []) (web ∷ ssh ∷ []) (codes " CSV ") full_disk ≡ (
  err (codes "no space left on device"),
  record full_disk {
    sent = codes "#" ++ csv_header ++ csv_line web ++ take 3 (csv_line ssh);
    writes = [];
  },
)
unfolding write_results write_csv write_csv_lines write trim_space to_lower join contains itoa
full_disk_test = refl

write_results-Written_example :
    Written
      (csv_header ∷ csv_line web ∷ csv_line ssh ∷ [])
      full_disk
      (write_results (λ r. []) (λ r. []) (web ∷ ssh ∷ []) (codes " CSV ") full_disk)
unfolding trim_space to_lower
write_results-Written_example =
    write_results-Written (λ r. []) (λ r. []) (web ∷ ssh ∷ []) (codes " CSV ") full_disk refl refl

abbrev empty_file : Conn
empty_file = record { segments = []; closing = []; sent = []; writes = [] }

web-IsPlain : IsPlain web
web-IsPlain = record {
  proto_comma = omega arith;
  proto_quote = omega arith;
  host_lines = omega arith;
  proto_lines = omega arith;
  service_lines = omega arith;
  version_lines = omega arith;
  banner_lines = omega arith;
  proxy_lines = omega arith;
}

read_csv-write_csv_example :
    (text : Text) × ((write_csv (web ∷ []) empty_file).1.sent ≡ text)
    × (read_csv text ≡ header_row ∷ row web ∷ [])
unfolding write_csv write_csv_lines write
read_csv-write_csv_example = read_csv-write_csv (web ∷ []) empty_file (web-IsPlain, tt) refl
