-- ===== src/Nmap/Reading.antt =====
-- What cli/flat.go makes of the lines that nmap prints.
use route_fork.Base.{
  ◌≡◌, refl, sym, ap, ◌∙◌, subst, false, some, List, [], ◌∷◌, ◌++◌, map, append-nil, append_assoc,
  All,
}
use route_fork.Text.{Text, contains}
use route_fork.Text.Decimal.{atoi-itoa}
use route_fork.Cli.Output.{ScanResult}
use route_fork.Nmap.{
  report_text, host_after, FlatRun, flat_result, flat_line, flat_lines, exec_flat_nmap,
}
use route_fork.Nmap.Lines.{
  PortLine, IsPortLine, port_line, proto_of, detail_of, open_at-port_line, has_open_of-open_at,
  match_detail-port_line, trim_space-port_line,
}
use route_fork.Nmap.Headings.{
  Heading, IsHeading, heading_line, report_host-heading_line, has_open-heading_line,
  report_host-none,
}

-- What nmap reports on a host.
pub record HostReport : Type 0 where
  pub heading : Heading
  pub ports : List PortLine

unfoldable pub print_ports : List PortLine → List Text
print_ports [] = []
print_ports (p ∷ ports) = port_line p ∷ print_ports ports

unfoldable pub print_reports : List HostReport → List Text
unfolding print_ports
print_reports [] = []
print_reports (h ∷ reports) =
    heading_line h.heading ∷ (print_ports h.ports ++ print_reports reports)

-- The result of a port of a host.
abbrev pub result_of : Text → Text → PortLine → ScanResult
result_of proxy_uri host p = record {
  host = host;
  port = p.number;
  proto = proto_of p;
  service = p.service;
  version = p.version;
  banner = [];
  proxy = proxy_uri;
}

unfoldable pub results_of : Text → List HostReport → List ScanResult
results_of proxy_uri [] = []
results_of proxy_uri (h ∷ reports) =
    map (result_of proxy_uri h.heading.host) h.ports ++ results_of proxy_uri reports

-- No line of a port has the words that begin a report.
abbrev pub IsPort : PortLine → Type 0
IsPort p = IsPortLine p × (contains (port_line p) report_text ≡ false)

abbrev pub IsReport : HostReport → Type 0
IsReport h = IsHeading h.heading × All IsPort h.ports

module _ (proxy_uri : Text) where
  flat_lines-append :
      (a b : List Text) (r : FlatRun)
      → flat_lines proxy_uri (a ++ b) r ≡ flat_lines proxy_uri b (flat_lines proxy_uri a r)
  unfolding flat_lines
  flat_lines-append [] b r = refl
  flat_lines-append (l ∷ a) b r = flat_lines-append a b (flat_line proxy_uri l r)

  flat_result-detail :
      (host : Text) (p : PortLine)
      → IsPortLine p
      → flat_result proxy_uri host (some (detail_of p)) ≡ result_of proxy_uri host p
  unfolding flat_result
  flat_result-detail host p h = rw (atoi-itoa p.number h.fits) refl

  -- A line leaves this host, and adds these results.
  record Adds (r : FlatRun) (host : Text) (more : List ScanResult) (r' : FlatRun) : Type 0 where
    host_kept : r'.current_host ≡ host
    added : r'.results ≡ r.results ++ more

  port_line-Adds :
      (p : PortLine) (r : FlatRun)
      → IsPort p
      → Adds r r.current_host
          (result_of proxy_uri r.current_host p ∷ [])
          (flat_line proxy_uri (port_line p) r)
  unfolding flat_line
  port_line-Adds p r (h, silent) =
      let same = report_host-none (port_line p) silent in
      let is_open = has_open_of-open_at (port_line p) (open_at-port_line p h) in
      record {
        host_kept = rw (host_after, same) refl;
        added =
            rw
              (
                host_after,
                same,
                is_open,
                trim_space-port_line p h,
                match_detail-port_line p h,
                flat_result-detail r.current_host p h,
              )
              refl;
      }

  heading_line-Adds :
      (h : Heading) (r : FlatRun)
      → IsHeading h
      → Adds r h.host [] (flat_line proxy_uri (heading_line h) r)
  unfolding flat_line
  heading_line-Adds h r k = record {
    host_kept = rw (host_after, report_host-heading_line h k) refl;
    added = rw (has_open-heading_line h k) (sym (append-nil r.results));
  }

  Adds-trans :
      {r s t : FlatRun} {host host' : Text} {a b : List ScanResult}
      → Adds r host a s
      → Adds s host' b t
      → Adds r host' (a ++ b) t
  Adds-trans {r = r} {a = a} {b = b} x y = record {
    host_kept = y.host_kept;
    added = y.added ∙ ap (λ l. l ++ b) x.added ∙ append_assoc r.results a b;
  }

  print_ports-Adds :
      (ports : List PortLine) (host : Text) (r : FlatRun)
      → r.current_host ≡ host
      → All IsPort ports
      → Adds r host
          (map (result_of proxy_uri host) ports)
          (flat_lines proxy_uri (print_ports ports) r)
  unfolding flat_lines print_ports
  print_ports-Adds [] host r e h = record { host_kept = e; added = sym (append-nil r.results) }
  print_ports-Adds (p ∷ ports) host r e h =
      let first =
        subst (λ x. Adds r x (result_of proxy_uri x p ∷ []) (flat_line proxy_uri (port_line p) r)) e
          (port_line-Adds p r h.0) in
      Adds-trans first
        (print_ports-Adds ports host (flat_line proxy_uri (port_line p) r) first.host_kept h.1)

  print_reports-results :
      (reports : List HostReport) (r : FlatRun)
      → All IsReport reports
      → (flat_lines proxy_uri (print_reports reports) r).results
        ≡ r.results ++ results_of proxy_uri reports
  unfolding flat_lines print_reports results_of
  print_reports-results [] r h = sym (append-nil r.results)
  print_reports-results (x ∷ reports) r h =
      let r' = flat_line proxy_uri (heading_line x.heading) r in
      let head = heading_line-Adds x.heading r h.0.0 in
      let ports = print_ports-Adds x.ports x.heading.host r' head.host_kept h.0.1 in
      let both = Adds-trans head ports in
      ap (λ s. s.results) (flat_lines-append (print_ports x.ports) (print_reports reports) r')
      ∙ print_reports-results reports (flat_lines proxy_uri (print_ports x.ports) r') h.1
      ∙ ap (λ l. l ++ results_of proxy_uri reports) both.added
      ∙ append_assoc r.results (map (result_of proxy_uri x.heading.host) x.ports)
          (results_of proxy_uri reports)

  -- What nmap prints of the open ports of hosts is read back completely and in order, each port
  -- with the host of the last heading before it: for hosts that are words on lines without a
  -- slash, port numbers below 2^63, services that are words, and versions that are empty or neither
  -- begin nor end with white space, if no line of a port has the words that begin a heading.
  pub exec_flat_nmap-print_reports :
      (reports : List HostReport)
      → All IsReport reports
      → (exec_flat_nmap (some (print_reports reports)) proxy_uri).0 ≡ results_of proxy_uri reports
  unfolding exec_flat_nmap
  exec_flat_nmap-print_reports reports h = print_reports-results reports _ h
