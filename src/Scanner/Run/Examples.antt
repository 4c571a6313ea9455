-- ===== src/Scanner/Run/Examples.antt =====
-- A test of `RunScan`, and its theorem at a concrete request.
use route_fork.Base.{◌≡◌, refl, false, none, some, List, [], ◌∷◌, leb, if◌then◌else◌}
use route_fork.Base.Int.{pos}
use route_fork.Base.Result.{err}
use route_fork.Text.{codes, contains, split, split_n}
use route_fork.Net.Ip.{octet, parse_ipv4}
use route_fork.Proxy.{Proxy, new_proxy}
use route_fork.Scanner.Throttle.{ready}
use route_fork.Scanner.Quorum.{decide_quorum, is_open}
use route_fork.Scanner.Batch.{connected, fill, top_up, mark_dials, vote_of, label}
use route_fork.Scanner.ScanPort.{
  empty_tally, count_votes, is_wanted, collect, batch_of, dial_batch, scan_round, scan_loop,
  scan_job, outcome_of, scan_port,
}
use route_fork.Scanner.Rotate.{
  clamp_quorum, clamp_retries, scan_hosts, grid, job_env, run_jobs, rotate_scan, with_ports,
}
use route_fork.Scanner.Services.{port_service, named}
use route_fork.Scanner.Expand.{
  invalid_cidr, parse_mask, parse_cidr4, is_ipv6, expand_cidr, expand_target,
}
use route_fork.Scanner.Run.{
  HostResult, Scanned, ScanRequest, World, finding_of, findings_of, scan_config, scan_hosts_of,
  scan_target, scan_targets, run_scan,
}
use route_fork.Scanner.Run.Reports.{Reports, run_scan-Reports}

abbrev two_proxies : List Proxy
unfolding new_proxy
two_proxies =
    new_proxy (codes "a") 1 (codes "socks5") [] []
    ∷ new_proxy (codes "b") 2 (codes "socks5") [] []
    ∷ []

abbrev request : ScanRequest
request = record {
  targets = codes "t" ∷ codes "1.2.3.4/33" ∷ codes "u" ∷ [];
  ports = 22 ∷ [];
  quorum = pos 2;
  throttle = none;
  label = some (λ p. p.host);
  shuffle = none;
}

-- Every dial connects; before the third target the pool has run empty.
abbrev world : World
world = record {
  get_pool = λ k. if leb 2 k then [] else two_proxies;
  stopped = λ k. false;
  schedule = λ k. record {
    dial = λ i j p. connected [] [] (codes "hello");
    now = λ i j. j;
    others = λ i j s. s;
    stopped_at = λ i. false;
    stopped_before = λ i r. false;
    stopped_after = λ i r. false;
  };
  rounds = 5;
  expand6 = λ t. err (invalid_cidr t);
}

abbrev report : List HostResult
report =
    record {
      target = codes "t";
      findings =
          record {
            host = codes "t";
            port = 22;
            proto = codes "tcp";
            service = codes "ssh";
            version = [];
            banner = codes "hello";
            primary = codes "a";
            proxies = codes "a" ∷ codes "b" ∷ [];
          }
          ∷ [];
    }
    ∷ record { target = codes "1.2.3.4/33"; findings = [] }
    ∷ []

run_test : run_scan request world ≡ some (record { results = report; dead = [] })
unfolding two_proxies run_scan scan_targets scan_target scan_hosts_of findings_of finding_of
    scan_config expand_target contains expand_cidr split split_n is_ipv6 parse_cidr4 parse_ipv4
    octet parse_mask is_open port_service named rotate_scan run_jobs grid with_ports scan_hosts
    job_env clamp_quorum clamp_retries scan_port scan_job scan_loop scan_round is_wanted collect
    batch_of dial_batch fill top_up ready mark_dials count_votes vote_of empty_tally outcome_of
    decide_quorum label
run_test = refl

run_scan-Reports_example :
    (s : Scanned) × (run_scan request world ≡ some s)
    × Reports request world 0 request.targets s.results
unfolding expand_target contains expand_cidr split split_n is_ipv6 parse_cidr4 parse_ipv4 octet
    parse_mask
run_scan-Reports_example = run_scan-Reports request world ((_, refl), ((_, refl), ((_, refl), tt)))
