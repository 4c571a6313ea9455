-- ===== src/Cli/Flat/Examples.antt =====
-- Tests of `RunFlatMode`, and the theorem on its built-in scan at a concrete pool.
use route_fork.Base.{ℕ, zero, suc, ◌≡◌, refl, false, none, some, [], ◌∷◌}
use route_fork.Base.Int.{pos}
use route_fork.Base.Result.{err}
use route_fork.Text.{codes, trim_space, contains, split, to_lower}
use route_fork.Text.Decimal.{itoa, atoi}
use route_fork.Proxy.{Proxy, new_proxy, address, uri}
use route_fork.Proxy.Errors.{is_proxy_error, is_proxy_dead}
use route_fork.Proxy.Parse.{mem_text}
use route_fork.Pool.{Pool, valid_list, set_valid}
use route_fork.Scanner.Ports.{parse_ports, parse_part, parse_parts, add_port}
use route_fork.Scanner.Throttle.{ready}
use route_fork.Scanner.Quorum.{decide_quorum, is_open}
use route_fork.Scanner.Batch.{
  Dialed, connected, failed, fill, top_up, mark_failed, mark_dial, mark_dials, vote_of, label,
}
use route_fork.Scanner.ScanPort.{
  empty_tally, count_votes, is_wanted, collect, batch_of, dial_batch, scan_round, scan_loop,
  scan_job, outcome_of, scan_port,
}
use route_fork.Scanner.Rotate.{
  clamp_quorum, clamp_retries, scan_hosts, grid, job_env, run_jobs, rotate_scan, with_ports,
}
use route_fork.Scanner.Services.{port_service, named}
use route_fork.Scanner.Expand.{invalid_cidr, expand_target}
use route_fork.Scanner.Run.{
  finding_of, findings_of, scan_config, scan_hosts_of, scan_target, scan_targets, run_scan,
}
use route_fork.Cli.Output.{ScanResult}
use route_fork.Cli.Flags.{is_one_of, parse_flat_args, parse_from, flag_of, first_case, act}
use route_fork.Cli.Flat.{
  FlatWorld, Files, no_target, flat_request, flat_world, survivors, prune, result_of, results_of,
  flat_run_builtin, asks_help, run_flat_mode,
}
use route_fork.Cli.Flat.Prune.{Pruned, flat_run_builtin-Pruned}

abbrev broken : Proxy
unfolding new_proxy
broken = new_proxy (codes "a") 1 (codes "socks5") [] []

abbrev working : Proxy
unfolding new_proxy
working = new_proxy (codes "b") 2 (codes "socks5") [] []

abbrev two : Pool
unfolding broken working
two = record { valid = broken ∷ working ∷ []; failed = []; index = 1 }

-- The first proxy of the pool is broken.
abbrev answer : ℕ → Proxy → Dialed
answer zero p = failed (codes "no acceptable auth")
answer (suc k) p = connected [] [] (codes "hello")

abbrev world : FlatWorld
world = record {
  stopped = λ k. false;
  stopped_within = λ k. false;
  schedule = λ k. record {
    dial = λ i. answer;
    now = λ i j. j;
    others = λ i j s. s;
    stopped_at = λ i. false;
    stopped_before = λ i r. false;
    stopped_after = λ i r. false;
  };
  shuffle = λ k ps. ps;
  rounds = 5;
  expand6 = λ t. err (invalid_cidr t);
  proxy_arg = λ k p. err [];
  first_run = λ k cmd. none;
  second_run = λ k cmd. none;
}

abbrev found : ScanResult
found = record {
  host = codes "t";
  port = 22;
  proto = codes "tcp";
  service = codes "ssh";
  version = [];
  banner = codes "hello";
  proxy = codes "socks5://b:2";
}

builtin_test :
    flat_run_builtin world 0 two (codes "t") (codes "22") (pos 0)
    ≡ some (found ∷ [], record { valid = working ∷ []; failed = []; index = 0 })
unfolding broken working two flat_run_builtin flat_request flat_world prune survivors results_of
    result_of valid_list set_valid run_scan scan_targets scan_target scan_hosts_of findings_of
    finding_of scan_config expand_target contains is_open port_service named rotate_scan run_jobs
    grid with_ports scan_hosts job_env clamp_quorum clamp_retries scan_port scan_job scan_loop
    scan_round is_wanted collect batch_of dial_batch fill top_up ready mark_failed mark_dial
    mark_dials count_votes vote_of empty_tally outcome_of decide_quorum is_proxy_error is_proxy_dead
    to_lower address itoa label uri mem_text parse_ports parse_part parse_parts add_port split
    trim_space atoi
builtin_test = refl

abbrev files : Files
files = record {
  read_text = λ f. [];
  find_nmap = λ f. (codes "nmap", false);
  create = λ f. err [];
  stdout = record { segments = []; closing = []; sent = []; writes = [] };
  encode_json = λ r. [];
  encode_xml = λ r. [];
}

no_target_test :
    run_flat_mode {F = ℕ} (λ s. 0) 5 world files (codes "-proxlist" ∷ codes "list.txt" ∷ [])
    ≡ some no_target
unfolding run_flat_mode asks_help is_one_of parse_flat_args parse_from act flag_of first_case
no_target_test = refl

flat_run_builtin-Pruned_example :
    Pruned (world.schedule 0) two (record { valid = working ∷ []; failed = []; index = 0 })
flat_run_builtin-Pruned_example =
    flat_run_builtin-Pruned world 0 two (record { valid = working ∷ []; failed = []; index = 0 })
      (codes "t") (codes "22") (pos 0) (found ∷ []) (λ i k s h. h) builtin_test
