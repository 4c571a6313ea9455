-- ===== src/Scanner/Rotate/Examples.antt =====
-- Tests of `RotateScan`, and its theorems at a concrete scan.
use route_fork.Base.{
  ℕ, zero, suc, ◌+◌, ◌*◌, ◌≡◌, refl, false, none, some, List, [], ◌∷◌, map, arith, length,
  get_elem?,
}
use route_fork.Base.Int.{pos}
use route_fork.Text.{codes, contains, to_lower}
use route_fork.Text.Decimal.{itoa}
use route_fork.Proxy.{Proxy, new_proxy, address}
use route_fork.Proxy.Errors.{is_proxy_error, is_proxy_dead}
use route_fork.Proxy.Dedupe.{Distinct}
use route_fork.Scanner.Throttle.{ready}
use route_fork.Scanner.Quorum.{quorum_unconfirmed, quorum_unreachable, decide_quorum}
use route_fork.Scanner.Batch.{
  Shared, Dialed, connected, failed, fill, top_up, mark_failed, mark_dial, mark_dials, vote_of,
}
use route_fork.Scanner.ScanPort.{
  PortOutcome, empty_tally, count_votes, is_wanted, collect, batch_of, dial_batch, scan_round,
  scan_loop, scan_job, outcome_of, scan_port,
}
use route_fork.Scanner.Rotate.{
  RotateConfig, Schedule, clamp_quorum, clamp_retries, scan_hosts, grid, job_env, run_jobs,
  rotate_scan, with_ports,
}
use route_fork.Scanner.Rotate.Jobs.{AllFrom, IsBacked, rotate_scan-IsBacked}
use route_fork.Scanner.Rotate.Slots.{IsFor, target_only, rotate_scan-Matches}
use route_fork.Scanner.Rotate.Dead.{marks, rests, addresses, rotate_scan-Distinct}

abbrev pool_of_two : List Proxy
unfolding new_proxy
pool_of_two =
    new_proxy (codes "a") 1 (codes "socks5") [] []
    ∷ new_proxy (codes "b") 2 (codes "socks5") [] []
    ∷ []

abbrev config : RotateConfig
config = record {
  target = codes "t";
  hosts = [];
  ports = 22 ∷ 80 ∷ [];
  quorum = pos 2;
  max_proxy_retries = pos 0;
  throttle = none;
  label_hook = none;
}

-- Port 22 is open by every proxy; the second job sees the first proxy dead, and another job marks the
-- second proxy meanwhile.
abbrev answers : ℕ → ℕ → Proxy → Dialed
answers zero k p = connected (codes "ssh") [] []
answers (suc i) k p = failed (codes "no acceptable auth")

abbrev mark_second : Shared → Shared
unfolding new_proxy
mark_second s = mark_failed (new_proxy (codes "b") 2 (codes "socks5") [] []) s

abbrev schedule : Schedule
schedule = record {
  dial = answers;
  now = λ i k. k;
  others = λ i k s. mark_second s;
  stopped_at = λ i. false;
  stopped_before = λ i r. false;
  stopped_after = λ i r. false;
}

verdicts :
    map (λ o. o.verdict) (rotate_scan config pool_of_two schedule).0
    ≡ quorum_unconfirmed ∷ quorum_unreachable ∷ []
unfolding pool_of_two rotate_scan run_jobs grid with_ports scan_hosts job_env clamp_quorum
    clamp_retries scan_port scan_job scan_loop scan_round is_wanted collect batch_of dial_batch fill
    top_up ready mark_failed mark_dial mark_dials count_votes vote_of empty_tally outcome_of
    decide_quorum is_proxy_error is_proxy_dead contains to_lower address itoa
verdicts = refl

dead_once :
    addresses (rotate_scan config pool_of_two schedule).1.dead ≡ codes "b:2" ∷ codes "a:1" ∷ []
unfolding pool_of_two rotate_scan run_jobs grid with_ports scan_hosts job_env clamp_quorum
    clamp_retries scan_port scan_job scan_loop scan_round is_wanted collect batch_of dial_batch fill
    top_up ready mark_failed mark_dial mark_dials count_votes vote_of empty_tally outcome_of
    decide_quorum is_proxy_error is_proxy_dead contains to_lower address itoa
dead_once = refl

rotate_scan-IsBacked_example :
    AllFrom (IsBacked config pool_of_two schedule) 0 (rotate_scan config pool_of_two schedule).0
rotate_scan-IsBacked_example = rotate_scan-IsBacked config pool_of_two schedule

rotate_scan-Matches_example :
    (length (rotate_scan config pool_of_two schedule).0 ≡ 1 * 2)
    × ((o : PortOutcome) × (get_elem? (rotate_scan config pool_of_two schedule).0 (0 * 2 + 1)
          ≡ some o)
        × IsFor config pool_of_two schedule (0 * 2 + 1) o (codes "t", 80))
unfolding pool_of_two
rotate_scan-Matches_example =
    rotate_scan-Matches config pool_of_two schedule (codes "t" ∷ []) 0 1 (codes "t") 80
      (target_only refl (λ e. cc)) (omega arith) refl refl

rotate_scan-Distinct_example : Distinct (addresses (rotate_scan config pool_of_two schedule).1.dead)
unfolding mark_failed mark_second
rotate_scan-Distinct_example =
    rotate_scan-Distinct config pool_of_two schedule (λ i k s. marks _ rests)
