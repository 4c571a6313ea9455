-- ===== src/Scanner/ScanPort/Examples.antt =====
-- Tests of `scanPort`, and its theorems at concrete jobs.
use route_fork.Base.{ℕ, ◌≤◌, ◌<◌, ◌≡◌, refl, ◌⊎◌, true, false, none, List, [], ◌∷◌, arith}
use route_fork.Text.{codes, contains, to_lower}
use route_fork.Text.Decimal.{itoa}
use route_fork.Proxy.{Proxy, new_proxy, address}
use route_fork.Proxy.Errors.{is_proxy_error}
use route_fork.Scanner.Throttle.{ready}
use route_fork.Scanner.Quorum.{quorum_open, quorum_refuted, decide_quorum}
use route_fork.Scanner.Batch.{
  Env, Candidate, Shared, Dialed, connected, failed, pool_size, fill, top_up, mark_dials, vote_of,
}
use route_fork.Scanner.Batch.Places.{IsPlace}
use route_fork.Scanner.ScanPort.{
  empty_tally, count_votes, is_wanted, collect, batch_of, dial_batch, scan_round, scan_loop,
  scan_job, outcome_of, scan_port,
}
use route_fork.Scanner.ScanPort.Evidence.{refuses}
use route_fork.Scanner.ScanPort.Exit.{scan_job-exhausts}
use route_fork.Scanner.ScanPort.Verdicts.{Backing, scan_port-Backing, scan_port-refuted}

abbrev two_proxies : List Proxy
unfolding new_proxy
two_proxies =
    new_proxy (codes "a") 1 (codes "socks5") [] []
    ∷ new_proxy (codes "b") 2 (codes "socks5") [] []
    ∷ []

abbrev job_with : (ℕ → Proxy → Dialed) → Env
unfolding new_proxy
job_with dial = record {
  pool = two_proxies;
  start_idx = 1;
  quorum = 2;
  max_proxy_retries = 2;
  label_hook = none;
  dial = dial;
  now = λ k. k;
  others = λ k s. s;
  stopped_before = λ r. false;
  stopped_after = λ r. false;
}

abbrev all_connect : ℕ → Proxy → Dialed
all_connect k p = connected (codes "ssh") [] (codes "SSH-2.0")

abbrev all_refused : ℕ → Proxy → Dialed
all_refused k p = failed (codes "connection refused")

abbrev all_silent : ℕ → Proxy → Dialed
all_silent k p = failed (codes "EOF")

abbrev fresh : Shared
fresh = record { failed_set = []; dead = []; throttle = none }

open_verdict : (scan_port (job_with all_connect) (codes "t") 22 fresh).0.verdict ≡ quorum_open
unfolding two_proxies job_with scan_port scan_job scan_loop scan_round is_wanted collect batch_of
    dial_batch fill top_up ready mark_dials count_votes vote_of empty_tally outcome_of decide_quorum
open_verdict = refl

scan_port-Backing_example :
    Backing (job_with all_connect) (scan_port (job_with all_connect) (codes "t") 22 fresh).0
unfolding two_proxies job_with
scan_port-Backing_example =
    scan_port-Backing (job_with all_connect) (codes "t") 22 fresh (omega arith) open_verdict

refuted_verdict : (scan_port (job_with all_refused) (codes "t") 22 fresh).0.verdict ≡ quorum_refuted
unfolding two_proxies job_with scan_port scan_job scan_loop scan_round is_wanted collect batch_of
    dial_batch fill top_up ready mark_dials count_votes vote_of empty_tally outcome_of decide_quorum
    is_proxy_error contains to_lower address itoa
refuted_verdict = refl

scan_port-refuted_example :
    (c : Candidate) × ((c.0 < pool_size (job_with all_refused)) × IsPlace (job_with all_refused) c)
    × (refuses (job_with all_refused) c ≡ true)
unfolding two_proxies job_with
scan_port-refuted_example =
    scan_port-refuted (job_with all_refused) (codes "t") 22 fresh (omega arith) refuted_verdict

silent_tally :
    ((scan_job (job_with all_silent) fresh).tally.refuted ≡ false)
    × ((scan_job (job_with all_silent) fresh).tally.confirmations ≡ 0)
unfolding two_proxies job_with scan_job scan_loop scan_round is_wanted collect batch_of dial_batch
    fill top_up ready mark_dials count_votes vote_of empty_tally is_proxy_error contains to_lower
    address itoa
silent_tally = (refl, refl)

scan_job-exhausts_example :
    (pool_size (job_with all_silent) ≤ (scan_job (job_with all_silent) fresh).consumed)
    ⊎ ((job_with all_silent).max_proxy_retries
        ≤ (scan_job (job_with all_silent) fresh).tally.proxy_errors)
unfolding two_proxies job_with
scan_job-exhausts_example =
    scan_job-exhausts (job_with all_silent) (λ r. refl) (λ r. refl) fresh (silent_tally.0)
      (omega (arith, silent_tally.1))
