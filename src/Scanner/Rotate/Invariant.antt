-- ===== src/Scanner/Rotate/Invariant.antt =====
-- Invariants of what the jobs of `RotateScan` share.
use route_fork.Base.{
  ℕ, zero, suc, ◌+◌, ◌%◌, ◌≡◌, refl, inl, inr, true, not, ◌&&◌, ◌||◌, Option, some, List, [], ◌∷◌,
  arith, leb, ◌==◌, if◌then◌else◌, Bool-cases, Option-cases, length, get_elem?,
}
use route_fork.Text.{Text}
use route_fork.Proxy.{Proxy, address}
use route_fork.Proxy.Errors.{is_proxy_error, is_proxy_dead}
use route_fork.Scanner.Throttle.{Throttle, ready}
use route_fork.Scanner.Batch.{
  Shared, Env, Candidate, Filling, Dialed, connected, failed, cancelled, pool_size, is_failed,
  mark_failed, sort_candidate, examine, fill, mark_dial, mark_dials,
}
use route_fork.Scanner.Batch.Places.{examine-none, examine-some}
use route_fork.Scanner.ScanPort.{
  Job, Step, leave, go_on, is_wanted, collect, batch_of, dial_batch, scan_round, scan_loop,
  scan_job, scan_port, empty_tally,
}
use route_fork.Scanner.Rotate.{
  RotateConfig, Schedule, job_env, grid, scan_hosts, run_jobs, rotate_scan,
}

-- What a predicate on the shared state is kept by: the throttle's uses, the marks of proxies on
-- which a dial of this job failed as on a dead one, and the other jobs.
pub record IsInvariant (env : Env) (P : Shared → Type 0) : Type 0 where
  pub paced : (u : Option Throttle) (s : Shared) → P s → P (record s { throttle = u })
  pub marked :
      (k : ℕ) (p : Proxy) (e : Text) (s : Shared)
      → env.dial k p ≡ failed e
      → is_proxy_dead (address p) (some e) ≡ true
      → P s
      → P (mark_failed p s)
  pub others : (k : ℕ) (s : Shared) → P s → P (env.others k s)

module _ (env : Env) (P : Shared → Type 0) (inv : IsInvariant env P) where
  open inv use {paced, marked, others}

  mark_dial-P : (c : Candidate) (s : Shared) → P s → P (mark_dial env c s)
  unfolding mark_dial
  mark_dial-P (k, p) s v = by_dial (env.dial k p) refl
    where
      by_dial :
          (d : Dialed)
          → env.dial k p ≡ d
          → P (elim d [
            | failed e ↦
                if is_proxy_error (address p) (some e) && is_proxy_dead (address p) (some e)
                then mark_failed p s
                else s
            | _ ↦ s
          ])
      by_dial (connected a b c) h = v
      by_dial cancelled h = v
      by_dial (failed e) h =
          elim (Bool-cases
            (is_proxy_error (address p) (some e) && is_proxy_dead (address p) (some e))) [
              | inl t ↦ rw t (marked k p e s h (ground (arith, t)) v)
              | inr t ↦ rw t v
            ]

  mark_dials-P : (cs : List Candidate) (s : Shared) → P s → P (mark_dials env cs s)
  unfolding mark_dials
  mark_dials-P [] s v = v
  mark_dials-P (c ∷ cs) s v = mark_dials-P cs (mark_dial env c s) (mark_dial-P c s v)

  sort_candidate-P :
      (k : ℕ) (p : Proxy) (f : Filling) → P f.shared → P (sort_candidate env k p f).shared
  unfolding sort_candidate
  sort_candidate-P k p f v =
      let s = env.others k f.shared in
      let w = others k f.shared v in
      let u = paced (ready s.throttle (env.now k) (address p)).0 s w in
      elim (Bool-cases (is_failed s p)) [
        | inl t ↦ rw t w
        | inr t ↦ elim (Bool-cases (not (ready s.throttle (env.now k) (address p)).1)) [
          | inl r ↦ rw (t, r) u
          | inr r ↦ rw (t, r) u
        ]
      ]

  examine-P : (f : Filling) → P f.shared → P (examine env f).shared
  examine-P f v =
      elim (Option-cases (get_elem? env.pool ((env.start_idx + f.consumed) % pool_size env))) [
        | inl e ↦ rw (examine-none env f e) v
        | inr (p, e) ↦ rw (examine-some env f p e) (sort_candidate-P f.consumed p f v)
      ]

  fill-P : (n left : ℕ) (f : Filling) → P f.shared → P (fill env n left f).shared
  unfolding fill
  fill-P n zero f v = v
  fill-P n (suc left) f v = elim (Bool-cases (leb n (length f.batch))) [
    | inl t ↦ rw t v
    | inr t ↦ rw t (fill-P n left (examine env f) (examine-P f v))
  ]

  abbrev IsFine : Job → Type 0
  IsFine j = P j.shared

  abbrev Leaves : Step → Type 0
  Leaves (leave j) = P j.shared
  Leaves (go_on j) = P j.shared

  dial_batch-Leaves :
      (r : ℕ) (j : Job) (f : Filling) (cs : List Candidate)
      → P f.shared
      → Leaves (dial_batch env r j f cs)
  unfolding dial_batch
  dial_batch-Leaves r j f [] v = v
  dial_batch-Leaves r j f (c ∷ cs) v =
      let w = mark_dials-P (c ∷ cs) f.shared v in
      elim (Bool-cases (env.stopped_after r)) [ inl e ↦ rw e w | inr e ↦ rw e w ]

  scan_round-Leaves : (r : ℕ) (j : Job) → P j.shared → Leaves (scan_round env r j)
  unfolding scan_round collect
  scan_round-Leaves r j v =
      elim (Bool-cases (not (is_wanted env j.tally j.consumed) || env.stopped_before r)) [
        | inl e ↦ rw e v
        | inr e ↦
            let f = collect env j in
            rw e (dial_batch-Leaves r j f (batch_of env j f) (fill-P _ _ _ v))
      ]

  scan_loop-P : (rounds r : ℕ) (j : Job) → P j.shared → P (scan_loop env rounds r j).shared
  unfolding scan_loop
  scan_loop-P zero r j v = v
  scan_loop-P (suc rounds) r j v =
      resume (scan_round env r j) (scan_round-Leaves r j v)
        (λ j' v'. scan_loop-P rounds (suc r) j' v')
    where
      resume :
          (s : Step)
          → Leaves s
          → ((j' : Job) → IsFine j' → IsFine (scan_loop env rounds (suc r) j'))
          → IsFine (elim s [ leave j' ↦ j' | go_on j' ↦ scan_loop env rounds (suc r) j' ])
      resume (leave j') h ih = h
      resume (go_on j') h ih = ih j' h

  pub scan_port-P :
      (target : Text) (port : ℕ) (s : Shared) → P s → P (scan_port env target port s).1
  unfolding scan_port scan_job
  scan_port-P target port s v =
      scan_loop-P (pool_size env) 0 (record { tally = empty_tally; consumed = 0; shared = s }) v

module _ (cfg : RotateConfig) (pool : List Proxy) (w : Schedule) (P : Shared → Type 0)
    (inv : (i : ℕ) → IsInvariant (job_env cfg pool w i) P) where
  run_jobs-P :
      (jobs : List (Text × ℕ)) (i : ℕ) (s : Shared) → P s → P (run_jobs cfg pool w jobs i s).1
  unfolding run_jobs
  run_jobs-P [] i s v = v
  run_jobs-P ((host, port) ∷ jobs) i s v = elim (Bool-cases (w.stopped_at i)) [
    | inl e ↦ rw e v
    | inr e ↦
        rw e
          (run_jobs-P jobs (i + 1) _ (scan_port-P (job_env cfg pool w i) P (inv i) host port s v))
  ]

  abbrev pub start : Shared
  start = record { failed_set = []; dead = []; throttle = cfg.throttle }

  pub rotate_scan-P : P start → P (rotate_scan cfg pool w).1
  unfolding rotate_scan
  rotate_scan-P v = elim (Bool-cases (length pool == 0 || length cfg.ports == 0)) [
    | inl e ↦ rw e v
    | inr e ↦ rw e (run_jobs-P (grid (scan_hosts cfg) cfg.ports) 0 start v)
  ]
