-- ===== src/Scanner/Run/Deaths.antt =====
-- Why a scan takes a proxy for dead.
use route_fork.Base.{
  ℕ, ◌+◌, ◌≡◌, inl, inr, true, Option, none, some, List, [], ◌∷◌, ◌==◌, Bool-cases, length, All,
  All-append, All-mono,
}
use route_fork.Base.Result.{ok, err}
use route_fork.Text.{Text}
use route_fork.Proxy.{Proxy, address}
use route_fork.Proxy.Errors.{is_proxy_dead}
use route_fork.Scanner.Throttle.{Throttle}
use route_fork.Scanner.Batch.{Shared, failed, is_failed, mark_failed}
use route_fork.Scanner.Rotate.{RotateConfig, Schedule, job_env, rotate_scan}
use route_fork.Scanner.Rotate.Invariant.{IsInvariant, rotate_scan-P}
use route_fork.Scanner.Expand.{Expanded, expand_target}
use route_fork.Scanner.Run.{
  ScanRequest, World, Scanned, add_target, ordered_pool, scan_config, scan_hosts_of, scan_target,
  scan_targets, run_scan,
}

-- Some job's dial through the proxy failed as on a dead one.
pub record Killed (w : Schedule) (p : Proxy) : Type 0 where
  pub job : ℕ
  pub place : ℕ
  pub error : Text
  pub failure : w.dial job place p ≡ failed error
  pub deadly : is_proxy_dead (address p) (some error) ≡ true

abbrev pub OnlyKilled : Schedule → Shared → Type 0
OnlyKilled w s = All (Killed w) s.dead

-- The other jobs report no other proxies than these.
abbrev pub KillsOnly : Schedule → Type 0
KillsOnly w = (i k : ℕ) (s : Shared) → OnlyKilled w s → OnlyKilled w (w.others i k s)

module _ (cfg : RotateConfig) (pool : List Proxy) (w : Schedule) (kills : KillsOnly w) where
  mark_failed-OnlyKilled :
      (p : Proxy) (s : Shared) → Killed w p → OnlyKilled w s → OnlyKilled w (mark_failed p s)
  unfolding mark_failed
  mark_failed-OnlyKilled p s h v = elim (Bool-cases (is_failed s p)) [
    | inl t ↦ rw t v
    | inr t ↦ rw t (All-append (Killed w) s.dead (p ∷ []) v (h, tt))
  ]

  OnlyKilled-IsInvariant : (i : ℕ) → IsInvariant (job_env cfg pool w i) (OnlyKilled w)
  unfolding job_env
  OnlyKilled-IsInvariant i = record {
    paced = λ u s v. v;
    marked = λ k p e s h t v.
        mark_failed-OnlyKilled p s
          (record { job = i; place = k; error = e; failure = h; deadly = t }) v;
    others = λ k s v. kills i k s v;
  }

  rotate_scan-OnlyKilled : OnlyKilled w (rotate_scan cfg pool w).1
  rotate_scan-OnlyKilled = rotate_scan-P cfg pool w (OnlyKilled w) OnlyKilled-IsInvariant tt

-- A proxy that the scan of some target took for dead.
abbrev pub KilledIn : World → Proxy → Type 0
KilledIn w p = (k : ℕ) × Killed (w.schedule k) p

module _ (req : ScanRequest) (w : World) (kills : (k : ℕ) → KillsOnly (w.schedule k)) where
  scan_target-KilledIn :
      (pool : List Proxy) (k : ℕ) (e : Expanded) (throttle : Option Throttle)
      → All (KilledIn w) (scan_target req pool (w.schedule k) e throttle).1.dead
  unfolding scan_target scan_hosts_of
  scan_target-KilledIn pool k (err e) throttle = tt
  scan_target-KilledIn pool k (ok hosts) throttle =
      let cfg = scan_config req (length pool) hosts throttle in
      let s = (rotate_scan cfg (ordered_pool req pool) (w.schedule k)).1 in
      All-mono (λ p h. (k, h)) s.dead
        (rotate_scan-OnlyKilled cfg (ordered_pool req pool) (w.schedule k) (kills k))

  abbrev pub AllKilled : Option Scanned → Type 0
  AllKilled none = Unit
  AllKilled (some s) = All (KilledIn w) s.dead

  scan_targets-AllKilled :
      (targets : List Text) (k : ℕ) (throttle : Option Throttle)
      → AllKilled (scan_targets req w targets k throttle)
  unfolding scan_targets
  scan_targets-AllKilled [] k throttle = tt
  scan_targets-AllKilled (target ∷ targets) k throttle = elim (Bool-cases (w.stopped k)) [
    | inl s ↦ rw s tt
    | inr s ↦ (elim (Bool-cases (length (w.get_pool k) == 0)) [
      | inl z ↦ rw (s, z) (scan_targets-AllKilled targets (k + 1) throttle)
      | inr z ↦
          rw (s, z)
            (by_hosts (expand_target w.rounds w.expand6 target)
              (λ t. scan_targets-AllKilled targets (k + 1) t))
    ])
  ]
    where
      by_hosts :
          (o : Option Expanded)
          → ((t : Option Throttle) → AllKilled (scan_targets req w targets (k + 1) t))
          → AllKilled (elim o [
            | none ↦ none
            | some hosts ↦
                let done = scan_target req (w.get_pool k) (w.schedule k) hosts throttle in
                (elim (scan_targets req w targets (k + 1) done.1.throttle) [
                  | none ↦ none
                  | some rest ↦ some (add_target target done rest)
                ])
          ])
      by_hosts none ih = tt
      by_hosts (some hosts) ih =
          let done = scan_target req (w.get_pool k) (w.schedule k) hosts throttle in
          by_rest (scan_targets req w targets (k + 1) done.1.throttle) (ih done.1.throttle)
        where
          by_rest :
              (o : Option Scanned)
              → AllKilled o
              → AllKilled (elim o [
                | none ↦ none
                | some rest ↦ some (
                    add_target target
                      (scan_target req (w.get_pool k) (w.schedule k) hosts throttle)
                      rest)
              ])
          by_rest none h = tt
          by_rest (some rest) h =
              All-append (KilledIn w) _ rest.dead
                (scan_target-KilledIn (w.get_pool k) k hosts throttle) h

  pub run_scan-AllKilled : AllKilled (run_scan req w)
  unfolding run_scan
  run_scan-AllKilled = scan_targets-AllKilled req.targets 0 req.throttle
