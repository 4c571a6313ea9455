-- ===== src/Scanner/Rotate/Slots.antt =====
-- Which outcome of `RotateScan` is for which host and port.
use route_fork.Base.{
  ℕ, zero, suc, ◌+◌, ◌*◌, ◌≤◌, ◌<◌, ◌≡◌, refl, ap, ◌∙◌, subst, ◌≢◌, ◌⊎◌, inl, inr, true, false,
  ◌||◌, none, some, List, [], ◌∷◌, map, arith, ◌==◌, if◌then◌else◌, Bool-cases, length, get_elem?,
}
use route_fork.Text.{Text, ◌==ₜ◌}
use route_fork.Net.Server.{==ₜ_nil}
use route_fork.Proxy.{Proxy}
use route_fork.Scanner.Batch.{Shared}
use route_fork.Scanner.Rotate.Grid.{length-grid, grid-at}
use route_fork.Scanner.ScanPort.{PortOutcome, outcome_of, scan_port}
use route_fork.Scanner.Rotate.{
  RotateConfig, Schedule, scan_hosts, grid, job_env, zero_outcome, run_jobs, rotate_scan,
}

module _ (cfg : RotateConfig) (pool : List Proxy) (w : Schedule) where
  -- The i-th outcome belongs to its job, or is the zero value of a slot that was never filled since
  -- the context was done when this job or one before it would have started.
  abbrev pub IsFor : ℕ → PortOutcome → Text × ℕ → Type 0
  IsFor i o (host, port) =
      ((o.host ≡ host) × (o.port ≡ port))
      ⊎ ((o ≡ zero_outcome) × ((k : ℕ) × (k ≤ i) × (w.stopped_at k ≡ true)))

  abbrev pub Matches : ℕ → List PortOutcome → List (Text × ℕ) → Type 0
  Matches i [] [] = Unit
  Matches i [] (j ∷ jobs) = ⊥
  Matches i (o ∷ os) [] = ⊥
  Matches i (o ∷ os) (j ∷ jobs) = IsFor i o j × Matches (i + 1) os jobs

  zeros-Matches :
      (jobs : List (Text × ℕ)) (k i : ℕ)
      → k ≤ i
      → w.stopped_at k ≡ true
      → Matches i (map (λ j. zero_outcome) jobs) jobs
  zeros-Matches [] k i h e = tt
  zeros-Matches ((host, port) ∷ jobs) k i h e =
      (inr (refl, (k, h, e)), zeros-Matches jobs k (i + 1) (omega arith) e)

  run_jobs-Matches :
      (jobs : List (Text × ℕ)) (i : ℕ) (s : Shared)
      → Matches i (run_jobs cfg pool w jobs i s).0 jobs
  unfolding run_jobs
  run_jobs-Matches [] i s = tt
  run_jobs-Matches ((host, port) ∷ jobs) i s = elim (Bool-cases (w.stopped_at i)) [
    | inl e ↦ rw e (zeros-Matches ((host, port) ∷ jobs) i i (omega arith) e)
    | inr e ↦
        let env = job_env cfg pool w i in
        rw e (
          inl (unfold scan_port outcome_of in (refl, refl)),
          run_jobs-Matches jobs (i + 1) (scan_port env host port s).1,
        )
  ]

  pub rotate_scan-Slots :
      0 < length pool
      → 0 < length cfg.ports
      → Matches 0 (rotate_scan cfg pool w).0 (grid (scan_hosts cfg) cfg.ports)
  unfolding rotate_scan
  rotate_scan-Slots h k =
      let e : (length pool == 0 || length cfg.ports == 0) ≡ false = ground arith in
      rw e (run_jobs-Matches (grid (scan_hosts cfg) cfg.ports) 0 _)

  Matches-at :
      (i : ℕ) (os : List PortOutcome) (jobs : List (Text × ℕ)) (n : ℕ) (j : Text × ℕ)
      → Matches i os jobs
      → get_elem? jobs n ≡ some j
      → (o : PortOutcome) × (get_elem? os n ≡ some o) × IsFor (i + n) o j
  Matches-at i [] [] n j m h = absurd (missing h)
    where
      missing : none ≡ some j → ⊥
      missing e = cc
  Matches-at i [] (x ∷ jobs) n j m h = absurd m
  Matches-at i (o ∷ os) [] n j m h = absurd m
  Matches-at i (o ∷ os) (x ∷ jobs) zero j m h =
      (o, refl, subst (λ k. IsFor k o j) (omega arith) (subst (IsFor i o) (same h) m.0))
    where
      same : some x ≡ some j → x ≡ j
      same e = cc
  Matches-at i (o ∷ os) (x ∷ jobs) (suc n) j m h =
      let (p, e, f) = Matches-at (i + 1) os jobs n j m.1 h in
      (p, e, subst (λ k. IsFor k p j) (omega arith) f)

  length-Matches :
      (i : ℕ) (os : List PortOutcome) (jobs : List (Text × ℕ))
      → Matches i os jobs
      → length os ≡ length jobs
  length-Matches i [] [] m = refl
  length-Matches i [] (x ∷ jobs) m = absurd m
  length-Matches i (o ∷ os) [] m = absurd m
  length-Matches i (o ∷ os) (x ∷ jobs) m = ap suc (length-Matches (i + 1) os jobs m.1)

-- The hosts of a scan: those of the list, or the target alone if the list is empty.
pub data ScansHosts (cfg : RotateConfig) : List Text → Type 0 where
  listed_hosts : cfg.hosts ≢ [] → ScansHosts cfg cfg.hosts
  target_only : cfg.hosts ≡ [] → cfg.target ≢ [] → ScansHosts cfg (cfg.target ∷ [])
  no_hosts : cfg.hosts ≡ [] → cfg.target ≡ [] → ScansHosts cfg []

scan_hosts-ScansHosts :
    (cfg : RotateConfig) (hosts : List Text) → ScansHosts cfg hosts → scan_hosts cfg ≡ hosts
unfolding scan_hosts
scan_hosts-ScansHosts cfg _ (listed_hosts h) = by_hosts cfg.hosts h
  where
    by_hosts :
        (hs : List Text)
        → hs ≢ []
        → (elim hs [ h ∷ hs ↦ h ∷ hs | [] ↦ if cfg.target ==ₜ [] then [] else cfg.target ∷ [] ])
          ≡ hs
    by_hosts [] h = absurd (h refl)
    by_hosts (x ∷ hs) h = refl
scan_hosts-ScansHosts cfg _ (target_only e h) = rw (e, ==ₜ_nil cfg.target h) refl
scan_hosts-ScansHosts cfg _ (no_hosts e k) = rw (e, k) refl

-- A scan of hosts and ports through a pool with proxies has as many outcomes as there are pairs of
-- them, and that of the a-th host and the b-th port stands at its place, in the order of the hosts
-- and, within one, of the ports: it has its host and port, or is the zero value, which stands there
-- only if the scan was stopped before its job.
pub rotate_scan-Matches :
    (cfg : RotateConfig) (pool : List Proxy) (w : Schedule) (hosts : List Text) (a b : ℕ)
    (host : Text) (port : ℕ)
    → ScansHosts cfg hosts
    → 0 < length pool
    → get_elem? hosts a ≡ some host
    → get_elem? cfg.ports b ≡ some port
    → (length (rotate_scan cfg pool w).0 ≡ length hosts * length cfg.ports)
      × ((o : PortOutcome) × (get_elem? (rotate_scan cfg pool w).0 (a * length cfg.ports + b)
            ≡ some o)
          × IsFor cfg pool w (a * length cfg.ports + b) o (host, port))
rotate_scan-Matches cfg pool w hosts a b host port s h at_a at_b =
    let same = scan_hosts-ScansHosts cfg hosts s in
    let some_port : 0 < length cfg.ports = not_empty cfg.ports at_b in
    let m =
      subst (λ hs. Matches cfg pool w 0 (rotate_scan cfg pool w).0 (grid hs cfg.ports)) same
        (rotate_scan-Slots cfg pool w h some_port) in
    let n = a * length cfg.ports + b in
    let (o, e, f) =
      Matches-at cfg pool w 0 (rotate_scan cfg pool w).0 (grid hosts cfg.ports) n (host, port) m
        (grid-at hosts cfg.ports a b host port at_a at_b) in
    (
      length-Matches cfg pool w 0 (rotate_scan cfg pool w).0 (grid hosts cfg.ports) m
          ∙ length-grid hosts cfg.ports,
      (o, e, subst (λ k. IsFor cfg pool w k o (host, port)) (omega arith) f),
    )
  where
    not_empty : (ports : List ℕ) → get_elem? ports b ≡ some port → 0 < length ports
    not_empty [] e = absurd (missing e)
      where
        missing : none ≡ some port → ⊥
        missing e = cc
    not_empty (p ∷ ports) e = omega arith
