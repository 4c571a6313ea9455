-- ===== src/Scanner/Rotate.antt =====
-- `RotateScan` of scanner/rotate.go. A job runs with an `Env` of its own; what the jobs that run at
-- the same time do to the shared state is in its field `others`, so that one list of jobs, each
-- taking over the shared state of the one before, stands for every interleaving.
pub mod Grid
pub mod Jobs
pub mod Slots
pub mod Invariant
pub mod Dead
mod Examples
use route_fork.Base.{
  ℕ, zero, suc, ◌+◌, ◌-◌, ◌*◌, ◌/◌, ◌%◌, ◌^◌, ◌≤◌, ◌<◌, ◌≡◌, refl, sym, ap, ◌∙◌, subst, ◌≢◌, ◌↔◌,
  ◌⊎◌, inl, inr, Bool, true, false, not, ◌&&◌, ◌||◌, Option, none, some, List, [], ◌∷◌, ◌++◌, map,
  append-nil, append_assoc, arith, ltb, leb, ◌==◌, if◌then◌else◌, leb→le, ==_iff, Bool-cases,
  Option-cases, length, get_elem?, get_or, length-append, get_elem?-lt, All, All-append, All-left,
  All-right, All-mono,
}
use route_fork.Base.Int.{ℤ, pos, negsuc, ltb_ℤ, to_ℕ, negate}
use route_fork.Text.{
  Text, codes, Lacks, ◌==ₜ◌, is_space, trim_left, trim_space, has_prefix, contains, cons_head,
  split, split_n, join, fields, lower, upper, to_lower, to_upper,
}
use route_fork.Proxy.{Proxy}
use route_fork.Scanner.Quorum.{QuorumVerdict, quorum_unreachable}
use route_fork.Scanner.Throttle.{Throttle}
use route_fork.Scanner.Batch.{Shared, Env, Dialed}
use route_fork.Scanner.ScanPort.{PortOutcome, scan_port}

pub record RotateConfig : Type 0 where
  pub target : Text
  pub hosts : List Text
  pub ports : List ℕ
  pub quorum : ℤ
  pub max_proxy_retries : ℤ
  pub throttle : Option Throttle
  pub label_hook : Option (Proxy → Text)

-- What the surroundings answer: the dials, clock readings and interference of the i-th job, and
-- whether the context is done when it would start, and before and after its rounds.
pub record Schedule : Type 0 where
  pub dial : ℕ → ℕ → Proxy → Dialed
  pub now : ℕ → ℕ → ℕ
  pub others : ℕ → ℕ → Shared → Shared
  pub stopped_at : ℕ → Bool
  pub stopped_before : ℕ → ℕ → Bool
  pub stopped_after : ℕ → ℕ → Bool

unfoldable pub clamp_quorum : ℤ → ℕ → ℕ
clamp_quorum quorum size =
    let q = if ltb_ℤ quorum (pos 1) then 1 else to_ℕ quorum in if ltb size q then size else q

unfoldable pub clamp_retries : ℤ → ℕ → ℕ
clamp_retries retries size =
    let r = if not (ltb_ℤ (pos 0) retries) then 10 else to_ℕ retries in
    if ltb size r then size else r

unfoldable pub scan_hosts : RotateConfig → List Text
scan_hosts cfg = elim cfg.hosts [
  | h ∷ hs ↦ h ∷ hs
  | [] ↦ if cfg.target ==ₜ [] then [] else cfg.target ∷ []
]

-- The two loops that number the jobs.
unfoldable pub with_ports : Text → List ℕ → List (Text × ℕ)
with_ports host ports = map (λ p. (host, p)) ports

unfoldable pub grid : List Text → List ℕ → List (Text × ℕ)
unfolding with_ports
grid [] ports = []
grid (host ∷ hosts) ports = with_ports host ports ++ grid hosts ports

unfoldable pub job_env : RotateConfig → List Proxy → Schedule → ℕ → Env
job_env cfg pool w i = record {
  pool = pool;
  start_idx = i % length pool;
  quorum = clamp_quorum cfg.quorum (length pool);
  max_proxy_retries = clamp_retries cfg.max_proxy_retries (length pool);
  label_hook = cfg.label_hook;
  dial = w.dial i;
  now = w.now i;
  others = w.others i;
  stopped_before = w.stopped_before i;
  stopped_after = w.stopped_after i;
}

-- What `make([]PortOutcome, totalJobs)` fills the slots of jobs with that never start.
unfoldable pub zero_outcome : PortOutcome
zero_outcome = record {
  host = [];
  port = 0;
  verdict = quorum_unreachable;
  confirmations = 0;
  quorum = 0;
  open_labels = [];
  banner = [];
  service = [];
  version = [];
  refuted_by = [];
}

-- The loop over the jobs from the i-th on.
unfoldable pub run_jobs :
    RotateConfig → List Proxy → Schedule → List (Text × ℕ) → ℕ → Shared → List PortOutcome × Shared
run_jobs cfg pool w [] i s = ([], s)
run_jobs cfg pool w ((host, port) ∷ jobs) i s =
    let done = scan_port (job_env cfg pool w i) host port s in
    let rest = run_jobs cfg pool w jobs (i + 1) done.1 in
    if w.stopped_at i
    then (map (λ j. zero_outcome) ((host, port) ∷ jobs), s)
    else (done.0 ∷ rest.0, rest.1)

unfoldable pub rotate_scan : RotateConfig → List Proxy → Schedule → List PortOutcome × Shared
unfolding scan_hosts
rotate_scan cfg pool w =
    let start : Shared = record { failed_set = []; dead = []; throttle = cfg.throttle } in
    if length pool == 0 || length cfg.ports == 0
    then ([], start)
    else run_jobs cfg pool w (grid (scan_hosts cfg) cfg.ports) 0 start
