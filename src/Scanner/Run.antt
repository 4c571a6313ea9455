-- ===== src/Scanner/Run.antt =====
-- scanner/run.go, but for the lines that it logs. A request's time limits and its concurrency bear
-- on the dials, whose results are arguments of the model.
pub mod Reports
pub mod Deaths
mod Examples
use route_fork.Base.{
  ℕ, zero, suc, ◌+◌, ◌-◌, ◌*◌, ◌/◌, ◌%◌, ◌^◌, ◌≤◌, ◌<◌, ◌≡◌, refl, sym, ap, ◌∙◌, subst, ◌≢◌, ◌↔◌,
  ◌⊎◌, inl, inr, Bool, true, false, not, ◌&&◌, ◌||◌, Option, none, some, List, [], ◌∷◌, ◌++◌, map,
  append-nil, append_assoc, arith, ltb, leb, ◌==◌, if◌then◌else◌, leb→le, not_leb, ==_iff,
  Bool-cases, Option-cases, length, get_elem?, get_or, length-append, get_elem?-lt, take, drop,
  take-drop, length-take, same_front, All, All-append, All-left, All-right, All-mono,
}
use route_fork.Base.Int.{ℤ, pos, negsuc, ltb_ℤ, to_ℕ, negate}
use route_fork.Base.Result.{Result, ok, err}
use route_fork.Text.{
  Text, codes, Lacks, ◌==ₜ◌, is_space, trim_left, trim_space, has_prefix, contains, cons_head,
  split, split_n, join, fields, lower, upper, to_lower, to_upper,
}
use route_fork.Proxy.{Proxy}
use route_fork.Scanner.Quorum.{QuorumVerdict, is_open}
use route_fork.Scanner.Throttle.{Throttle}
use route_fork.Scanner.Batch.{Shared}
use route_fork.Scanner.ScanPort.{PortOutcome}
use route_fork.Scanner.Rotate.{RotateConfig, Schedule, clamp_quorum, rotate_scan}
use route_fork.Scanner.Services.{port_service}
use route_fork.Scanner.Expand.{Expanded, expand_target}

pub record ScanFinding : Type 0 where
  pub host : Text
  pub port : ℕ
  pub proto : Text
  pub service : Text
  pub version : Text
  pub banner : Text
  pub primary : Text
  pub proxies : List Text

pub record HostResult : Type 0 where
  pub target : Text
  pub findings : List ScanFinding

pub record ScanRequest : Type 0 where
  pub targets : List Text
  pub ports : List ℕ
  pub quorum : ℤ
  pub throttle : Option Throttle
  pub label : Option (Proxy → Text)
  pub shuffle : Option (List Proxy → List Proxy)

-- What the surroundings answer at the k-th target: the pool, whether the context is done before it,
-- and how its scan goes; and what `expand_target` is given.
pub record World : Type 0 where
  pub get_pool : ℕ → List Proxy
  pub stopped : ℕ → Bool
  pub schedule : ℕ → Schedule
  pub rounds : ℕ
  pub expand6 : Text → Expanded

abbrev pub or_text : Text → Text → Text
or_text [] other = other
or_text (c ∷ s) other = c ∷ s

abbrev pub first_label : List Text → Text
first_label [] = []
first_label (l ∷ ls) = l

unfoldable pub finding_of : PortOutcome → ScanFinding
finding_of oc = record {
  host = oc.host;
  port = oc.port;
  proto = codes "tcp";
  service = or_text (or_text oc.service (port_service oc.port)) (codes "unknown");
  version = oc.version;
  banner = oc.banner;
  primary = first_label oc.open_labels;
  proxies = oc.open_labels;
}

-- The loop over the outcomes.
unfoldable pub findings_of : List PortOutcome → List ScanFinding
unfolding finding_of
findings_of [] = []
findings_of (oc ∷ outcomes) =
    let findings = findings_of outcomes in
    if not (is_open oc.verdict) then findings else finding_of oc ∷ findings

abbrev pub ordered_pool : ScanRequest → List Proxy → List Proxy
ordered_pool req pool = elim req.shuffle [ none ↦ pool | some shuffle ↦ shuffle pool ]

unfoldable pub scan_config : ScanRequest → ℕ → List Text → Option Throttle → RotateConfig
scan_config req size hosts throttle = record {
  target = [];
  hosts = hosts;
  ports = req.ports;
  quorum = pos (clamp_quorum req.quorum size);
  max_proxy_retries = pos 0;
  throttle = throttle;
  label_hook = req.label;
}

-- The findings, and the shared state after the scan: its throttle, and the proxies that were given to
-- the hook `ProxyDead`.
unfoldable pub scan_hosts_of :
    ScanRequest → List Proxy → Schedule → List Text → Option Throttle → List ScanFinding × Shared
unfolding findings_of scan_config
scan_hosts_of req pool w hosts throttle =
    let (outcomes, shared) =
      rotate_scan (scan_config req (length pool) hosts throttle) (ordered_pool req pool) w in
    (findings_of outcomes, shared)

unfoldable pub scan_target :
    ScanRequest → List Proxy → Schedule → Expanded → Option Throttle → List ScanFinding × Shared
unfolding scan_hosts_of
scan_target req pool w (err e) throttle =
    ([], record { failed_set = []; dead = []; throttle = throttle })
scan_target req pool w (ok hosts) throttle = scan_hosts_of req pool w hosts throttle

-- The results, and the proxies that were given to the hook `ProxyDead`.
pub record Scanned : Type 0 where
  pub results : List HostResult
  pub dead : List Proxy

abbrev pub nothing : Scanned
nothing = record { results = []; dead = [] }

abbrev pub add_target : Text → List ScanFinding × Shared → Scanned → Scanned
add_target target (findings, shared) rest = record {
  results = record { target = target; findings = findings } ∷ rest.results;
  dead = shared.dead ++ rest.dead;
}

-- The loop over the targets from the k-th on; it has no result if an expansion does not end.
unfoldable pub scan_targets : ScanRequest → World → List Text → ℕ → Option Throttle → Option Scanned
unfolding scan_target
scan_targets req w [] k throttle = some nothing
scan_targets req w (target ∷ targets) k throttle =
    let pool = w.get_pool k in
    if w.stopped k
    then some nothing
    else if length pool == 0
    then scan_targets req w targets (k + 1) throttle
    else (elim (expand_target w.rounds w.expand6 target) [
      | none ↦ none
      | some hosts ↦
          let done = scan_target req pool (w.schedule k) hosts throttle in
          (elim (scan_targets req w targets (k + 1) done.1.throttle) [
            | none ↦ none
            | some rest ↦ some (add_target target done rest)
          ])
    ])

unfoldable pub run_scan : ScanRequest → World → Option Scanned
unfolding scan_targets
run_scan req w = scan_targets req w req.targets 0 req.throttle
