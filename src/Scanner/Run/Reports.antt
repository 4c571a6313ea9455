-- ===== src/Scanner/Run/Reports.antt =====
-- What the report of a scan promises.
use route_fork.Base.{
  ℕ, ◌+◌, ◌<◌, ◌≡◌, refl, sym, ap, ◌∙◌, subst, inl, inr, true, false, ◌||◌, Option, none, some,
  List, [], ◌∷◌, ◌++◌, append_assoc, arith, ◌==◌, if◌then◌else◌, Bool-cases, length, get_elem?,
  length-append, All, All-mono,
}
use route_fork.Base.Result.{ok, err}
use route_fork.Text.{Text, codes, ◌==ₜ◌}
use route_fork.Proxy.{Proxy}
use route_fork.Scanner.Quorum.{
  QuorumVerdict, quorum_open, quorum_refuted, quorum_unconfirmed, quorum_unreachable, is_open,
}
use route_fork.Scanner.Throttle.{Throttle}
use route_fork.Scanner.ScanPort.{PortOutcome}
use route_fork.Base.Int.{pos}
use route_fork.Scanner.Rotate.Grid.{Placed, grid-Placed}
use route_fork.Scanner.Rotate.{
  RotateConfig, Schedule, scan_hosts, grid, clamp_quorum, zero_outcome, rotate_scan,
}
use route_fork.Scanner.Rotate.Jobs.{
  IsBacked, AllFrom, IsRequired, Confirmed, clamp_quorum-IsRequired, rotate_scan-IsBacked,
}
use route_fork.Scanner.Rotate.Slots.{Matches, rotate_scan-Slots}
use route_fork.Scanner.Expand.{Expanded, ExpandError, expand_target}
use route_fork.Scanner.Run.{
  ScanFinding, HostResult, Scanned, nothing, add_target, ScanRequest, World, finding_of,
  findings_of, ordered_pool, scan_config, scan_hosts_of, scan_target, scan_targets, run_scan,
}

-- A finding of a scan: the open outcome of the job of its host and port, which shows the labels of
-- the proxies that confirmed it.
record Found (cfg : RotateConfig) (pool : List Proxy) (w : Schedule) (f : ScanFinding)
    : Type 0 where
  job : ℕ
  proto : f.proto ≡ codes "tcp"
  placed : Placed (scan_hosts cfg) cfg.ports job f.host f.port
  confirmed : Confirmed cfg.quorum cfg.label_hook pool w job f.proxies

get_elem?-middle {ℓ} :
    {A : Type ℓ} (xs : List A) (y : A) (ys : List A) → get_elem? (xs ++ y ∷ ys) (length xs) ≡ some y
get_elem?-middle [] y ys = refl
get_elem?-middle (x ∷ xs) y ys = get_elem?-middle xs y ys

is_open-quorum_open : (v : QuorumVerdict) → is_open v ≡ true → v ≡ quorum_open
unfolding is_open
is_open-quorum_open quorum_open e = refl
is_open-quorum_open quorum_refuted e = cc
is_open-quorum_open quorum_unconfirmed e = cc
is_open-quorum_open quorum_unreachable e = cc

zero-not_open : is_open zero_outcome.verdict ≡ false
unfolding zero_outcome is_open
zero-not_open = refl

true_ne_false : true ≡ false → ⊥
true_ne_false e = cc

module _ (cfg : RotateConfig) (pool : List Proxy) (w : Schedule) where
  findings_of-Found :
      (before jobs : List (Text × ℕ)) (outcomes : List PortOutcome)
      → before ++ jobs ≡ grid (scan_hosts cfg) cfg.ports
      → AllFrom (IsBacked cfg pool w) (length before) outcomes
      → Matches cfg pool w (length before) outcomes jobs
      → All (Found cfg pool w) (findings_of outcomes)
  unfolding findings_of finding_of
  findings_of-Found before [] [] e b m = tt
  findings_of-Found before (j ∷ jobs) [] e b m = tt
  findings_of-Found before [] (o ∷ outcomes) e b m = absurd m
  findings_of-Found before ((host, port) ∷ jobs) (o ∷ outcomes) e b m =
      let grown : length (before ++ (host, port) ∷ []) ≡ length before + 1 =
        length-append before ((host, port) ∷ []) in
      let rest =
        findings_of-Found (before ++ (host, port) ∷ []) jobs outcomes
          (append_assoc before ((host, port) ∷ []) jobs ∙ e)
          (subst (λ i. AllFrom (IsBacked cfg pool w) i outcomes) (sym grown) b.1)
          (subst (λ i. Matches cfg pool w i outcomes jobs) (sym grown) m.1) in
      elim (Bool-cases (is_open o.verdict)) [
        | inr q ↦ rw q rest
        | inl q ↦ rw q (elim m.0 [
          | inr z ↦ absurd (true_ne_false (sym q ∙ ap (λ x. is_open x.verdict) z.0 ∙ zero-not_open))
          | inl same ↦ (
            record {
              job = length before;
              proto = refl;
              placed =
                  grid-Placed (scan_hosts cfg) cfg.ports (length before) (o.host, o.port)
                    (ap (λ g. get_elem? g (length before)) (sym e)
                      ∙ get_elem?-middle before (host, port) jobs
                      ∙ cc (same.0, same.1));
              confirmed = b.0 (is_open-quorum_open o.verdict q);
            },
            rest,
          )
        ])
      ]

  rotate_scan-Found : All (Found cfg pool w) (findings_of (rotate_scan cfg pool w).0)
  unfolding rotate_scan findings_of
  rotate_scan-Found = elim (Bool-cases (length pool == 0 || length cfg.ports == 0)) [
    | inl e ↦ rw e tt
    | inr e ↦
        findings_of-Found [] (grid (scan_hosts cfg) cfg.ports) (rotate_scan cfg pool w).0 refl
          (rotate_scan-IsBacked cfg pool w)
          (rotate_scan-Slots cfg pool w (ground arith) (ground arith))
  ]

-- The order in which the proxies of a pool are dialled.
pub data IsOrdered (req : ScanRequest) (pool : List Proxy) : List Proxy → Type 0 where
  unshuffled : req.shuffle ≡ none → IsOrdered req pool pool
  shuffled : {g : List Proxy → List Proxy} → req.shuffle ≡ some g → IsOrdered req pool (g pool)

-- A finding of the k-th target, with these hosts: it is for one of them and a port of the request,
-- and confirmed by the proxies that it lists. The quorum of the request is raised to 1, and cut to
-- the size of the pool and to what its shuffle leaves of it.
pub record FoundOn (req : ScanRequest) (w : World) (k : ℕ) (hosts : List Text) (f : ScanFinding)
    : Type 0 where
  pub job : ℕ
  pub quorum : ℕ
  pub pool : List Proxy
  pub proto : f.proto ≡ codes "tcp"
  pub placed : Placed hosts req.ports job f.host f.port
  pub ordered : IsOrdered req (w.get_pool k) pool
  pub asked : IsRequired req.quorum (length (w.get_pool k)) quorum
  pub confirmed : Confirmed (pos quorum) req.label pool (w.schedule k) job f.proxies

ordered_pool-IsOrdered :
    (req : ScanRequest) (pool : List Proxy) → IsOrdered req pool (ordered_pool req pool)
ordered_pool-IsOrdered req pool = by_hook req.shuffle refl
  where
    by_hook :
        (o : Option (List Proxy → List Proxy))
        → req.shuffle ≡ o
        → IsOrdered req pool (elim o [ none ↦ pool | some shuffle ↦ shuffle pool ])
    by_hook none e = unshuffled e
    by_hook (some g) e = shuffled e

module _ (req : ScanRequest) (w : World) where
  abbrev expands : Text → Option Expanded
  expands = expand_target w.rounds w.expand6

  -- The results that a scan of the targets from the k-th on may report.
  pub data Reports : ℕ → List Text → List HostResult → Type 0 where
    at_end : {k : ℕ} → Reports k [] []
    at_stop : {k : ℕ} {targets : List Text} → w.stopped k ≡ true → Reports k targets []
    without_pool :
        {k : ℕ} {target : Text} {targets : List Text} {results : List HostResult}
        → w.get_pool k ≡ []
        → Reports (k + 1) targets results
        → Reports k (target ∷ targets) results
    not_expanded :
        {k : ℕ} {target : Text} {targets : List Text} {results : List HostResult} {e : ExpandError}
        → expands target ≡ some (err e)
        → Reports (k + 1) targets results
        → Reports k (target ∷ targets) (record { target = target; findings = [] } ∷ results)
    scanned :
        {k : ℕ} {target : Text} {targets : List Text} {results : List HostResult}
        {hosts : List Text} {findings : List ScanFinding}
        → expands target ≡ some (ok hosts)
        → All (FoundOn req w k hosts) findings
        → Reports (k + 1) targets results
        → Reports k (target ∷ targets) (record { target = target; findings = findings } ∷ results)

  found_on :
      (k : ℕ) (hosts : List Text) (throttle : Option Throttle)
      → 0 < length (w.get_pool k)
      → (f : ScanFinding)
      → Found
          (scan_config req (length (w.get_pool k)) hosts throttle)
          (ordered_pool req (w.get_pool k))
          (w.schedule k)
          f
      → FoundOn req w k hosts f
  unfolding scan_config scan_hosts
  found_on k hosts throttle h f found = record {
    job = found.job;
    quorum = clamp_quorum req.quorum (length (w.get_pool k));
    pool = ordered_pool req (w.get_pool k);
    proto = found.proto;
    placed =
        subst (λ hs. Placed hs req.ports found.job f.host f.port) (same_hosts hosts) found.placed;
    ordered = ordered_pool-IsOrdered req (w.get_pool k);
    asked = clamp_quorum-IsRequired req.quorum (length (w.get_pool k)) h;
    confirmed = found.confirmed;
  }
    where
      same_hosts :
          (hs : List Text)
          → (elim hs [ h ∷ hs ↦ h ∷ hs | [] ↦ if [] ==ₜ [] then [] else [] ∷ [] ]) ≡ hs
      same_hosts [] = refl
      same_hosts (x ∷ hs) = refl

  scan_hosts_of-FoundOn :
      (k : ℕ) (hosts : List Text) (throttle : Option Throttle)
      → 0 < length (w.get_pool k)
      → All
          (FoundOn req w k hosts)
          (scan_hosts_of req (w.get_pool k) (w.schedule k) hosts throttle).0
  unfolding scan_hosts_of
  scan_hosts_of-FoundOn k hosts throttle h =
      let cfg = scan_config req (length (w.get_pool k)) hosts throttle in
      let pool = ordered_pool req (w.get_pool k) in
      All-mono (found_on k hosts throttle h) (findings_of (rotate_scan cfg pool (w.schedule k)).0)
        (rotate_scan-Found cfg pool (w.schedule k))

  length-nil : (pool : List Proxy) → (length pool == 0) ≡ true → pool ≡ []
  length-nil [] e = refl
  length-nil (p ∷ pool) e = absurd (ground (arith, e))

  -- Every expansion ends.
  abbrev pub Ends : Text → Type 0
  Ends target = (e : Expanded) × (expands target ≡ some e)

  scan_target-Reports :
      (k : ℕ) (target : Text) (targets : List Text) (results : List HostResult) (e : Expanded)
      (throttle : Option Throttle)
      → 0 < length (w.get_pool k)
      → expands target ≡ some e
      → Reports (k + 1) targets results
      → Reports k (target ∷ targets) (
          record {
            target = target;
            findings = (scan_target req (w.get_pool k) (w.schedule k) e throttle).0;
          }
          ∷ results)
  unfolding scan_target
  scan_target-Reports k target targets results (err e) throttle p h r = not_expanded h r
  scan_target-Reports k target targets results (ok hosts) throttle p h r =
      scanned h (scan_hosts_of-FoundOn k hosts throttle p) r

  Reported : ℕ → List Text → Option Throttle → Type 0
  Reported k targets throttle =
      (s : Scanned) × (scan_targets req w targets k throttle ≡ some s) × Reports k targets s.results

  scan_targets-Reports :
      (targets : List Text) (k : ℕ) (throttle : Option Throttle)
      → All Ends targets
      → Reported k targets throttle
  unfolding Reported scan_targets
  scan_targets-Reports [] k throttle h = (nothing, refl, at_end)
  scan_targets-Reports (target ∷ targets) k throttle h = elim (Bool-cases (w.stopped k)) [
    | inl s ↦ (nothing, rw s refl, at_stop s)
    | inr s ↦ (elim (Bool-cases (length (w.get_pool k) == 0)) [
      | inl z ↦
          let (rest, e, r) = scan_targets-Reports targets (k + 1) throttle h.1 in
          (rest, rw (s, z) e, without_pool (length-nil (w.get_pool k) z) r)
      | inr z ↦
          let (hosts, ends) = h.0 in
          let done = scan_target req (w.get_pool k) (w.schedule k) hosts throttle in
          let (rest, e, r) = scan_targets-Reports targets (k + 1) done.1.throttle h.1 in
          (
            add_target target done rest,
            rw (s, z, ends, e) refl,
            scan_target-Reports k target targets rest.results hosts throttle (ground (arith, z))
                ends r,
          )
    ])
  ]

  -- If every target's expansion ends, so does the scan, for all dials, schedules, stops and pools.
  -- It reports on the targets in order until it is stopped, but for those that find the pool empty;
  -- a target that cannot be expanded has no findings; and each finding is for a host of its target
  -- and a port of the request, and lists the labels of proxies at different places of the pool,
  -- each of which got a connection in the job of this host and port, at least as many as the
  -- request's quorum, which is raised to 1 and cut to the pool's size.
  pub run_scan-Reports :
      All Ends req.targets
      → (s : Scanned) × (run_scan req w ≡ some s) × Reports 0 req.targets s.results
  unfolding run_scan Reported
  run_scan-Reports h = scan_targets-Reports req.targets 0 req.throttle h
