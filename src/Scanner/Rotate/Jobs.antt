-- ===== src/Scanner/Rotate/Jobs.antt =====
-- The outcomes of a whole scan.
use route_fork.Base.{
  ℕ, zero, suc, ◌+◌, ◌%◌, ◌≤◌, ◌<◌, ◌≡◌, refl, ap, ◌∙◌, inl, inr, true, false, ◌||◌, Option, none,
  some, List, [], ◌∷◌, map, arith, ltb, ◌==◌, Bool-cases, length, get_elem?, All, All-mono,
}
use route_fork.Base.Int.{ℤ, pos, negsuc}
use route_fork.Text.{Text}
use route_fork.Proxy.{Proxy, uri}
use route_fork.Scanner.Quorum.{quorum_open}
use route_fork.Scanner.Batch.{Shared, Env, Candidate, Dialed, connected, failed, cancelled, label}
use route_fork.Scanner.Batch.Places.{Different}
use route_fork.Scanner.ScanPort.Evidence.{connects, is_connected, labels}
use route_fork.Scanner.ScanPort.{PortOutcome, scan_port}
use route_fork.Scanner.ScanPort.Verdicts.{Backing, scan_port-Backing}
use route_fork.Scanner.Rotate.{
  RotateConfig, Schedule, clamp_quorum, scan_hosts, grid, job_env, zero_outcome, run_jobs,
  rotate_scan,
}

clamp_bounds :
    (q : ℤ) (size : ℕ) → 0 < size → (1 ≤ clamp_quorum q size) × (clamp_quorum q size ≤ size)
unfolding clamp_quorum
clamp_bounds (pos q) size h = ground arith
clamp_bounds (negsuc q) size h = ground arith

-- The quorum that is asked of a pool of this size, which is not empty: the configured number, or 1
-- if it is lower, or the size if it is higher.
pub data IsRequired : ℤ → ℕ → ℕ → Type 0 where
  as_asked : {n size : ℕ} → 1 ≤ n → n ≤ size → IsRequired (pos n) size n
  none_asked : {size : ℕ} → IsRequired (pos 0) size 1
  less_asked : {n size : ℕ} → IsRequired (negsuc n) size 1
  more_asked : {n size : ℕ} → size < n → IsRequired (pos n) size size

pub clamp_quorum-IsRequired :
    (q : ℤ) (size : ℕ) → 0 < size → IsRequired q size (clamp_quorum q size)
unfolding clamp_quorum
clamp_quorum-IsRequired (negsuc n) size h =
    let one : ltb size 1 ≡ false = ground arith in rw one less_asked
clamp_quorum-IsRequired (pos zero) size h =
    let one : ltb size 1 ≡ false = ground arith in rw one none_asked
clamp_quorum-IsRequired (pos (suc n)) size h =
    let positive : ltb (suc n) 1 ≡ false = ground arith in
    rw positive (elim (Bool-cases (ltb size (suc n))) [
      | inl e ↦ rw e (more_asked (ground arith))
      | inr e ↦ rw e (as_asked (omega arith) (ground arith))
    ])

abbrev pub Connects : Dialed → Type 0
Connects d = (service version banner : Text) × (d ≡ connected service version banner)

-- How a proxy is shown: as the hook has it, or by its URI.
abbrev pub shown_by : Option (Proxy → Text) → Proxy → Text
shown_by none p = uri p
shown_by (some f) p = f p

-- What stands behind the labels of an open outcome of the i-th job: a quorum of proxies, at different
-- places of the pool counted from the i-th on and around its end, each of which this job dialled and
-- got a connection from, and which the labels show.
pub record Confirmed (quorum : ℤ) (hook : Option (Proxy → Text)) (pool : List Proxy) (w : Schedule)
    (i : ℕ) (labels : List Text) : Type 0 where
  pub needed : ℕ
  pub required : IsRequired quorum (length pool) needed
  pub supporters : List (ℕ × Proxy)
  pub enough : needed ≤ length supporters
  pub different : Different supporters
  pub places :
      All
        (λ c.
          (c.0 < length pool) × (get_elem? pool ((i % length pool + c.0) % length pool) ≡ some c.1))
        supporters
  pub connections : All (λ c. Connects (w.dial i c.0 c.1)) supporters
  pub listed : labels ≡ map (λ c. shown_by hook c.1) supporters

connects-Connects :
    (env : Env) (c : Candidate) → connects env c ≡ true → Connects (env.dial c.0 c.1)
unfolding connects
connects-Connects env c h = by_dial (env.dial c.0 c.1) h
  where
    by_dial : (d : Dialed) → is_connected d ≡ true → Connects d
    by_dial (connected s v b) h = (s, v, b, refl)
    by_dial (failed e) h = cc
    by_dial cancelled h = cc

label-shown_by : (hook : Option (Proxy → Text)) (p : Proxy) → label hook p ≡ shown_by hook p
unfolding label
label-shown_by none p = refl
label-shown_by (some f) p = refl

map-same {ℓ κ} :
    {A : Type ℓ} {B : Type κ} (f g : A → B)
    → ((a : A) → f a ≡ g a)
    → (xs : List A) → map f xs ≡ map g xs
map-same f g h [] = refl
map-same f g h (x ∷ xs) = ap (λ y. y ∷ map f xs) (h x) ∙ ap (λ r. g x ∷ r) (map-same f g h xs)

-- The i-th outcome is not open, or confirmed.
abbrev pub IsBacked : RotateConfig → List Proxy → Schedule → ℕ → PortOutcome → Type 0
IsBacked cfg pool w i o =
    o.verdict ≡ quorum_open → Confirmed cfg.quorum cfg.label_hook pool w i o.open_labels

Backing-Confirmed :
    (cfg : RotateConfig) (pool : List Proxy) (w : Schedule) (i : ℕ) (o : PortOutcome)
    → 0 < length pool
    → Backing (job_env cfg pool w i) o
    → Confirmed cfg.quorum cfg.label_hook pool w i o.open_labels
unfolding job_env labels
Backing-Confirmed cfg pool w i o h b = record {
  needed = clamp_quorum cfg.quorum (length pool);
  required = clamp_quorum-IsRequired cfg.quorum (length pool) h;
  supporters = b.proxies;
  enough = b.enough;
  different = b.different;
  places = b.places;
  connections = All-mono (connects-Connects (job_env cfg pool w i)) b.proxies b.connected;
  listed =
      b.listed
      ∙ map-same (λ c. label cfg.label_hook c.1) (λ c. shown_by cfg.label_hook c.1)
          (λ c. label-shown_by cfg.label_hook c.1) b.proxies;
}

-- Each entry satisfies the predicate at its number, the first at `i`.
abbrev pub AllFrom {ℓ κ} : {A : Type ℓ} → (ℕ → A → Type κ) → ℕ → List A → Type κ
AllFrom P i [] = Unit
AllFrom P i (x ∷ xs) = P i x × AllFrom P (i + 1) xs

module _ (cfg : RotateConfig) (pool : List Proxy) (w : Schedule) where
  zeros-IsBacked :
      (jobs : List (Text × ℕ)) (i : ℕ)
      → AllFrom (IsBacked cfg pool w) i (map (λ j. zero_outcome) jobs)
  unfolding zero_outcome
  zeros-IsBacked [] i = tt
  zeros-IsBacked (j ∷ jobs) i = ((λ e. cc), zeros-IsBacked jobs (i + 1))

  run_jobs-IsBacked :
      (jobs : List (Text × ℕ)) (i : ℕ) (s : Shared)
      → 0 < length pool
      → AllFrom (IsBacked cfg pool w) i (run_jobs cfg pool w jobs i s).0
  unfolding run_jobs
  run_jobs-IsBacked [] i s h = tt
  run_jobs-IsBacked ((host, port) ∷ jobs) i s h = elim (Bool-cases (w.stopped_at i)) [
    | inl e ↦ rw e (zeros-IsBacked ((host, port) ∷ jobs) i)
    | inr e ↦
        let env = job_env cfg pool w i in
        rw e (
          λ e. Backing-Confirmed cfg pool w i (scan_port env host port s).0 h (
              scan_port-Backing env host port s
                (unfold job_env in (clamp_bounds cfg.quorum (length pool) h).0) e),
          run_jobs-IsBacked jobs (i + 1) (scan_port env host port s).1 h,
        )
  ]

  -- Whatever the dials, the clock, the stop and the interleaving of the jobs: each outcome of a
  -- rotating scan that is open is backed by a quorum of its job's own connections, at different
  -- places of the pool, and lists the labels of their proxies. The quorum is the configured one,
  -- raised to 1 and cut to the pool's size.
  pub rotate_scan-IsBacked : AllFrom (IsBacked cfg pool w) 0 (rotate_scan cfg pool w).0
  unfolding rotate_scan
  rotate_scan-IsBacked = elim (Bool-cases (length pool == 0 || length cfg.ports == 0)) [
    | inl e ↦ rw e tt
    | inr e ↦ rw e (run_jobs-IsBacked (grid (scan_hosts cfg) cfg.ports) 0 _ (ground arith))
  ]
