-- ===== src/Scanner/ScanPort/Exit.antt =====
-- When a job ends.
use route_fork.Base.{
  ℕ, zero, suc, ◌+◌, ◌-◌, ◌≤◌, ◌<◌, ◌≡◌, refl, ap, ◌⊎◌, inl, inr, false, List, [], ◌∷◌, ◌++◌, arith,
  Bool-cases, length, length-append,
}
use route_fork.Scanner.Batch.{Env, Candidate, Filling, Shared, pool_size, examine, fill, top_up}
use route_fork.Scanner.Batch.Places.{examine-consumed, fill_grows}
use route_fork.Scanner.ScanPort.{
  empty_tally, Job, is_wanted, Step, leave, go_on, collect, batch_of, dial_batch, scan_round,
  scan_loop, scan_job,
}
use route_fork.Scanner.ScanPort.Votes.{collect_bounded}

module _ (env : Env) where
  fill_exit :
      (n left : ℕ) (f : Filling)
      → (n ≤ length (fill env n left f).batch) ⊎ ((fill env n left f).consumed ≡ f.consumed + left)
  unfolding fill
  fill_exit n zero f = inr (omega arith)
  fill_exit n (suc left) f =
      ground (arith, fill_exit n left (examine env f), examine-consumed env f)

  length-top_up :
      (n : ℕ) (batch throttled : List Candidate) → length batch ≤ length (top_up n batch throttled)
  unfolding top_up
  length-top_up n batch [] = omega arith
  length-top_up n batch (t ∷ throttled) =
      ground (arith, length-top_up n (batch ++ t ∷ []) throttled, length-append batch (t ∷ []))

  -- A round that finds nobody to dial has met every place of the pool.
  collect_empty :
      (j : Job)
      → j.consumed ≤ pool_size env
      → batch_of env j (collect env j) ≡ []
      → (collect env j).consumed ≡ pool_size env
  unfolding collect batch_of
  collect_empty j h e =
      let n = env.quorum - j.tally.confirmations + 2 in
      let f : Filling = record {
        consumed = j.consumed;
        batch = [];
        throttled = [];
        shared = j.shared;
      } in
      let g = fill env n (pool_size env - j.consumed) f in
      omega (
        arith,
        fill_exit n (pool_size env - j.consumed) f,
        length-top_up n g.batch g.throttled,
        ap length e,
      )

  -- A round that dials has taken at least one place.
  collect_grows : (j : Job) → j.consumed < pool_size env → j.consumed < (collect env j).consumed
  unfolding collect
  collect_grows j h =
      fill_grows env (env.quorum - j.tally.confirmations + 2) (pool_size env - j.consumed)
        (record { consumed = j.consumed; batch = []; throttled = []; shared = j.shared })
        (omega arith) (omega arith)

  abbrev IsDone : Job → Type 0
  IsDone j = (is_wanted env j.tally j.consumed ≡ false) ⊎ (j.consumed ≡ pool_size env)

  module _ (before : (r : ℕ) → env.stopped_before r ≡ false)
      (after : (r : ℕ) → env.stopped_after r ≡ false) where
    -- Where a round from `j` leads when the context is never done.
    abbrev Leads : Job → Step → Type 0
    Leads j (leave j') = IsDone j'
    Leads j (go_on j') = (j.consumed < j'.consumed) × (j'.consumed ≤ pool_size env)

    dial_batch-Leads :
        (r : ℕ) (j : Job) (f : Filling) (cs : List Candidate)
        → (cs ≡ [] → f.consumed ≡ pool_size env)
        → j.consumed < f.consumed
        → f.consumed ≤ pool_size env
        → Leads j (dial_batch env r j f cs)
    unfolding dial_batch
    dial_batch-Leads r j f [] all h m = inr (all refl)
    dial_batch-Leads r j f (c ∷ cs) all h m = rw (after r) (h, m)

    scan_round-Leads : (r : ℕ) (j : Job) → j.consumed ≤ pool_size env → Leads j (scan_round env r j)
    unfolding scan_round
    scan_round-Leads r j h = elim (Bool-cases (is_wanted env j.tally j.consumed)) [
      | inl e ↦
          let f = collect env j in
          rw (e, before r)
            (dial_batch-Leads r j f (batch_of env j f) (collect_empty j h)
              (collect_grows j (unfold is_wanted in ground arith)) (collect_bounded env j h))
      | inr e ↦ rw e (inl e)
    ]

    scan_loop-IsDone :
        (rounds r : ℕ) (j : Job)
        → j.consumed ≤ pool_size env
        → pool_size env ≤ j.consumed + rounds
        → IsDone (scan_loop env rounds r j)
    unfolding scan_loop
    scan_loop-IsDone zero r j h m = inr (omega arith)
    scan_loop-IsDone (suc rounds) r j h m =
        resume (scan_round env r j) (scan_round-Leads r j h)
          (λ j' a b. scan_loop-IsDone rounds (suc r) j' b (omega (arith, a)))
      where
        resume :
            (s : Step)
            → Leads j s
            → ((j' : Job)
                → j.consumed < j'.consumed
                → j'.consumed ≤ pool_size env
                → IsDone (scan_loop env rounds (suc r) j'))
            → IsDone (elim s [ leave j' ↦ j' | go_on j' ↦ scan_loop env rounds (suc r) j' ])
        resume (leave j') l ih = l
        resume (go_on j') l ih = ih j' l.0 l.1

    -- A job that is not stopped gives up without a verdict of open or refuted only when it has met
    -- every place of the pool or reached the cap on proxy errors.
    pub scan_job-exhausts :
        (s : Shared)
        → (scan_job env s).tally.refuted ≡ false
        → (scan_job env s).tally.confirmations < env.quorum
        → (pool_size env ≤ (scan_job env s).consumed)
          ⊎ (env.max_proxy_retries ≤ (scan_job env s).tally.proxy_errors)
    scan_job-exhausts s e short = exhausted (scan_job env s) done e short
      where
        done : IsDone (scan_job env s)
        done =
            unfold scan_job in
            scan_loop-IsDone (pool_size env) 0
              (record { tally = empty_tally; consumed = 0; shared = s }) (omega arith) (omega arith)

        exhausted :
            (j : Job)
            → IsDone j
            → j.tally.refuted ≡ false
            → j.tally.confirmations < env.quorum
            → (pool_size env ≤ j.consumed) ⊎ (env.max_proxy_retries ≤ j.tally.proxy_errors)
        exhausted j d e h = unfold is_wanted in ground arith
