-- ===== src/Scanner/ScanPort/Votes.antt =====
-- Which votes a job counts.
use route_fork.Base.{
  ℕ, zero, suc, ◌+◌, ◌-◌, ◌≤◌, ◌≡◌, refl, inl, inr, not, ◌||◌, List, [], ◌∷◌, ◌++◌, map, arith,
  Bool-cases,
}
use mathlib.Core.List.{map-append}
use route_fork.Scanner.Batch.{Env, Candidate, Filling, Shared, pool_size, VoteResult, vote_of}
use route_fork.Scanner.Batch.Places.{
  IsTaken, IsTaken-widen, IsTaken-append, IsFilled, fill-IsFilled, fill-consumed, top_up-IsTaken,
}
use route_fork.Scanner.ScanPort.{
  Tally, empty_tally, count_vote, count_votes, Job, is_wanted, Step, leave, go_on, collect,
  batch_of, dial_batch, scan_round, scan_loop, scan_job,
}

count_votes-append :
    (a b : List VoteResult) (t : Tally) → count_votes (a ++ b) t ≡ count_votes b (count_votes a t)
unfolding count_votes
count_votes-append [] b t = refl
count_votes-append (r ∷ a) b t = count_votes-append a b (count_vote r.vote r t)

-- The tally of a job is the count of the votes of some places of the pool, all different and all
-- met so far.
pub record IsCounted (env : Env) (j : Job) : Type 0 where
  pub dialled : List Candidate
  pub taken : IsTaken env 0 j.consumed dialled
  pub bounded : j.consumed ≤ pool_size env
  pub counted : j.tally ≡ count_votes (map (vote_of env) dialled) empty_tally

module _ (env : Env) where
  abbrev Holds : Step → Type 0
  Holds (leave j) = IsCounted env j
  Holds (go_on j) = IsCounted env j

  start : Job → Filling
  start j = record { consumed = j.consumed; batch = []; throttled = []; shared = j.shared }

  start-IsFilled : (j : Job) → IsFilled env j.consumed (start j)
  unfolding start
  start-IsFilled j = record { low = omega arith; taken = (tt, tt) }

  pub collect-IsFilled : (j : Job) → IsFilled env j.consumed (collect env j)
  unfolding collect start
  collect-IsFilled j =
      fill-IsFilled env j.consumed (env.quorum - j.tally.confirmations + 2)
        (pool_size env - j.consumed) (start j) (start-IsFilled j)

  pub collect_bounded :
      (j : Job) → j.consumed ≤ pool_size env → (collect env j).consumed ≤ pool_size env
  unfolding collect start
  collect_bounded j h = omega (
    arith,
    fill-consumed env (env.quorum - j.tally.confirmations + 2) (pool_size env - j.consumed)
        (start j),
  )

  pub batch_of-IsTaken :
      (j : Job) (f : Filling)
      → IsFilled env j.consumed f
      → IsTaken env j.consumed f.consumed (batch_of env j f)
  unfolding batch_of
  batch_of-IsTaken j f v =
      top_up-IsTaken env j.consumed f.consumed (env.quorum - j.tally.confirmations + 2) f.batch
        f.throttled v.taken

  -- The job goes on to more places with the tally as it was.
  passed :
      (j : Job) (consumed : ℕ) (s : Shared)
      → j.consumed ≤ consumed
      → consumed ≤ pool_size env
      → IsCounted env j
      → IsCounted env (record j { consumed = consumed; shared = s })
  passed j consumed s h m c = record {
    bounded = m;
    dialled = c.dialled;
    taken = IsTaken-widen env 0 j.consumed 0 consumed c.dialled (omega arith) h c.taken;
    counted = c.counted;
  }

  added :
      (j : Job) (consumed : ℕ) (s : Shared) (cs : List Candidate)
      → j.consumed ≤ consumed
      → consumed ≤ pool_size env
      → IsTaken env j.consumed consumed cs
      → IsCounted env j
      → IsCounted env (record {
        tally = count_votes (map (vote_of env) cs) j.tally;
        consumed = consumed;
        shared = s;
      })
  added j consumed s cs h m t c = record {
    bounded = m;
    dialled = c.dialled ++ cs;
    taken = IsTaken-append env 0 j.consumed consumed c.dialled cs (omega arith) h c.taken t;
    counted = rw (
      map-append (vote_of env) c.dialled cs,
      count_votes-append (map (vote_of env) c.dialled) (map (vote_of env) cs) empty_tally,
      c.counted,
    );
  }

  dial_batch-Holds :
      (r : ℕ) (j : Job) (f : Filling) (cs : List Candidate)
      → j.consumed ≤ f.consumed
      → f.consumed ≤ pool_size env
      → IsTaken env j.consumed f.consumed cs
      → IsCounted env j
      → Holds (dial_batch env r j f cs)
  unfolding dial_batch
  dial_batch-Holds r j f [] h m t c = passed j f.consumed f.shared h m c
  dial_batch-Holds r j f (d ∷ ds) h m t c = elim (Bool-cases (env.stopped_after r)) [
    | inl e ↦ rw e (passed j f.consumed _ h m c)
    | inr e ↦ rw e (added j f.consumed _ (d ∷ ds) h m t c)
  ]

  scan_round-Holds : (r : ℕ) (j : Job) → IsCounted env j → Holds (scan_round env r j)
  unfolding scan_round
  scan_round-Holds r j c =
      elim (Bool-cases (not (is_wanted env j.tally j.consumed) || env.stopped_before r)) [
        | inl e ↦ rw e c
        | inr e ↦
            let f = collect env j in
            rw e (
              dial_batch-Holds r j f (batch_of env j f) (collect-IsFilled j).low
                (collect_bounded j c.bounded) (batch_of-IsTaken j f (collect-IsFilled j)) c)
      ]

  scan_loop-IsCounted :
      (rounds r : ℕ) (j : Job) → IsCounted env j → IsCounted env (scan_loop env rounds r j)
  unfolding scan_loop
  scan_loop-IsCounted zero r j c = c
  scan_loop-IsCounted (suc rounds) r j c =
      resume (scan_round env r j) (scan_round-Holds r j c)
        (λ j' c'. scan_loop-IsCounted rounds (suc r) j' c')
    where
      resume :
          (s : Step)
          → Holds s
          → ((j' : Job) → IsCounted env j' → IsCounted env (scan_loop env rounds (suc r) j'))
          → IsCounted env (elim s [ leave j' ↦ j' | go_on j' ↦ scan_loop env rounds (suc r) j' ])
      resume (leave j') h ih = h
      resume (go_on j') h ih = ih j' h

  pub scan_job-IsCounted : (s : Shared) → IsCounted env (scan_job env s)
  unfolding scan_job
  scan_job-IsCounted s =
      scan_loop-IsCounted (pool_size env) 0
        (record { tally = empty_tally; consumed = 0; shared = s })
        (record {
          dialled = [];
          taken = (tt, tt);
          bounded = omega arith;
          counted = unfold count_votes in refl;
        })
