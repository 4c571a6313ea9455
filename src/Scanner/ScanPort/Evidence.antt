-- ===== src/Scanner/ScanPort/Evidence.antt =====
-- The outcome of a port against the dials that were made for it.
use route_fork.Base.{
  ℕ, ◌+◌, ◌<◌, ◌≡◌, refl, sym, ◌≢◌, ◌⊎◌, inl, inr, Bool, true, false, not, ◌||◌, some, List, [],
  ◌∷◌, ◌++◌, map, append-nil, append_assoc, arith, if◌then◌else◌, Bool-cases, length, All, All-mono,
}
use route_fork.Text.{Text}
use route_fork.Proxy.{address}
use route_fork.Proxy.Errors.{is_proxy_error}
use route_fork.Scanner.Quorum.{decide_quorum}
use route_fork.Scanner.Batch.{
  Env, Candidate, Shared, Dialed, connected, failed, cancelled, pool_size, label, opened, refused,
  errored, vote_of,
}
use route_fork.Scanner.Batch.Places.{Different, IsPlace}
use route_fork.Scanner.ScanPort.{
  PortOutcome, Tally, empty_tally, count_vote, count_votes, outcome_of, scan_port,
}
use route_fork.Scanner.ScanPort.Votes.{scan_job-IsCounted}

abbrev pub is_connected : Dialed → Bool
is_connected (connected _ _ _) = true
is_connected _ = false

is_refusal : Text → Dialed → Bool
is_refusal addr (failed e) = not (is_proxy_error addr (some e))
is_refusal addr _ = false

-- The dial of the candidate got a connection,
unfoldable pub connects : Env → Candidate → Bool
connects env c = is_connected (env.dial c.0 c.1)

-- or failed with an error that is not the proxy's.
unfoldable pub refuses : Env → Candidate → Bool
unfolding is_refusal
refuses env c = is_refusal (address c.1) (env.dial c.0 c.1)

unfoldable pub backers : Env → List Candidate → List Candidate
backers env [] = []
backers env (c ∷ cs) = if connects env c then c ∷ backers env cs else backers env cs

unfoldable pub any_refuses : Env → List Candidate → Bool
any_refuses env [] = false
any_refuses env (c ∷ cs) = refuses env c || any_refuses env cs

-- The three ways in which a dial is counted.
abbrev Ballot : Env → Candidate → Type 0
Ballot env c =
    ((connects env c ≡ true)
      × (refuses env c ≡ false)
      × ((vote_of env c).vote ≡ opened)
      × ((vote_of env c).label_text ≡ label env.label_hook c.1))
    ⊎ (((connects env c ≡ false) × (refuses env c ≡ true) × ((vote_of env c).vote ≡ refused))
        ⊎ ((connects env c ≡ false) × (refuses env c ≡ false) × ((vote_of env c).vote ≡ errored)))

ballot : (env : Env) (c : Candidate) → Ballot env c
unfolding connects refuses vote_of label
ballot env (k, p) = go (env.dial k p) refl
  where
    go : (d : Dialed) → env.dial k p ≡ d → Ballot env (k, p)
    go (connected s v b) e = ground arith
    go (failed t) e = ground arith
    go cancelled e = ground arith

module _ (env : Env) where
  unfoldable pub labels : List Candidate → List Text
  labels = map (λ c. label env.label_hook c.1)

  count_votes-backers :
      (cs : List Candidate) (t : Tally)
      → ((count_votes (map (vote_of env) cs) t).confirmations
          ≡ t.confirmations + length (backers env cs))
        × ((count_votes (map (vote_of env) cs) t).refuted ≡ (t.refuted || any_refuses env cs))
  unfolding count_votes count_vote backers any_refuses
  count_votes-backers [] t = (omega arith, ground arith)
  count_votes-backers (c ∷ cs) t = ground (
    arith,
    ballot env c,
    count_votes-backers cs (count_vote (vote_of env c).vote (vote_of env c) t),
  )

  count_votes-labels :
      (cs : List Candidate) (t : Tally)
      → (count_votes (map (vote_of env) cs) t).open_labels
        ≡ t.open_labels ++ labels (backers env cs)
  unfolding count_votes count_vote backers labels
  count_votes-labels [] t = sym (append-nil t.open_labels)
  count_votes-labels (c ∷ cs) t = ground (
    arith,
    ballot env c,
    count_votes-labels cs (count_vote (vote_of env c).vote (vote_of env c) t),
    append_assoc t.open_labels ((vote_of env c).label_text ∷ []) (labels (backers env cs)),
  )

  pub backers-All {κ} :
      (P : Candidate → Type κ) (cs : List Candidate)
      → All P cs
      → All (λ c. P c × (connects env c ≡ true)) (backers env cs)
  unfolding backers
  backers-All P [] h = tt
  backers-All P (c ∷ cs) h = elim (Bool-cases (connects env c)) [
    | inl e ↦ rw e ((h.0, e), backers-All P cs h.1)
    | inr e ↦ rw e (backers-All P cs h.1)
  ]

  pub backers-Different : (cs : List Candidate) → Different cs → Different (backers env cs)
  unfolding backers
  backers-Different [] d = tt
  backers-Different (c ∷ cs) d = elim (Bool-cases (connects env c)) [
    | inl e ↦ rw e (
      All-mono (λ x h. h.0) (backers env cs) (backers-All (λ x. x.0 ≢ c.0) cs d.0),
      backers-Different cs d.1,
    )
    | inr e ↦ rw e (backers-Different cs d.1)
  ]

  -- What an outcome rests on: dials at different places of the pool, of which it reports exactly
  -- those that connected, and which it takes as refuted exactly if one of them was refused.
  pub record Evidence (o : PortOutcome) : Type 0 where
    pub dialled : List Candidate
    pub different : Different dialled
    pub places : All (λ c. (c.0 < pool_size env) × IsPlace env c) dialled
    pub confirmed : o.confirmations ≡ length (backers env dialled)
    pub reported : o.open_labels ≡ labels (backers env dialled)
    pub decided : o.verdict ≡ decide_quorum o.confirmations env.quorum (any_refuses env dialled)

  -- The outcome of a port, whatever the dials, the clock, the stop and the other jobs do, is decided
  -- by the dials at some different places of the pool: it counts and labels those that connected,
  -- and takes the port as refuted exactly if one of them failed by an error of the target's side.
  pub scan_port-Evidence :
      (target : Text) (port : ℕ) (s : Shared) → Evidence (scan_port env target port s).0
  unfolding scan_port outcome_of empty_tally
  scan_port-Evidence target port s =
      let c = scan_job-IsCounted env s in
      let counts = count_votes-backers c.dialled empty_tally in
      record {
        dialled = c.dialled;
        different = c.taken.0;
        places = All-mono (λ x w. (omega (arith, w.1, c.bounded), w.2)) c.dialled c.taken.1;
        confirmed = rw c.counted (omega (arith, counts.0));
        reported = rw c.counted (count_votes-labels c.dialled empty_tally);
        decided = rw c.counted (rw (counts.1));
      }
