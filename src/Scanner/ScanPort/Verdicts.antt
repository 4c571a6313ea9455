-- ===== src/Scanner/ScanPort/Verdicts.antt =====
-- What a verdict of `scanPort` promises.
use route_fork.Base.{
  ℕ, ◌≤◌, ◌<◌, ◌≡◌, sym, ◌∙◌, inl, inr, true, List, [], ◌∷◌, arith, Bool-cases, length, All,
  All-mono,
}
use route_fork.Text.{Text}
use route_fork.Scanner.Quorum.{quorum_open, quorum_refuted, decide_quorum-Means}
use route_fork.Scanner.Batch.{Env, Candidate, Shared, pool_size}
use route_fork.Scanner.Batch.Places.{Different, IsPlace}
use route_fork.Scanner.ScanPort.{PortOutcome, scan_port}
use route_fork.Scanner.ScanPort.Evidence.{
  connects, refuses, backers, any_refuses, labels, Evidence, scan_port-Evidence, backers-All,
  backers-Different,
}

-- At least a quorum of proxies, at different places of the pool, stand behind an outcome: each got
-- a connection, and their labels are the ones that it lists.
pub record Backing (env : Env) (o : PortOutcome) : Type 0 where
  pub proxies : List Candidate
  pub enough : env.quorum ≤ length proxies
  pub different : Different proxies
  pub places : All (λ c. (c.0 < pool_size env) × IsPlace env c) proxies
  pub connected : All (λ c. connects env c ≡ true) proxies
  pub listed : o.open_labels ≡ labels env proxies

module _ (env : Env) (o : PortOutcome) (ev : Evidence env o) (positive : 1 ≤ env.quorum) where
  open ev use {dialled, different, places, confirmed, reported, decided}

  Evidence-Backing : o.verdict ≡ quorum_open → Backing env o
  Evidence-Backing e =
      let means =
        decide_quorum-Means quorum_open o.confirmations env.quorum (any_refuses env dialled)
          positive in
      let q = means.0 (sym decided ∙ e) in
      let all = backers-All env (λ c. (c.0 < pool_size env) × IsPlace env c) dialled places in
      record {
        proxies = backers env dialled;
        enough = omega (arith, confirmed, q.1);
        different = backers-Different env dialled different;
        places = All-mono (λ c h. h.0) (backers env dialled) all;
        connected = All-mono (λ c h. h.1) (backers env dialled) all;
        listed = reported;
      }

refuser :
    (env : Env) (P : Candidate → Type 0) (cs : List Candidate)
    → All P cs
    → any_refuses env cs ≡ true
    → (c : Candidate) × P c × (refuses env c ≡ true)
unfolding any_refuses
refuser env P [] h e = cc
refuser env P (c ∷ cs) h e = elim (Bool-cases (refuses env c)) [
  | inl t ↦ (c, h.0, t)
  | inr t ↦ refuser env P cs h.1 (rw t at e)
]

-- A port is reported open only on the word of at least a quorum of proxies at different places of
-- the pool, each of which got a connection to it; the report lists the labels of just these.
pub scan_port-Backing :
    (env : Env) (target : Text) (port : ℕ) (s : Shared)
    → 1 ≤ env.quorum
    → (scan_port env target port s).0.verdict ≡ quorum_open
    → Backing env (scan_port env target port s).0
scan_port-Backing env target port s h e =
    Evidence-Backing env (scan_port env target port s).0 (scan_port-Evidence env target port s) h e

-- A port is reported refuted only if some proxy of the pool got an error that is not its own, such
-- as a refused connection.
pub scan_port-refuted :
    (env : Env) (target : Text) (port : ℕ) (s : Shared)
    → 1 ≤ env.quorum
    → (scan_port env target port s).0.verdict ≡ quorum_refuted
    → (c : Candidate) × ((c.0 < pool_size env) × IsPlace env c) × (refuses env c ≡ true)
scan_port-refuted env target port s h e =
    let o = (scan_port env target port s).0 in
    let ev = scan_port-Evidence env target port s in
    let means =
      decide_quorum-Means quorum_refuted o.confirmations env.quorum (any_refuses env ev.dialled)
        h in
    refuser env (λ c. (c.0 < pool_size env) × IsPlace env c) ev.dialled ev.places
      (means.0 (sym ev.decided ∙ e))
