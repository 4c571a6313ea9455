-- ===== src/Scanner/ScanPort.antt =====
-- `scanPort` of scanner/rotate.go.
pub mod Votes
pub mod Evidence
pub mod Exit
pub mod Verdicts
mod Examples
use route_fork.Base.{
  ℕ, zero, suc, ◌+◌, ◌-◌, ◌*◌, ◌/◌, ◌%◌, ◌^◌, ◌≤◌, ◌<◌, ◌≡◌, refl, sym, ap, ◌∙◌, subst, ◌≢◌, ◌↔◌,
  ◌⊎◌, inl, inr, Bool, true, false, not, ◌&&◌, ◌||◌, Option, none, some, List, [], ◌∷◌, ◌++◌, map,
  append-nil, append_assoc, arith, ltb, leb, ◌==◌, if◌then◌else◌, leb→le, ==_iff, Bool-cases,
  Option-cases, length, get_elem?, get_or, length-append, get_elem?-lt, All, All-append, All-left,
  All-right, All-mono,
}
use route_fork.Text.{
  Text, codes, Lacks, ◌==ₜ◌, is_space, trim_left, trim_space, has_prefix, contains, cons_head,
  split, split_n, join, fields, lower, upper, to_lower, to_upper,
}
use route_fork.Scanner.Quorum.{QuorumVerdict, decide_quorum}
use route_fork.Scanner.Batch.{
  Shared, Env, Candidate, Filling, pool_size, fill, top_up, Vote, VoteResult, opened, refused,
  errored, vote_of, mark_dials,
}

pub record PortOutcome : Type 0 where
  pub host : Text
  pub port : ℕ
  pub verdict : QuorumVerdict
  pub confirmations : ℕ
  pub quorum : ℕ
  pub open_labels : List Text
  pub banner : Text
  pub service : Text
  pub version : Text
  pub refuted_by : Text

-- The loop's variables, but for `consumed`.
pub record Tally : Type 0 where
  pub confirmations : ℕ
  pub proxy_errors : ℕ
  pub refuted : Bool
  pub refuted_by : Text
  pub open_labels : List Text
  pub open_banner : Text
  pub open_service : Text
  pub open_version : Text

unfoldable pub empty_tally : Tally
empty_tally = record {
  confirmations = 0;
  proxy_errors = 0;
  refuted = false;
  refuted_by = [];
  open_labels = [];
  open_banner = [];
  open_service = [];
  open_version = [];
}

-- `if x == "" { x = y }`
unfoldable pub or_else : Text → Text → Text
or_else [] y = y
or_else (c ∷ x) y = c ∷ x

unfoldable pub count_vote : Vote → VoteResult → Tally → Tally
unfolding or_else
count_vote opened r t = record t {
  confirmations = t.confirmations + 1;
  open_labels = t.open_labels ++ r.label_text ∷ [];
  open_banner = or_else t.open_banner r.banner;
  open_service = or_else t.open_service r.service;
  open_version = or_else t.open_version r.version;
}
count_vote refused r t = record t { refuted = true; refuted_by = r.addr }
count_vote errored r t = record t { proxy_errors = t.proxy_errors + 1 }

unfoldable pub count_votes : List VoteResult → Tally → Tally
unfolding count_vote
count_votes [] t = t
count_votes (r ∷ rs) t = count_votes rs (count_vote r.vote r t)

pub record Job : Type 0 where
  pub tally : Tally
  pub consumed : ℕ
  pub shared : Shared

-- The condition of the outer loop.
unfoldable pub is_wanted : Env → Tally → ℕ → Bool
is_wanted env t consumed =
    ltb t.confirmations env.quorum
    && not t.refuted
    && ltb t.proxy_errors env.max_proxy_retries
    && ltb consumed (pool_size env)

pub data Step : Type 0 where
  leave : Job → Step
  go_on : Job → Step

-- The proxies of a round: the first inner loop, and then the second.
unfoldable pub collect : Env → Job → Filling
collect env j =
    fill env (env.quorum - j.tally.confirmations + 2) (pool_size env - j.consumed)
      (record { consumed = j.consumed; batch = []; throttled = []; shared = j.shared })

unfoldable pub batch_of : Env → Job → Filling → List Candidate
batch_of env j f = top_up (env.quorum - j.tally.confirmations + 2) f.batch f.throttled

-- The dials of a round and, unless the context is done after them, their count.
unfoldable pub dial_batch : Env → ℕ → Job → Filling → List Candidate → Step
dial_batch env r j f [] = leave (record j { consumed = f.consumed; shared = f.shared })
dial_batch env r j f (c ∷ cs) =
    let j' = record j { consumed = f.consumed; shared = mark_dials env (c ∷ cs) f.shared } in
    if env.stopped_after r
    then leave j'
    else go_on (record j' { tally = count_votes (map (vote_of env) (c ∷ cs)) j.tally })

-- A round of the outer loop.
unfoldable pub scan_round : Env → ℕ → Job → Step
scan_round env r j =
    if not (is_wanted env j.tally j.consumed) || env.stopped_before r
    then leave j
    else dial_batch env r j (collect env j) (batch_of env j (collect env j))

-- The outer loop. Each round takes at least one place of the pool, so that as many rounds as there
-- are places left are enough: without places the loop's condition fails.
unfoldable pub scan_loop : Env → ℕ → ℕ → Job → Job
scan_loop env zero r j = j
scan_loop env (suc rounds) r j = elim (scan_round env r j) [
  | leave j' ↦ j'
  | go_on j' ↦ scan_loop env rounds (suc r) j'
]

unfoldable pub scan_job : Env → Shared → Job
scan_job env s =
    scan_loop env (pool_size env) 0 (record { tally = empty_tally; consumed = 0; shared = s })

unfoldable pub outcome_of : Text → ℕ → ℕ → Tally → PortOutcome
outcome_of host port quorum t = record {
  host = host;
  port = port;
  verdict = decide_quorum t.confirmations quorum t.refuted;
  confirmations = t.confirmations;
  quorum = quorum;
  open_labels = t.open_labels;
  banner = t.open_banner;
  service = t.open_service;
  version = t.open_version;
  refuted_by = t.refuted_by;
}

unfoldable pub scan_port : Env → Text → ℕ → Shared → PortOutcome × Shared
scan_port env target port s =
    let j = scan_job env s in (outcome_of target port env.quorum j.tally, j.shared)
