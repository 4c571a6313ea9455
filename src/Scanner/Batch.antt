-- ===== src/Scanner/Batch.antt =====
-- What `RotateScan` shares between its jobs, and how a job of scanner/rotate.go gathers and dials a
-- batch of proxies. A job meets each place of the pool at most once, so what a dial at the k-th
-- candidate yields, and what the clock shows there, are functions of k; `others` is what the other
-- jobs do to the shared state between two looks of this one at it, and may be anything.
pub mod Places
use route_fork.Base.{
  ℕ, zero, suc, ◌+◌, ◌-◌, ◌*◌, ◌/◌, ◌%◌, ◌^◌, ◌≤◌, ◌<◌, ◌≡◌, refl, sym, ap, ◌∙◌, subst, ◌≢◌, ◌↔◌,
  ◌⊎◌, inl, inr, Bool, true, false, not, ◌&&◌, ◌||◌, Option, none, some, List, [], ◌∷◌, ◌++◌, map,
  append-nil, append_assoc, arith, ltb, leb, ◌==◌, if◌then◌else◌, leb→le, ==_iff, Bool-cases,
  Option-cases, length, get_elem?, get_or, length-append, get_elem?-lt, All, All-append, All-left,
  All-right, All-mono,
}
use route_fork.Text.{
  Text, codes, Lacks, ◌==ₜ◌, is_space, trim_left, trim_space, has_prefix, contains, cons_head,
  split, split_n, join, fields, lower, upper, to_lower, to_upper,
}
use route_fork.Proxy.{Proxy, address, uri}
use route_fork.Proxy.Errors.{is_proxy_error, is_proxy_dead}
use route_fork.Proxy.Parse.{mem_text}
use route_fork.Scanner.Throttle.{Throttle, ready}

-- `failedSet`, the calls of `OnProxyDead` so far, and the throttle.
pub record Shared : Type 0 where
  pub failed_set : List Text
  pub dead : List Proxy
  pub throttle : Option Throttle

unfoldable pub is_failed : Shared → Proxy → Bool
unfolding mem_text
is_failed s p = mem_text (address p) s.failed_set

unfoldable pub mark_failed : Proxy → Shared → Shared
unfolding is_failed
mark_failed p s =
    if is_failed s p
    then s
    else record s { failed_set = address p ∷ s.failed_set; dead = s.dead ++ p ∷ [] }

-- What `dial` and the identification of the service on its connection come to. `cancelled` is a
-- dial that found the context done.
pub data Dialed : Type 0 where
  connected : (service version banner : Text) → Dialed
  failed : Text → Dialed
  cancelled : Dialed

pub record Env : Type 0 where
  pub pool : List Proxy
  pub start_idx : ℕ
  pub quorum : ℕ
  pub max_proxy_retries : ℕ
  pub label_hook : Option (Proxy → Text)
  pub dial : ℕ → Proxy → Dialed
  pub now : ℕ → ℕ
  pub others : ℕ → Shared → Shared
  -- `ctx.Err() != nil` before and after the batch of a round
  pub stopped_before : ℕ → Bool
  pub stopped_after : ℕ → Bool

abbrev pub pool_size : Env → ℕ
pool_size env = length env.pool

-- A proxy with its place in the order of probing.
abbrev pub Candidate : Type 0
Candidate = ℕ × Proxy

-- `RotateHooks.label`
unfoldable pub label : Option (Proxy → Text) → Proxy → Text
label none p = uri p
label (some f) p = f p

pub record Filling : Type 0 where
  pub consumed : ℕ
  pub batch : List Candidate
  pub throttled : List Candidate
  pub shared : Shared

unfoldable pub sort_candidate : Env → ℕ → Proxy → Filling → Filling
unfolding is_failed
sort_candidate env k p f =
    let s = env.others k f.shared in
    let (throttle, rested) = ready s.throttle (env.now k) (address p) in
    let s' = record s { throttle = throttle } in
    if is_failed s p
    then record f { consumed = k + 1; shared = s }
    else if not rested
    then record f { consumed = k + 1; shared = s'; throttled = f.throttled ++ (k, p) ∷ [] }
    else record f { consumed = k + 1; shared = s'; batch = f.batch ++ (k, p) ∷ [] }

-- The place is below the pool's size, so there is a proxy at it.
unfoldable pub examine : Env → Filling → Filling
unfolding sort_candidate
examine env f = elim (get_elem? env.pool ((env.start_idx + f.consumed) % pool_size env)) [
  | none ↦ record f { consumed = f.consumed + 1 }
  | some p ↦ sort_candidate env f.consumed p f
]

-- The first inner loop; `left` is `poolSize - consumed`.
unfoldable pub fill : Env → ℕ → ℕ → Filling → Filling
unfolding examine
fill env batch_n zero f = f
fill env batch_n (suc left) f =
    let next = fill env batch_n left (examine env f) in
    if leb batch_n (length f.batch) then f else next

-- The second inner loop.
unfoldable pub top_up : ℕ → List Candidate → List Candidate → List Candidate
top_up batch_n batch [] = batch
top_up batch_n batch (t ∷ throttled) =
    let more = top_up batch_n (batch ++ t ∷ []) throttled in
    if leb batch_n (length batch) then batch else more

pub data Vote : Type 0 where
  opened refused errored : Vote

pub record VoteResult : Type 0 where
  pub vote : Vote
  pub banner : Text
  pub service : Text
  pub version : Text
  pub label_text : Text
  pub addr : Text

plain_vote : Vote → Text → VoteResult
plain_vote v addr = record {
  vote = v;
  banner = [];
  service = [];
  version = [];
  label_text = [];
  addr = addr;
}

-- The goroutine of one dial: its vote,
unfoldable pub vote_of : Env → Candidate → VoteResult
unfolding label plain_vote
vote_of env (k, p) = elim (env.dial k p) [
  | cancelled ↦ plain_vote errored []
  | failed e ↦
      if is_proxy_error (address p) (some e)
      then plain_vote errored (address p)
      else plain_vote refused (address p)
  | connected service version banner ↦ record {
    vote = opened;
    banner = banner;
    service = service;
    version = version;
    label_text = label env.label_hook p;
    addr = address p;
  }
]

-- and what it does to the shared state.
unfoldable pub mark_dial : Env → Candidate → Shared → Shared
unfolding mark_failed
mark_dial env (k, p) s = elim (env.dial k p) [
  | failed e ↦
      if is_proxy_error (address p) (some e) && is_proxy_dead (address p) (some e)
      then mark_failed p s
      else s
  | _ ↦ s
]

-- The dials end in some order; the other jobs' part in it is `others`.
unfoldable pub mark_dials : Env → List Candidate → Shared → Shared
unfolding mark_dial
mark_dials env [] s = s
mark_dials env (c ∷ cs) s = mark_dials env cs (mark_dial env c s)
