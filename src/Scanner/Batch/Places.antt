-- ===== src/Scanner/Batch/Places.antt =====
-- The places that a batch takes from the pool: within range and never twice.
use route_fork.Base.{
  ℕ, zero, suc, ◌+◌, ◌%◌, ◌≤◌, ◌<◌, ◌≡◌, sym, ◌≢◌, ◌⊎◌, inl, inr, none, some, List, [], ◌∷◌, ◌++◌,
  append-nil, append_assoc, arith, leb, Bool-cases, Option-cases, length, get_elem?, All,
  All-append, All-left, All-mono,
}
use route_fork.Proxy.{Proxy}
use route_fork.Scanner.Batch.{
  Env, Candidate, Filling, pool_size, sort_candidate, examine, fill, top_up,
}

-- No place stands twice.
abbrev pub Different : List Candidate → Type 0
Different [] = Unit
Different (c ∷ cs) = All (λ d. d.0 ≢ c.0) cs × Different cs

-- The candidate is the proxy at its place, counted from the job's start and around the pool's end.
abbrev pub IsPlace : Env → Candidate → Type 0
IsPlace env c = get_elem? env.pool ((env.start_idx + c.0) % pool_size env) ≡ some c.1

abbrev pub IsWithin : Env → ℕ → ℕ → Candidate → Type 0
IsWithin env lo hi c = (lo ≤ c.0) × (c.0 < hi) × IsPlace env c

abbrev pub IsTaken : Env → ℕ → ℕ → List Candidate → Type 0
IsTaken env lo hi cs = Different cs × All (IsWithin env lo hi) cs

All-insert_mid {κ} :
    (P : Candidate → Type κ) (a b : List Candidate) (c : Candidate)
    → All P (a ++ b)
    → P c
    → All P (a ++ c ∷ b)
All-insert_mid P [] b c h p = (p, h)
All-insert_mid P (x ∷ a) b c h p = (h.0, All-insert_mid P a b c h.1 p)

Different-insert :
    (a b : List Candidate) (c : Candidate)
    → Different (a ++ b)
    → All (λ d. d.0 ≢ c.0) (a ++ b)
    → Different (a ++ c ∷ b)
Different-insert [] b c d h = (h, d)
Different-insert (x ∷ a) b c d h =
    (All-insert_mid (λ e. e.0 ≢ x.0) a b c d.0 (λ e. h.0 (sym e)), Different-insert a b c d.1 h.1)

Different-left : (a b : List Candidate) → Different (a ++ b) → Different a
Different-left [] b d = tt
Different-left (x ∷ a) b d = (All-left _ a b d.0, Different-left a b d.1)

Different-append :
    (a b : List Candidate)
    → Different a
    → Different b
    → All (λ c. All (λ d. d.0 ≢ c.0) b) a
    → Different (a ++ b)
Different-append [] b d e h = e
Different-append (x ∷ a) b d e h = (All-append _ a b d.0 h.0, Different-append a b d.1 e h.1)

module _ (env : Env) where
  IsTaken-insert :
      (lo k : ℕ) (p : Proxy) (a b : List Candidate)
      → lo ≤ k
      → IsPlace env (k, p)
      → IsTaken env lo k (a ++ b)
      → IsTaken env lo (k + 1) (a ++ (k, p) ∷ b)
  IsTaken-insert lo k p a b h place t = (
    Different-insert a b (k, p) t.0 (All-mono (λ d w e. absurd (omega (arith, w.1))) (a ++ b) t.1),
    All-insert_mid (IsWithin env lo (k + 1)) a b (k, p)
        (All-mono (λ d w. (w.0, omega (arith, w.1), w.2)) (a ++ b) t.1) (h, omega arith, place),
  )

  pub IsTaken-widen :
      (lo hi lo' hi' : ℕ) (cs : List Candidate)
      → lo' ≤ lo
      → hi ≤ hi'
      → IsTaken env lo hi cs
      → IsTaken env lo' hi' cs
  IsTaken-widen lo hi lo' hi' cs h k t =
      (t.0, All-mono (λ d w. (omega (arith, w.0), omega (arith, w.1), w.2)) cs t.1)

  pub IsTaken-append :
      (lo mid hi : ℕ) (a b : List Candidate)
      → lo ≤ mid
      → mid ≤ hi
      → IsTaken env lo mid a
      → IsTaken env mid hi b
      → IsTaken env lo hi (a ++ b)
  IsTaken-append lo mid hi a b h k s t = (
    Different-append a b s.0 t.0
        (All-mono (λ c w. All-mono (λ d v e. absurd (omega (arith, w.1, v.0))) b t.1) a s.1),
    All-append _ a b (IsTaken-widen lo mid lo hi a (omega arith) k s).1
        (IsTaken-widen mid hi lo hi b h (omega arith) t).1,
  )

  -- The batch and the resting proxies of a filling hold places from `lo` on.
  pub record IsFilled (lo : ℕ) (f : Filling) : Type 0 where
    pub low : lo ≤ f.consumed
    pub taken : IsTaken env lo f.consumed (f.batch ++ f.throttled)

  sort_candidate-consumed :
      (k : ℕ) (p : Proxy) (f : Filling) → (sort_candidate env k p f).consumed ≡ k + 1
  unfolding sort_candidate
  sort_candidate-consumed k p f = ground arith

  -- A candidate is passed over, set aside or taken.
  abbrev Sorted : ℕ → Proxy → Filling → Filling → Type 0
  Sorted k p f g =
      ((g.batch ≡ f.batch) × (g.throttled ≡ f.throttled))
      ⊎ (((g.batch ≡ f.batch) × (g.throttled ≡ f.throttled ++ (k, p) ∷ []))
          ⊎ ((g.batch ≡ f.batch ++ (k, p) ∷ []) × (g.throttled ≡ f.throttled)))

  sort_candidate-Sorted :
      (k : ℕ) (p : Proxy) (f : Filling) → Sorted k p f (sort_candidate env k p f)
  unfolding sort_candidate
  sort_candidate-Sorted k p f = ground arith

  Sorted-IsFilled :
      (lo : ℕ) (p : Proxy) (f g : Filling)
      → g.consumed ≡ f.consumed + 1
      → IsPlace env (f.consumed, p)
      → IsFilled lo f
      → Sorted f.consumed p f g
      → IsFilled lo g
  Sorted-IsFilled lo p f g e place v (inl (b, t)) = record {
    low = omega (arith, v.low);
    taken =
        rw (e, b, t)
          (IsTaken-widen lo f.consumed lo (f.consumed + 1) (f.batch ++ f.throttled) (omega arith)
            (omega arith) v.taken);
  }
  Sorted-IsFilled lo p f g e place v (inr (inl (b, t))) = record {
    low = omega (arith, v.low);
    taken =
        rw (e, b, t, ← append_assoc f.batch f.throttled ((f.consumed, p) ∷ []))
          (IsTaken-insert lo f.consumed p (f.batch ++ f.throttled) [] v.low place
            (rw (append-nil (f.batch ++ f.throttled)) v.taken));
  }
  Sorted-IsFilled lo p f g e place v (inr (inr (b, t))) = record {
    low = omega (arith, v.low);
    taken =
        rw (e, b, t, append_assoc f.batch ((f.consumed, p) ∷ []) f.throttled)
          (IsTaken-insert lo f.consumed p f.batch f.throttled v.low place v.taken);
  }

  pub examine-none :
      (f : Filling)
      → get_elem? env.pool ((env.start_idx + f.consumed) % pool_size env) ≡ none
      → examine env f ≡ record f { consumed = f.consumed + 1 }
  unfolding examine
  examine-none f e = rw (e, examine)

  pub examine-some :
      (f : Filling) (p : Proxy)
      → IsPlace env (f.consumed, p)
      → examine env f ≡ sort_candidate env f.consumed p f
  unfolding examine
  examine-some f p e = rw (e, examine)

  pub examine-consumed : (f : Filling) → (examine env f).consumed ≡ f.consumed + 1
  examine-consumed f =
      elim (Option-cases (get_elem? env.pool ((env.start_idx + f.consumed) % pool_size env))) [
        | inl e ↦ rw (examine-none f e)
        | inr (p, e) ↦ rw (examine-some f p e) (sort_candidate-consumed f.consumed p f)
      ]

  examine-IsFilled : (lo : ℕ) (f : Filling) → IsFilled lo f → IsFilled lo (examine env f)
  examine-IsFilled lo f v =
      elim (Option-cases (get_elem? env.pool ((env.start_idx + f.consumed) % pool_size env))) [
        | inl e ↦ rw (examine-none f e) (record {
          low = omega (arith, v.low);
          taken =
              IsTaken-widen lo f.consumed lo (f.consumed + 1) (f.batch ++ f.throttled) (omega arith)
                (omega arith) v.taken;
        })
        | inr (p, e) ↦ rw (examine-some f p e) (
            Sorted-IsFilled lo p f (sort_candidate env f.consumed p f)
              (sort_candidate-consumed f.consumed p f) e v (sort_candidate-Sorted f.consumed p f))
      ]

  -- The first inner loop keeps this, and goes on by at most the places that are left.
  pub fill-IsFilled :
      (lo n left : ℕ) (f : Filling) → IsFilled lo f → IsFilled lo (fill env n left f)
  unfolding fill
  fill-IsFilled lo n zero f v = v
  fill-IsFilled lo n (suc left) f v = elim (Bool-cases (leb n (length f.batch))) [
    | inl e ↦ rw e v
    | inr e ↦ rw e (fill-IsFilled lo n left (examine env f) (examine-IsFilled lo f v))
  ]

  pub fill-consumed :
      (n left : ℕ) (f : Filling)
      → (f.consumed ≤ (fill env n left f).consumed)
        × ((fill env n left f).consumed ≤ f.consumed + left)
  unfolding fill
  fill-consumed n zero f = omega arith
  fill-consumed n (suc left) f =
      ground (arith, fill-consumed n left (examine env f), examine-consumed f)

  -- A batch that is not full yet takes at least one place more, if one is left.
  pub fill_grows :
      (n left : ℕ) (f : Filling)
      → length f.batch < n
      → 0 < left
      → f.consumed < (fill env n left f).consumed
  unfolding fill
  fill_grows n zero f h k = absurd (omega arith)
  fill_grows n (suc left) f h k =
      ground (arith, fill-consumed n left (examine env f), examine-consumed f)

  pub top_up-IsTaken :
      (lo hi n : ℕ) (batch throttled : List Candidate)
      → IsTaken env lo hi (batch ++ throttled)
      → IsTaken env lo hi (top_up n batch throttled)
  unfolding top_up
  top_up-IsTaken lo hi n batch [] t = rw (append-nil batch) at t
  top_up-IsTaken lo hi n batch (c ∷ throttled) t = elim (Bool-cases (leb n (length batch))) [
    | inl e ↦ rw e (Different-left batch (c ∷ throttled) t.0, All-left _ batch (c ∷ throttled) t.1)
    | inr e ↦ rw e (
        top_up-IsTaken lo hi n (batch ++ c ∷ []) throttled
          (rw (append_assoc batch (c ∷ []) throttled) t))
  ]
