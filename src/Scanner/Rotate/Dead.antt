-- ===== src/Scanner/Rotate/Dead.antt =====
-- `markFailed` and `isFailed` of `RotateScan`: how often a dead proxy is reported.
use route_fork.Base.{
  ℕ, ◌≡◌, refl, sym, ap, ◌∙◌, inl, inr, Option, List, [], ◌∷◌, ◌++◌, map, arith, Bool-cases,
}
use route_fork.Text.{Text}
use route_fork.Proxy.{Proxy, address}
use route_fork.Proxy.Parse.{mem_text}
use route_fork.Proxy.Dedupe.{Distinct, Distinct-append, mem_text-append}
use route_fork.Scanner.Throttle.{Throttle}
use route_fork.Scanner.Batch.{Shared, mark_failed}
use route_fork.Scanner.Rotate.{RotateConfig, Schedule, job_env, rotate_scan}
use route_fork.Scanner.Rotate.Invariant.{IsInvariant, rotate_scan-P}

-- What the other jobs may do to the shared state between two looks at it: mark proxies, and use the
-- throttle.
pub data Interferes : Shared → Shared → Type 0 where
  rests : {s : Shared} → Interferes s s
  marks : (p : Proxy) {s t : Shared} → Interferes (mark_failed p s) t → Interferes s t
  paces :
      (u : Option Throttle) {s t : Shared}
      → Interferes (record s { throttle = u }) t
      → Interferes s t

abbrev pub addresses : List Proxy → List Text
addresses = map address

-- The failed set holds the addresses of the reported proxies, and each was reported once.
pub record ReportsOnce (s : Shared) : Type 0 where
  pub agree : (a : Text) → mem_text a s.failed_set ≡ mem_text a (addresses s.dead)
  pub distinct : Distinct (addresses s.dead)

addresses-append :
    (ps : List Proxy) (p : Proxy) → addresses (ps ++ p ∷ []) ≡ addresses ps ++ address p ∷ []
addresses-append [] p = refl
addresses-append (q ∷ ps) p = ap (λ r. address q ∷ r) (addresses-append ps p)

mark_failed-ReportsOnce : (p : Proxy) (s : Shared) → ReportsOnce s → ReportsOnce (mark_failed p s)
unfolding mark_failed mem_text
mark_failed-ReportsOnce p s v = elim (Bool-cases (mem_text (address p) s.failed_set)) [
  | inl t ↦ rw t v
  | inr t ↦ rw t (record {
    agree = λ a.
        rw (addresses-append s.dead p, mem_text-append a (addresses s.dead) (address p ∷ []))
          (ground (arith, v.agree a));
    distinct =
        rw addresses-append (
          Distinct-append (address p) (addresses s.dead) v.distinct
            (sym (v.agree (address p)) ∙ t));
  })
]

throttle-ReportsOnce :
    (u : Option Throttle) (s : Shared) → ReportsOnce s → ReportsOnce (record s { throttle = u })
throttle-ReportsOnce u s v = record { agree = v.agree; distinct = v.distinct }

Interferes-ReportsOnce : {s t : Shared} → Interferes s t → ReportsOnce s → ReportsOnce t
Interferes-ReportsOnce rests v = v
Interferes-ReportsOnce (marks p {s = s} i) v =
    Interferes-ReportsOnce i (mark_failed-ReportsOnce p s v)
Interferes-ReportsOnce (paces u {s = s} i) v = Interferes-ReportsOnce i (throttle-ReportsOnce u s v)

module _ (cfg : RotateConfig) (pool : List Proxy) (w : Schedule)
    (others-Interferes : (i k : ℕ) (s : Shared) → Interferes s (w.others i k s)) where
  ReportsOnce-IsInvariant : (i : ℕ) → IsInvariant (job_env cfg pool w i) ReportsOnce
  unfolding job_env
  ReportsOnce-IsInvariant i = record {
    paced = throttle-ReportsOnce;
    marked = λ k p e s h t. mark_failed-ReportsOnce p s;
    others = λ k s. Interferes-ReportsOnce (others-Interferes i k s);
  }

  -- Whatever the jobs that run at the same time do, a proxy address is reported dead at most once.
  pub rotate_scan-Distinct : Distinct (addresses (rotate_scan cfg pool w).1.dead)
  rotate_scan-Distinct =
      (rotate_scan-P cfg pool w ReportsOnce ReportsOnce-IsInvariant
        (record { agree = λ a. refl; distinct = tt })).distinct
