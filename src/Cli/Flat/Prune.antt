-- ===== src/Cli/Flat/Prune.antt =====
-- What a built-in scan of cli/flat.go does to the pool.
use route_fork.Base.{
  ℕ, suc, ◌≡◌, refl, sym, subst, inl, inr, true, false, Option, none, some, List, [], ◌∷◌, map,
  arith, ◌==◌, Bool-cases, length, All, All-mono,
}
use route_fork.Base.Int.{ℤ}
use route_fork.Base.Result.{Result, ok, err}
use route_fork.Text.{Text, ◌==ₜ◌}
use route_fork.Text.Search.{eq_of_==ₜ}
use route_fork.Proxy.{Proxy, address}
use route_fork.Proxy.Parse.{mem_text}
use route_fork.Pool.{Pool, valid_list, set_valid}
use route_fork.Scanner.Ports.{PortError, parse_ports}
use route_fork.Scanner.Rotate.{Schedule}
use route_fork.Scanner.Run.{Scanned, run_scan}
use route_fork.Scanner.Run.Deaths.{Killed, KillsOnly, AllKilled, run_scan-AllKilled}
use route_fork.Cli.Output.{ScanResult}
use route_fork.Cli.Flat.{
  FlatWorld, flat_request, flat_world, is_dead, survivors, prune, results_of, flat_run_builtin,
}

-- Proxies before and after the removal of some, each for a proxy of its address through which a
-- dial of the scan failed as on a dead one.
pub data Prunes (w : Schedule) : List Proxy → List Proxy → Type 0 where
  at_end : Prunes w [] []
  keeps : (p : Proxy) {ps qs : List Proxy} → Prunes w ps qs → Prunes w (p ∷ ps) (p ∷ qs)
  drops :
      (p q : Proxy) {ps qs : List Proxy}
      → Killed w q
      → address q ≡ address p
      → Prunes w ps qs
      → Prunes w (p ∷ ps) qs

-- The pool is as it was, or has lost such proxies and begins anew with the first.
pub data Pruned (w : Schedule) (pl pl' : Pool) : Type 0 where
  untouched : pl' ≡ pl → Pruned w pl pl'
  pruned : Prunes w pl.valid pl'.valid → pl'.failed ≡ pl.failed → pl'.index ≡ 0 → Pruned w pl pl'

dead_one :
    (w : Schedule) (a : Text) (dead : List Proxy)
    → All (Killed w) dead
    → mem_text a (map address dead) ≡ true
    → (q : Proxy) × Killed w q × (address q ≡ a)
unfolding mem_text
dead_one w a [] h e = cc
dead_one w a (q ∷ dead) h e = elim (Bool-cases (a ==ₜ address q)) [
  | inl t ↦ (q, h.0, sym (eq_of_==ₜ a (address q) t))
  | inr t ↦ dead_one w a dead h.1 (rw t at e)
]

survivors-Prunes :
    (w : Schedule) (dead ps : List Proxy) → All (Killed w) dead → Prunes w ps (survivors dead ps)
unfolding survivors
survivors-Prunes w dead [] h = at_end
survivors-Prunes w dead (p ∷ ps) h = elim (Bool-cases (is_dead dead p)) [
  | inl e ↦
      let (q, k, same) = dead_one w (address p) dead h e in
      rw e (drops p q k same (survivors-Prunes w dead ps h))
  | inr e ↦ rw e (keeps p (survivors-Prunes w dead ps h))
]

prune-Pruned :
    (w : Schedule) (dead : List Proxy) (pl : Pool)
    → All (Killed w) dead
    → Pruned w pl (prune dead pl)
unfolding prune set_valid valid_list
prune-Pruned w [] pl h = untouched refl
prune-Pruned w (d ∷ dead) pl h =
    let some_dead : (suc (length dead) == 0) ≡ false = ground arith in
    rw some_dead (pruned (survivors-Prunes w (d ∷ dead) pl.valid h) refl refl)

Kept : Schedule → Pool → Option (List ScanResult × Pool) → Type 0
Kept w pl none = Unit
Kept w pl (some r) = Pruned w pl r.1

flat_run_builtin-Kept :
    (w : FlatWorld) (k : ℕ) (pl : Pool) (target ports : Text) (confirm : ℤ)
    → KillsOnly (w.schedule k)
    → Kept (w.schedule k) pl (flat_run_builtin w k pl target ports confirm)
unfolding flat_run_builtin Kept
flat_run_builtin-Kept w k pl target ports confirm kills = by_ports (parse_ports ports)
  where
    by_scan :
        (o : Option Scanned)
        → AllKilled (flat_request w k target [] confirm) (flat_world w k pl) (λ i. kills) o
        → Kept
            (w.schedule k)
            pl
            (elim o [ none ↦ none | some s ↦ some (results_of s.results, prune s.dead pl) ])
    by_scan none h = tt
    by_scan (some s) h = prune-Pruned (w.schedule k) s.dead pl (All-mono (λ p x. x.1) s.dead h)

    by_ports :
        (r : Result PortError (List ℕ))
        → Kept (w.schedule k) pl (elim r [
          | err e ↦ some ([], pl)
          | ok [] ↦ some ([], pl)
          | ok (p ∷ parsed) ↦
              (elim (run_scan (flat_request w k target (p ∷ parsed) confirm) (flat_world w k pl)) [
                | none ↦ none
                | some s ↦ some (results_of s.results, prune s.dead pl)
              ])
        ])
    by_ports (err e) = untouched refl
    by_ports (ok []) = untouched refl
    by_ports (ok (p ∷ parsed)) =
        let req = flat_request w k target (p ∷ parsed) confirm in
        by_scan (run_scan req (flat_world w k pl))
          (run_scan-AllKilled req (flat_world w k pl) (λ i. kills))

Kept-result :
    (w : Schedule) (pl pl' : Pool) (results : List ScanResult) (o : Option (List ScanResult × Pool))
    → Kept w pl o
    → o ≡ some (results, pl')
    → Pruned w pl pl'
unfolding Kept
Kept-result w pl pl' results none h e = cc
Kept-result w pl pl' results (some r) h e = subst (Pruned w pl) (cc e) h

-- After a built-in scan the pool has kept its proxies and their order, but for proxies of an address
-- through which a dial of this scan failed as on a dead proxy, if the jobs that run at the same time
-- report no other proxies; the failed ones are as they were, and it begins anew if some are gone.
pub flat_run_builtin-Pruned :
    (w : FlatWorld) (k : ℕ) (pl pl' : Pool) (target ports : Text) (confirm : ℤ)
    (results : List ScanResult)
    → KillsOnly (w.schedule k)
    → flat_run_builtin w k pl target ports confirm ≡ some (results, pl')
    → Pruned (w.schedule k) pl pl'
flat_run_builtin-Pruned w k pl pl' target ports confirm results kills e =
    Kept-result (w.schedule k) pl pl' results _
      (flat_run_builtin-Kept w k pl target ports confirm kills) e
