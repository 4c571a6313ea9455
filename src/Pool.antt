-- ===== src/Pool.antt =====
-- The package `pool` (pool/pool.go). Each method holds the pool's lock from its first to its last
-- access, so it is one step; a method returns the pool after it, with its result where it has one.
pub mod Rotation
mod Examples
use route_fork.Base.{
  ℕ, zero, suc, ◌+◌, ◌-◌, ◌*◌, ◌/◌, ◌%◌, ◌^◌, ◌≤◌, ◌<◌, ◌≡◌, refl, sym, ap, ◌∙◌, subst, ◌≢◌, ◌↔◌,
  ◌⊎◌, inl, inr, Bool, true, false, not, ◌&&◌, ◌||◌, Option, none, some, List, [], ◌∷◌, ◌++◌, map,
  append-nil, append_assoc, arith, ltb, leb, ◌==◌, if◌then◌else◌, leb→le, ==_iff, Bool-cases,
  Option-cases, length, get_elem?, get_or, length-append, get_elem?-lt, All, All-append, All-left,
  All-right, All-mono,
}
use route_fork.Text.{
  Text, codes, Lacks, ◌==ₜ◌, is_space, trim_left, trim_space, has_prefix, contains, cons_head,
  split, split_n, join, fields, lower, upper, to_lower, to_upper,
}
use route_fork.Proxy.{Proxy, new_proxy}

pub record Pool : Type 0 where
  pub valid : List Proxy
  pub failed : List Proxy
  pub index : ℕ

unfoldable pub new : Pool
new = record { valid = []; failed = []; index = 0 }

unfoldable pub add_valid : Pool → Proxy → Pool
add_valid p px = record p { valid = p.valid ++ px ∷ [] }

unfoldable pub add_failed : Pool → Proxy → Pool
add_failed p px = record p { failed = p.failed ++ px ∷ [] }

unfoldable pub next : Pool → Bool → Pool × Option Proxy
next p wrap =
    if length p.valid == 0
    then (p, none)
    else if leb (length p.valid) p.index
    then (if not wrap then (p, none) else (record p { index = 0 }, get_elem? p.valid 0))
    else (p, get_elem? p.valid p.index)

unfoldable pub advance : Pool → Pool
advance p = record p { index = p.index + 1 }

-- The copies that `Valid` and `Failed` return; the lock is not held on them.
unfoldable pub valid_list : Pool → List Proxy
valid_list p = p.valid

unfoldable pub failed_list : Pool → List Proxy
failed_list p = p.failed

unfoldable pub valid_count : Pool → ℕ
valid_count p = length p.valid

unfoldable pub failed_count : Pool → ℕ
failed_count p = length p.failed

unfoldable pub clear_valid : Pool → Pool
clear_valid p = record p { valid = []; index = 0 }

unfoldable pub clear_failed : Pool → Pool
clear_failed p = record p { failed = [] }

unfoldable pub reset_index : Pool → Pool
reset_index p = record p { index = 0 }

unfoldable pub set_valid : Pool → List Proxy → Pool
set_valid p proxies = record p { valid = proxies; index = 0 }
