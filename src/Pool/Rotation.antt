-- ===== src/Pool/Rotation.antt =====
-- Which proxies a client of `Next` and `Advance` is handed.
use route_fork.Base.{
  get_elem?_beyond, ℕ, zero, suc, ◌+◌, ◌%◌, ◌≤◌, ◌<◌, ◌≡◌, inl, inr, Bool, true, false, arith, leb,
  if◌then◌else◌, Bool-cases, length, get_elem?,
}
use native.Mathlib.Nat.{mod-eq_of_lt, mod_self, add-mod_left}
use route_fork.Pool.{Pool, next, advance}

-- A round of a client: take the current proxy, and move on.
unfoldable pub turn : Bool → Pool → Pool
unfolding next advance
turn wrap p = advance (next p wrap).0

unfoldable pub turns : Bool → ℕ → Pool → Pool
unfolding turn
turns wrap zero p = p
turns wrap (suc k) p = turns wrap k (turn wrap p)

-- The index is at most one past the last proxy, as it is after any whole number of rounds.
abbrev pub IsInRange : Pool → Type 0
IsInRange p = p.index ≤ length p.valid

turn-valid : (wrap : Bool) (p : Pool) → (turn wrap p).valid ≡ p.valid
unfolding turn
turn-valid wrap p = ground arith

-- The index that a wrapping round leaves.
turn-index :
    (p : Pool)
    → 0 < length p.valid
    → (turn true p).index ≡ (if leb (length p.valid) p.index then 1 else p.index + 1)
unfolding turn
turn-index p h = ground arith

wrap_index : (i n : ℕ) → 0 < n → i ≤ n → i % n ≡ (if leb n i then 0 else i)
wrap_index i n h k = elim (Bool-cases (leb n i)) [
  | inl t ↦ let e : i ≡ n = ground arith in rw (e, mod_self) (ground arith)
  | inr t ↦ rw t (mod-eq_of_lt (ground arith))
]

wrap_step : (i k n : ℕ) → i ≤ n → ((if leb n i then 1 else i + 1) + k) % n ≡ (i + suc k) % n
wrap_step i k n m = elim (Bool-cases (leb n i)) [
  | inl t ↦
      let e : i ≡ n = ground arith in
      let a : 1 + k ≡ suc k = omega arith in rw (t, e, add-mod_left, a)
  | inr t ↦ let a : i + 1 + k ≡ i + suc k = omega arith in rw (t, a)
]

next_wrap :
    (p : Pool)
    → 0 < length p.valid
    → (next p true).1 ≡ get_elem? p.valid (if leb (length p.valid) p.index then 0 else p.index)
unfolding next
next_wrap p h = ground arith

turn-IsInRange : (p : Pool) → 0 < length p.valid → IsInRange p → IsInRange (turn true p)
turn-IsInRange p h k = rw (turn-valid true p) (ground (arith, turn-index p h))

-- With `wrap` the pool is a ring: the proxy after k rounds is the one k places on, counted from the
-- index and around the end.
pub next-turns_wrap :
    (k : ℕ) (p : Pool)
    → 0 < length p.valid
    → IsInRange p
    → (next (turns true k p) true).1 ≡ get_elem? p.valid ((p.index + k) % length p.valid)
unfolding turns
next-turns_wrap zero p h r =
    let e : p.index + 0 ≡ p.index = omega arith in
    rw (next_wrap p h, e, wrap_index p.index (length p.valid) h r)
next-turns_wrap (suc k) p h r =
    let same = turn-valid true p in
    rw (next-turns_wrap k (turn true p) (rw same h) (turn-IsInRange p h r), same)
      (rw (turn-index p h, wrap_step p.index k (length p.valid) r))

next_once : (p : Pool) → (next p false).1 ≡ get_elem? p.valid p.index
unfolding next
next_once p = ground (arith, get_elem?_beyond p.valid p.index)

turn_once-index : (p : Pool) → (turn false p).index ≡ p.index + 1
unfolding turn
turn_once-index p = ground arith

-- Without `wrap` each proxy is handed out once, from the index on, and then none.
pub next-turns_once :
    (k : ℕ) (p : Pool) → (next (turns false k p) false).1 ≡ get_elem? p.valid (p.index + k)
unfolding turns
next-turns_once zero p = let e : p.index + 0 ≡ p.index = omega arith in rw (next_once p, e)
next-turns_once (suc k) p =
    let e : p.index + 1 + k ≡ p.index + suc k = omega arith in
    rw (next-turns_once k (turn false p), turn-valid false p, turn_once-index p, e)
