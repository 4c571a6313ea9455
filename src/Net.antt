-- ===== src/Net.antt =====
-- Go's `net.Conn`, as package `proxy` and package `relay` use it. What the peer sends arrives in
-- segments, and one `Read` returns at most one of them; what follows the last is an error. A
-- deadline that passes is such an error.
pub mod Reading
pub mod Socks
pub mod Server
pub mod Quiet
pub mod Ip
use route_fork.Base.{
  ℕ, zero, suc, ◌+◌, ◌-◌, ◌*◌, ◌/◌, ◌%◌, ◌^◌, ◌≤◌, ◌<◌, ◌≡◌, refl, sym, ap, ◌∙◌, subst, ◌≢◌, ◌↔◌,
  ◌⊎◌, inl, inr, Bool, true, false, not, ◌&&◌, ◌||◌, Option, none, some, List, [], ◌∷◌, ◌++◌, map,
  append-nil, append_assoc, arith, ltb, leb, ◌==◌, if◌then◌else◌, get_or, leb→le, ==_iff,
  Bool-cases, Option-cases, length, get_elem?, get_or, length-append, get_elem?-lt, All, All-append,
  All-left, All-right, All-mono, take, drop,
}
use route_fork.Base.Result.{Result, ok, err}
use route_fork.Text.{
  Text, codes, Lacks, ◌==ₜ◌, is_space, trim_left, trim_space, has_prefix, contains, cons_head,
  split, split_n, join, fields, lower, upper, to_lower, to_upper,
}

-- `bs[i]`, for a buffer that is longer than `bs` and was zero
abbrev pub byte : Text → ℕ → ℕ
byte bs i = get_or bs i 0

pub record Conn : Type 0 where
  pub segments : List Text
  pub closing : Text
  pub sent : Text
  -- what the calls of `Write` return from now on, an error with the number of the bytes that went
  -- out before it; success after the last
  pub writes : List (Option (ℕ × Text))

abbrev pub Reply : Type 0 → Type 0
Reply A = Result Text A × Conn

-- A call with a connection, which may end in an error.
abbrev pub Session : Type 0 → Type 0
Session A = Conn → Reply A

module _ {A B : Type 0} where
  -- `if err != nil { return err }` and the rest
  abbrev pub chain : Reply A → (A → Session B) → Reply B
  chain (ok a, c) rest = rest a c
  chain (err e, c) rest = (err e, c)

  infixl 5 ◌>>=◌
  abbrev pub ◌>>=◌ : Session A → (A → Session B) → Session B
  ◌>>=◌ m rest c = chain (m c) rest

infixl 5 ◌>>◌
abbrev pub ◌>>◌ : {B : Type 0} → Session Unit → Session B → Session B
m >> rest = m >>= λ _. rest

abbrev pub fail : {A : Type 0} → Text → Session A
fail e c = (err e, c)

abbrev pub return : {A : Type 0} → A → Session A
return a c = (ok a, c)

abbrev pub written : List (Option (ℕ × Text)) → Text → Conn → Reply Unit
written [] bs c = (ok tt, record c { sent = c.sent ++ bs })
written (none ∷ ws) bs c = (ok tt, record c { sent = c.sent ++ bs; writes = ws })
written (some (n, e) ∷ ws) bs c = (err e, record c { sent = c.sent ++ take n bs; writes = ws })

unfoldable pub write : Text → Session Unit
write bs c = written c.writes bs c

-- The first `n` bytes of the segments, or all that there are, and the segments left.
unfoldable pub take_bytes : ℕ → List Text → Text × List Text
take_bytes n [] = ([], [])
take_bytes n (s ∷ ss) =
    let more = take_bytes (n - length s) ss in
    if leb n (length s) then (take n s, drop n s ∷ ss) else (s ++ more.0, more.1)

-- io.ReadFull into `n` bytes, what it got on an error dropped
unfoldable pub read_full : ℕ → Session Text
unfolding take_bytes
read_full n c =
    let (got, rest) = take_bytes n c.segments in
    let c' = record c { segments = rest } in
    if length got == n
    then (ok got, c')
    else if (c.closing ==ₜ codes "EOF") && ltb 0 (length got)
    then (err (codes "unexpected EOF"), c')
    else (err c.closing, c')

-- The first segment with a byte in it, up to `n` bytes, and the segments left.
unfoldable pub take_segment : ℕ → List Text → Option (Text × List Text)
take_segment n [] = none
take_segment n ([] ∷ ss) = take_segment n ss
take_segment n ((b ∷ s) ∷ ss) = some (take n (b ∷ s), drop n (b ∷ s) ∷ ss)

-- conn.Read into `n` bytes, at least one
unfoldable pub read : ℕ → Session Text
unfolding take_segment
read n c = elim (take_segment n c.segments) [
  | none ↦ (err c.closing, record c { segments = [] })
  | some (bs, rest) ↦ (ok bs, record c { segments = rest })
]

abbrev pub concat : List Text → Text
concat [] = []
concat (s ∷ ss) = s ++ concat ss

-- What the peer sends from now on.
abbrev pub incoming : Conn → Text
incoming c = concat c.segments

read_full_test :
    read_full 3
      (record { segments = codes "ab" ∷ codes "cd" ∷ []; closing = []; sent = []; writes = [] })
    ≡ (ok (codes "abc"), record { segments = codes "d" ∷ []; closing = []; sent = []; writes = [] })
unfolding read_full
read_full_test = refl
