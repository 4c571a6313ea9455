-- ===== src/Net/Quiet.antt =====
-- Calls that write nothing to a connection.
use route_fork.Base.{
  ℕ, ◌≡◌, refl, ◌∙◌, ◌⊎◌, inl, inr, Bool, true, false, ◌&&◌, Option, none, some, List, [], ◌∷◌,
  ◌++◌, ltb, ◌==◌, if◌then◌else◌, Bool-cases, length, take,
}
use route_fork.Base.Result.{ok, err}
use route_fork.Text.{Text, codes, ◌==ₜ◌}
use route_fork.Net.{
  Conn, Session, Reply, chain, ◌>>=◌, fail, return, write, written, read_full, take_bytes,
}

pub record IsQuiet {A : Type 0} (m : Session A) : Type 0 where
  pub keeps : (c : Conn) → (m c).1.sent ≡ c.sent

module _ {A B : Type 0} {m : Session A} {rest : A → Session B} where
  pub >>=-IsQuiet : IsQuiet m → ((a : A) → IsQuiet (rest a)) → IsQuiet (m >>= rest)
  >>=-IsQuiet qm qr = record { keeps = λ c. by_reply c (m c) (qm.keeps c) }
    where
      by_reply : (c : Conn) (r : Reply A) → r.1.sent ≡ c.sent → (chain r rest).1.sent ≡ c.sent
      by_reply c (ok a, c') q = (qr a).keeps c' ∙ q
      by_reply c (err e, c') q = q

module _ {A : Type 0} where
  pub if-IsQuiet :
      (t : Bool) {m n : Session A} → IsQuiet m → IsQuiet n → IsQuiet (if t then m else n)
  if-IsQuiet true qm qn = qm
  if-IsQuiet false qm qn = qn

  pub return-IsQuiet : (a : A) → IsQuiet (return a)
  return-IsQuiet a = record { keeps = λ c. refl }

pub fail-IsQuiet : (A : Type 0) (e : Text) → IsQuiet {A = A} (fail e)
fail-IsQuiet A e = record { keeps = λ c. refl }

pub read_full-IsQuiet : (n : ℕ) → IsQuiet (read_full n)
unfolding read_full
read_full-IsQuiet n = record { keeps = keeps }
  where
    keeps : (c : Conn) → (read_full n c).1.sent ≡ c.sent
    keeps c = elim (Bool-cases (length (take_bytes n c.segments).0 == n)) [
      | inl e ↦ rw e refl
      | inr e ↦
          elim (Bool-cases
            ((c.closing ==ₜ codes "EOF") && ltb 0 (length (take_bytes n c.segments).0))) [
              | inl f ↦ rw (e, f) refl
              | inr f ↦ rw (e, f) refl
            ]
    ]

-- A write that fails sends a front of its bytes, and any other all of them.
pub write-sent :
    (bs : Text) (c : Conn)
    → ((n : ℕ) × (e : Text) × ((write bs c).0 ≡ err e)
        × ((write bs c).1.sent ≡ c.sent ++ take n bs))
      ⊎ (((write bs c).0 ≡ ok tt) × ((write bs c).1.sent ≡ c.sent ++ bs))
unfolding write
write-sent bs c = by_writes c.writes
  where
    by_writes :
        (ws : List (Option (ℕ × Text)))
        → ((n : ℕ) × (e : Text) × ((written ws bs c).0 ≡ err e)
            × ((written ws bs c).1.sent ≡ c.sent ++ take n bs))
          ⊎ (((written ws bs c).0 ≡ ok tt) × ((written ws bs c).1.sent ≡ c.sent ++ bs))
    by_writes [] = inr (refl, refl)
    by_writes (none ∷ ws) = inr (refl, refl)
    by_writes (some (n, e) ∷ ws) = inl (n, e, refl, refl)
