-- ===== src/Net/Reading.antt =====
-- What a read takes from the peer's bytes, however they arrive.
use route_fork.Base.{
  ℕ, ◌-◌, ◌≤◌, ◌≡◌, refl, sym, ap, ◌∙◌, inl, inr, Bool, true, false, ◌&&◌, Option, none, some, List,
  [], ◌∷◌, ◌++◌, append_assoc, arith, ltb, leb, ◌==◌, if◌then◌else◌, leb→le, Bool-cases, length,
  length-append,
}
use route_fork.Base.Result.{ok, err}
use route_fork.Text.{Text, codes, ◌==ₜ◌}
use route_fork.Net.{
  Conn, Session, Reply, chain, ◌>>=◌, return, fail, take_bytes, read_full, read, take_segment,
  write, written, concat, incoming,
}
use route_fork.Base.{not_leb, Option-cases, take, drop, take-drop, length-take, same_front}

module _ {A B : Type 0} (m : Session A) (rest : A → Session B) where
  -- A chain whose first call is known goes on from its result.
  pub >>=-eq :
      {c c' : Conn} {a : A} {r : Reply B} → m c ≡ (ok a, c') → rest a c' ≡ r → (m >>= rest) c ≡ r
  >>=-eq e h = rw e h

  -- A chain that succeeds had a first result.
  pub first_result :
      (c : Conn) {d : Conn} {b : B}
      → (m >>= rest) c ≡ (ok b, d)
      → (a : A) × (c' : Conn) × (m c ≡ (ok a, c')) × (rest a c' ≡ (ok b, d))
  first_result c h = by_result (m c) refl h
    where
      by_result :
          (r : Reply A) {d : Conn} {b : B}
          → m c ≡ r
          → chain r rest ≡ (ok b, d)
          → (a : A) × (c' : Conn) × (m c ≡ (ok a, c')) × (rest a c' ≡ (ok b, d))
      by_result (ok a, c') e k = (a, c', e, k)
      by_result (err x, c') e k = cc

take_bytes-concat :
    (n : ℕ) (ss : List Text) → (take_bytes n ss).0 ++ concat (take_bytes n ss).1 ≡ concat ss
unfolding take_bytes
take_bytes-concat n [] = refl
take_bytes-concat n (s ∷ ss) = elim (Bool-cases (leb n (length s))) [
  | inl e ↦ rw e (
      sym (append_assoc (take n s) (drop n s) (concat ss))
      ∙ ap (λ r. r ++ concat ss) (take-drop n s))
  | inr e ↦ rw e (
      append_assoc s (take_bytes (n - length s) ss).0 (concat (take_bytes (n - length s) ss).1)
      ∙ ap (λ r. s ++ r) (take_bytes-concat (n - length s) ss))
]

length-take_bytes :
    (n : ℕ) (ss : List Text) → n ≤ length (concat ss) → length (take_bytes n ss).0 ≡ n
unfolding take_bytes
length-take_bytes n [] h = omega arith
length-take_bytes n (s ∷ ss) h = elim (Bool-cases (leb n (length s))) [
  | inl e ↦ rw e (length-take n s (leb→le n (length s) e))
  | inr e ↦
      let more : n - length s ≤ length (concat ss) = omega (arith, length-append s (concat ss)) in
      rw e (
        omega (
          arith,
          length-append s (take_bytes (n - length s) ss).0,
          length-take_bytes (n - length s) ss more,
          not_leb n (length s) e,
        ))
]

-- ReadFull gets the next `n` bytes of a peer that sends so many, whatever segments they come in,
-- and leaves those after them.
pub read_full-lem :
    (n : ℕ) (bs rest : Text) (c : Conn)
    → incoming c ≡ bs ++ rest
    → length bs ≡ n
    → (ss : List Text) × (read_full n c ≡ (ok bs, record c { segments = ss })) × (concat ss ≡ rest)
unfolding read_full
read_full-lem n bs rest c e l =
    let t = take_bytes n c.segments in
    let full : length t.0 ≡ n =
      length-take_bytes n c.segments (omega (arith, length-append bs rest, ap (λ r. length r) e)) in
    let same = same_front t.0 bs (full ∙ sym l) (take_bytes-concat n c.segments ∙ e) in
    let test : (length t.0 == n) ≡ true = ground (arith, full) in (t.1, rw test (cc same.0), same.1)

pub reply_parts :
    {A : Type 0} (a b : A) (c d : Conn) → ◌≡◌ {A = Reply A} (ok a, c) (ok b, d) → (a ≡ b) × (c ≡ d)
reply_parts a b c d e = (cc, cc)

pub no_reply :
    {A : Type 0} {a : A} {e : Text} {c d : Conn} → ◌≡◌ {A = Reply A} (err e, c) (ok a, d) → ⊥
no_reply e = cc

-- What ReadFull returns came next from the peer.
pub read_full-took :
    (n : ℕ) (bs : Text) (c d : Conn)
    → read_full n c ≡ (ok bs, d)
    → (length bs ≡ n) × (incoming c ≡ bs ++ incoming d) × (d.sent ≡ c.sent)
unfolding read_full
read_full-took n bs c d h =
    let t = take_bytes n c.segments in
    elim (Bool-cases (length t.0 == n)) [
      | inl e ↦
          let same = reply_parts t.0 bs _ d (rw e at h) in
          rw (sym same.0, sym same.1) (ground arith, sym (take_bytes-concat n c.segments), refl)
      | inr e ↦ elim (Bool-cases ((c.closing ==ₜ codes "EOF") && ltb 0 (length t.0))) [
        | inl f ↦ absurd (no_reply (rw (e, f) at h))
        | inr f ↦ absurd (no_reply (rw (e, f) at h))
      ]
    ]

-- A write that nothing is wrong with goes out.
pub write-lem :
    (bs : Text) (c : Conn) → c.writes ≡ [] → write bs c ≡ (ok tt, record c { sent = c.sent ++ bs })
unfolding write
write-lem bs c e = rw e refl

-- A write takes nothing from the peer's bytes.
pub write-took : (bs : Text) (c d : Conn) → write bs c ≡ (ok tt, d) → incoming c ≡ incoming d
unfolding write
write-took bs c d h = by_writes c.writes h
  where
    by_writes :
        (ws : List (Option (ℕ × Text))) → written ws bs c ≡ (ok tt, d) → incoming c ≡ incoming d
    by_writes [] h = ap (λ e. incoming e) (reply_parts tt tt _ d h).1
    by_writes (none ∷ ws) h = ap (λ e. incoming e) (reply_parts tt tt _ d h).1
    by_writes (some (n, e) ∷ ws) h = absurd (no_reply h)

-- A test that is passed.
pub test_passed :
    (t : Bool) (e : Text) (c d : Conn)
    → (if t then return tt else fail e) c ≡ (ok tt, d)
    → (t ≡ true) × (incoming c ≡ incoming d)
test_passed true e c d h = (refl, ap (λ x. incoming x) (reply_parts tt tt c d h).1)
test_passed false e c d h = absurd (no_reply h)

-- A read gets what comes next of the segments.
pub read-lem :
    (n : ℕ) (bs : Text) (ss : List Text) (c : Conn)
    → take_segment n c.segments ≡ some (bs, ss)
    → read n c ≡ (ok bs, record c { segments = ss })
unfolding read
read-lem n bs ss c e = rw (e, read) refl

some_parts :
    (a a' : Text) (b b' : List Text)
    → ◌≡◌ {A = Option (Text × List Text)} (some (a, b)) (some (a', b'))
    → (a ≡ a') × (b ≡ b')
some_parts a a' b b' e = (cc, cc)

take_segment-concat :
    (n : ℕ) (ss rest : List Text) (bs : Text)
    → take_segment n ss ≡ some (bs, rest)
    → concat ss ≡ bs ++ concat rest
unfolding take_segment
take_segment-concat n [] rest bs h = cc
take_segment-concat n ([] ∷ ss) rest bs h = take_segment-concat n ss rest bs h
take_segment-concat n ((b ∷ s) ∷ ss) rest bs h =
    let same = some_parts (take n (b ∷ s)) bs (drop n (b ∷ s) ∷ ss) rest h in
    rw (sym same.0, sym same.1)
      (ap (λ r. r ++ concat ss) (sym (take-drop n (b ∷ s)))
        ∙ append_assoc (take n (b ∷ s)) (drop n (b ∷ s)) (concat ss))

-- What a read returns came next from the peer.
pub read-took :
    (n : ℕ) (bs : Text) (c d : Conn) → read n c ≡ (ok bs, d) → incoming c ≡ bs ++ incoming d
unfolding read
read-took n bs c d h = elim (Option-cases (take_segment n c.segments)) [
  | inl e ↦ absurd (no_reply (rw (e, read) at h))
  | inr ((got, rest), e) ↦
      let same = reply_parts got bs _ d (rw (e, read) at h) in
      rw (sym same.0, sym same.1) (take_segment-concat n c.segments rest got e)
]
