-- ===== src/Scanner/Expand/Hosts.antt =====
-- The hosts of an IPv4 network.
use route_fork.Base.{
  ℕ, zero, suc, ◌+◌, ◌-◌, ◌*◌, ◌/◌, ◌^◌, ◌≤◌, ◌<◌, ◌≡◌, refl, sym, ap, ◌∙◌, subst, inl, inr, true,
  false, some, List, [], ◌∷◌, map, arith, ltb, leb, ◌==◌, if◌then◌else◌, ==_iff, Bool-cases, length,
  take, drop,
}
use native.Mathlib.Nat.{
  two-pow-succ, mul-add-div_right, div-eq_of_lt, div-lt_iff_lt-mul, mul-le-mul_right,
  pow-le-pow_right, one-le-pow, add_assoc, add-zero,
}
use route_fork.Base.Result.{ok}
use route_fork.Text.{Text}
use route_fork.Net.Ip.{IsOctets, dotted}
use route_fork.Scanner.Ports.{count_up}
use route_fork.Scanner.Expand.{
  number, bytes_of, block_size, Network, network_of, contains_ip, addresses, drop_ends,
  expand_network,
}
use route_fork.Scanner.Expand.Addresses.{top, number-bytes_of, inc_ip-bytes_of}

pow_mul : (a b : ℕ) → 2 ^ a * 2 ^ b ≡ 2 ^ (a + b)
pow_mul zero b = grind arith
pow_mul (suc a) b = grind (arith, pow_mul a b, two-pow-succ a, two-pow-succ (a + b))

-- The address with the number `i`.
abbrev pub host : ℕ → Text
host i = dotted (bytes_of i)

-- An address in the block of the q-th quotient.
quotient : (q m r : ℕ) → r < m → (q * m + r) / m ≡ q
quotient q m r h =
    mul-add-div_right (omega arith) q r ∙ ap (λ x. q + x) (div-eq_of_lt h) ∙ omega arith

module _ (n : Network) (q m : ℕ) (size : block_size n.ones ≡ m) (base : n.ip ≡ bytes_of (q * m))
    (below : q * m + m ≤ top) (proper : m < top) (some_bit : 0 < m) where
  number-base : number n.ip / m ≡ q
  number-base =
      rw (base, number-bytes_of (q * m) (omega arith))
        (ap (λ x. x / m) (omega arith) ∙ quotient q m 0 some_bit)

  contains_ip-number :
      (i p r : ℕ) → r < m → number (bytes_of i) ≡ p * m + r → contains_ip n (bytes_of i) ≡ (p == q)
  unfolding contains_ip
  contains_ip-number i p r h e = rw (size, number-base, e, quotient p m r h) refl

  in_block : (r : ℕ) → r < m → contains_ip n (bytes_of (q * m + r)) ≡ true
  in_block r h =
      contains_ip-number (q * m + r) q r h (number-bytes_of (q * m + r) (omega arith))
      ∙ ground arith

  zero_block : q ≡ 0 → q * m + m ≡ top → ⊥
  zero_block e h = let none_before : q * m ≡ 0 = rw e (grind arith) in omega arith

  past_block : contains_ip n (bytes_of (q * m + m)) ≡ false
  unfolding bytes_of
  past_block = elim (Bool-cases (ltb (q * m + m) top)) [
    | inl t ↦
        contains_ip-number (q * m + m) (q + 1) 0 some_bit
          (number-bytes_of (q * m + m) (ground arith) ∙ grind arith)
        ∙ ground arith
    | inr t ↦
        let end : q * m + m ≡ top = ground arith in
        let first : number (bytes_of (q * m + m)) ≡ 0 * m + 0 = rw end (omega arith) in
        contains_ip-number (q * m + m) 0 0 some_bit first ∙ elim (Bool-cases (0 == q)) [
          | inl z ↦ absurd (zero_block (sym ((==_iff 0 q).0 z)) end)
          | inr z ↦ z
        ]
  ]

  from_address :
      (k r rounds : ℕ)
      → r + k ≡ m
      → k < rounds
      → addresses rounds n (bytes_of (q * m + r)) ≡ some (map host (count_up (q * m + r) k))
  unfolding addresses count_up
  from_address k r zero e h = absurd (omega arith)
  from_address zero r (suc rounds) e h =
      let end : r ≡ m = omega arith in rw (end, addresses, past_block) refl
  from_address (suc k) r (suc rounds) e h =
      rw
        (
          addresses,
          in_block r (omega arith),
          inc_ip-bytes_of (q * m + r) (omega arith),
          add_assoc (q * m) r 1,
          from_address k (r + 1) rounds (omega arith) (omega arith),
        )
        refl

length-hosts : (i k : ℕ) → length (map host (count_up i k)) ≡ k
unfolding count_up
length-hosts i zero = refl
length-hosts i (suc k) = ap suc (length-hosts (i + 1) k)

take-hosts : (i j k : ℕ) → j ≤ k → take j (map host (count_up i k)) ≡ map host (count_up i j)
unfolding count_up
take-hosts i zero k h = refl
take-hosts i (suc j) zero h = absurd (omega arith)
take-hosts i (suc j) (suc k) h = ap (λ hs. host i ∷ hs) (take-hosts (i + 1) j k (omega arith))

drop-hosts : (i k : ℕ) → drop 1 (map host (count_up i (suc k))) ≡ map host (count_up (i + 1) k)
unfolding count_up
drop-hosts i k = refl

-- All addresses of the network, from a mask of 31 bits on, or else all but the first and the last.
abbrev pub hosts_of : Network → List Text
hosts_of n =
    let size = block_size n.ones in
    if leb n.ones 30
    then map host (count_up (number n.ip + 1) (size - 2))
    else map host (count_up (number n.ip) size)

drop_ends-hosts :
    (ones i k : ℕ)
    → (2 ≤ 32 - ones → 4 ≤ k)
    → drop_ends ones (map host (count_up i k))
      ≡ (if leb ones 30 then map host (count_up (i + 1) (k - 2)) else map host (count_up i k))
unfolding drop_ends
drop_ends-hosts ones i k h = elim (Bool-cases (leb ones 30)) [
  | inl t ↦
      let big : 4 ≤ k = h (ground arith) in
      let shape : k ≡ suc (k - 1) = omega arith in
      let cut : ltb 1 (32 - ones) ≡ true = ground arith in
      let long : ltb 2 k ≡ true = ground arith in
      rw (t, length-hosts i k, cut, long)
        (ap (λ x. take (k - 2) (drop 1 (map host (count_up i x)))) shape
          ∙ ap (take (k - 2)) (drop-hosts i (k - 1))
          ∙ take-hosts (i + 1) (k - 2) (k - 1) (omega arith))
  | inr t ↦ let whole : ltb 1 (32 - ones) ≡ false = ground arith in rw (t, whole) refl
]

four_addresses : (ones : ℕ) → 2 ≤ 32 - ones → 4 ≤ block_size ones
four_addresses ones h = pow-le-pow_right {n = 2} (omega arith) h

module _ (n : Network) (q m : ℕ) (size : block_size n.ones ≡ m) (base : n.ip ≡ bytes_of (q * m))
    (below : q * m + m ≤ top) (proper : m < top) (some_bit : 0 < m) where
  expand_network-whole :
      (rounds : ℕ) → m < rounds → expand_network rounds n ≡ some (ok (hosts_of n))
  unfolding expand_network
  expand_network-whole rounds h =
      let first : number n.ip ≡ q * m = ap number base ∙ number-bytes_of (q * m) (omega arith) in
      let start : bytes_of (q * m + 0) ≡ n.ip = ap bytes_of (add-zero (q * m)) ∙ sym base in
      let all : addresses rounds n n.ip ≡ some (map host (count_up (q * m) m)) =
        subst (λ ip. addresses rounds n ip ≡ some (map host (count_up (q * m) m))) start
          (from_address n q m size base below proper some_bit m 0 rounds (omega arith) h
            ∙ ap (λ i. some (map host (count_up i m))) (add-zero (q * m))) in
      let ends =
        drop_ends-hosts n.ones (q * m) m (λ k. subst (λ x. 4 ≤ x) size (four_addresses n.ones k)) in
      rw (expand_network, all, first, size, ends) refl

pub number-lt : (ip : Text) → IsOctets ip → number ip < top
number-lt (a ∷ b ∷ c ∷ d ∷ []) (l, h) = omega (arith, h.0, h.1.0, h.1.1.0, h.1.1.1.0)
number-lt [] h = absurd (omega (arith, h.0))
number-lt (a ∷ []) h = absurd (omega (arith, h.0))
number-lt (a ∷ b ∷ []) h = absurd (omega (arith, h.0))
number-lt (a ∷ b ∷ c ∷ []) h = absurd (omega (arith, h.0))
number-lt (a ∷ b ∷ c ∷ d ∷ e ∷ ip) h = absurd (omega (arith, h.0))

pub network_of-hosts :
    (ip : Text) (ones rounds : ℕ)
    → IsOctets ip
    → 1 ≤ ones
    → ones ≤ 32
    → block_size ones < rounds
    → expand_network rounds (network_of ip ones) ≡ some (ok (hosts_of (network_of ip ones)))
unfolding network_of
network_of-hosts ip ones rounds h low high enough =
    let m = block_size ones in
    let q = number ip / m in
    let some_bit : 0 < m = one-le-pow (32 - ones) 2 (omega arith) in
    let total : 2 ^ ones * m ≡ top =
      let sum : ones + (32 - ones) ≡ 32 = omega arith in
      pow_mul ones (32 - ones) ∙ ap (λ x. 2 ^ x) sum in
    let small : q < 2 ^ ones =
      (div-lt_iff_lt-mul some_bit).1 (subst (λ x. number ip < x) (sym total) (number-lt ip h)) in
    let below : (q + 1) * m ≤ 2 ^ ones * m = mul-le-mul_right m (omega arith) in
    let half : m ≤ 2 ^ 31 = pow-le-pow_right {n = 2} (omega arith) {j = 31} (omega arith) in
    expand_network-whole (network_of ip ones) q m refl refl (grind arith) (omega arith) some_bit
      rounds enough
