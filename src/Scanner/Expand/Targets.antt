-- ===== src/Scanner/Expand/Targets.antt =====
-- What `ExpandTarget` comes to on a text that is an IPv4 network.
use route_fork.Base.{
  ℕ, zero, suc, ◌+◌, ◌*◌, ◌/◌, ◌^◌, ◌≤◌, ◌<◌, ◌≡◌, refl, subst, inl, inr, true, false, Option, none,
  some, [], ◌∷◌, ◌++◌, arith, ltb, ◌==◌, if◌then◌else◌, ==_iff, Bool-cases,
}
use native.Mathlib.Nat.{pow-le-pow_right, div-eq_of_lt, div-mul-le_self}
use route_fork.Base.Result.{ok}
use route_fork.Text.{Text, Lacks}
use route_fork.Text.Parts.{split_n-append, contains-append}
use route_fork.Net.Ip.{IsOctets, parse_ipv4, parse_ipv4-IsOctets}
use route_fork.Scanner.Expand.{
  number, bytes_of, block_size, Network, network_of, mask_from, parse_mask, parse_cidr4, is_ipv6,
  contains_ip, addresses, Expanded, expand_network, expand_cidr, expand_target,
}
use route_fork.Scanner.Expand.Addresses.{top, number-bytes_of, inc_ip-bytes_of}
use route_fork.Scanner.Expand.Hosts.{number-lt, hosts_of, network_of-hosts}

contains_ip-all :
    (n : Network) (i : ℕ)
    → n.ones ≡ 0
    → number n.ip < top
    → i < top
    → contains_ip n (bytes_of i) ≡ true
unfolding contains_ip
contains_ip-all n i e h k = rw (e, number-bytes_of i k, div-eq_of_lt k, div-eq_of_lt h) refl

-- The loop of a network without a mask never ends: its address wraps.
addresses-endless :
    (rounds i : ℕ) (n : Network)
    → n.ones ≡ 0
    → number n.ip < top
    → i < top
    → addresses rounds n (bytes_of i) ≡ none
unfolding addresses bytes_of
addresses-endless zero i n e h k = refl
addresses-endless (suc rounds) i n e h k =
    rw (addresses, contains_ip-all n i e h k, inc_ip-bytes_of i k)
      (elim (Bool-cases (ltb (i + 1) top)) [
        | inl t ↦ rw (addresses-endless rounds (i + 1) n e h (ground arith)) refl
        | inr t ↦
            let end : i + 1 ≡ top = ground arith in
            rw (end, addresses-endless rounds 0 n e h (omega arith)) refl
      ])

-- The text of a network: an address, a slash and the digits of the mask.
pub record IsNetwork (target : Text) (n : Network) : Type 0 where
  pub addr : Text
  pub mask : Text
  pub shape : target ≡ addr ++ b'/' ∷ mask
  pub no_slash : Lacks b'/' addr
  pub not_ipv6 : is_ipv6 addr ≡ false
  pub reads : parse_cidr4 addr mask ≡ some n

parse_mask-le : (s : Text) (n : ℕ) → parse_mask s ≡ some n → n ≤ 32
unfolding parse_mask
parse_mask-le [] n e = cc
parse_mask-le (c ∷ s) n e = from_digits (mask_from 0 (c ∷ s)) e
  where
    from_digits :
        (o : Option ℕ)
        → elim o [ none ↦ none | some n ↦ if ltb 32 n then none else some n ] ≡ some n
        → n ≤ 32
    from_digits none e = cc
    from_digits (some k) e = ground (arith, e)

-- What `parse_cidr4` reads.
record Parsed (n : Network) : Type 0 where
  ip : Text
  ones : ℕ
  bytes : IsOctets ip
  small : ones ≤ 32
  same : network_of ip ones ≡ n

parse_cidr4-Parsed : (addr mask : Text) (n : Network) → parse_cidr4 addr mask ≡ some n → Parsed n
unfolding parse_cidr4
parse_cidr4-Parsed addr mask n e =
    by_parts (parse_ipv4 addr) (parse_mask mask) (λ ip h. parse_ipv4-IsOctets addr ip h)
      (λ k h. parse_mask-le mask k h) e
  where
    by_parts :
        (o : Option Text) (k : Option ℕ)
        → ((ip : Text) → o ≡ some ip → IsOctets ip)
        → ((ones : ℕ) → k ≡ some ones → ones ≤ 32)
        → elim o [
          | none ↦ none
          | some ip ↦ (elim k [ none ↦ none | some ones ↦ some (network_of ip ones) ])
        ]
          ≡ some n
        → Parsed n
    by_parts none k h l e = cc
    by_parts (some ip) none h l e = cc
    by_parts (some ip) (some ones) h l e = record {
      ip = ip;
      ones = ones;
      bytes = h ip refl;
      small = l ones refl;
      same = cc e;
    }

bytes_of-lt : (i : ℕ) → number (bytes_of i) < top
unfolding bytes_of
bytes_of-lt i = omega arith

network_of-endless :
    (ip : Text) (ones rounds : ℕ)
    → IsOctets ip
    → ones ≡ 0
    → expand_network rounds (network_of ip ones) ≡ none
unfolding network_of expand_network
network_of-endless ip ones rounds h e =
    let m = block_size ones in
    let low : number ip / m * m < top =
      omega (arith, div-mul-le_self (number ip) m, number-lt ip h) in
    rw
      (
        expand_network,
        addresses-endless rounds (number ip / m * m) (network_of ip ones) e
            (bytes_of-lt (number ip / m * m)) low,
      )
      refl

network_of-ends :
    (ip : Text) (ones rounds : ℕ)
    → IsOctets ip
    → ones ≤ 32
    → 2 ^ 31 < rounds
    → expand_network rounds (network_of ip ones)
      ≡ (if ones == 0 then none else some (ok (hosts_of (network_of ip ones))))
network_of-ends ip ones rounds h small enough = elim (Bool-cases (ones == 0)) [
  | inl t ↦ rw t (network_of-endless ip ones rounds h ((==_iff ones 0).0 t))
  | inr t ↦
      let some_bit : 1 ≤ ones = ground arith in
      let half : block_size ones ≤ 2 ^ 31 =
        pow-le-pow_right {n = 2} (omega arith) {j = 31} (omega arith) in
      rw t (network_of-hosts ip ones rounds h some_bit small (omega arith))
]

-- A target that is an IPv4 network expands to its addresses in ascending order, printed, without
-- the first and the last if the mask has at most 30 bits, as soon as the loop may make more than
-- 2^31 rounds; with a mask of no bits it does not end, however many rounds it may make.
pub expand_target-ends :
    (rounds : ℕ) (expand6 : Text → Expanded) (target : Text) (n : Network)
    → IsNetwork target n
    → 2 ^ 31 < rounds
    → expand_target rounds expand6 target ≡ (if n.ones == 0 then none else some (ok (hosts_of n)))
unfolding expand_target expand_cidr
expand_target-ends rounds expand6 target n t enough =
    let p = parse_cidr4-Parsed t.addr t.mask n t.reads in
    let end = network_of-ends p.ip p.ones rounds p.bytes p.small enough in
    let end' : expand_network rounds n ≡ (if n.ones == 0 then none else some (ok (hosts_of n))) =
      subst (λ k. expand_network rounds k ≡ (if k.ones == 0 then none else some (ok (hosts_of k))))
        p.same end in
    rw
      (
        t.shape,
        contains-append t.addr b'/' t.mask,
        split_n-append t.addr b'/' t.mask t.no_slash,
        t.not_ipv6,
        t.reads,
      )
      end'
