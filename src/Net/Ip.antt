-- ===== src/Net/Ip.antt =====
-- `net.ParseIP` for a text of digits and dots, which can only be an IPv4 address.
use route_fork.Base.{
  ℕ, suc, ◌+◌, ◌-◌, ◌*◌, ◌≤◌, ◌≡◌, refl, ap, ◌∙◌, subst, inl, inr, ◌||◌, Option, none, some, List,
  [], ◌∷◌, map, arith, ltb, ◌==◌, if◌then◌else◌, ==_iff, Bool-cases, length, All,
}
use route_fork.Text.{Text, split, join}
use route_fork.Text.Decimal.{itoa}

-- The number that the digits continue, if it stays an octet.
octet_from : ℕ → Text → Option ℕ
octet_from n [] = some n
octet_from n (c ∷ s) =
    let m = n * 10 + (c - b'0') in
    let rest = octet_from m s in if ltb c b'0' || ltb b'9' c || ltb 255 m then none else rest

-- An octet has a digit, and no 0 in front of another.
unfoldable pub octet : Text → Option ℕ
unfolding octet_from
octet [] = none
octet (c ∷ []) = octet_from 0 (c ∷ [])
octet (c ∷ d ∷ s) = if c == b'0' then none else octet_from 0 (c ∷ d ∷ s)

abbrev octets : List Text → Option Text
octets [] = some []
octets (p ∷ ps) = elim (octet p) [
  | none ↦ none
  | some n ↦ (elim (octets ps) [ none ↦ none | some ns ↦ some (n ∷ ns) ])
]

unfoldable pub parse_ipv4 : Text → Option Text
unfolding octet
parse_ipv4 s = if length (split s b'.') == 4 then octets (split s b'.') else none

-- `net.IP.String` for four bytes.
abbrev pub dotted : Text → Text
dotted ip = join (map itoa ip) b'.'

abbrev pub IsOctets : Text → Type 0
IsOctets ip = (length ip ≡ 4) × All (λ b. b ≤ 255) ip

no_value : {A : Type 0} {a : A} → none ≡ some a → ⊥
no_value e = cc

same_value : {A : Type 0} {a b : A} → some a ≡ some b → a ≡ b
same_value e = cc

octet_from-le : (n : ℕ) (s : Text) (m : ℕ) → n ≤ 255 → octet_from n s ≡ some m → m ≤ 255
unfolding octet_from
octet_from-le n [] m h e = ground (arith, e)
octet_from-le n (c ∷ s) m h e =
    elim (Bool-cases (ltb c b'0' || ltb b'9' c || ltb 255 (n * 10 + (c - b'0')))) [
      | inl t ↦ absurd (no_value (rw t at e))
      | inr t ↦ octet_from-le (n * 10 + (c - b'0')) s m (ground arith) (rw t at e)
    ]

octet-le : (s : Text) (m : ℕ) → octet s ≡ some m → m ≤ 255
unfolding octet
octet-le [] m e = cc
octet-le (c ∷ []) m e = octet_from-le 0 (c ∷ []) m (omega arith) e
octet-le (c ∷ d ∷ s) m e = elim (Bool-cases (c == b'0')) [
  | inl t ↦ absurd (no_value (rw t at e))
  | inr t ↦ octet_from-le 0 (c ∷ d ∷ s) m (omega arith) (rw t at e)
]

octets-le :
    (ps : List Text) (ip : Text)
    → octets ps ≡ some ip
    → (length ip ≡ length ps) × All (λ b. b ≤ 255) ip
octets-le [] ip e = subst (λ t. (length t ≡ 0) × All (λ b. b ≤ 255) t) (same_value e) (refl, tt)
octets-le (p ∷ ps) ip e = by_parts (octet p) (octets ps) refl refl (λ ns k. octets-le ps ns k) e
  where
    by_parts :
        (o : Option ℕ) (os : Option Text)
        → octet p ≡ o
        → octets ps ≡ os
        → ((ns : Text) → octets ps ≡ some ns → (length ns ≡ length ps) × All (λ b. b ≤ 255) ns)
        → elim o [ none ↦ none | some n ↦ (elim os [ none ↦ none | some ns ↦ some (n ∷ ns) ]) ]
          ≡ some ip
        → (length ip ≡ suc (length ps)) × All (λ b. b ≤ 255) ip
    by_parts none os h k ih e = cc
    by_parts (some n) none h k ih e = cc
    by_parts (some n) (some ns) h k ih e =
        subst (λ t. (length t ≡ suc (length ps)) × All (λ b. b ≤ 255) t) (same_value e)
          (ap suc (ih ns k).0, (octet-le p n h, (ih ns k).1))

-- The four numbers of an address are bytes.
pub parse_ipv4-IsOctets : (s ip : Text) → parse_ipv4 s ≡ some ip → IsOctets ip
unfolding parse_ipv4
parse_ipv4-IsOctets s ip e = elim (Bool-cases (length (split s b'.') == 4)) [
  | inl t ↦
      let bytes = octets-le (split s b'.') ip (rw t at e) in
      (bytes.0 ∙ (==_iff (length (split s b'.')) 4).0 t, bytes.1)
  | inr t ↦ absurd (no_value (rw t at e))
]
