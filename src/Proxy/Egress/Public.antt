-- ===== src/Proxy/Egress/Public.antt =====
-- Which address `extractPublicIP` of proxy/validate.go finds.
use route_fork.Base.{
  ℕ, ◌+◌, ◌*◌, ◌/◌, ◌≤◌, ◌≡◌, refl, sym, ap, ◌∙◌, ◌≢◌, ◌⊎◌, inl, inr, Bool, true, false, ◌&&◌, ◌||◌,
  some, List, [], ◌∷◌, ◌++◌, arith, leb, ◌==◌, Bool-cases, Option-cases, All, All-mono,
}
use route_fork.Text.{Text, split}
use route_fork.Net.{byte}
use route_fork.Net.Ip.{parse_ipv4, IsOctets, parse_ipv4-IsOctets}
use route_fork.Proxy.Egress.{
  is_dot_or_digit, fields_func, is_public, is_public_ip, first_public, extract_public_ip,
}

-- The address as a number of 32 bits.
abbrev pub number : Text → ℕ
number ip = ((byte ip 0 * 256 + byte ip 1) * 256 + byte ip 2) * 256 + byte ip 3

-- Outside of 0.0.0.0/8, 10.0.0.0/8, 127.0.0.0/8, 169.254.0.0/16, 172.16.0.0/12 and 192.168.0.0/16
abbrev pub IsOutside : ℕ → Type 0
IsOutside n =
    (n / 16777216 ≢ 0)
    × (n / 16777216 ≢ 10)
    × (n / 16777216 ≢ 127)
    × (n / 65536 ≢ 43518)
    × (n / 1048576 ≢ 2753)
    × (n / 65536 ≢ 49320)

four :
    (ip : Text)
    → IsOctets ip
    → (a b c d : ℕ) × (ip ≡ a ∷ b ∷ c ∷ d ∷ []) × (a ≤ 255) × (b ≤ 255) × (c ≤ 255) × (d ≤ 255)
four [] (l, h) = absurd (omega arith)
four (a ∷ []) (l, h) = absurd (omega arith)
four (a ∷ b ∷ []) (l, h) = absurd (omega arith)
four (a ∷ b ∷ c ∷ []) (l, h) = absurd (omega arith)
four (a ∷ b ∷ c ∷ d ∷ []) (l, (ha, (hb, (hc, (hd, x))))) = (a, b, c, d, refl, ha, hb, hc, hd)
four (a ∷ b ∷ c ∷ d ∷ e ∷ ip) (l, h) = absurd (omega arith)

bytes-IsOutside :
    (a b c d : ℕ)
    → a ≤ 255
    → b ≤ 255
    → c ≤ 255
    → d ≤ 255
    → is_public (a ∷ b ∷ c ∷ d ∷ []) ≡ true
    → IsOutside (number (a ∷ b ∷ c ∷ d ∷ []))
unfolding is_public
bytes-IsOutside a b c d ha hb hc hd h =
    let n = ((a * 256 + b) * 256 + c) * 256 + d in
    let top8 : n / 16777216 ≡ a = omega arith in
    let top16 : n / 65536 ≡ a * 256 + b = omega arith in
    let top12 : n / 1048576 ≡ a * 16 + b / 16 = omega arith in
    let not0 : a ≢ 0 = λ e. ground (arith, h, e) in
    let not10 : a ≢ 10 = λ e. ground (arith, h, e) in
    let not127 : a ≢ 127 = λ e. ground (arith, h, e) in
    let not169 : a ≡ 169 → b ≢ 254 = λ e f. ground (arith, h, e, f) in
    let not172 : a ≡ 172 → 16 ≤ b → ¬ (b ≤ 31) = λ e f g. ground (arith, h, e, f, g) in
    let not192 : a ≡ 192 → b ≢ 168 = λ e f. ground (arith, h, e, f) in
    (
      (λ e. not0 (sym top8 ∙ e)),
      (λ e. not10 (sym top8 ∙ e)),
      (λ e. not127 (sym top8 ∙ e)),
      (λ e. not169 (omega arith) (omega arith)),
      (λ e. not172 (omega arith) (omega arith) (omega arith)),
      (λ e. not192 (omega arith) (omega arith)),
    )

is_public-IsOutside : (ip : Text) → IsOctets ip → is_public ip ≡ true → IsOutside (number ip)
is_public-IsOutside ip o h =
    let (a, b, c, d, e, ha, hb, hc, hd) = four ip o in
    rw e (bytes-IsOutside a b c d ha hb hc hd (rw e at h))

bytes-within :
    (a b c d : ℕ)
    → a ≤ 255
    → b ≤ 255
    → c ≤ 255
    → d ≤ 255
    → is_public (a ∷ b ∷ c ∷ d ∷ []) ≡ false
    → ¬ IsOutside (number (a ∷ b ∷ c ∷ d ∷ []))
unfolding is_public
bytes-within a b c d ha hb hc hd h (n0, n10, n127, n169, n172, n192) =
    let n = ((a * 256 + b) * 256 + c) * 256 + d in
    let top8 : n / 16777216 ≡ a = omega arith in
    let top16 : n / 65536 ≡ a * 256 + b = omega arith in
    let top12 : n / 1048576 ≡ a * 16 + b / 16 = omega arith in
    let not0 : a ≢ 0 = λ e. n0 (top8 ∙ e) in
    let not10 : a ≢ 10 = λ e. n10 (top8 ∙ e) in
    let not127 : a ≢ 127 = λ e. n127 (top8 ∙ e) in
    let not169 : a ≡ 169 → b ≢ 254 = λ e f. n169 (omega arith) in
    let not172 : a ≡ 172 → 16 ≤ b → ¬ (b ≤ 31) = λ e f g. n172 (omega arith) in
    let not192 : a ≡ 192 → b ≢ 168 = λ e f. n192 (omega arith) in
    ground (arith, h, not0, not10, not127, not169, not172, not192)

is_public-within : (ip : Text) → IsOctets ip → is_public ip ≡ false → ¬ IsOutside (number ip)
is_public-within ip o h =
    let (a, b, c, d, e, ha, hb, hc, hd) = four ip o in
    rw e (bytes-within a b c d ha hb hc hd (rw e at h))

-- A field that is no address outside of the blocks.
abbrev pub IsSkipped : Text → Type 0
IsSkipped f = (ip : Text) → parse_ipv4 f ≡ some ip → ¬ IsOutside (number ip)

is_public_ip-IsSkipped : (f : Text) → is_public_ip f ≡ false → IsSkipped f
unfolding is_public_ip
is_public_ip-IsSkipped f h ip e =
    is_public-within ip (parse_ipv4-IsOctets f ip e) (rw (e, is_public_ip) at h)

is_public_ip-nil : is_public_ip [] ≡ false
unfolding is_public_ip parse_ipv4 split
is_public_ip-nil = refl

true_ne_false : true ≡ false → ⊥
true_ne_false e = cc

first_public-nil : (fs : List Text) → first_public fs ≡ [] → All (λ f. is_public_ip f ≡ false) fs
unfolding first_public
first_public-nil [] h = tt
first_public-nil (f ∷ fs) h = elim (Bool-cases (is_public_ip f)) [
  | inl e ↦
      let empty : f ≡ [] = rw e at h in
      absurd (true_ne_false (sym e ∙ ap (λ g. is_public_ip g) empty ∙ is_public_ip-nil))
  | inr e ↦ (e, first_public-nil fs (rw e at h))
]

-- What may stand in an address: the digits and the dot.
abbrev pub in_address : ℕ → Bool
in_address c = (leb 48 c && leb c 57) || c == 46

first_public-split :
    (fs : List Text)
    → first_public fs ≢ []
    → (before after : List Text) × (fs ≡ before ++ first_public fs ∷ after)
      × All (λ f. is_public_ip f ≡ false) before
      × (is_public_ip (first_public fs) ≡ true)
unfolding first_public
first_public-split [] h = absurd (h refl)
first_public-split (f ∷ fs) h = elim (Bool-cases (is_public_ip f)) [
  | inl e ↦ rw e ([], fs, refl, tt, e)
  | inr e ↦
      let (before, after, whole, skipped, found) = first_public-split fs (rw e at h) in
      rw e (f ∷ before, after, ap (λ r. f ∷ r) whole, (e, skipped), found)
]

-- What is found, if anything, is the first field of digits and dots that is an address outside of
-- the blocks 0/8, 10/8, 127/8, 169.254/16, 172.16/12 and 192.168/16: no field before it is one.
pub extract_public_ip-IsOutside :
    (text : Text)
    → extract_public_ip text ≢ []
    → (before after : List Text) × (ip : Text) × (fields_func in_address text
        ≡ before ++ extract_public_ip text ∷ after)
      × All IsSkipped before
      × (parse_ipv4 (extract_public_ip text) ≡ some ip)
      × IsOutside (number ip)
unfolding extract_public_ip is_public_ip is_dot_or_digit
extract_public_ip-IsOutside text h =
    let fs = fields_func is_dot_or_digit text in
    let (before, after, whole, skipped, found) = first_public-split fs h in
    elim (Option-cases (parse_ipv4 (first_public fs))) [
      | inl e ↦ absurd (not_false (rw (e, is_public_ip) at found))
      | inr (ip, e) ↦ (
        before,
        after,
        ip,
        whole,
        All-mono is_public_ip-IsSkipped before skipped,
        e,
        is_public-IsOutside ip (parse_ipv4-IsOctets (first_public fs) ip e)
            (rw (e, is_public_ip) at found),
      )
    ]
  where
    not_false : false ≡ true → ⊥
    not_false e = cc

-- What is found in a text.
pub data IsFirst (text result : Text) : Type 0 where
  found :
      (before after : List Text) (ip : Text)
      → fields_func in_address text ≡ before ++ result ∷ after
      → All IsSkipped before
      → parse_ipv4 result ≡ some ip
      → IsOutside (number ip)
      → IsFirst text result
  missing : result ≡ [] → All IsSkipped (fields_func in_address text) → IsFirst text result

-- The first field of digits and dots that is an address outside of the blocks 0/8, 10/8, 127/8,
-- 169.254/16, 172.16/12 and 192.168/16 is found, and nothing exactly if there is none.
pub extract_public_ip-IsFirst : (text : Text) → IsFirst text (extract_public_ip text)
unfolding extract_public_ip is_dot_or_digit
extract_public_ip-IsFirst text = elim (nil_or (extract_public_ip text)) [
  | inl e ↦ missing e (
      All-mono is_public_ip-IsSkipped (fields_func in_address text)
        (first_public-nil (fields_func in_address text) e))
  | inr h ↦
      let (before, after, ip, whole, skipped, parsed, outside) =
        extract_public_ip-IsOutside text h in
      found before after ip whole skipped parsed outside
]
  where
    nil_or : (s : Text) → (s ≡ []) ⊎ (s ≢ [])
    nil_or [] = inl refl
    nil_or (c ∷ s) = inr (λ e. cc)
