-- ===== src/Text/Decimal.antt =====
-- `strconv.Itoa` and `strconv.Atoi` for a 64-bit `int`.
use route_fork.Base.{
  ℕ, zero, suc, ◌+◌, ◌-◌, ◌*◌, ◌/◌, ◌%◌, ◌^◌, ◌≤◌, ◌<◌, ◌≡◌, ◌≢◌, refl, Bool, true, false, ◌||◌, [],
  ◌∷◌, arith, ltb, leb, ◌==◌, if◌then◌else◌, All,
}
use route_fork.Base.Int.{ℤ, pos, negsuc, negate}
use route_fork.Text.{Text, codes}

-- The digits of `n` in front of `acc`; `f` bounds their number.
digits : ℕ → ℕ → Text → Text
digits zero n acc = acc
digits (suc f) n acc =
    let rest = digits f (n / 10) ((b'0' + n % 10) ∷ acc) in
    if ltb n 10 then (b'0' + n) ∷ acc else rest

unfoldable pub itoa : ℕ → Text
unfolding digits
itoa n = digits (suc n) n []

pub data Digits : Type 0 where
  syntax : Digits
  range : Digits
  value : ℕ → Digits

-- ParseUint in base 10 at 64 bits, behind the number read so far
scan_digits : Text → ℕ → Digits
scan_digits [] n = value n
scan_digits (c ∷ s) n =
    let d = c - b'0' in
    if ltb c b'0' || ltb b'9' c
    then syntax
    else if leb (2 ^ 64) (n * 10 + d)
    then range
    else scan_digits s (n * 10 + d)

-- The value that Atoi returns beside an error is kept: callers use it.
signed : Bool → Digits → ℤ × Bool
signed neg syntax = (pos 0, false)
signed false range = (pos (2 ^ 63 - 1), false)
signed true range = (negate (2 ^ 63), false)
signed false (value n) = if leb (2 ^ 63) n then (pos (2 ^ 63 - 1), false) else (pos n, true)
signed true (value n) = if ltb (2 ^ 63) n then (negate (2 ^ 63), false) else (negate n, true)

unsigned_digits : Text → Digits
unfolding scan_digits
unsigned_digits [] = syntax
unsigned_digits (c ∷ s) = scan_digits (c ∷ s) 0

unfoldable pub atoi : Text → ℤ × Bool
unfolding signed unsigned_digits
atoi [] = (pos 0, false)
atoi (c ∷ s) =
    if c == b'-'
    then signed true (unsigned_digits s)
    else if c == b'+'
    then signed false (unsigned_digits s)
    else signed false (unsigned_digits (c ∷ s))

abbrev pub IsDigit : ℕ → Type 0
IsDigit c = (b'0' ≤ c) × (c ≤ b'9')

digits-IsDigit : (f n : ℕ) (acc : Text) → All IsDigit acc → All IsDigit (digits f n acc)
unfolding digits
digits-IsDigit zero n acc h = h
digits-IsDigit (suc f) n acc h = ground (arith, digits-IsDigit f (n / 10) ((b'0' + n % 10) ∷ acc))

pub itoa-IsDigit : (n : ℕ) → All IsDigit (itoa n)
unfolding itoa
itoa-IsDigit n = digits-IsDigit (suc n) n [] tt

scan-digits :
    (f n : ℕ) (acc : Text) → n < f → n < 2 ^ 64 → scan_digits (digits f n acc) 0 ≡ scan_digits acc n
unfolding digits scan_digits
scan-digits zero n acc h k = absurd (omega arith)
scan-digits (suc f) n acc h k = ground (arith, scan-digits f (n / 10) ((b'0' + n % 10) ∷ acc))

unsigned_digits-ne-nil : (s : Text) → s ≢ [] → unsigned_digits s ≡ scan_digits s 0
unfolding unsigned_digits
unsigned_digits-ne-nil [] h = absurd (h refl)
unsigned_digits-ne-nil (c ∷ s) h = refl

digits-ne-nil : (f n : ℕ) (acc : Text) → acc ≢ [] → digits f n acc ≢ []
unfolding digits
digits-ne-nil zero n acc h = h
digits-ne-nil (suc f) n acc h = ground (arith, digits-ne-nil f (n / 10) ((b'0' + n % 10) ∷ acc))

pub itoa-ne-nil : (n : ℕ) → itoa n ≢ []
unfolding itoa digits
itoa-ne-nil n = ground (arith, digits-ne-nil n (n / 10) ((b'0' + n % 10) ∷ []))

atoi_unsigned : (s : Text) → All IsDigit s → atoi s ≡ signed false (unsigned_digits s)
unfolding atoi
atoi_unsigned [] h = refl
atoi_unsigned (c ∷ s) h = ground arith

-- A number that fits an `int` is read back from its decimal print.
pub atoi-itoa : (n : ℕ) → n < 2 ^ 63 → atoi (itoa n) ≡ (pos n, true)
unfolding itoa signed scan_digits
atoi-itoa n h = ground (
  arith,
  atoi_unsigned (itoa n) (itoa-IsDigit n),
  unsigned_digits-ne-nil (itoa n) (itoa-ne-nil n),
  scan-digits (suc n) n [],
)

atoi_test : atoi (codes "-12") ≡ (negsuc 11, true)
unfolding atoi
atoi_test = refl

atoi_range : atoi (codes "99999999999999999999x") ≡ (pos (2 ^ 63 - 1), false)
unfolding atoi
atoi_range = refl
