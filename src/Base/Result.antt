-- ===== src/Base/Result.antt =====
-- A Go result `(value, err)` of which the caller reads one part.
use mathlib.Core.Path.{◌≡◌, refl}

pub data Result {ℓ} (E : Type 0) (A : Type ℓ) : Type ℓ where
  ok : A → Result E A
  err : E → Result E A

module _ {ℓ κ} {E : Type 0} {A : Type ℓ} {B : Type κ} where
  -- `if err != nil { return nil, err }`, and the rest with the value
  infixl 5 ◌>>=◌
  abbrev pub ◌>>=◌ : Result E A → (A → Result E B) → Result E B
  ◌>>=◌ (err e) rest = err e
  ◌>>=◌ (ok a) rest = rest a

  -- A chain that succeeds had a first value.
  pub first_value :
      (r : Result E A) (rest : A → Result E B) {b : B}
      → (r >>= rest) ≡ ok b
      → (a : A) × (r ≡ ok a) × (rest a ≡ ok b)
  first_value (err e) rest h = cc
  first_value (ok a) rest h = (a, refl, h)
