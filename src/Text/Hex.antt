-- ===== src/Text/Hex.antt =====
-- The verb `%02x` of Go's `fmt` for a byte.
use route_fork.Base.{ℕ, ◌+◌, ◌-◌, ◌/◌, ◌%◌, ◌≡◌, refl, [], ◌∷◌, ltb, if◌then◌else◌}
use route_fork.Text.{Text, codes}

hex_digit : ℕ → ℕ
hex_digit d = if ltb d 10 then b'0' + d else b'a' + (d - 10)

unfoldable pub hex_byte : ℕ → Text
unfolding hex_digit
hex_byte b = hex_digit (b / 16) ∷ hex_digit (b % 16) ∷ []

hex_test : hex_byte 174 ≡ codes "ae"
unfolding hex_byte
hex_test = refl
