-- ===== src/Text/Trim.antt =====
-- Trimming a second time changes nothing.
use mathlib.Core.List.{reverse, reverse-append, reverse-reverse}
use route_fork.Base.{
  ℕ, ◌≡◌, refl, sym, ap, ◌∙◌, inl, inr, false, [], ◌∷◌, ◌++◌, append-nil, Bool-cases,
}
use route_fork.Text.{Text, is_space, trim_left, trim_space}

-- The spaces in front are left out.
trim_left_front : (s : Text) → (spaces : Text) × (s ≡ spaces ++ trim_left s)
unfolding trim_left
trim_left_front [] = ([], refl)
trim_left_front (c ∷ s) = elim (Bool-cases (is_space c)) [
  | inl e ↦ let (spaces, shape) = trim_left_front s in rw e (c ∷ spaces, ap (λ r. c ∷ r) shape)
  | inr e ↦ rw e ([], refl)
]

trim_left_head : (s : Text) (c : ℕ) (r : Text) → trim_left s ≡ c ∷ r → is_space c ≡ false
unfolding trim_left
trim_left_head [] c r h = cc
trim_left_head (d ∷ s) c r h = elim (Bool-cases (is_space d)) [
  | inl e ↦ trim_left_head s c r (sym (rw e refl) ∙ h)
  | inr e ↦ cc
]

trim_left_kept : (c : ℕ) (r : Text) → is_space c ≡ false → trim_left (c ∷ r) ≡ c ∷ r
unfolding trim_left
trim_left_kept c r h = rw h refl

-- A front of a trimmed text is trimmed.
trim_left_of_front : (s v z : Text) → trim_left s ≡ v ++ z → trim_left v ≡ v
unfolding trim_left
trim_left_of_front s [] z h = refl
trim_left_of_front s (c ∷ v) z h = trim_left_kept c v (trim_left_head s c (v ++ z) h)

trim_left_twice : (s : Text) → trim_left (trim_left s) ≡ trim_left s
trim_left_twice s = trim_left_of_front s (trim_left s) [] (sym (append-nil (trim_left s)))

pub trim_space_twice : (s : Text) → trim_space (trim_space s) ≡ trim_space s
unfolding trim_space
trim_space_twice s =
    let u = trim_left s in
    let t = trim_left (reverse u) in
    let (spaces, shape) = trim_left_front (reverse u) in
    let front : u ≡ reverse t ++ reverse spaces =
      sym (reverse-reverse u) ∙ ap reverse shape ∙ reverse-append spaces t in
    ap (λ v. reverse (trim_left (reverse v)))
      (trim_left_of_front s (reverse t) (reverse spaces) front)
    ∙ ap (λ v. reverse (trim_left v)) (reverse-reverse t)
    ∙ ap reverse (trim_left_twice (reverse u))
