-- ===== src/Text/Order.antt =====
-- `sort.Strings`: the order of strings by bytes, and a sorted permutation by insertion.
use mathlib.Core.List.{Perm}
use mathlib.Core.List.Perm
use route_fork.Base.{
  ◌≡◌, refl, inl, inr, Bool, true, false, List, [], ◌∷◌, arith, ltb, ◌==◌, if◌then◌else◌,
  Bool-cases, All, All-mono,
}
use route_fork.Text.{Text}

unfoldable pub leb_text : Text → Text → Bool
leb_text [] t = true
leb_text (c ∷ s) [] = false
leb_text (c ∷ s) (d ∷ t) = let rest = leb_text s t in if c == d then rest else ltb c d

unfoldable pub insert_text : Text → List Text → List Text
insert_text x [] = x ∷ []
insert_text x (y ∷ ys) = if leb_text x y then x ∷ y ∷ ys else y ∷ insert_text x ys

unfoldable pub sort_texts : List Text → List Text
unfolding insert_text
sort_texts [] = []
sort_texts (x ∷ xs) = insert_text x (sort_texts xs)

-- Every entry is at most the later ones.
abbrev pub IsAscending : List Text → Type 0
IsAscending [] = Unit
IsAscending (x ∷ xs) = All (λ y. leb_text x y ≡ true) xs × IsAscending xs

leb_text_total : (s t : Text) → leb_text s t ≡ false → leb_text t s ≡ true
unfolding leb_text
leb_text_total [] t h = cc
leb_text_total (c ∷ s) [] h = refl
leb_text_total (c ∷ s) (d ∷ t) h = ground (arith, leb_text_total s t)

leb_text_trans : (s t u : Text) → leb_text s t ≡ true → leb_text t u ≡ true → leb_text s u ≡ true
unfolding leb_text
leb_text_trans [] t u h k = refl
leb_text_trans (c ∷ s) [] u h k = cc
leb_text_trans (c ∷ s) (d ∷ t) [] h k = cc
leb_text_trans (c ∷ s) (d ∷ t) (e ∷ u) h k = ground (arith, leb_text_trans s t u)

All-insert_text :
    (P : Text → Type 0) (x : Text) (xs : List Text) → P x → All P xs → All P (insert_text x xs)
unfolding insert_text
All-insert_text P x [] px h = (px, tt)
All-insert_text P x (y ∷ ys) px h = elim (Bool-cases (leb_text x y)) [
  | inl e ↦ rw e (px, h)
  | inr e ↦ rw e (h.0, All-insert_text P x ys px h.1)
]

insert_text-IsAscending :
    (x : Text) (xs : List Text) → IsAscending xs → IsAscending (insert_text x xs)
unfolding insert_text
insert_text-IsAscending x [] h = (tt, tt)
insert_text-IsAscending x (y ∷ ys) h = elim (Bool-cases (leb_text x y)) [
  | inl e ↦ rw e ((e, All-mono (λ z k. leb_text_trans x y z e k) ys h.0), h)
  | inr e ↦ rw e (
    All-insert_text (λ z. leb_text y z ≡ true) x ys (leb_text_total x y e) h.0,
    insert_text-IsAscending x ys h.1,
  )
]

pub sort_texts-IsAscending : (xs : List Text) → IsAscending (sort_texts xs)
unfolding sort_texts
sort_texts-IsAscending [] = tt
sort_texts-IsAscending (x ∷ xs) =
    insert_text-IsAscending x (sort_texts xs) (sort_texts-IsAscending xs)

insert_text-perm : (x : Text) (xs : List Text) → Perm (insert_text x xs) (x ∷ xs)
unfolding insert_text
insert_text-perm x [] = Perm.refl _
insert_text-perm x (y ∷ ys) = elim (Bool-cases (leb_text x y)) [
  | inl e ↦ rw e (Perm.refl _)
  | inr e ↦ rw e (Perm.trans (Perm.cons y (insert_text-perm x ys)) (Perm.swap x y ys))
]

pub sort_texts-perm : (xs : List Text) → Perm (sort_texts xs) xs
unfolding sort_texts
sort_texts-perm [] = Perm.refl _
sort_texts-perm (x ∷ xs) =
    Perm.trans (insert_text-perm x (sort_texts xs)) (Perm.cons x (sort_texts-perm xs))
