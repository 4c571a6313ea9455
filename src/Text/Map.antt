-- ===== src/Text/Map.antt =====
-- Go maps with string keys, as association lists.
use route_fork.Base.{
  ◌≡◌, refl, ◌∙◌, inl, inr, false, Option, none, some, List, [], ◌∷◌, if◌then◌else◌, Bool-cases,
}
use route_fork.Text.{Text, ◌==ₜ◌}
use route_fork.Text.Search.{==ₜ-refl, eq_of_==ₜ, ==ₜ_sym}

module _ {ℓ} {V : Type ℓ} where
  unfoldable pub lookup : Text → List (Text × V) → Option V
  lookup k [] = none
  lookup k (entry ∷ m) = if entry.0 ==ₜ k then some entry.1 else lookup k m

  -- `m[k] = v`: an old entry of the key is overwritten where it stands.
  unfoldable pub insert : Text → V → List (Text × V) → List (Text × V)
  insert k v [] = (k, v) ∷ []
  insert k v (entry ∷ m) = if entry.0 ==ₜ k then (k, v) ∷ m else entry ∷ insert k v m

  pub lookup-insert :
      (k j : Text) (v : V) (m : List (Text × V))
      → lookup j (insert k v m) ≡ (if k ==ₜ j then some v else lookup j m)
  unfolding lookup insert
  lookup-insert k j v [] = refl
  lookup-insert k j v ((i, w) ∷ m) = elim (Bool-cases (i ==ₜ k)) [
    | inl e ↦
        let same : i ≡ k = eq_of_==ₜ i k e in
        rw (e, same) (elim (Bool-cases (k ==ₜ j)) [ inl f ↦ rw f | inr f ↦ rw f ])
    | inr e ↦ rw e (elim (Bool-cases (i ==ₜ j)) [
      | inl f ↦
          let same : i ≡ j = eq_of_==ₜ i j f in
          let other : (k ==ₜ j) ≡ false = rw (← same) (==ₜ_sym k i ∙ e) in rw (f, other)
      | inr f ↦ rw f (lookup-insert k j v m)
    ])
  ]

  pub lookup-insert_self :
      (k : Text) (v : V) (m : List (Text × V)) → lookup k (insert k v m) ≡ some v
  lookup-insert_self k v m = rw (lookup-insert k k v m, ==ₜ-refl k)
