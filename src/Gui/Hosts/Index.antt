-- ===== src/Gui/Hosts/Index.antt =====
-- A map from keys to the places of a list, against a search of the list.
use route_fork.Base.{
  ℕ, zero, suc, ◌≡◌, refl, ap, ◌∙◌, inl, inr, Bool, true, false, Option, none, some, List, [], ◌∷◌,
  ◌++◌, map, if◌then◌else◌, Bool-cases, length, All,
}
use route_fork.Text.{Text, ◌==ₜ◌}
use route_fork.Text.Search.{eq_of_==ₜ, ==ₜ_sym}
use route_fork.Text.Map.{lookup, insert, lookup-insert}
use route_fork.Proxy.Parse.{mem_text}
use route_fork.Gui.Hosts.{change_at}

abbrev pub shifted : Option ℕ → Option ℕ
shifted none = none
shifted (some i) = some (suc i)

abbrev pub found_or : Bool → Option ℕ → Option ℕ
found_or true o = some 0
found_or false o = shifted o

-- The first place of a key.
abbrev pub place_of : Text → List Text → Option ℕ
place_of k [] = none
place_of k (j ∷ keys) = found_or (j ==ₜ k) (place_of k keys)

-- The map has just the keys of the list, each with its first place.
abbrev pub Indexes : List (Text × ℕ) → List Text → Type 0
Indexes m keys = (k : Text) → lookup k m ≡ place_of k keys

not_found : (b : Bool) (o : Option ℕ) → found_or b o ≡ none → (b ≡ false) × (o ≡ none)
not_found true o h = cc
not_found false none h = (refl, refl)
not_found false (some i) h = cc

pub place_of-absent :
    (k : Text) (keys : List Text) → place_of k keys ≡ none → mem_text k keys ≡ false
unfolding mem_text
place_of-absent k [] h = refl
place_of-absent k (j ∷ keys) h =
    let (other, later) = not_found (j ==ₜ k) (place_of k keys) h in
    rw (==ₜ_sym k j, other) (place_of-absent k keys later)

-- A new key at the end has the next place.
place_of-append :
    (k j : Text) (keys : List Text)
    → place_of k keys ≡ none
    → place_of j (keys ++ k ∷ []) ≡ (if k ==ₜ j then some (length keys) else place_of j keys)
place_of-append k j [] h = elim (Bool-cases (k ==ₜ j)) [ inl e ↦ rw e refl | inr e ↦ rw e refl ]
place_of-append k j (i ∷ keys) h =
    let (other, later) = not_found (i ==ₜ k) (place_of k keys) h in
    elim (Bool-cases (i ==ₜ j)) [
      | inl e ↦
          let same : i ≡ j = eq_of_==ₜ i j e in
          let apart : (k ==ₜ j) ≡ false = rw (← same) (==ₜ_sym k i ∙ other) in rw (e, apart) refl
      | inr e ↦
          rw (e, place_of-append k j keys later)
            (elim (Bool-cases (k ==ₜ j)) [ inl t ↦ rw t refl | inr t ↦ rw t refl ])
    ]

pub Indexes-insert :
    (k : Text) (m : List (Text × ℕ)) (keys : List Text)
    → Indexes m keys
    → place_of k keys ≡ none
    → Indexes (insert k (length keys) m) (keys ++ k ∷ [])
Indexes-insert k m keys h absent j =
    rw (lookup-insert k j (length keys) m, place_of-append k j keys absent, h j) refl

module _ {ℓ} {A : Type ℓ} (key : A → Text) (change : A → A) (fresh : A) where
  -- The first item with the key is changed, or a new one comes last.
  abbrev pub amend : Text → List A → List A
  amend k [] = fresh ∷ []
  amend k (x ∷ xs) = if key x ==ₜ k then change x ∷ xs else x ∷ amend k xs

  -- The same by the item's place.
  abbrev pub put : Option ℕ → List A → List A
  put none xs = xs ++ fresh ∷ []
  put (some i) xs = change_at i change xs

  put-shifted : (o : Option ℕ) (x : A) (xs : List A) → put (shifted o) (x ∷ xs) ≡ x ∷ put o xs
  unfolding change_at
  put-shifted none x xs = refl
  put-shifted (some i) x xs = refl

  pub put-place_of : (k : Text) (xs : List A) → put (place_of k (map key xs)) xs ≡ amend k xs
  unfolding change_at
  put-place_of k [] = refl
  put-place_of k (x ∷ xs) = elim (Bool-cases (key x ==ₜ k)) [
    | inl e ↦ rw e refl
    | inr e ↦ rw (e, put-shifted (place_of k (map key xs)) x xs, put-place_of k xs) refl
  ]

  -- What the map finds is what the search finds.
  pub put-lookup :
      (k : Text) (m : List (Text × ℕ)) (xs : List A)
      → Indexes m (map key xs)
      → put (lookup k m) xs ≡ amend k xs
  put-lookup k m xs h = ap (λ o. put o xs) (h k) ∙ put-place_of k xs

  module _ (kept : (x : A) → key (change x) ≡ key x) where
    pub keys-change_at : (i : ℕ) (xs : List A) → map key (change_at i change xs) ≡ map key xs
    unfolding change_at
    keys-change_at i [] = refl
    keys-change_at zero (x ∷ xs) = ap (λ k. k ∷ map key xs) (kept x)
    keys-change_at (suc i) (x ∷ xs) = ap (λ r. key x ∷ r) (keys-change_at i xs)

pub All-change_at {ℓ κ} :
    {A : Type ℓ} {P : A → Type κ} (change : A → A)
    → ((x : A) → P x → P (change x))
    → (i : ℕ) (xs : List A) → All P xs
    → All P (change_at i change xs)
unfolding change_at
All-change_at change step i [] a = tt
All-change_at change step zero (x ∷ xs) (p, a) = (step x p, a)
All-change_at change step (suc i) (x ∷ xs) (p, a) = (p, All-change_at change step i xs a)

pub change_at-last {ℓ} :
    {A : Type ℓ} (change : A → A) (y : A) (xs : List A)
    → change_at (length xs) change (xs ++ y ∷ []) ≡ xs ++ change y ∷ []
unfolding change_at
change_at-last change y [] = refl
change_at-last change y (x ∷ xs) = ap (λ r. x ∷ r) (change_at-last change y xs)
