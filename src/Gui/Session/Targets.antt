-- ===== src/Gui/Session/Targets.antt =====
-- `buildTargetList` of gui/scansession.go against a list without its blank and repeated entries.
use route_fork.Base.{
  ◌≡◌, refl, sym, ap, ◌∙◌, subst, inl, inr, Bool, true, ◌||◌, List, [], ◌∷◌, ◌++◌, map, append-nil,
  append_assoc, arith, if◌then◌else◌, Bool-cases, drop,
}
use route_fork.Text.{Text, ◌==ₜ◌, trim_space, split}
use route_fork.Text.Search.{eq_of_==ₜ, ==ₜ_sym}
use route_fork.Text.Trim.{trim_space_twice}
use route_fork.Proxy.Parse.{mem_text}
use route_fork.Proxy.Dedupe.{mem_text-append}
use route_fork.Gui.Session.{add_target, add_targets, build_target_list}

abbrev without : (Text → Bool) → List Text → List Text
without drop [] = []
without drop (x ∷ xs) = if drop x then without drop xs else x ∷ without drop xs

-- Each text where it stands first.
abbrev pub firsts : List Text → List Text
firsts [] = []
firsts (x ∷ xs) = x ∷ without (λ y. x ==ₜ y) (firsts xs)

abbrev pub trimmed : List Text → List Text
trimmed = map trim_space

-- The entries that are not blank, trimmed.
abbrev pub entries : List Text → List Text
entries lines = without (λ t. t ==ₜ []) (trimmed lines)

abbrev pub used_lines : Text → Text → List Text
used_lines queue queue_placeholder =
    if queue ==ₜ [] || queue ==ₜ queue_placeholder then [] else split queue b'\n'

abbrev not_in : List Text → List Text → List Text
not_in seen = without (λ y. mem_text y seen)

-- What was seen is left out with or without a text that was seen.
not_in_seen :
    (x : Text) (seen ys : List Text)
    → mem_text x seen ≡ true
    → not_in seen (without (λ y. x ==ₜ y) ys) ≡ not_in seen ys
not_in_seen x seen [] h = refl
not_in_seen x seen (y ∷ ys) h = elim (Bool-cases (x ==ₜ y)) [
  | inl e ↦
      let same : x ≡ y = eq_of_==ₜ x y e in
      let seen_too : mem_text y seen ≡ true = subst (λ t. mem_text t seen ≡ true) same h in
      rw (e, seen_too) (not_in_seen x seen ys h)
  | inr e ↦ rw e (elim (Bool-cases (mem_text y seen)) [
    | inl m ↦ rw m (not_in_seen x seen ys h)
    | inr m ↦ rw m (ap (λ r. y ∷ r) (not_in_seen x seen ys h))
  ])
]

mem_text_snoc :
    (y x : Text) (seen : List Text) → mem_text y (seen ++ x ∷ []) ≡ (x ==ₜ y || mem_text y seen)
unfolding mem_text
mem_text_snoc y x seen = ground (arith, mem_text-append y seen (x ∷ []), ==ₜ_sym x y)

-- Leaving out a text and what was seen is leaving out all of them.
not_in_snoc :
    (x : Text) (seen ys : List Text)
    → not_in (seen ++ x ∷ []) ys ≡ not_in seen (without (λ y. x ==ₜ y) ys)
not_in_snoc x seen [] = refl
not_in_snoc x seen (y ∷ ys) = elim (Bool-cases (x ==ₜ y)) [
  | inl e ↦ rw (mem_text_snoc y x seen, e) (not_in_snoc x seen ys)
  | inr e ↦
      rw (mem_text_snoc y x seen, e)
        (elim (Bool-cases (mem_text y seen)) [
          | inl m ↦ rw m (not_in_snoc x seen ys)
          | inr m ↦ rw m (ap (λ r. y ∷ r) (not_in_snoc x seen ys))
        ])
]

not_in_none : (ys : List Text) → not_in [] ys ≡ ys
unfolding mem_text
not_in_none [] = refl
not_in_none (y ∷ ys) = ap (λ r. y ∷ r) (not_in_none ys)

-- The loop over the lines.
add_targets-firsts :
    (lines seen : List Text) → add_targets lines seen ≡ seen ++ not_in seen (firsts (entries lines))
unfolding add_targets
add_targets-firsts [] seen = sym (append-nil seen)
add_targets-firsts (line ∷ lines) seen = elim (Bool-cases (trim_space line ==ₜ [])) [
  | inl e ↦ rw e (add_targets-firsts lines seen)
  | inr e ↦ rw e (elim (Bool-cases (mem_text (trim_space line) seen)) [
    | inl m ↦ rw m (
        add_targets-firsts lines seen
        ∙ ap (λ r. seen ++ r) (sym (not_in_seen (trim_space line) seen (firsts (entries lines)) m)))
    | inr m ↦ rw m (
        add_targets-firsts lines (seen ++ trim_space line ∷ [])
        ∙ append_assoc seen (trim_space line ∷ []) _
        ∙ ap (λ r. seen ++ trim_space line ∷ r)
            (not_in_snoc (trim_space line) seen (firsts (entries lines))))
  ])
]

used-add_targets :
    (queue queue_placeholder : Text) (targets : List Text)
    → (if queue ==ₜ [] || queue ==ₜ queue_placeholder
        then targets
        else add_targets (split queue b'\n') targets)
      ≡ add_targets (used_lines queue queue_placeholder) targets
unfolding add_targets
used-add_targets queue ph targets = elim (Bool-cases (queue ==ₜ [] || queue ==ₜ ph)) [
  | inl e ↦ rw e refl
  | inr e ↦ rw e refl
]

single-add_target :
    (single : Text)
    → (if trim_space single ==ₜ [] then [] else add_target (trim_space single) [])
      ≡ add_target single []
unfolding add_target mem_text
single-add_target single =
    rw (trim_space_twice single)
      (elim (Bool-cases (trim_space single ==ₜ [])) [ inl e ↦ rw e refl | inr e ↦ rw e refl ])

all_targets :
    (single : Text) (lines : List Text)
    → add_targets lines (add_target single []) ≡ not_in [] (firsts (entries (single ∷ lines)))
unfolding add_targets
all_targets single lines = add_targets-firsts (single ∷ lines) []

-- The targets are the single one and the lines of the queue, unless it is its placeholder, in this
-- order, trimmed, without the blank ones, and each only where it stands first.
pub build_target_list-firsts :
    (single queue queue_placeholder : Text)
    → build_target_list single queue queue_placeholder
      ≡ firsts (entries (single ∷ used_lines queue queue_placeholder))
unfolding build_target_list
build_target_list-firsts single queue ph =
    used-add_targets queue ph _
    ∙ ap (add_targets (used_lines queue ph)) (single-add_target single)
    ∙ all_targets single (used_lines queue ph)
    ∙ not_in_none (firsts (entries (single ∷ used_lines queue ph)))
