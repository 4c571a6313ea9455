-- ===== src/Nmap/Headings.antt =====
-- The line with which nmap begins the report on a host.
use route_fork.Base.{
  ℕ, ◌≡◌, refl, ◌≢◌, inl, inr, Bool, true, false, none, some, [], ◌∷◌, ◌++◌, arith, ◌==◌,
  Bool-cases, All-append,
}
use route_fork.Text.{Text, Lacks, ◌==ₜ◌, has_prefix, contains}
use route_fork.Text.Parts.{contains-Lacks}
use route_fork.Proxy.Parse.{is_digit}
use route_fork.Nmap.{
  span, is_word, protocol, with_digits, cut_port, open_at, has_open, report_text, report_host,
}
use route_fork.Nmap.Lines.{Word, Stops, span-word}

-- A host, and what may follow it on its line.
pub record Heading : Type 0 where
  pub host : Text
  pub suffix : Text

unfoldable pub heading_line : Heading → Text
heading_line h = report_text ++ (h.host ++ h.suffix)

pub record IsHeading (h : Heading) : Type 0 where
  pub word : Word h.host
  pub stops : Stops is_word h.suffix
  pub no_slash : Lacks b'/' (h.host ++ h.suffix)

nonempty : (s : Text) → s ≢ [] → (s ==ₜ []) ≡ false
nonempty [] h = absurd (h refl)
nonempty (c ∷ s) h = refl

pub report_host-heading_line :
    (h : Heading) → IsHeading h → report_host (heading_line h) ≡ some h.host
unfolding report_host heading_line has_prefix
report_host-heading_line h k =
    rw (report_host, span-word h.host h.suffix k.word.1 k.stops, nonempty h.host k.word.0) refl

span-Lacks : (keep : ℕ → Bool) (b : ℕ) (s : Text) → Lacks b s → Lacks b (span keep s).1
unfolding span
span-Lacks keep b [] h = tt
span-Lacks keep b (c ∷ s) h = elim (Bool-cases (keep c)) [
  | inl e ↦ rw e (span-Lacks keep b s h.1)
  | inr e ↦ rw e h
]

protocol-Lacks : (s : Text) → Lacks b'/' s → protocol s ≡ none
unfolding protocol has_prefix
protocol-Lacks [] h = refl
protocol-Lacks (c ∷ s) h = let other : (c == b'/') ≡ false = ground (arith, h.0) in rw other refl

with_digits-none : (r : Text × Text) → protocol r.1 ≡ none → with_digits r ≡ none
with_digits-none r h = elim (Bool-cases (r.0 ==ₜ [])) [ inl e ↦ rw e refl | inr e ↦ rw (e, h) refl ]

cut_port-Lacks : (s : Text) → Lacks b'/' s → cut_port s ≡ none
unfolding cut_port
cut_port-Lacks s h =
    with_digits-none (span is_digit s) (protocol-Lacks _ (span-Lacks is_digit b'/' s h))

open_at-Lacks : (s : Text) → Lacks b'/' s → open_at s ≡ false
unfolding open_at
open_at-Lacks s h = rw (open_at, cut_port-Lacks s h) refl

-- Without a slash, no port is open on a line.
has_open-Lacks : (s : Text) → Lacks b'/' s → has_open s ≡ false
unfolding has_open
has_open-Lacks [] h = refl
has_open-Lacks (c ∷ s) h = rw (open_at-Lacks (c ∷ s) h) (has_open-Lacks s h.1)

text-Lacks : Lacks b'/' report_text
unfolding contains
text-Lacks = contains-Lacks report_text b'/' refl

pub has_open-heading_line : (h : Heading) → IsHeading h → has_open (heading_line h) ≡ false
unfolding heading_line
has_open-heading_line h k =
    has_open-Lacks (heading_line h)
      (All-append (λ c. c ≢ b'/') report_text (h.host ++ h.suffix) text-Lacks k.no_slash)

true_ne_false : true ≡ false → ⊥
true_ne_false e = cc

contains_parts :
    (c : ℕ) (s t : Text)
    → contains (c ∷ s) t ≡ false
    → (has_prefix (c ∷ s) t ≡ false) × (contains s t ≡ false)
unfolding contains
contains_parts c s t h = elim (Bool-cases (has_prefix (c ∷ s) t)) [
  | inl e ↦ absurd (true_ne_false (rw e at h))
  | inr e ↦ (e, rw e at h)
]

pub report_host-none : (s : Text) → contains s report_text ≡ false → report_host s ≡ none
unfolding report_host
report_host-none [] h = refl
report_host-none (c ∷ s) h =
    let parts = contains_parts c s report_text h in rw (parts.0, report_host-none s parts.1) refl
