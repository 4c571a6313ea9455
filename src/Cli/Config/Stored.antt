-- ===== src/Cli/Config/Stored.antt =====
-- The settings of cli/config.go are read back as they were saved.
use mathlib.Core.List.{reverse, reverse-append, reverse-reverse}
use route_fork.Base.{
  ℕ, ◌<◌, ◌≡◌, refl, sym, ap, ◌∙◌, subst, ◌≢◌, ◌⊎◌, inl, inr, Bool, true, false, ◌||◌, Option, none,
  some, List, [], ◌∷◌, ◌++◌, map, append_assoc, arith, leb, Bool-cases, length, All, All-append,
}
use route_fork.Text.{Text, codes, Lacks, ◌==ₜ◌, is_space, trim_left, trim_space, has_prefix, split}
use route_fork.Text.Search.{eq_of_==ₜ, ==ₜ_sym}
use route_fork.Text.Parts.{split-append}
use route_fork.Text.Map.{lookup, insert, lookup-insert}
use route_fork.Nmap.Lines.{IsTight, trim_space-IsTight}
use route_fork.Proxy.Parse.{cut, mem_text}
use route_fork.Proxy.Dedupe.{Distinct}
use route_fork.Cli.Config.{
  Settings, load_entry, load_line, load_lines, load_config, heading, entry_line, entry_lines,
  config_text,
}

-- An entry that a line can hold: no white space around, no line end in it, no equals sign in the
-- key nor a number sign in front of it, and not too long.
pub record IsEntry (e : Text × Text) : Type 0 where
  pub key_tight : IsTight e.0
  pub key_lacks : Lacks b'=' e.0
  pub no_comment : key_tight.first ≢ b'#'
  pub value_tight : (e.1 ≡ []) ⊎ IsTight e.1
  pub one_line : Lacks b'\n' (entry_line e)
  pub short : length (entry_line e) < 65536

abbrev trim_right : Text → Text
trim_right s = reverse (trim_left (reverse s))

trim_left_kept : (c : ℕ) (s : Text) → is_space c ≡ false → trim_left (c ∷ s) ≡ c ∷ s
unfolding trim_left
trim_left_kept c s h = rw h refl

-- Trimming stops at a byte that is no space.
trim_left_stops :
    (x : Text) (c : ℕ) (y : Text)
    → is_space c ≡ false
    → trim_left (x ++ c ∷ y) ≡ trim_left x ++ c ∷ y
unfolding trim_left
trim_left_stops [] c y h = trim_left_kept c y h
trim_left_stops (b ∷ x) c y h = elim (Bool-cases (is_space b)) [
  | inl e ↦ rw e (trim_left_stops x c y h)
  | inr e ↦ rw e refl
]

reverse_around : (a : Text) (c : ℕ) (b : Text) → reverse (a ++ c ∷ b) ≡ reverse b ++ c ∷ reverse a
reverse_around a c b =
    reverse-append a (c ∷ b)
    ∙ ap (λ r. r ++ reverse a) (reverse-append (c ∷ []) b)
    ∙ append_assoc (reverse b) (c ∷ []) (reverse a)

trim_right_stops :
    (a : Text) (c : ℕ) (b : Text)
    → is_space c ≡ false
    → trim_right (a ++ c ∷ b) ≡ a ++ c ∷ trim_right b
trim_right_stops a c b h =
    ap reverse (ap trim_left (reverse_around a c b) ∙ trim_left_stops (reverse b) c (reverse a) h)
    ∙ reverse_around (trim_left (reverse b)) c (reverse a)
    ∙ ap (λ r. r ++ c ∷ trim_right b) (reverse-reverse a)

trim_space_right : (s b : Text) → IsTight s → trim_space (s ++ b) ≡ trim_right (s ++ b)
unfolding trim_space
trim_space_right s b t = ap trim_right (
    ap (λ r. trim_left (r ++ b)) t.starts
    ∙ trim_left_kept t.first (t.rest ++ b) t.first_kept
    ∙ ap (λ r. r ++ b) (sym t.starts))

-- The parts of a line behind the key.
abbrev behind : Text → Text
behind value = trim_right (b' ' ∷ value)

trim_space-entry_line :
    (key value : Text)
    → IsTight key
    → trim_space (entry_line (key, value)) ≡ (key ++ b' ' ∷ []) ++ b'=' ∷ behind value
unfolding is_space
trim_space-entry_line key value t =
    trim_space_right key (b' ' ∷ b'=' ∷ b' ' ∷ value) t
    ∙ ap trim_right (sym (append_assoc key (b' ' ∷ []) (b'=' ∷ b' ' ∷ value)))
    ∙ trim_right_stops (key ++ b' ' ∷ []) b'=' (b' ' ∷ value) refl

trim_space-key : (key : Text) → IsTight key → trim_space (key ++ b' ' ∷ []) ≡ key
unfolding trim_left
trim_space-key key t =
    trim_space_right key (b' ' ∷ []) t
    ∙ ap trim_right
        (ap (λ r. r ++ b' ' ∷ []) t.ends ∙ append_assoc t.init (t.last ∷ []) (b' ' ∷ []))
    ∙ trim_right_stops t.init t.last (b' ' ∷ []) t.last_kept
    ∙ sym t.ends

trim_space-behind :
    (value : Text) → (value ≡ []) ⊎ IsTight value → trim_space (behind value) ≡ value
unfolding trim_left trim_space
trim_space-behind value (inl e) = rw e refl
trim_space-behind value (inr t) =
    let kept : behind value ≡ b' ' ∷ value =
      ap (λ v. trim_right (b' ' ∷ v)) t.ends
      ∙ trim_right_stops (b' ' ∷ t.init) t.last [] t.last_kept
      ∙ ap (λ v. b' ' ∷ v) (sym t.ends) in
    rw kept (trim_space-IsTight value t)

cut_first : (sep : ℕ) (a b : Text) → Lacks sep a → cut sep (a ++ sep ∷ b) ≡ some (a, b)
unfolding cut
cut_first sep [] b h = ground arith
cut_first sep (c ∷ a) b h = ground (arith, cut_first sep a b h.1)

load_entry-tight :
    (key value : Text) (m : Settings)
    → IsTight key
    → load_entry (some (key ++ b' ' ∷ [], value)) m
      ≡ insert (trim_space (key ++ b' ' ∷ [])) (trim_space value) m
load_entry-tight [] value m t = absurd (no_start t.starts)
  where
    no_start : {c : ℕ} {s : Text} → [] ≡ c ∷ s → ⊥
    no_start e = cc
load_entry-tight (c ∷ key) value m t = refl

no_comment-key :
    (key after : Text) (t : IsTight key)
    → t.first ≢ b'#'
    → ((key ++ after) ==ₜ [] || has_prefix (key ++ after) (codes "#")) ≡ false
unfolding has_prefix
no_comment-key key after t h =
    ap (λ k. (k ++ after) ==ₜ [] || has_prefix (k ++ after) (codes "#")) t.starts
    ∙ ground (arith, h)

load_line-entry_line :
    (e : Text × Text) (m : Settings) → IsEntry e → load_line (entry_line e) m ≡ insert e.0 e.1 m
unfolding load_line
load_line-entry_line (key, value) m h =
    let shape =
      trim_space-entry_line key value h.key_tight
      ∙ append_assoc key (b' ' ∷ []) (b'=' ∷ behind value) in
    let split_at =
      cut_first b'=' (key ++ b' ' ∷ []) (behind value)
        (All-append (λ c. c ≢ b'=') key (b' ' ∷ []) h.key_lacks (ground arith, tt)) in
    rw (shape, no_comment-key key (b' ' ∷ b'=' ∷ behind value) h.key_tight h.no_comment)
      (ap (λ l. load_entry (cut b'=' l) m)
          (sym (append_assoc key (b' ' ∷ []) (b'=' ∷ behind value)))
        ∙ ap (λ o. load_entry o m) split_at
        ∙ load_entry-tight key (behind value) m h.key_tight
        ∙ ap (λ k. insert k (trim_space (behind value)) m) (trim_space-key key h.key_tight)
        ∙ ap (λ v. insert key v m) (trim_space-behind value h.value_tight))

abbrev insert_all : Settings → Settings → Settings
insert_all [] m = m
insert_all (e ∷ es) m = insert_all es (insert e.0 e.1 m)

load_lines-entry_lines :
    (es m : Settings)
    → All IsEntry es
    → load_lines (split (entry_lines es) b'\n') m ≡ insert_all es m
unfolding load_lines load_line split trim_space
load_lines-entry_lines [] m h = refl
load_lines-entry_lines (e ∷ es) m (h, hs) =
    let fits : leb 65536 (length (entry_line e)) ≡ false = ground (arith, h.short) in
    rw
      (
        split-append (entry_line e) b'\n' (entry_lines es) h.one_line,
        fits,
        load_line-entry_line e m h,
      )
      (load_lines-entry_lines es (insert e.0 e.1 m) hs)

abbrev keys : Settings → List Text
keys = map (λ e. e.0)

-- What a later value of a key leaves of the earlier one.
abbrev later_or : Option Text → Option Text → Option Text
later_or none o = o
later_or (some v) o = some v

lookup-absent : (k : Text) (m : Settings) → mem_text k (keys m) ≡ false → lookup k m ≡ none
unfolding lookup mem_text
lookup-absent k [] h = refl
lookup-absent k (e ∷ m) h = elim (Bool-cases (k ==ₜ e.0)) [
  | inl same ↦ absurd (both (ap (λ b. b || mem_text k (keys m)) same) h)
  | inr other ↦
      rw (==ₜ_sym e.0 k, other)
        (lookup-absent k m (sym (ap (λ b. b || mem_text k (keys m)) other) ∙ h))
]
  where
    both : {b : Bool} → b ≡ true → b ≡ false → ⊥
    both p q = cc

lookup-insert_all :
    (k : Text) (es m : Settings)
    → Distinct (keys es)
    → lookup k (insert_all es m) ≡ later_or (lookup k es) (lookup k m)
unfolding lookup
lookup-insert_all k [] m d = refl
lookup-insert_all k ((j, v) ∷ es) m d = elim (Bool-cases (j ==ₜ k)) [
  | inl e ↦
      let same : j ≡ k = eq_of_==ₜ j k e in
      let missing : lookup k es ≡ none =
        lookup-absent k es (subst (λ t. mem_text t (keys es) ≡ false) same d.0) in
      lookup-insert_all k es (insert j v m) d.1 ∙ rw (missing, lookup-insert j k v m, e) refl
  | inr e ↦ lookup-insert_all k es (insert j v m) d.1 ∙ rw (lookup-insert j k v m, e) refl
]

later_or-none : (o : Option Text) → later_or o none ≡ o
later_or-none none = refl
later_or-none (some v) = refl

load_config-text :
    (es : Settings) → All IsEntry es → load_config (some (config_text es)) ≡ insert_all es []
unfolding load_config config_text load_lines load_line trim_space trim_left is_space has_prefix
load_config-text es h =
    rw (split-append heading b'\n' (entry_lines es) (ground arith)) (load_lines-entry_lines es [] h)

-- The settings that are read from a file that was saved are those that were saved, in whatever
-- order they were written, if their keys are different and each stands on a line of its own that
-- is not a comment and not too long: without white space around the key and the value and line
-- ends in them, and without equals signs in the key.
pub load_config-config_text :
    (es : Settings) (k : Text)
    → All IsEntry es
    → Distinct (keys es)
    → lookup k (load_config (some (config_text es))) ≡ lookup k es
unfolding lookup
load_config-config_text es k h d =
    ap (lookup k) (load_config-text es h)
    ∙ lookup-insert_all k es [] d
    ∙ later_or-none (lookup k es)
