-- ===== src/Nmap/Lines.antt =====
-- Lines as nmap prints them, and how they are matched.
use mathlib.Core.List.{reverse, reverse-append, reverse-reverse}
use route_fork.Base.{
  ℕ, ◌^◌, ◌<◌, ◌≡◌, refl, sym, ap, ◌∙◌, subst, ◌≢◌, ◌⊎◌, inl, inr, Bool, true, false, some, [], ◌∷◌,
  ◌++◌, append-nil, append_assoc, arith, if◌then◌else◌, All, All-mono,
}
use route_fork.Text.{Text, codes, ◌==ₜ◌, is_space, trim_left, trim_space, has_prefix}
use route_fork.Text.Decimal.{itoa, itoa-IsDigit, itoa-ne-nil, IsDigit}
use route_fork.Proxy.Parse.{is_blank, is_digit}
use route_fork.Nmap.{
  span, is_word, protocol, with_protocol, with_digits, cut_port, open_at, has_open, PortDetail,
  match_detail,
}

module _ (keep : ℕ → Bool) where
  abbrev pub Stops : Text → Type 0
  Stops [] = Unit
  Stops (c ∷ s) = keep c ≡ false

  span-append : (s t : Text) → All (λ c. keep c ≡ true) s → Stops t → span keep (s ++ t) ≡ (s, t)
  unfolding span
  span-append [] [] h k = refl
  span-append [] (c ∷ t) h k = rw k refl
  span-append (d ∷ s) t h k = rw (span-append s t h.1 k, h.0) refl

abbrev pub Blanks : Text → Type 0
Blanks s = (s ≢ []) × All (λ c. is_blank c ≡ true) s

abbrev pub Word : Text → Type 0
Word s = (s ≢ []) × All (λ c. is_space c ≡ false) s

-- A line of an open port; `blanks` are before the state, the service and the version.
pub record PortLine : Type 0 where
  pub number : ℕ
  pub udp : Bool
  pub blanks : Text
  pub blanks' : Text
  pub blanks'' : Text
  pub service : Text
  pub version : Text

abbrev pub proto_of : PortLine → Text
proto_of p = if p.udp then codes "udp" else codes "tcp"

abbrev after_service : PortLine → Text
after_service p = elim p.version [ [] ↦ [] | c ∷ v ↦ p.blanks'' ++ c ∷ v ]

abbrev after_state : PortLine → Text
after_state p = p.blanks' ++ (p.service ++ after_service p)

abbrev after_proto : PortLine → Text
after_proto p = p.blanks ++ (codes "open" ++ after_state p)

unfoldable pub port_line : PortLine → Text
port_line p = itoa p.number ++ (b'/' ∷ (proto_of p ++ after_proto p))

-- A text that neither begins nor ends with white space.
pub record IsTight (s : Text) : Type 0 where
  pub first : ℕ
  pub rest : Text
  pub starts : s ≡ first ∷ rest
  pub first_kept : is_space first ≡ false
  pub init : Text
  pub last : ℕ
  pub ends : s ≡ init ++ last ∷ []
  pub last_kept : is_space last ≡ false

trim_left-kept : (c : ℕ) (s : Text) → is_space c ≡ false → trim_left (c ∷ s) ≡ c ∷ s
unfolding trim_left
trim_left-kept c s h = rw h refl

pub trim_space-IsTight : (s : Text) → IsTight s → trim_space s ≡ s
unfolding trim_space
trim_space-IsTight s t =
    let left : trim_left s ≡ s =
      ap trim_left t.starts ∙ trim_left-kept t.first t.rest t.first_kept ∙ sym t.starts in
    let turned : reverse s ≡ t.last ∷ reverse t.init =
      ap reverse t.ends ∙ reverse-append t.init (t.last ∷ []) in
    rw (left, turned, trim_left-kept t.last (reverse t.init) t.last_kept)
      (ap reverse (sym turned) ∙ reverse-reverse s)

not_empty : (s : Text) → s ≢ [] → (s ==ₜ []) ≡ false
not_empty [] h = absurd (h refl)
not_empty (c ∷ s) h = refl

All-digits : (s : Text) → All IsDigit s → All (λ c. is_digit c ≡ true) s
unfolding is_digit
All-digits s h = All-mono (λ c d. ground (arith, d.0, d.1)) s h

with_protocol-text :
    (digits : Text) (udp : Bool) (rest : Text)
    → with_protocol digits (protocol (b'/' ∷ ((if udp then codes "udp" else codes "tcp") ++ rest)))
      ≡ some (digits, (if udp then codes "udp" else codes "tcp"), rest)
unfolding protocol has_prefix
with_protocol-text digits true rest = refl
with_protocol-text digits false rest = refl

cut_port-itoa :
    (n : ℕ) (udp : Bool) (rest : Text)
    → cut_port (itoa n ++ (b'/' ∷ ((if udp then codes "udp" else codes "tcp") ++ rest)))
      ≡ some (itoa n, (if udp then codes "udp" else codes "tcp"), rest)
unfolding cut_port is_digit
cut_port-itoa n udp rest =
    let after = b'/' ∷ ((if udp then codes "udp" else codes "tcp") ++ rest) in
    ap with_digits (span-append is_digit (itoa n) after (All-digits (itoa n) (itoa-IsDigit n)) refl)
    ∙ rw (not_empty (itoa n) (itoa-ne-nil n)) (with_protocol-text (itoa n) udp rest)

span-Blanks :
    (s : Text) (c : ℕ) (t : Text)
    → Blanks s
    → is_blank c ≡ false
    → span is_blank (s ++ c ∷ t) ≡ (s, c ∷ t)
span-Blanks s c t h k = span-append is_blank s (c ∷ t) h.1 k

pub space-blank : (c : ℕ) → is_space c ≡ false → is_blank c ≡ false
unfolding is_space is_blank
space-blank c h = ground (arith, h)

word_byte : (c : ℕ) → is_space c ≡ false → is_word c ≡ true
word_byte c e = rw (space-blank c e) refl

pub span-word :
    (s t : Text)
    → All (λ c. is_space c ≡ false) s
    → Stops is_word t
    → span is_word (s ++ t) ≡ (s, t)
span-word s t h k = span-append is_word s t (All-mono (word_byte) s h) k

-- The line is of the form that nmap prints.
pub record IsPortLine (p : PortLine) : Type 0 where
  pub fits : p.number < 2 ^ 63
  pub gap : Blanks p.blanks
  pub gap' : Blanks p.blanks'
  pub gap'' : Blanks p.blanks''
  pub word : Word p.service
  pub tight : (p.version ≡ []) ⊎ IsTight p.version

pub open_at-port_line : (p : PortLine) → IsPortLine p → open_at (port_line p) ≡ true
unfolding open_at port_line has_prefix is_blank
open_at-port_line p h =
    rw
      (
        open_at,
        cut_port-itoa p.number p.udp (after_proto p),
        span-Blanks p.blanks b'o' (codes "pen" ++ after_state p) h.gap refl,
        not_empty p.blanks h.gap.0,
      )
      refl

pub has_open_of-open_at : (s : Text) → open_at s ≡ true → has_open s ≡ true
unfolding has_open
has_open_of-open_at [] h = h
has_open_of-open_at (c ∷ s) h = rw h refl

-- What the fields of the line say.
abbrev pub detail_of : PortLine → PortDetail
detail_of p = record {
  port = itoa p.number;
  proto = proto_of p;
  service = p.service;
  version = p.version;
}

span-word-Blanks : (s t : Text) → Blanks s → span is_word (s ++ t) ≡ ([], s ++ t)
unfolding span
span-word-Blanks [] t h = absurd (h.0 refl)
span-word-Blanks (c ∷ s) t h = rw (h.1.0) refl

Word-Stops : (s t : Text) → Word s → Stops is_blank (s ++ t)
Word-Stops [] t h = absurd (h.0 refl)
Word-Stops (c ∷ s) t h = space-blank c h.1.0

Blanks-Stops : (s t : Text) → Blanks s → Stops is_word (s ++ t)
Blanks-Stops [] t h = absurd (h.0 refl)
Blanks-Stops (c ∷ s) t h = rw (h.1.0) refl

module _ (blanks : Text) (gap : Blanks blanks) where
  -- What stands behind a service.
  abbrev behind : Text → Text
  behind version = elim version [ [] ↦ [] | c ∷ v ↦ blanks ++ c ∷ v ]

  behind-Stops : (version : Text) → Stops is_word (behind version)
  behind-Stops [] = tt
  behind-Stops (c ∷ v) = Blanks-Stops blanks (c ∷ v) gap

  behind-version :
      (version : Text)
      → (version ≡ []) ⊎ IsTight version
      → trim_space (span is_blank (behind version)).1 ≡ version
  unfolding span trim_space
  behind-version [] t = refl
  behind-version (c ∷ v) (inl e) = cc
  behind-version (c ∷ v) (inr t) =
      let first : t.first ≡ c = cc (t.starts) in
      let stop : is_blank c ≡ false =
        space-blank c (subst (λ d. is_space d ≡ false) first t.first_kept) in
      rw (span-Blanks blanks c v gap stop) (trim_space-IsTight (c ∷ v) t)

pub match_detail-port_line :
    (p : PortLine) → IsPortLine p → match_detail (port_line p) ≡ some (detail_of p)
unfolding match_detail port_line is_blank
match_detail-port_line p h =
    rw
      (
        match_detail,
        cut_port-itoa p.number p.udp (after_proto p),
        span-Blanks p.blanks b'o' (codes "pen" ++ after_state p) h.gap refl,
        not_empty p.blanks h.gap.0,
        span-word-Blanks p.blanks' (p.service ++ after_service p) h.gap',
        span-append is_blank p.blanks' (p.service ++ after_service p) h.gap'.1
            (Word-Stops p.service (after_service p) h.word),
        span-word p.service (after_service p) h.word.1 (behind-Stops p.blanks'' h.gap'' p.version),
        behind-version p.blanks'' h.gap'' p.version h.tight,
      )
      refl

-- The last byte of a text.
last_byte :
    (c : ℕ) (s : Text)
    → All (λ b. is_space b ≡ false) (c ∷ s)
    → (init : Text) × (last : ℕ) × (c ∷ s ≡ init ++ last ∷ []) × (is_space last ≡ false)
last_byte c [] h = ([], c, refl, h.0)
last_byte c (d ∷ s) h =
    let (init, last, e, k) = last_byte d s h.1 in (c ∷ init, last, ap (λ r. c ∷ r) e, k)

-- Behind a text that begins with no white space, one that ends with none.
record EndsWell (s : Text) : Type 0 where
  init : Text
  last : ℕ
  shape : s ≡ init ++ last ∷ []
  kept : is_space last ≡ false

Word-EndsWell : (s : Text) → Word s → EndsWell s
Word-EndsWell [] h = absurd (h.0 refl)
Word-EndsWell (c ∷ s) h =
    let (i, l, e, k) = last_byte c s h.1 in record { init = i; last = l; shape = e; kept = k }

IsTight-EndsWell : (s : Text) → IsTight s → EndsWell s
IsTight-EndsWell s t = record { init = t.init; last = t.last; shape = t.ends; kept = t.last_kept }

append-EndsWell : (a s : Text) → EndsWell s → EndsWell (a ++ s)
append-EndsWell a s w = record {
  init = a ++ w.init;
  last = w.last;
  shape = ap (λ r. a ++ r) w.shape ∙ sym (append_assoc a w.init (w.last ∷ []));
  kept = w.kept;
}

service-EndsWell :
    (blanks service version : Text) (gap : Blanks blanks)
    → Word service
    → (version ≡ []) ⊎ IsTight version
    → EndsWell (service ++ behind blanks gap version)
service-EndsWell blanks service [] gap w t =
    subst EndsWell (sym (append-nil service)) (Word-EndsWell service w)
service-EndsWell blanks service (c ∷ v) gap w (inl e) = cc
service-EndsWell blanks service (c ∷ v) gap w (inr t) =
    append-EndsWell service (blanks ++ c ∷ v)
      (append-EndsWell blanks (c ∷ v) (IsTight-EndsWell (c ∷ v) t))

digit-kept : (c : ℕ) → IsDigit c → is_space c ≡ false
unfolding is_space
digit-kept c h = ground (arith, h.0, h.1)

number-IsTight : (s t : Text) → s ≢ [] → All IsDigit s → EndsWell t → IsTight (s ++ t)
number-IsTight [] t n h w = absurd (n refl)
number-IsTight (c ∷ s) t n h w =
    let e = append-EndsWell (c ∷ s) t w in
    record {
      first = c;
      rest = s ++ t;
      starts = refl;
      first_kept = digit-kept c h.0;
      init = e.init;
      last = e.last;
      ends = e.shape;
      last_kept = e.kept;
    }

pub trim_space-port_line : (p : PortLine) → IsPortLine p → trim_space (port_line p) ≡ port_line p
unfolding port_line
trim_space-port_line p h = trim_space-IsTight (port_line p) (
    number-IsTight (itoa p.number) (b'/' ∷ (proto_of p ++ after_proto p)) (itoa-ne-nil p.number)
      (itoa-IsDigit p.number)
      (append-EndsWell (b'/' ∷ proto_of p) (after_proto p) (
        append-EndsWell p.blanks (codes "open" ++ after_state p) (
          append-EndsWell (codes "open") (after_state p) (
            append-EndsWell p.blanks' (p.service ++ after_service p)
              (service-EndsWell p.blanks'' p.service p.version h.gap'' h.word h.tight))))))
