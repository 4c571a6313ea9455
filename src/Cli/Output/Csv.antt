-- ===== src/Cli/Output/Csv.antt =====
-- A reader of RFC 4180, and what it makes of the csv that cli/output.go writes.
use route_fork.Base.{
  ℕ, ◌<◌, ◌≡◌, refl, sym, ap, ◌∙◌, inl, inr, Bool, true, false, Option, none, some, List, [], ◌∷◌,
  ◌++◌, map, append-nil, append_assoc, arith, ◌==◌, if◌then◌else◌, ==_iff, Bool-cases, All,
  All-append,
}
use route_fork.Text.{Text, Lacks, split, join}
use route_fork.Text.Decimal.{itoa, itoa-IsDigit, IsDigit}
use route_fork.Text.Parts.{contains-Lacks}
use route_fork.Proxy.Errors.{contains_any}
use route_fork.Cli.Output.{ScanResult, replace_byte, csv_esc, csv_line}

-- Where the reader of a line is: at a field's first byte, in a field, in a quoted field, or behind
-- a quote in one.
pub data Place : Type 0 where
  first bare quoted behind : Place

-- The fields of a line, the one so far in front.
unfoldable pub read_from : Place → Text → Text → List Text
read_from place field [] = field ∷ []
read_from first field (c ∷ s) =
    let next = field ∷ read_from first [] s in
    let quote = read_from quoted field s in
    let more = read_from bare (field ++ c ∷ []) s in
    if c == b',' then next else if c == b'"' then quote else more
read_from bare field (c ∷ s) =
    let next = field ∷ read_from first [] s in
    let more = read_from bare (field ++ c ∷ []) s in if c == b',' then next else more
read_from quoted field (c ∷ s) =
    let quote = read_from behind field s in
    let more = read_from quoted (field ++ c ∷ []) s in if c == b'"' then quote else more
read_from behind field (c ∷ s) =
    let next = field ∷ read_from first [] s in
    let more = read_from quoted (field ++ c ∷ []) s in if c == b',' then next else more

unfoldable pub read_line : Text → List Text
unfolding read_from
read_line s = read_from first [] s

-- The lines of a file whose last line has an end.
unfoldable pub ended : List Text → List Text
ended [] = []
ended (l ∷ []) = []
ended (l ∷ (m ∷ lines)) = l ∷ ended (m ∷ lines)

unfoldable pub read_csv : Text → List (List Text)
unfolding read_line ended
read_csv s = map read_line (ended (split s 10))

-- What follows a field of a line: nothing, or a comma and more fields.
abbrev tail : Option Text → Text
tail none = []
tail (some rest) = b',' ∷ rest

abbrev fields_of : Option Text → List Text
fields_of none = []
fields_of (some rest) = read_from first [] rest

-- A field without commas and quotes is read as it is.
bare-field :
    (s field : Text) (t : Option Text)
    → Lacks b',' s
    → read_from bare field (s ++ tail t) ≡ (field ++ s) ∷ fields_of t
unfolding read_from
bare-field [] field none h = ap (λ f. f ∷ []) (sym (append-nil field))
bare-field [] field (some rest) h = ap (λ f. f ∷ read_from first [] rest) (sym (append-nil field))
bare-field (c ∷ s) field t h =
    let other : (c == b',') ≡ false = ground (arith, h.0) in
    rw (other, bare-field s (field ++ c ∷ []) t h.1, append_assoc field (c ∷ []) s) refl

plain_field :
    (s : Text) (t : Option Text)
    → Lacks b',' s
    → Lacks b'"' s
    → read_from first [] (s ++ tail t) ≡ s ∷ fields_of t
unfolding read_from
plain_field [] none h k = refl
plain_field [] (some rest) h k = refl
plain_field (c ∷ s) t h k =
    let other : (c == b',') ≡ false = ground (arith, h.0) in
    let unquoted : (c == b'"') ≡ false = ground (arith, k.0) in
    rw (other, unquoted) (bare-field s (c ∷ []) t h.1)

abbrev doubled : Text → Text
doubled s = replace_byte b'"' (b'"' ∷ b'"' ∷ []) s

-- Between its quotes, an escaped field is read back.
quoted_field :
    (s field rest : Text)
    → read_from quoted field (doubled s ++ b'"' ∷ rest) ≡ read_from behind (field ++ s) rest
unfolding read_from replace_byte
quoted_field [] field rest = ap (λ f. read_from behind f rest) (sym (append-nil field))
quoted_field (c ∷ s) field rest = elim (Bool-cases (c == b'"')) [
  | inl e ↦
      let same : b'"' ≡ c = sym ((==_iff c b'"').0 e) in
      rw (e, quoted_field s (field ++ b'"' ∷ []) rest, append_assoc field (b'"' ∷ []) s)
        (ap (λ d. read_from behind (field ++ d ∷ s) rest) same)
  | inr e ↦ rw (e, e, quoted_field s (field ++ c ∷ []) rest, append_assoc field (c ∷ []) s) refl
]

behind-tail : (s : Text) (t : Option Text) → read_from behind s (tail t) ≡ s ∷ fields_of t
unfolding read_from
behind-tail s none = refl
behind-tail s (some rest) = refl

special : Text → Bool
special s = contains_any s ((b',' ∷ []) ∷ (b'"' ∷ []) ∷ [])

not_special : (s : Text) → special s ≡ false → Lacks b',' s × Lacks b'"' s
unfolding special contains_any
not_special s h =
    (contains-Lacks s b',' (ground (arith, h)), contains-Lacks s b'"' (ground (arith, h)))

csv_esc-special : (s : Text) → special s ≡ true → csv_esc s ≡ b'"' ∷ doubled s ++ b'"' ∷ []
unfolding csv_esc special
csv_esc-special s e = rw (csv_esc, e) refl

csv_esc-not_special : (s : Text) → special s ≡ false → csv_esc s ≡ s
unfolding csv_esc special
csv_esc-not_special s e = rw (csv_esc, e) refl

-- An escaped field is read back, in front of a comma or at the end of a line.
csv_esc-field :
    (s : Text) (t : Option Text) → read_from first [] (csv_esc s ++ tail t) ≡ s ∷ fields_of t
unfolding read_from
csv_esc-field s t = elim (Bool-cases (special s)) [
  | inl e ↦
      rw (csv_esc-special s e, append_assoc (doubled s) (b'"' ∷ []) (tail t))
        (quoted_field s [] (tail t) ∙ behind-tail s t)
  | inr e ↦
      let none_of = not_special s e in
      rw (csv_esc-not_special s e) (plain_field s t none_of.0 none_of.1)
]

last_field : (s : Text) → read_from first [] (csv_esc s) ≡ s ∷ []
last_field s = ap (read_from first []) (sym (append-nil (csv_esc s))) ∙ csv_esc-field s none

-- The fields of a result's line.
abbrev pub row : ScanResult → List Text
row r = r.host ∷ itoa r.port ∷ r.proto ∷ r.service ∷ r.version ∷ r.banner ∷ r.proxy ∷ []

pub body : ScanResult → Text
body r =
    csv_esc r.host
    ++ b','
      ∷ (itoa r.port
          ++ b','
            ∷ (r.proto
                ++ b','
                  ∷ (csv_esc r.service
                      ++ b','
                        ∷ (csv_esc r.version
                            ++ b',' ∷ (csv_esc r.banner ++ b',' ∷ csv_esc r.proxy)))))

pub csv_line-body : (r : ScanResult) → csv_line r ≡ body r ++ 10 ∷ []
unfolding csv_line body join
csv_line-body r = refl

digits_lack : (b : ℕ) (s : Text) → All IsDigit s → b < b'0' → Lacks b s
digits_lack b [] h l = tt
digits_lack b (c ∷ s) h l = ((λ e. omega (arith, h.0.0, e)), digits_lack b s h.1 l)

pub read_line-body :
    (r : ScanResult) → Lacks b',' r.proto → Lacks b'"' r.proto → read_line (body r) ≡ row r
unfolding read_line body
read_line-body r h k =
    let digits = itoa-IsDigit r.port in
    let banner = csv_esc r.banner ++ b',' ∷ csv_esc r.proxy in
    let version = csv_esc r.version ++ b',' ∷ banner in
    let service = csv_esc r.service ++ b',' ∷ version in
    let proto = r.proto ++ b',' ∷ service in
    let port = itoa r.port ++ b',' ∷ proto in
    rw
      (
        csv_esc-field r.host (some port),
        plain_field (itoa r.port) (some proto) (digits_lack b',' (itoa r.port) digits (omega arith))
            (digits_lack b'"' (itoa r.port) digits (omega arith)),
        plain_field r.proto (some service) h k,
        csv_esc-field r.service (some version),
        csv_esc-field r.version (some banner),
        csv_esc-field r.banner (some (csv_esc r.proxy)),
        last_field r.proxy,
      )
      refl

-- No end of a line is within the line of a result.
pub record IsPlain (r : ScanResult) : Type 0 where
  pub proto_comma : Lacks b',' r.proto
  pub proto_quote : Lacks b'"' r.proto
  pub host_lines : Lacks 10 r.host
  pub proto_lines : Lacks 10 r.proto
  pub service_lines : Lacks 10 r.service
  pub version_lines : Lacks 10 r.version
  pub banner_lines : Lacks 10 r.banner
  pub proxy_lines : Lacks 10 r.proxy

doubled-Lacks : (s : Text) → Lacks 10 s → Lacks 10 (doubled s)
unfolding replace_byte
doubled-Lacks [] h = tt
doubled-Lacks (c ∷ s) h = elim (Bool-cases (c == b'"')) [
  | inl e ↦ rw e ((λ e. omega (arith, e)), ((λ e. omega (arith, e)), doubled-Lacks s h.1))
  | inr e ↦ rw e (h.0, doubled-Lacks s h.1)
]

csv_esc-Lacks : (s : Text) → Lacks 10 s → Lacks 10 (csv_esc s)
csv_esc-Lacks s h = elim (Bool-cases (special s)) [
  | inl e ↦ rw (csv_esc-special s e) (
    (λ e. omega (arith, e)),
    All-append _ (doubled s) (b'"' ∷ []) (doubled-Lacks s h) ((λ e. omega (arith, e)), tt),
  )
  | inr e ↦ rw (csv_esc-not_special s e) h
]

field-Lacks : (s t : Text) → Lacks 10 s → Lacks 10 t → Lacks 10 (s ++ b',' ∷ t)
field-Lacks s t h k = All-append _ s (b',' ∷ t) h ((λ e. omega (arith, e)), k)

pub body-Lacks : (r : ScanResult) → IsPlain r → Lacks 10 (body r)
unfolding body
body-Lacks r p = field-Lacks _ _ (csv_esc-Lacks r.host p.host_lines) (
    field-Lacks _ _ (digits_lack 10 (itoa r.port) (itoa-IsDigit r.port) (omega arith)) (
      field-Lacks _ _ p.proto_lines (
        field-Lacks _ _ (csv_esc-Lacks r.service p.service_lines) (
          field-Lacks _ _ (csv_esc-Lacks r.version p.version_lines) (
            field-Lacks _ _ (csv_esc-Lacks r.banner p.banner_lines)
              (csv_esc-Lacks r.proxy p.proxy_lines))))))
