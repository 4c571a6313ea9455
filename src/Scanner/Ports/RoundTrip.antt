-- ===== src/Scanner/Ports/RoundTrip.antt =====
-- `CompressPorts` against `ParsePorts`.
use route_fork.Base.{
  ℕ, zero, suc, ◌+◌, ◌-◌, ◌≤◌, ◌≡◌, refl, sym, ap, ◌∙◌, ◌≢◌, inl, inr, false, List, [], ◌∷◌, ◌++◌,
  append-nil, append_assoc, arith, ◌==◌, ==_iff, Bool-cases, length, length-append, All, All-append,
}
use route_fork.Base.Result.{ok}
use route_fork.Text.{Text, Lacks, trim_space, join}
use route_fork.Base.Sort.{sort, IsSorted, sort-IsSorted, All-sort, length-sort}
use route_fork.Text.Decimal.{itoa}
use route_fork.Text.Parts.{trim_space_none, split-join_any}
use route_fork.Scanner.Ports.{
  max_parsed_ports, count_up, interval, parse_part, parse_parts, parse_ports, piece, runs,
  compress_sorted, compress_ports,
}
use route_fork.Scanner.Ports.Parse.{IsPort, length-count_up}
use route_fork.Scanner.Ports.Pieces.{
  piece-NoSpace, piece-Lacks_comma, interval_one, parse_part-single, parse_part-run,
}

-- A piece is read back as the run that it stands for.
parse_part-piece :
    (s e : ℕ) (ports : List ℕ)
    → 1 ≤ s
    → s ≤ e
    → e ≤ 65535
    → length ports + (e - s + 1) ≤ max_parsed_ports
    → parse_part (trim_space (piece s e)) ports ≡ ok (ports ++ interval s e)
parse_part-piece s e ports h k m fits =
    rw (trim_space_none (piece s e) (piece-NoSpace s e)) (elim (Bool-cases (s == e)) [
      | inl t ↦ one ((==_iff s e).0 t)
      | inr t ↦ rw (piece_many t) (parse_part-run s e ports h k m fits)
    ])
  where
    piece_one : s ≡ e → piece s e ≡ itoa s
    piece_one t = unfold piece in ground arith

    piece_many : (s == e) ≡ false → piece s e ≡ itoa s ++ b'-' ∷ itoa e
    piece_many t = unfold piece in rw t

    one : s ≡ e → parse_part (piece s e) ports ≡ ok (ports ++ interval s e)
    one t =
        rw (piece_one t, ← t, interval_one)
          (parse_part-single s ports (h, omega arith) (omega arith))

count_up_snoc : (k i : ℕ) → count_up i (suc k) ≡ count_up i k ++ (i + k) ∷ []
unfolding count_up
count_up_snoc zero i = let e : i + 0 ≡ i = omega arith in rw e
count_up_snoc (suc k) i =
    let e : i + 1 + k ≡ i + suc k = omega arith in
    ap (λ r. i ∷ r) (rw (← e) (count_up_snoc k (i + 1)))

interval_snoc : (s e : ℕ) → s ≤ e → interval s (e + 1) ≡ interval s e ++ (e + 1) ∷ []
interval_snoc s e h =
    let a : e + 1 + 1 - s ≡ suc (e + 1 - s) = omega arith in
    let b : s + (e + 1 - s) ≡ e + 1 = omega arith in rw (a, count_up_snoc, b)

runs-append :
    (ps : List ℕ) (s e : ℕ) (parts : List Text) → runs ps s e parts ≡ parts ++ runs ps s e []
unfolding runs
runs-append [] s e parts = refl
runs-append (p ∷ ps) s e parts = elim (Bool-cases (p == e + 1)) [
  | inl t ↦ rw t (runs-append ps s p parts)
  | inr t ↦ rw t (
      rw (runs-append ps p p (parts ++ piece s e ∷ []), runs-append ps p p (piece s e ∷ []))
        (append_assoc parts (piece s e ∷ []) (runs ps p p [])))
]

abbrev Reads : List ℕ → ℕ → ℕ → List ℕ → Type 0
Reads ps s e ports = parse_parts (runs ps s e []) ports ≡ ok ((ports ++ interval s e) ++ ps)

parse_parts_step :
    (s e : ℕ) (parts : List Text) (ports : List ℕ)
    → 1 ≤ s
    → s ≤ e
    → e ≤ 65535
    → length ports + (e - s + 1) ≤ max_parsed_ports
    → parse_parts (piece s e ∷ parts) ports ≡ parse_parts parts (ports ++ interval s e)
unfolding parse_parts
parse_parts_step s e parts ports h k m fits = rw (parse_part-piece s e ports h k m fits)

parse_parts_nil : (ports : List ℕ) → parse_parts [] ports ≡ ok ports
unfolding parse_parts
parse_parts_nil ports = refl

runs_nil : (s e : ℕ) → runs [] s e [] ≡ piece s e ∷ []
unfolding runs
runs_nil s e = refl

runs_grow :
    (p : ℕ) (ps : List ℕ) (s e : ℕ) → p ≡ e + 1 → runs (p ∷ ps) s e [] ≡ runs ps s (e + 1) []
unfolding runs
runs_grow p ps s e t = ground arith

runs_flush :
    (p : ℕ) (ps : List ℕ) (s e : ℕ)
    → (p == e + 1) ≡ false
    → runs (p ∷ ps) s e [] ≡ piece s e ∷ runs ps p p []
unfolding runs
runs_flush p ps s e t = rw t (runs-append ps p p (piece s e ∷ []))

Reads-grow :
    (p : ℕ) (ps : List ℕ) (s e : ℕ) (ports : List ℕ)
    → s ≤ e
    → p ≡ e + 1
    → Reads ps s (e + 1) ports
    → Reads (p ∷ ps) s e ports
Reads-grow p ps s e ports k t ih =
    rw (runs_grow p ps s e t, ih, interval_snoc s e k, t)
      (ap ok (
        ap (λ r. r ++ ps) (sym (append_assoc ports (interval s e) ((e + 1) ∷ [])))
        ∙ append_assoc (ports ++ interval s e) ((e + 1) ∷ []) ps))

Reads-flush :
    (p : ℕ) (ps : List ℕ) (s e : ℕ) (ports : List ℕ)
    → (p == e + 1) ≡ false
    → parse_parts (piece s e ∷ runs ps p p []) ports
      ≡ parse_parts (runs ps p p []) (ports ++ interval s e)
    → Reads ps p p (ports ++ interval s e)
    → Reads (p ∷ ps) s e ports
Reads-flush p ps s e ports t step ih =
    rw (runs_flush p ps s e t, step, ih, interval_one p)
      (ap ok (append_assoc (ports ++ interval s e) (p ∷ []) ps))

-- Reading the runs of a sorted list gives the list back.
parse_parts-runs :
    (ps : List ℕ) (s e : ℕ) (ports : List ℕ)
    → 1 ≤ s
    → s ≤ e
    → All (λ p. e ≤ p) ps
    → IsSorted ps
    → All IsPort (e ∷ ps)
    → length ports + (e - s + 1) + length ps ≤ max_parsed_ports
    → Reads ps s e ports
parse_parts-runs [] s e ports h k above sorted valid fits = rw (
  runs_nil,
  parse_parts_step s e [] ports h k (omega arith) (omega arith),
  parse_parts_nil,
  append-nil,
)
parse_parts-runs (p ∷ ps) s e ports h k above sorted valid fits = elim (Bool-cases (p == e + 1)) [
  | inl t ↦
      let next : p ≡ e + 1 = (==_iff p (e + 1)).0 t in
      Reads-grow p ps s e ports k next (
        parse_parts-runs ps s (e + 1) ports h (omega arith) (rw (← next) sorted.0) sorted.1
          (omega arith, valid.1.1) (omega arith))
  | inr t ↦
      Reads-flush p ps s e ports t
        (parse_parts_step s e (runs ps p p []) ports h k (omega arith) (omega arith))
        (parse_parts-runs ps p p (ports ++ interval s e) (omega arith) (omega arith) sorted.0
          sorted.1 valid.1
          (omega (arith, length-append ports (interval s e), length-count_up (e + 1 - s) s)))
]

runs-Lacks_comma :
    (ps : List ℕ) (s e : ℕ) (parts : List Text)
    → All (Lacks b',') parts
    → All (Lacks b',') (runs ps s e parts)
unfolding runs
runs-Lacks_comma [] s e parts h = All-append _ parts _ h (piece-Lacks_comma s e, tt)
runs-Lacks_comma (p ∷ ps) s e parts h = elim (Bool-cases (p == e + 1)) [
  | inl t ↦ rw t (runs-Lacks_comma ps s p parts h)
  | inr t ↦ rw t (
      runs-Lacks_comma ps p p (parts ++ piece s e ∷ [])
        (All-append _ parts _ h (piece-Lacks_comma s e, tt)))
]

runs-ne-nil : (ps : List ℕ) (s e : ℕ) → runs ps s e [] ≢ []
unfolding runs
runs-ne-nil [] s e = λ h. cc
runs-ne-nil (p ∷ ps) s e = elim (Bool-cases (p == e + 1)) [
  | inl t ↦ rw t (runs-ne-nil ps s p)
  | inr t ↦ rw (t, runs-append ps p p (piece s e ∷ [])) (λ h. cc)
]

parse_ports-join :
    (parts : List Text)
    → parts ≢ []
    → All (Lacks b',') parts
    → parse_ports (join parts b',') ≡ parse_parts parts []
unfolding parse_ports
parse_ports-join parts h k = rw (split-join_any parts b',' h k)

parse_ports-compress_sorted :
    (ps : List ℕ)
    → ps ≢ []
    → IsSorted ps
    → All IsPort ps
    → length ps ≤ max_parsed_ports
    → parse_ports (compress_sorted ps) ≡ ok ps
unfolding compress_sorted
parse_ports-compress_sorted [] h sorted valid fits = absurd (h refl)
parse_ports-compress_sorted (p ∷ ps) h sorted valid fits =
    rw (parse_ports-join (runs ps p p []) (runs-ne-nil ps p p) (runs-Lacks_comma ps p p [] tt)) (
      rw (interval_one p) at
        (parse_parts-runs ps p p [] valid.0.0 (omega arith) sorted.0 sorted.1 valid (omega arith)))

sort-ne-nil : (ps : List ℕ) → ps ≢ [] → sort ps ≢ []
sort-ne-nil [] h = absurd (h refl)
sort-ne-nil (p ∷ ps) h = λ e. absurd (omega (arith, ap length e, length-sort (p ∷ ps)))

-- A non-empty list of at most 2^20 valid ports, in any order and with repetitions, is read back
-- from its compressed specification as the same ports in ascending order.
pub parse_ports-compress_ports :
    (ports : List ℕ)
    → ports ≢ []
    → All IsPort ports
    → length ports ≤ max_parsed_ports
    → parse_ports (compress_ports ports) ≡ ok (sort ports)
unfolding compress_ports
parse_ports-compress_ports ports h valid fits =
    parse_ports-compress_sorted (sort ports) (sort-ne-nil ports h) (sort-IsSorted ports)
      (All-sort IsPort ports valid) (omega (arith, length-sort ports))
