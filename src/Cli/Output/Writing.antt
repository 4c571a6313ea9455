-- ===== src/Cli/Output/Writing.antt =====
-- The writers of cli/output.go on a file that may fail.
use route_fork.Base.{
  ℕ, suc, ◌≡◌, refl, sym, ap, ◌∙◌, inl, inr, false, Option, none, some, List, [], ◌∷◌, ◌++◌, map,
  append-nil, append_assoc, if◌then◌else◌, Bool-cases, get_elem?, take,
}
use route_fork.Base.Result.{ok, err}
use route_fork.Text.{Text, codes, ◌==ₜ◌, trim_space, to_lower}
use route_fork.Net.{Conn, Session, Reply, chain, ◌>>◌, return, write, written, concat}
use route_fork.Cli.Output.{
  ScanResult, txt_line, write_txt, csv_header, csv_line, write_csv_lines, write_csv, write_results,
  XmlHost,
}

-- Lines written one by one, up to the first error.
unfoldable pub write_lines : List Text → Session Unit
write_lines [] = return tt
write_lines (l ∷ lines) = do write l; write_lines lines

module _ {A B : Type 0} {f g : A → Session B} where
  -- Chains with one first call, and the same results after it.
  chain-same : (w : Reply A) → ((a : A) (c : Conn) → f a c ≡ g a c) → chain w f ≡ chain w g
  chain-same (ok a, c) h = h a c
  chain-same (err e, c) h = refl

write_txt-lines :
    (results : List ScanResult) (c : Conn)
    → write_txt results c ≡ write_lines (map txt_line results) c
unfolding write_txt write_lines
write_txt-lines [] c = refl
write_txt-lines (r ∷ results) c =
    chain-same (write (txt_line r) c) (λ u c'. write_txt-lines results c')

write_csv_lines-lines :
    (results : List ScanResult) (c : Conn)
    → write_csv_lines results c ≡ write_lines (map csv_line results) c
unfolding write_csv_lines write_lines
write_csv_lines-lines [] c = refl
write_csv_lines-lines (r ∷ results) c =
    chain-same (write (csv_line r) c) (λ u c'. write_csv_lines-lines results c')

write_csv-lines :
    (results : List ScanResult) (c : Conn)
    → write_csv results c ≡ write_lines (csv_header ∷ map csv_line results) c
unfolding write_csv write_lines
write_csv-lines results c =
    chain-same (write csv_header c) (λ u c'. write_csv_lines-lines results c')

-- What writing lines one by one comes to: all of them are written, or the n-th write ends in the
-- error that is returned, and the n lines before it and a front of the next are all that is written.
pub data Written (lines : List Text) (c : Conn) (r : Reply Unit) : Type 0 where
  complete : r.0 ≡ ok tt → r.1.sent ≡ c.sent ++ concat lines → Written lines c r
  broken :
      (n k : ℕ) (line e : Text)
      → get_elem? lines n ≡ some line
      → get_elem? c.writes n ≡ some (some (k, e))
      → r.0 ≡ err e
      → r.1.sent ≡ c.sent ++ concat (take n lines) ++ take k line
      → Written lines c r

-- One more line in front, which was written.
Written-cons :
    (l : Text) (lines : List Text) (c c' : Conn) (r : Reply Unit)
    → c'.sent ≡ c.sent ++ l
    → ((n : ℕ) (e : ℕ × Text)
        → get_elem? c'.writes n ≡ some (some e)
        → get_elem? c.writes (suc n) ≡ some (some e))
    → Written lines c' r
    → Written (l ∷ lines) c r
Written-cons l lines c c' r s w (complete q e) =
    complete q (e ∙ ap (λ x. x ++ concat lines) s ∙ append_assoc c.sent l (concat lines))
Written-cons l lines c c' r s w (broken n k line x b g q e) =
    broken (suc n) k line x b (w n (k, x) g) q (
      e
      ∙ ap (λ y. y ++ concat (take n lines) ++ take k line) s
      ∙ ap (λ y. y ++ take k line) (append_assoc c.sent l (concat (take n lines))))

no_value : {A : Type 0} {a : A} → none ≡ some a → ⊥
no_value e = cc

write_lines-Written : (lines : List Text) (c : Conn) → Written lines c (write_lines lines c)
unfolding write_lines write
write_lines-Written [] c = complete refl (sym (append-nil c.sent))
write_lines-Written (l ∷ lines) c = by_writes c.writes refl (λ c'. write_lines-Written lines c')
  where
    by_writes :
        (ws : List (Option (ℕ × Text)))
        → c.writes ≡ ws
        → ((c' : Conn) → Written lines c' (write_lines lines c'))
        → Written (l ∷ lines) c (chain (written ws l c) (λ _. write_lines lines))
    by_writes [] h ih =
        let c' = record c { sent = c.sent ++ l } in
        Written-cons l lines c c' (write_lines lines c') refl
          (λ n e g. absurd (no_value (sym (ap (λ ws. get_elem? ws n) h) ∙ g))) (ih c')
    by_writes (none ∷ ws) h ih =
        let c' = record c { sent = c.sent ++ l; writes = ws } in
        Written-cons l lines c c' (write_lines lines c') refl
          (λ n e g. ap (λ ws. get_elem? ws (suc n)) h ∙ g) (ih c')
    by_writes (some (k, e) ∷ ws) h ih =
        broken 0 k l e refl (ap (λ ws. get_elem? ws 0) h) refl
          (ap (λ y. y ++ take k l) (sym (append-nil c.sent)))

pub write_csv-Written :
    (results : List ScanResult) (c : Conn)
    → Written (csv_header ∷ map csv_line results) c (write_csv results c)
write_csv-Written results c =
    rw (write_csv-lines results c) (write_lines-Written (csv_header ∷ map csv_line results) c)

-- The lines of a format that is neither json nor xml.
abbrev pub lines_of : Text → List ScanResult → List Text
lines_of format results =
    if to_lower (trim_space format) ==ₜ codes "csv"
    then csv_header ∷ map csv_line results
    else map txt_line results

-- On any file, and for every format but json and xml, `WriteResults` writes the lines of the format
-- and returns no error, or it returns the error of the first write that fails, with just the lines
-- before it written and as many bytes of its line as went out before the error.
pub write_results-Written :
    (encode_json : List ScanResult → Text) (encode_xml : List XmlHost → Text)
    (results : List ScanResult) (format : Text) (c : Conn)
    → (to_lower (trim_space format) ==ₜ codes "json") ≡ false
    → (to_lower (trim_space format) ==ₜ codes "xml") ≡ false
    → Written (lines_of format results) c (write_results encode_json encode_xml results format c)
unfolding write_results
write_results-Written encode_json encode_xml results format c j x =
    elim (Bool-cases (to_lower (trim_space format) ==ₜ codes "csv")) [
      | inl e ↦ rw (j, x, e) (write_csv-Written results c)
      | inr e ↦
          rw (j, x, e, write_txt-lines results c) (write_lines-Written (map txt_line results) c)
    ]
