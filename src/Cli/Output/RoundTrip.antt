-- ===== src/Cli/Output/RoundTrip.antt =====
-- The csv that cli/output.go writes is read back.
use route_fork.Base.{◌≡◌, refl, sym, ap, ◌∙◌, List, [], ◌∷◌, ◌++◌, map, append_assoc, All}
use route_fork.Base.Result.{Result, ok, err}
use route_fork.Text.{Text, codes, Lacks, contains, split}
use route_fork.Text.Parts.{split-append, contains-Lacks}
use route_fork.Net.{Conn, concat}
use route_fork.Cli.Output.{ScanResult, csv_header, csv_line, write_csv}
use route_fork.Cli.Output.Csv.{
  read_line, read_csv, ended, row, body, csv_line-body, read_line-body, IsPlain, body-Lacks,
}
use route_fork.Cli.Output.Writing.{Written, complete, broken, write_csv-Written}

abbrev line_of : Text → Text
line_of l = l ++ 10 ∷ []

split-lines :
    (ls : List Text) → All (Lacks 10) ls → split (concat (map line_of ls)) 10 ≡ ls ++ [] ∷ []
unfolding split
split-lines [] h = refl
split-lines (l ∷ ls) h =
    rw
      (
        append_assoc l (10 ∷ []) (concat (map line_of ls)),
        split-append l 10 (concat (map line_of ls)) h.0,
        split-lines ls h.1,
      )
      refl

ended-append : (ls : List Text) → ended (ls ++ [] ∷ []) ≡ ls
unfolding ended
ended-append [] = refl
ended-append (l ∷ []) = refl
ended-append (l ∷ (m ∷ ls)) = ap (λ r. l ∷ r) (ended-append (m ∷ ls))

abbrev header_body : Text
header_body = codes "host,port,proto,service,version,banner,proxy"

-- The names of the columns.
abbrev pub header_row : List Text
header_row =
    codes "host"
    ∷ codes "port"
    ∷ codes "proto"
    ∷ codes "service"
    ∷ codes "version"
    ∷ codes "banner"
    ∷ codes "proxy"
    ∷ []

lines-bodies : (results : List ScanResult) → map csv_line results ≡ map line_of (map body results)
lines-bodies [] = refl
lines-bodies (r ∷ results) = rw (csv_line-body r, lines-bodies results) refl

rows-bodies :
    (results : List ScanResult)
    → All IsPlain results
    → map read_line (map body results) ≡ map row results
rows-bodies [] h = refl
rows-bodies (r ∷ results) h =
    rw (read_line-body r h.0.proto_comma h.0.proto_quote, rows-bodies results h.1) refl

bodies-Lacks : (results : List ScanResult) → All IsPlain results → All (Lacks 10) (map body results)
bodies-Lacks [] h = tt
bodies-Lacks (r ∷ results) h = (body-Lacks r h.0, bodies-Lacks results h.1)

header-Lacks : Lacks 10 header_body
unfolding contains
header-Lacks = contains-Lacks header_body 10 refl

read_csv-bodies :
    (ls : List Text) → All (Lacks 10) ls → read_csv (concat (map line_of ls)) ≡ map read_line ls
unfolding read_csv
read_csv-bodies ls h = rw (split-lines ls h, ended-append ls) refl

header_read : read_line header_body ≡ header_row
unfolding read_line
header_read = refl

read_csv-lines :
    (results : List ScanResult)
    → All IsPlain results
    → read_csv (concat (csv_header ∷ map csv_line results)) ≡ header_row ∷ map row results
read_csv-lines results h =
    let bodies = header_body ∷ map body results in
    ap (λ ls. read_csv (concat (csv_header ∷ ls))) (lines-bodies results)
    ∙ read_csv-bodies bodies (header-Lacks, bodies-Lacks results h)
    ∙ ap (λ r. r ∷ map read_line (map body results)) header_read
    ∙ ap (λ rows. header_row ∷ rows) (rows-bodies results h)

ok_ne_err : {x : Text} → ◌≡◌ {A = Result Text (Unit {0})} (ok tt) (err x) → ⊥
ok_ne_err e = cc

-- If no write fails, a csv reader finds in what the csv writer adds to the file the names of the
-- columns and then the fields of each result, in order, for results without line ends, whose
-- protocol has no comma and no quote.
pub read_csv-write_csv :
    (results : List ScanResult) (c : Conn)
    → All IsPlain results
    → (write_csv results c).0 ≡ ok tt
    → (text : Text) × ((write_csv results c).1.sent ≡ c.sent ++ text)
      × (read_csv text ≡ header_row ∷ map row results)
read_csv-write_csv results c h done = by_outcome (write_csv-Written results c)
  where
    by_outcome :
        Written (csv_header ∷ map csv_line results) c (write_csv results c)
        → (text : Text) × ((write_csv results c).1.sent ≡ c.sent ++ text)
          × (read_csv text ≡ header_row ∷ map row results)
    by_outcome (complete q e) = (_, e, read_csv-lines results h)
    by_outcome (broken n k line x b g q e) = absurd (ok_ne_err (sym done ∙ q))
