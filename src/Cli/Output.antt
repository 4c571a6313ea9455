-- ===== src/Cli/Output.antt =====
-- cli/output.go. A writer is the sending side of a connection: the text so far and the results of
-- the writes to come. What the Go library encodes as json and xml are the arguments `encode_json`
-- and `encode_xml`, written in one piece.
pub mod Csv
pub mod Writing
pub mod RoundTrip
mod Examples
use route_fork.Base.{
  ℕ, zero, suc, ◌+◌, ◌-◌, ◌*◌, ◌/◌, ◌%◌, ◌^◌, ◌≤◌, ◌<◌, ◌≡◌, refl, sym, ap, ◌∙◌, subst, ◌≢◌, ◌↔◌,
  ◌⊎◌, inl, inr, Bool, true, false, not, ◌&&◌, ◌||◌, Option, none, some, List, [], ◌∷◌, ◌++◌, map,
  append-nil, append_assoc, arith, ltb, leb, ◌==◌, if◌then◌else◌, leb→le, not_leb, ==_iff,
  Bool-cases, Option-cases, length, get_elem?, get_or, length-append, get_elem?-lt, take, drop,
  take-drop, length-take, same_front, All, All-append, All-left, All-right, All-mono,
}
use route_fork.Text.{
  Text, codes, Lacks, ◌==ₜ◌, is_space, trim_left, trim_space, has_prefix, contains, cons_head,
  split, split_n, join, fields, lower, upper, to_lower, to_upper,
}
use route_fork.Base.Result.{Result, ok, err}
use route_fork.Text.Map.{lookup, insert}
use route_fork.Text.Decimal.{itoa}
use route_fork.Net.{Conn, Session, Reply, chain, ◌>>=◌, ◌>>◌, return, write, written}
use route_fork.Proxy.{pad_right}
use route_fork.Proxy.Errors.{contains_any}

pub record ScanResult : Type 0 where
  pub host : Text
  pub port : ℕ
  pub proto : Text
  pub service : Text
  pub version : Text
  pub banner : Text
  pub proxy : Text

-- `before`, the field and `after`, for a field that is not empty
abbrev pub if_any : Text → Text → Text → Text
if_any before [] after = []
if_any before (c ∷ s) after = before ++ (c ∷ s) ++ after

unfoldable pub txt_line : ScanResult → Text
unfolding pad_right
txt_line r =
    pad_right 20 r.host
    ++ codes "  "
    ++ itoa r.port
    ++ codes "/"
    ++ r.proto
    ++ if_any (codes "  ") r.service []
    ++ if_any (codes "  ") r.version []
    ++ if_any (codes "  [") r.banner (codes "]")
    ++ if_any (codes "  via ") r.proxy []
    ++ codes "\n"

unfoldable pub write_txt : List ScanResult → Session Unit
unfolding txt_line
write_txt [] = return tt
write_txt (r ∷ results) = do write (txt_line r); write_txt results

-- strings.ReplaceAll for one byte
unfoldable pub replace_byte : ℕ → Text → Text → Text
replace_byte b new [] = []
replace_byte b new (c ∷ s) =
    if c == b then new ++ replace_byte b new s else c ∷ replace_byte b new s

unfoldable pub csv_esc : Text → Text
unfolding replace_byte contains_any
csv_esc s =
    if contains_any s ((b',' ∷ []) ∷ (b'"' ∷ []) ∷ [])
    then b'"' ∷ replace_byte b'"' (b'"' ∷ b'"' ∷ []) s ++ b'"' ∷ []
    else s

abbrev pub csv_header : Text
csv_header = codes "host,port,proto,service,version,banner,proxy\n"

unfoldable pub csv_line : ScanResult → Text
unfolding csv_esc
csv_line r =
    join
      (csv_esc r.host
        ∷ itoa r.port
        ∷ r.proto
        ∷ csv_esc r.service
        ∷ csv_esc r.version
        ∷ csv_esc r.banner
        ∷ csv_esc r.proxy
        ∷ [])
      b','
    ++ codes "\n"

-- The loop over the results.
unfoldable pub write_csv_lines : List ScanResult → Session Unit
unfolding csv_line
write_csv_lines [] = return tt
write_csv_lines (r ∷ results) = do write (csv_line r); write_csv_lines results

unfoldable pub write_csv : List ScanResult → Session Unit
unfolding write_csv_lines
write_csv results = do write csv_header; write_csv_lines results

pub record XmlPort : Type 0 where
  pub protocol : Text
  pub port_id : ℕ
  pub state : Text
  pub service : Text
  pub version : Text
  pub banner : Text
  pub proxy : Text

pub record XmlHost : Type 0 where
  pub addr : Text
  pub ports : List XmlPort

abbrev pub xml_port : ScanResult → XmlPort
xml_port r = record {
  protocol = r.proto;
  port_id = r.port;
  state = codes "open";
  service = r.service;
  version = r.version;
  banner = r.banner;
  proxy = r.proxy;
}

-- The map from hosts to their entries, and the hosts in the order of their first results.
abbrev pub HostMap : Type 0
HostMap = List (Text × XmlHost) × List Text

abbrev pub empty_host : Text → XmlHost
empty_host host = record { addr = host; ports = [] }

unfoldable pub group_result : ScanResult → HostMap → HostMap
unfolding lookup insert
group_result r (hosts, order) =
    let entry : Option XmlHost → XmlHost =
      λ found. elim found [ none ↦ empty_host r.host | some h ↦ h ] in
    let old = entry (lookup r.host hosts) in
    let hosts' = insert r.host (record old { ports = old.ports ++ xml_port r ∷ [] }) hosts in
    (elim (lookup r.host hosts) [
      | none ↦ (hosts', order ++ r.host ∷ [])
      | some h ↦ (hosts', order)
    ])

unfoldable pub group_results : List ScanResult → HostMap → HostMap
unfolding group_result
group_results [] m = m
group_results (r ∷ results) m = group_results results (group_result r m)

-- The entries of the hosts in order; each has one.
unfoldable pub ordered_hosts : List (Text × XmlHost) → List Text → List XmlHost
ordered_hosts hosts [] = []
ordered_hosts hosts (h ∷ order) = elim (lookup h hosts) [
  | none ↦ ordered_hosts hosts order
  | some entry ↦ entry ∷ ordered_hosts hosts order
]

unfoldable pub xml_report : List ScanResult → List XmlHost
unfolding group_results ordered_hosts
xml_report results =
    let (hosts, order) = group_results results ([], []) in ordered_hosts hosts order

-- A write whose error is dropped.
abbrev pub write_unchecked : Text → Session Unit
write_unchecked s c = (ok tt, (write s c).1)

unfoldable pub write_xml : (List XmlHost → Text) → List ScanResult → Session Unit
unfolding xml_report
write_xml encode_xml results = do
  write_unchecked (codes "<?xml version=\"1.0\"?>\n")
  write (encode_xml (xml_report results))
  write (codes "\n")

unfoldable pub write_results :
    (List ScanResult → Text) → (List XmlHost → Text) → List ScanResult → Text → Session Unit
unfolding write_txt write_csv write_xml
write_results encode_json encode_xml results format =
    let f = to_lower (trim_space format) in
    if f ==ₜ codes "json"
    then write (encode_json results)
    else if f ==ₜ codes "xml"
    then write_xml encode_xml results
    else if f ==ₜ codes "csv"
    then write_csv results
    else write_txt results
