-- ===== src/Nmap.antt =====
-- What cli/flat.go, cli/cli.go and gui/exec.go read from the lines that nmap prints, and the
-- commands that cli/cli.go and gui/app.go run. The lines are those that a line scanner yields, so
-- there is no line end in them. The regular expressions are matched by hand: in none of them can a
-- longer first part keep the rest from matching.
pub mod Lines
pub mod Headings
pub mod Reading
mod Examples
use route_fork.Base.{
  ℕ, zero, suc, ◌+◌, ◌-◌, ◌*◌, ◌/◌, ◌%◌, ◌^◌, ◌≤◌, ◌<◌, ◌≡◌, refl, sym, ap, ◌∙◌, subst, ◌≢◌, ◌↔◌,
  ◌⊎◌, inl, inr, Bool, true, false, not, ◌&&◌, ◌||◌, Option, none, some, List, [], ◌∷◌, ◌++◌, map,
  append-nil, append_assoc, arith, ltb, leb, ◌==◌, if◌then◌else◌, leb→le, not_leb, ==_iff,
  Bool-cases, Option-cases, length, get_elem?, get_or, length-append, get_elem?-lt, take, drop,
  take-drop, length-take, same_front, All, All-append, All-left, All-right, All-mono,
}
use route_fork.Base.Int.{ℤ, pos, negsuc, ltb_ℤ, to_ℕ, negate}
use route_fork.Text.{
  Text, codes, Lacks, ◌==ₜ◌, is_space, trim_left, trim_space, has_prefix, contains, cons_head,
  split, split_n, join, fields, lower, upper, to_lower, to_upper,
}
use route_fork.Text.Decimal.{atoi}
use route_fork.Proxy.Parse.{is_blank, is_digit}
use route_fork.Cli.Output.{ScanResult}

-- The longest first part whose bytes all pass, and the rest.
unfoldable pub span : (ℕ → Bool) → Text → Text × Text
span keep [] = ([], [])
span keep (c ∷ s) =
    let (front, rest) = span keep s in if keep c then (c ∷ front, rest) else ([], c ∷ s)

abbrev pub is_word : ℕ → Bool
is_word c = not (is_blank c)

unfoldable pub protocol : Text → Option (Text × Text)
protocol s =
    if has_prefix s (codes "/tcp")
    then some (codes "tcp", drop 4 s)
    else if has_prefix s (codes "/udp")
    then some (codes "udp", drop 4 s)
    else none

abbrev pub with_protocol : Text → Option (Text × Text) → Option (Text × Text × Text)
with_protocol digits none = none
with_protocol digits (some (proto, after)) = some (digits, proto, after)

abbrev pub with_digits : Text × Text → Option (Text × Text × Text)
with_digits (digits, rest) = if digits ==ₜ [] then none else with_protocol digits (protocol rest)

-- `(\d+)/(tcp|udp)` at the start of a text, and the rest
unfoldable pub cut_port : Text → Option (Text × Text × Text)
unfolding span protocol is_digit
cut_port s = with_digits (span is_digit s)

-- `(\d+)/(tcp|udp)\s+open` at the start of a text
unfoldable pub open_at : Text → Bool
unfolding cut_port is_blank
open_at s = elim (cut_port s) [
  | none ↦ false
  | some (digits, proto, after) ↦
      let (blanks, rest) = span is_blank after in
      not (blanks ==ₜ []) && has_prefix rest (codes "open")
]

-- and anywhere in it
unfoldable pub has_open : Text → Bool
unfolding open_at
has_open [] = false
has_open (c ∷ s) = open_at (c ∷ s) || has_open s

pub record PortDetail : Type 0 where
  pub port : Text
  pub proto : Text
  pub service : Text
  pub version : Text

-- `^(\d+)/(tcp|udp)\s+\S+\s*(\S*)\s*(.*)$`, with the last group trimmed
unfoldable pub match_detail : Text → Option PortDetail
unfolding cut_port is_blank
match_detail s = elim (cut_port s) [
  | none ↦ none
  | some (digits, proto, after) ↦
      let (blanks, rest) = span is_blank after in
      let (state, rest') = span is_word rest in
      let (service, version) = span is_word (span is_blank rest').1 in
      if blanks ==ₜ [] || state ==ₜ []
      then none
      else some (record {
        port = digits;
        proto = proto;
        service = service;
        version = trim_space (span is_blank version).1;
      })
]

abbrev pub report_text : Text
report_text = codes "Nmap scan report for "

-- `Nmap scan report for (\S+)` anywhere in a text: its group
unfoldable pub report_host : Text → Option Text
unfolding span is_blank
report_host [] = none
report_host (c ∷ s) =
    let later = report_host s in
    let word = (span is_word (drop (length report_text) (c ∷ s))).0 in
    if has_prefix (c ∷ s) report_text && not (word ==ₜ []) then some word else later

abbrev pub host_after : Text → Text → Text
host_after line host = elim (report_host line) [ none ↦ host | some h ↦ h ]

abbrev pub down_text : Text
down_text = codes "Host seems down"

abbrev pub port_number : Text → ℕ
port_number s = to_ℕ (atoi s).0

pub record FlatRun : Type 0 where
  pub current_host : Text
  pub results : List ScanResult
  pub host_down : Bool

unfoldable pub flat_result : Text → Text → Option PortDetail → ScanResult
unfolding atoi
flat_result proxy_uri host none = record {
  host = host;
  port = 0;
  proto = [];
  service = [];
  version = [];
  banner = [];
  proxy = proxy_uri;
}
flat_result proxy_uri host (some d) = record {
  host = host;
  port = port_number d.port;
  proto = d.proto;
  service = d.service;
  version = d.version;
  banner = [];
  proxy = proxy_uri;
}

-- A line that `execFlatNmap` of cli/flat.go reads.
unfoldable pub flat_line : Text → Text → FlatRun → FlatRun
unfolding report_host has_open match_detail flat_result
flat_line proxy_uri line r =
    let host = host_after line r.current_host in
    let found = flat_result proxy_uri host (match_detail (trim_space line)) in
    record {
      current_host = host;
      results = if has_open line then r.results ++ found ∷ [] else r.results;
      host_down = if contains line down_text then true else r.host_down;
    }

unfoldable pub flat_lines : Text → List Text → FlatRun → FlatRun
unfolding flat_line
flat_lines proxy_uri [] r = r
flat_lines proxy_uri (line ∷ lines) r = flat_lines proxy_uri lines (flat_line proxy_uri line r)

-- `none` for a command that does not start
unfoldable pub exec_flat_nmap : Option (List Text) → Text → List ScanResult × Bool
unfolding flat_lines
exec_flat_nmap none proxy_uri = ([], false)
exec_flat_nmap (some lines) proxy_uri =
    let r =
      flat_lines proxy_uri lines (record { current_host = []; results = []; host_down = false }) in
    (r.results, r.host_down)

-- The loop of `execNmapParsed` of cli/cli.go.
unfoldable pub count_open : List Text → ℕ × Bool → ℕ × Bool
unfolding has_open
count_open [] r = r
count_open (line ∷ lines) (open_ports, host_down) = count_open lines (
  if has_open line then open_ports + 1 else open_ports,
  if contains line down_text then true else host_down,
)

unfoldable pub parse_port_line : Text → PortDetail
unfolding match_detail
parse_port_line line = elim (match_detail (trim_space line)) [
  | some d ↦ d
  | none ↦ record { port = trim_space line; proto = []; service = []; version = [] }
]

-- The loop over the arguments that a user adds.
unfoldable pub add_extra : Bool → List Text → List Text
add_extra add_pn [] = []
add_extra add_pn (a ∷ extra) =
    let rest = add_extra add_pn extra in
    if (a ==ₜ codes "-Pn" || a ==ₜ codes "-P0") && add_pn then rest else a ∷ rest

unfoldable pub build_nmap_argv : Text → Text → Text → Text → Bool → List Text
unfolding add_extra
build_nmap_argv ports extra proxy_arg target add_pn =
    (codes "nmap"
      ∷ codes "-sT"
      ∷ codes "-p"
      ∷ ports
      ∷ (codes "--proxies=" ++ proxy_arg)
      ∷ codes "--open"
      ∷ target
      ∷ [])
    ++ ((if add_pn then codes "-Pn" ∷ [] else []) ++ add_extra add_pn (fields extra))

-- `nmapCmd` of gui/app.go
unfoldable pub nmap_cmd : Text → Text → Text → Text → Text → Bool → List Text
unfolding add_extra
nmap_cmd bin ports extra proxy_arg target add_pn =
    (bin
      ∷ codes "-sT"
      ∷ codes "-p"
      ∷ ports
      ∷ (codes "--proxies=" ++ proxy_arg)
      ∷ codes "--open"
      ∷ [])
    ++ ((if add_pn then codes "-Pn" ∷ [] else [])
        ++ (add_extra add_pn (fields extra) ++ fields target))
