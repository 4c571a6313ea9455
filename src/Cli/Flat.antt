-- ===== src/Cli/Flat.antt =====
-- `RunFlatMode` of cli/flat.go and its runners, and `loadPool` of cli/cli.go, but for the lines that
-- they print on the standard error and the path of nmap that they store. A program that does not
-- end has no result.
pub mod Prune
mod Examples
use route_fork.Base.{
  ℕ, zero, suc, ◌+◌, ◌-◌, ◌*◌, ◌/◌, ◌%◌, ◌^◌, ◌≤◌, ◌<◌, ◌≡◌, refl, sym, ap, ◌∙◌, subst, ◌≢◌, ◌↔◌,
  ◌⊎◌, inl, inr, Bool, true, false, not, ◌&&◌, ◌||◌, Option, none, some, List, [], ◌∷◌, ◌++◌, map,
  append-nil, append_assoc, arith, ltb, leb, ◌==◌, if◌then◌else◌, leb→le, not_leb, ==_iff,
  Bool-cases, Option-cases, length, get_elem?, get_or, length-append, get_elem?-lt, take, drop,
  take-drop, length-take, same_front, All, All-append, All-left, All-right, All-mono,
}
use route_fork.Base.Int.{ℤ, pos, negsuc, ltb_ℤ, to_ℕ, negate}
use route_fork.Base.Result.{Result, ok, err}
use route_fork.Text.{
  Text, codes, Lacks, ◌==ₜ◌, is_space, trim_left, trim_space, has_prefix, contains, cons_head,
  split, split_n, join, fields, lower, upper, to_lower, to_upper,
}
use route_fork.Net.{Conn, Reply}
use route_fork.Proxy.{Proxy, valid, address, uri}
use route_fork.Proxy.Parse.{mem_text, parse_all}
use route_fork.Pool.{Pool, new, add_valid, next, advance, valid_list, valid_count, set_valid}
use route_fork.Scanner.Ports.{PortError, parse_ports}
use route_fork.Scanner.Services.{port_service}
use route_fork.Scanner.Rotate.{Schedule}
use route_fork.Scanner.Expand.{Expanded}
use route_fork.Scanner.Run.{ScanFinding, HostResult, ScanRequest, World, Scanned, or_text, run_scan}
use route_fork.Nmap.{exec_flat_nmap}
use route_fork.Cli.Output.{ScanResult, XmlHost, write_results}
use route_fork.Cli.Flags.{FlatArgs, is_one_of, parse_flat_args, build_flat_nmap_cmd}

unfoldable pub add_all : List Proxy → Pool → Pool
unfolding add_valid
add_all [] pl = pl
add_all (p ∷ proxies) pl = add_all proxies (add_valid pl (record p { status = valid }))

-- The pool of a text of proxies, if there is one; the program ends without.
unfoldable pub load_pool : Text → Option Pool
unfolding add_all valid_count
load_pool text =
    let pl = add_all (parse_all text) new in if valid_count pl == 0 then none else some pl

-- What the surroundings answer at the k-th target.
pub record FlatWorld : Type 0 where
  -- the context before it, and within its scan
  pub stopped : ℕ → Bool
  pub stopped_within : ℕ → Bool
  pub schedule : ℕ → Schedule
  pub shuffle : ℕ → List Proxy → List Proxy
  pub rounds : ℕ
  pub expand6 : Text → Expanded
  -- the relay's argument for nmap, and what the commands print
  pub proxy_arg : ℕ → Proxy → Result Text Text
  pub first_run : ℕ → List Text → Option (List Text)
  pub second_run : ℕ → List Text → Option (List Text)

unfoldable pub flat_run_nmap : FlatWorld → ℕ → Proxy → Text → List Text → Text → List ScanResult
unfolding exec_flat_nmap build_flat_nmap_cmd
flat_run_nmap w k px target extra bin = elim (w.proxy_arg k px) [
  | err e ↦ []
  | ok arg ↦
      let cmd = build_flat_nmap_cmd bin arg target extra true in
      let results = (exec_flat_nmap (w.first_run k cmd) (uri px)).0 in
      let retry = (exec_flat_nmap (w.second_run k cmd) (uri px)).0 in
      if length results == 0 then results ++ retry else results
]

unfoldable pub flat_request : FlatWorld → ℕ → Text → List ℕ → ℤ → ScanRequest
flat_request w k target ports confirm = record {
  targets = target ∷ [];
  ports = ports;
  quorum = if ltb_ℤ confirm (pos 1) then pos 1 else confirm;
  throttle = none;
  label = some uri;
  shuffle = some (w.shuffle k);
}

unfoldable pub flat_world : FlatWorld → ℕ → Pool → World
unfolding valid_list
flat_world w k pl = record {
  get_pool = λ i. valid_list pl;
  stopped = λ i. w.stopped_within k;
  schedule = λ i. w.schedule k;
  rounds = w.rounds;
  expand6 = w.expand6;
}

-- The set of the dead proxies' addresses.
abbrev pub is_dead : List Proxy → Proxy → Bool
is_dead dead p = mem_text (address p) (map address dead)

unfoldable pub survivors : List Proxy → List Proxy → List Proxy
survivors dead [] = []
survivors dead (p ∷ proxies) =
    let rest = survivors dead proxies in if is_dead dead p then rest else p ∷ rest

unfoldable pub prune : List Proxy → Pool → Pool
unfolding survivors set_valid valid_list
prune dead pl = if length dead == 0 then pl else set_valid pl (survivors dead (valid_list pl))

unfoldable pub result_of : ScanFinding → ScanResult
unfolding port_service
result_of f = record {
  host = f.host;
  port = f.port;
  proto = f.proto;
  service = or_text (or_text f.service (port_service f.port)) (codes "unknown");
  version = f.version;
  banner = f.banner;
  proxy = f.primary;
}

-- The loops over the results and over their findings.
unfoldable pub results_of : List HostResult → List ScanResult
unfolding result_of
results_of [] = []
results_of (hr ∷ host_results) = map result_of hr.findings ++ results_of host_results

unfoldable pub flat_run_builtin :
    FlatWorld → ℕ → Pool → Text → Text → ℤ → Option (List ScanResult × Pool)
unfolding flat_request flat_world prune results_of
flat_run_builtin w k pl target ports confirm = elim (parse_ports ports) [
  | err e ↦ some ([], pl)
  | ok [] ↦ some ([], pl)
  | ok (p ∷ parsed) ↦
      (elim (run_scan (flat_request w k target (p ∷ parsed) confirm) (flat_world w k pl)) [
        | none ↦ none
        | some s ↦ some (results_of s.results, prune s.dead pl)
      ])
]

module _ {F : Type 0} (fa : FlatArgs F) (w : FlatWorld) (nmap_bin : Text) where
  unfoldable pub is_nmap : Bool
  is_nmap = to_lower fa.tool ==ₜ codes "nmap"

  unfoldable pub run_target : ℕ → Proxy → Text → Pool → Option (List ScanResult × Pool)
  unfolding is_nmap flat_run_nmap flat_run_builtin
  run_target k px target pl =
      if is_nmap
      then some (flat_run_nmap w k px target fa.nmap_extra nmap_bin, pl)
      else flat_run_builtin w k pl target (or_text fa.ports (codes "1-1024")) fa.confirm

  abbrev pub rotated : Pool → Pool
  rotated pl = if fa.rotate then advance pl else pl

  -- The loop over the targets from the k-th on.
  unfoldable pub run_targets : List Text → ℕ → Pool → Option (List ScanResult × Pool)
  unfolding run_target next advance
  run_targets [] k pl = some ([], pl)
  run_targets (target ∷ targets) k pl =
      if w.stopped k then some ([], pl) else (elim ((next pl fa.wrap).1) [
        | none ↦ some ([], (next pl fa.wrap).0)
        | some px ↦ (elim (run_target k px target (next pl fa.wrap).0) [
          | none ↦ none
          | some (results, pl') ↦ (elim (run_targets targets (k + 1) (rotated pl')) [
            | none ↦ none
            | some (more, pl'') ↦ some (results ++ more, pl'')
          ])
        ])
      ])

-- How the program ends.
pub data FlatEnd : Type 0 where
  usage no_prox_list no_target no_nmap no_proxies : FlatEnd
  finished : List ScanResult → Option (Reply Unit) → FlatEnd
  not_created : List ScanResult → Text → FlatEnd

-- What the world's files and encoders are.
pub record Files : Type 0 where
  pub read_text : Text → Text
  pub find_nmap : Text → Text × Bool
  pub create : Text → Result Text Conn
  pub stdout : Conn
  pub encode_json : List ScanResult → Text
  pub encode_xml : List XmlHost → Text

unfoldable pub write_output_file : Files → Text → Text → List ScanResult → FlatEnd
unfolding write_results
write_output_file d path format results =
    if path ==ₜ []
    then finished results none
    else if path ==ₜ codes "-"
    then finished results (some (write_results d.encode_json d.encode_xml results format d.stdout))
    else (elim (d.create path) [
      | err e ↦ not_created results e
      | ok file ↦
          finished results (some (write_results d.encode_json d.encode_xml results format file))
    ])

unfoldable pub asks_help : List Text → Bool
unfolding is_one_of
asks_help [] = false
asks_help (a ∷ args) =
    is_one_of a (codes "--help" ∷ codes "-h" ∷ codes "-help" ∷ []) || asks_help args

module _ {F : Type 0} (parse_float : Text → F) (five : F) (w : FlatWorld) (d : Files) where
  unfoldable pub run_flat_mode : List Text → Option FlatEnd
  unfolding asks_help load_pool run_targets write_output_file
  run_flat_mode args =
      let fa = parse_flat_args parse_float five args in
      let (nmap_bin, found) = d.find_nmap fa.nmap_path in
      if asks_help args
      then some usage
      else if fa.prox_list ==ₜ []
      then some no_prox_list
      else if length fa.targets == 0
      then some no_target
      else if is_nmap fa w nmap_bin && not found
      then some no_nmap
      else (elim (load_pool (d.read_text fa.prox_list)) [
        | none ↦ some no_proxies
        | some pl ↦ (elim (run_targets fa w nmap_bin fa.targets 0 pl) [
          | none ↦ none
          | some (results, pl') ↦ some (write_output_file d fa.out_file fa.out_type results)
        ])
      ])
