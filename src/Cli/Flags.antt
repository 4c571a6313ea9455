-- ===== src/Cli/Flags.antt =====
-- `parseFlatArgs` and `buildFlatNmapCmd` of cli/flat.go. What ParseFloat makes of a text is the
-- argument `parse_float`, and the default of 5 seconds the argument `five`.
pub mod RoundTrip
mod Examples
use route_fork.Base.{
  ℕ, zero, suc, ◌+◌, ◌-◌, ◌*◌, ◌/◌, ◌%◌, ◌^◌, ◌≤◌, ◌<◌, ◌≡◌, refl, sym, ap, ◌∙◌, subst, ◌≢◌, ◌↔◌,
  ◌⊎◌, inl, inr, Bool, true, false, not, ◌&&◌, ◌||◌, Option, none, some, List, [], ◌∷◌, ◌++◌, map,
  append-nil, append_assoc, arith, ltb, leb, ◌==◌, if◌then◌else◌, leb→le, not_leb, ==_iff,
  Bool-cases, Option-cases, length, get_elem?, get_or, length-append, get_elem?-lt, take, drop,
  take-drop, length-take, same_front, All, All-append, All-left, All-right, All-mono,
}
use route_fork.Base.Int.{ℤ, pos, negsuc, ltb_ℤ, to_ℕ, negate}
use route_fork.Text.{
  Text, codes, Lacks, ◌==ₜ◌, is_space, trim_left, trim_space, has_prefix, contains, cons_head,
  split, split_n, join, fields, lower, upper, to_lower, to_upper,
}
use route_fork.Text.Decimal.{atoi}

pub record FlatArgs (F : Type 0) : Type 0 where
  pub prox_list : Text
  pub targets : List Text
  pub ports : Text
  pub out_file : Text
  pub out_type : Text
  pub tool : Text
  pub conc : ℤ
  pub confirm : ℤ
  pub timeout : F
  pub rotate : Bool
  pub wrap : Bool
  pub nmap_path : Text
  pub nmap_extra : List Text

abbrev pub defaults : {F : Type 0} → F → FlatArgs F
defaults five = record {
  prox_list = [];
  targets = [];
  ports = [];
  out_file = [];
  out_type = codes "txt";
  tool = codes "builtin";
  conc = pos 200;
  confirm = pos 1;
  timeout = five;
  rotate = true;
  wrap = true;
  nmap_path = [];
  nmap_extra = [];
}

-- A map from texts to true.
unfoldable pub is_one_of : Text → List Text → Bool
is_one_of s [] = false
is_one_of s (t ∷ ts) = s ==ₜ t || is_one_of s ts

abbrev pub nmap_value_flags : List Text
nmap_value_flags =
    codes "--script"
    ∷ codes "--script-args"
    ∷ codes "--script-timeout"
    ∷ codes "-oX"
    ∷ codes "-oN"
    ∷ codes "-oG"
    ∷ codes "-oA"
    ∷ codes "-oS"
    ∷ codes "--min-rate"
    ∷ codes "--max-rate"
    ∷ codes "--max-retries"
    ∷ codes "--host-timeout"
    ∷ codes "--scan-delay"
    ∷ codes "--max-scan-delay"
    ∷ codes "--min-parallelism"
    ∷ codes "--max-parallelism"
    ∷ codes "--min-hostgroup"
    ∷ codes "--max-hostgroup"
    ∷ codes "--min-rtt-timeout"
    ∷ codes "--max-rtt-timeout"
    ∷ codes "--initial-rtt-timeout"
    ∷ codes "--exclude"
    ∷ codes "--excludefile"
    ∷ codes "-iL"
    ∷ codes "-iR"
    ∷ codes "-e"
    ∷ codes "-S"
    ∷ codes "--source-port"
    ∷ codes "-g"
    ∷ codes "-D"
    ∷ codes "--proxies"
    ∷ codes "--data"
    ∷ codes "--data-string"
    ∷ codes "--data-length"
    ∷ codes "--ip-options"
    ∷ codes "--ttl"
    ∷ codes "--spoof-mac"
    ∷ codes "--port-ratio"
    ∷ codes "--top-ports"
    ∷ codes "--version-intensity"
    ∷ []

-- The cases of the switch over an argument.
pub data Flag : Type 0 where
  prox_list_flag target_flag ports_flag out_flag type_flag tool_flag conc_flag : Flag
  confirm_flag timeout_flag nmap_path_flag rotate_flag no_rotate_flag wrap_flag no_wrap_flag : Flag
  positional pass_through : Flag

abbrev pub spellings : List (Flag × List Text)
spellings =
    (prox_list_flag, codes "-proxlist" ∷ codes "--proxlist" ∷ codes "-pl" ∷ codes "--pl" ∷ [])
    ∷ (target_flag, codes "-ip" ∷ codes "--ip" ∷ codes "-target" ∷ codes "--target" ∷ [])
    ∷ (ports_flag, codes "-p" ∷ codes "--ports" ∷ [])
    ∷ (out_flag, codes "-out" ∷ codes "--out" ∷ [])
    ∷ (type_flag, codes "-type" ∷ codes "--type" ∷ [])
    ∷ (tool_flag, codes "-tool" ∷ codes "--tool" ∷ [])
    ∷ (conc_flag, codes "-conc" ∷ codes "--conc" ∷ [])
    ∷ (confirm_flag, codes "-confirm" ∷ codes "--confirm" ∷ [])
    ∷ (timeout_flag, codes "-timeout" ∷ codes "--timeout" ∷ [])
    ∷ (nmap_path_flag, codes "-nmap-path" ∷ codes "--nmap-path" ∷ [])
    ∷ (rotate_flag, codes "-rotate" ∷ codes "--rotate" ∷ [])
    ∷ (no_rotate_flag, codes "-no-rotate" ∷ codes "--no-rotate" ∷ [])
    ∷ (wrap_flag, codes "-wrap" ∷ codes "--wrap" ∷ [])
    ∷ (no_wrap_flag, codes "-no-wrap" ∷ codes "--no-wrap" ∷ [])
    ∷ []

-- The first case that fits.
unfoldable pub first_case : Text → List (Flag × List Text) → Flag
unfolding is_one_of
first_case arg [] = if has_prefix arg (codes "-") then pass_through else positional
first_case arg ((flag, texts) ∷ cases) =
    let other = first_case arg cases in if is_one_of arg texts then flag else other

unfoldable pub flag_of : Text → Flag
unfolding first_case
flag_of arg = first_case arg spellings

module _ {F : Type 0} (parse_float : Text → F) where
  -- What an argument of the flag does with the argument after it, empty if there is none; and
  -- whether it consumes it.
  unfoldable pub act : Flag → Text → Text → FlatArgs F → FlatArgs F × Bool
  unfolding is_one_of
  act prox_list_flag arg next fa = (record fa { prox_list = next }, true)
  act target_flag arg next fa = (record fa { targets = fa.targets ++ next ∷ [] }, true)
  act ports_flag arg next fa =
      if not (next ==ₜ []) && not (has_prefix next (codes "-"))
      then (record fa { ports = next; nmap_extra = fa.nmap_extra ++ codes "-p" ∷ next ∷ [] }, true)
      else (record fa { nmap_extra = fa.nmap_extra ++ arg ∷ [] }, false)
  act out_flag arg next fa = (record fa { out_file = next }, true)
  act type_flag arg next fa = (record fa { out_type = next }, true)
  act tool_flag arg next fa = (record fa { tool = next }, true)
  act conc_flag arg next fa = (record fa { conc = (atoi next).0 }, true)
  act confirm_flag arg next fa = (record fa { confirm = (atoi next).0 }, true)
  act timeout_flag arg next fa = (record fa { timeout = parse_float next }, true)
  act nmap_path_flag arg next fa = (record fa { nmap_path = next }, true)
  act rotate_flag arg next fa = (record fa { rotate = true }, false)
  act no_rotate_flag arg next fa = (record fa { rotate = false }, false)
  act wrap_flag arg next fa = (record fa { wrap = true }, false)
  act no_wrap_flag arg next fa = (record fa { wrap = false }, false)
  act positional arg next fa = (record fa { targets = fa.targets ++ arg ∷ [] }, false)
  act pass_through arg next fa =
      if is_one_of arg nmap_value_flags && not (next ==ₜ [])
      then (record fa { nmap_extra = fa.nmap_extra ++ arg ∷ next ∷ [] }, true)
      else (record fa { nmap_extra = fa.nmap_extra ++ arg ∷ [] }, false)

  -- The loop over the arguments from the i-th on.
  unfoldable pub parse_from : List Text → FlatArgs F → FlatArgs F
  unfolding act flag_of
  parse_from [] fa = fa
  parse_from (arg ∷ []) fa = (act (flag_of arg) arg [] fa).0
  parse_from (arg ∷ (next ∷ args)) fa =
      let (fa', consumed) = act (flag_of arg) arg next fa in
      elim consumed [ true ↦ parse_from args fa' | false ↦ parse_from (next ∷ args) fa' ]

  unfoldable pub parse_flat_args : F → List Text → FlatArgs F
  unfolding parse_from
  parse_flat_args five args = parse_from args (defaults five)

-- The loop that looks for a flag that skips the discovery of hosts.
unfoldable pub has_pn : List Text → Bool
has_pn [] = false
has_pn (a ∷ extra) = a ==ₜ codes "-Pn" || a ==ₜ codes "-P0" || has_pn extra

unfoldable pub build_flat_nmap_cmd : Text → Text → Text → List Text → Bool → List Text
unfolding has_pn
build_flat_nmap_cmd bin proxy_arg target extra add_pn =
    bin ∷ codes "-sT" ∷ (codes "--proxies=" ++ proxy_arg) ∷ codes "--open" ∷ []
    ++ (if add_pn && not (has_pn extra) then codes "-Pn" ∷ [] else [])
    ++ extra
    ++ fields target
