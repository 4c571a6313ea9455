-- ===== src/Gui/Session.antt =====
-- gui/scansession.go: what a scan of the graphical interface does apart from its widgets.
pub mod Targets
mod Examples
use route_fork.Base.{
  ℕ, zero, suc, ◌+◌, ◌-◌, ◌*◌, ◌/◌, ◌%◌, ◌^◌, ◌≤◌, ◌<◌, ◌≡◌, refl, sym, ap, ◌∙◌, subst, ◌≢◌, ◌↔◌,
  ◌⊎◌, inl, inr, Bool, true, false, not, ◌&&◌, ◌||◌, Option, none, some, List, [], ◌∷◌, ◌++◌, map,
  append-nil, append_assoc, arith, ltb, leb, ◌==◌, if◌then◌else◌, leb→le, not_leb, ==_iff,
  Bool-cases, Option-cases, length, get_elem?, get_or, length-append, get_elem?-lt, take, drop,
  take-drop, length-take, same_front, All, All-append, All-left, All-right, All-mono,
}
use route_fork.Text.{
  Text, codes, Lacks, ◌==ₜ◌, is_space, trim_left, trim_space, has_prefix, contains, cons_head,
  split, split_n, join, fields, lower, upper, to_lower, to_upper,
}
use route_fork.Text.Decimal.{itoa}
use route_fork.Proxy.Parse.{mem_text}
use route_fork.Gui.{Finding}

-- `add`: the targets are the keys of the map `seen`.
unfoldable pub add_target : Text → List Text → List Text
unfolding mem_text
add_target t targets =
    let t' = trim_space t in
    if t' ==ₜ [] || mem_text t' targets then targets else targets ++ t' ∷ []

unfoldable pub add_targets : List Text → List Text → List Text
unfolding add_target
add_targets [] targets = targets
add_targets (line ∷ lines) targets = add_targets lines (add_target line targets)

unfoldable pub build_target_list : Text → Text → Text → List Text
unfolding add_targets
build_target_list single queue queue_placeholder =
    let single' = trim_space single in
    let targets = if single' ==ₜ [] then [] else add_target single' [] in
    if queue ==ₜ [] || queue ==ₜ queue_placeholder
    then targets
    else add_targets (split queue b'\n') targets

unfoldable pub quorum_for_mode : Text → ℕ
quorum_for_mode mode =
    if mode ==ₜ codes "Confirmed (2 proxies)"
    then 2
    else if mode ==ₜ codes "Paranoid (3 proxies)"
    then 3
    else 1

abbrev pub any_network : List Text → Bool
any_network [] = false
any_network (t ∷ targets) = contains t (codes "/") || any_network targets

unfoldable pub quiet_scan : List Text → Bool
quiet_scan targets = ltb 1 (length targets) || any_network targets

pub record HostScan : Type 0 where
  pub host : Text
  pub findings : List Finding

unfoldable pub format_open_line : Finding → Text
format_open_line f =
    let svc = f.service ++ (if f.version ==ₜ [] then [] else codes "  " ++ f.version) in
    let line = itoa f.port ++ (codes "/" ++ (f.proto ++ (codes "   open  " ++ svc))) in
    if f.host ==ₜ [] then line else f.host ++ (codes "  " ++ line)

-- "─" in UTF-8, and a line of it
abbrev pub bar : Text
bar = 226 ∷ 148 ∷ 128 ∷ []

abbrev pub bars : ℕ → Text
bars zero = []
bars (suc n) = bar ++ bars n

abbrev pub title_line : Text
title_line = codes "[=] " ++ (bars 15 ++ (codes " OPEN PORT SUMMARY " ++ bars 15))

abbrev pub end_line : Text
end_line = codes "[=] " ++ bars 49

-- "├" and "└"
abbrev pub fork : Text
fork = 226 ∷ 148 ∷ 156 ∷ []

abbrev pub corner : Text
corner = 226 ∷ 148 ∷ 148 ∷ []

abbrev pub branch_line : Text → Text → Text
branch_line branch label = codes "      " ++ (branch ++ (bar ++ (codes " via " ++ label)))

-- The last proxy hangs on a corner.
abbrev pub via_lines : List Text → List Text
via_lines [] = []
via_lines (label ∷ []) = branch_line corner label ∷ []
via_lines (label ∷ next ∷ labels) = branch_line fork label ∷ via_lines (next ∷ labels)

abbrev pub proxy_lines : Finding → List Text
proxy_lines f =
    if ltb 0 (length f.proxies)
    then via_lines f.proxies
    else if f.proxy_uri ==ₜ []
    then []
    else branch_line corner f.proxy_uri ∷ []

-- with "►"
abbrev pub open_line : Finding → Text
unfolding format_open_line
open_line f = codes "  " ++ ((226 ∷ 150 ∷ 186 ∷ []) ++ (codes " OPEN  " ++ format_open_line f))

abbrev pub finding_lines : List Finding → List Text
finding_lines [] = []
finding_lines (f ∷ fs) = open_line f ∷ (proxy_lines f ++ finding_lines fs)

abbrev pub host_heading : Bool → ℕ → Text → List Text
host_heading false i host = []
host_heading true zero host = (codes "HOST: " ++ host) ∷ []
host_heading true (suc i) host = [] ∷ (codes "HOST: " ++ host) ∷ []

-- The lines of the hosts from the i-th on.
unfoldable pub host_lines : Bool → ℕ → List HostScan → List Text
unfolding open_line
host_lines multi_host i [] = []
host_lines multi_host i (hr ∷ results) =
    host_heading multi_host i hr.host
    ++ (finding_lines hr.findings
        ++ ((if multi_host && length hr.findings == 0 then codes "    (no open ports)" ∷ [] else [])
            ++ host_lines multi_host (i + 1) results))

abbrev pub any_open : List HostScan → Bool
any_open [] = false
any_open (hr ∷ results) = ltb 0 (length hr.findings) || any_open results

unfoldable pub render_summary : List HostScan → List Text
unfolding host_lines
render_summary results =
    title_line
    ∷ ((if any_open results
          then host_lines (ltb 1 (length results)) 0 results
          else codes "    (no open ports found)" ∷ [])
        ++ end_line ∷ [])
