-- ===== src/Gui/Session/Examples.antt =====
-- Tests of gui/scansession.go, most of them from gui/scansession_test.go, and the theorem on its
-- targets at concrete fields.
use route_fork.Base.{◌≡◌, refl, true, List, [], ◌∷◌}
use route_fork.Text.{Text, codes, trim_space, contains, split}
use route_fork.Text.Decimal.{itoa}
use route_fork.Proxy.Parse.{mem_text}
use route_fork.Gui.{Finding}
use route_fork.Gui.Session.{
  add_target, build_target_list, quorum_for_mode, quiet_scan, HostScan, format_open_line,
  host_lines, render_summary, title_line, end_line, open_line, branch_line, fork, corner,
}
use route_fork.Gui.Session.Targets.{firsts, entries, used_lines, build_target_list-firsts}

abbrev placeholder : Text
placeholder = codes "Optional: one target per line"

single_in_queue_test :
    build_target_list (codes " a") (codes "a\nb\n\n a") placeholder ≡ codes "a" ∷ codes "b" ∷ []
unfolding build_target_list add_target mem_text trim_space split
single_in_queue_test = refl

placeholder_test : build_target_list (codes "x") placeholder placeholder ≡ codes "x" ∷ []
unfolding build_target_list add_target mem_text trim_space split
placeholder_test = refl

build_target_list-firsts_example :
    build_target_list (codes " a") (codes "a\nb") placeholder
    ≡ firsts (entries (codes " a" ∷ used_lines (codes "a\nb") placeholder))
build_target_list-firsts_example = build_target_list-firsts (codes " a") (codes "a\nb") placeholder

mode_test : quorum_for_mode (codes "Confirmed (2 proxies)") ≡ 2
unfolding quorum_for_mode
mode_test = refl

network_test : quiet_scan (codes "10.0.0.0/24" ∷ []) ≡ true
unfolding quiet_scan contains
network_test = refl

abbrev ssh : Finding
ssh = record {
  host = codes "1.2.3.4";
  port = 22;
  proto = codes "tcp";
  service = codes "ssh";
  version = codes "OpenSSH_9.6";
  banner = [];
  proxy_uri = [];
  proxies = codes "pa" ∷ codes "pb" ∷ [];
}

line_test : format_open_line ssh ≡ codes "1.2.3.4  22/tcp   open  ssh  OpenSSH_9.6"
unfolding format_open_line itoa
line_test = refl

abbrev results : List HostScan
results =
    record { host = codes "1.2.3.4"; findings = ssh ∷ [] }
    ∷ record { host = codes "b"; findings = [] }
    ∷ []

summary_test :
    render_summary results
    ≡ title_line
      ∷ codes "HOST: 1.2.3.4"
      ∷ open_line ssh
      ∷ branch_line fork (codes "pa")
      ∷ branch_line corner (codes "pb")
      ∷ []
      ∷ codes "HOST: b"
      ∷ codes "    (no open ports)"
      ∷ end_line
      ∷ []
unfolding render_summary host_lines
summary_test = refl

none_test :
    render_summary (record { host = codes "h"; findings = [] } ∷ [])
    ≡ title_line ∷ codes "    (no open ports found)" ∷ end_line ∷ []
unfolding render_summary
none_test = refl
