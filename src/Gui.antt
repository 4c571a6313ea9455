-- ===== src/Gui.antt =====
-- What package `gui` keeps apart from its widgets: the findings of a scan (gui/exec.go), the hosts
-- of gui/app.go and the texts of gui/scansession.go.
pub mod Hosts
pub mod Session
use route_fork.Base.{
  ℕ, zero, suc, ◌+◌, ◌-◌, ◌*◌, ◌/◌, ◌%◌, ◌^◌, ◌≤◌, ◌<◌, ◌≡◌, refl, sym, ap, ◌∙◌, subst, ◌≢◌, ◌↔◌,
  ◌⊎◌, inl, inr, Bool, true, false, not, ◌&&◌, ◌||◌, Option, none, some, List, [], ◌∷◌, ◌++◌, map,
  append-nil, append_assoc, arith, ltb, leb, ◌==◌, if◌then◌else◌, leb→le, not_leb, ==_iff,
  Bool-cases, Option-cases, length, get_elem?, get_or, length-append, get_elem?-lt, take, drop,
  take-drop, length-take, same_front, All, All-append, All-left, All-right, All-mono,
}
use route_fork.Text.{
  Text, codes, Lacks, ◌==ₜ◌, is_space, trim_left, trim_space, has_prefix, contains, cons_head,
  split, split_n, join, fields, lower, upper, to_lower, to_upper,
}
use route_fork.Proxy.{Proxy, uri}
use route_fork.Scanner.Run.{ScanFinding}

pub record Finding : Type 0 where
  pub host : Text
  pub port : ℕ
  pub proto : Text
  pub service : Text
  pub version : Text
  pub banner : Text
  pub proxy_uri : Text
  pub proxies : List Text

-- `scanFindingToGui`
unfoldable pub finding_of : ScanFinding → Finding
finding_of f = record {
  host = f.host;
  port = f.port;
  proto = f.proto;
  service = f.service;
  version = f.version;
  banner = f.banner;
  proxy_uri = f.primary;
  proxies = f.proxies;
}

unfoldable pub proxy_via_label : Proxy → Text
proxy_via_label p =
    if p.egress_ip ==ₜ []
    then uri p
    else uri p
      ++ (codes " [exit: "
          ++ (p.egress_ip
              ++ ((if p.country ==ₜ [] then [] else codes " " ++ p.country) ++ codes "]")))
