-- ===== src/Gui/Hosts/Examples.antt =====
-- Tests of the hosts of gui/app.go, and their theorem on a concrete store.
use route_fork.Base.{◌≡◌, refl, [], ◌∷◌}
use route_fork.Text.{codes}
use route_fork.Text.Decimal.{itoa}
use route_fork.Text.Map.{lookup, insert}
use route_fork.Proxy.Parse.{mem_text}
use route_fork.Gui.{Finding}
use route_fork.Gui.Hosts.{
  PortEntry, dedupe_append, port_key, validators, merge_entry, new_entry, change_at, enter,
  push_port, with_host, push_finding, push_findings, clear_hosts,
}
use route_fork.Gui.Hosts.Merged.{IsStore, shown, merge_findings, push_findings-merged}

abbrev first : Finding
first = record {
  host = codes "h";
  port = 22;
  proto = codes "tcp";
  service = codes "ssh";
  version = [];
  banner = [];
  proxy_uri = codes "p";
  proxies = [];
}

abbrev again : Finding
again = record first {
  service = codes "other";
  version = codes "9";
  proxies = codes "p" ∷ codes "q" ∷ [];
}

abbrev other_port : Finding
other_port = record first { port = 80; service = codes "http" }

abbrev merged : PortEntry
merged = record {
  port = 22;
  proto = codes "tcp";
  service = codes "ssh";
  version = codes "9";
  banner = [];
  proxies = codes "p" ∷ codes "q" ∷ [];
}

abbrev added : PortEntry
added = record {
  port = 80;
  proto = codes "tcp";
  service = codes "http";
  version = [];
  banner = [];
  proxies = codes "p" ∷ [];
}

rescan_test :
    shown (push_findings (first ∷ other_port ∷ again ∷ []) clear_hosts)
    ≡ (codes "h", merged ∷ added ∷ []) ∷ []
unfolding push_findings push_finding with_host push_port enter change_at merge_entry new_entry
    validators dedupe_append port_key mem_text lookup insert itoa clear_hosts
rescan_test = refl

clear_hosts-IsStore : IsStore clear_hosts
unfolding clear_hosts lookup
clear_hosts-IsStore = record { indexed = λ k. refl; distinct = tt; hosts = tt }

push_findings-merged_example :
    IsStore (push_findings (first ∷ again ∷ []) clear_hosts)
    × (shown (push_findings (first ∷ again ∷ []) clear_hosts)
        ≡ merge_findings (first ∷ again ∷ []) (shown clear_hosts))
push_findings-merged_example =
    push_findings-merged (first ∷ again ∷ []) clear_hosts clear_hosts-IsStore
