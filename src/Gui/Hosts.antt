-- ===== src/Gui/Hosts.antt =====
-- The hosts that gui/app.go collects from the findings of scans: `pushFindings` and `clearHosts`.
-- Each runs under the lock of the hosts; the callback that redraws them is left out.
pub mod Index
pub mod Merged
mod Examples
use route_fork.Base.{
  ℕ, zero, suc, ◌+◌, ◌-◌, ◌*◌, ◌/◌, ◌%◌, ◌^◌, ◌≤◌, ◌<◌, ◌≡◌, refl, sym, ap, ◌∙◌, subst, ◌≢◌, ◌↔◌,
  ◌⊎◌, inl, inr, Bool, true, false, not, ◌&&◌, ◌||◌, Option, none, some, List, [], ◌∷◌, ◌++◌, map,
  append-nil, append_assoc, arith, ltb, leb, ◌==◌, if◌then◌else◌, leb→le, not_leb, ==_iff,
  Bool-cases, Option-cases, length, get_elem?, get_or, length-append, get_elem?-lt, take, drop,
  take-drop, length-take, same_front, All, All-append, All-left, All-right, All-mono,
}
use route_fork.Text.{
  Text, codes, Lacks, ◌==ₜ◌, is_space, trim_left, trim_space, has_prefix, contains, cons_head,
  split, split_n, join, fields, lower, upper, to_lower, to_upper,
}
use route_fork.Text.Decimal.{itoa}
use route_fork.Text.Map.{lookup, insert}
use route_fork.Proxy.Parse.{mem_text}
use route_fork.Gui.{Finding}

pub record PortEntry : Type 0 where
  pub port : ℕ
  pub proto : Text
  pub service : Text
  pub version : Text
  pub banner : Text
  pub proxies : List Text

pub record HostRecord : Type 0 where
  pub ip : Text
  pub ports : List PortEntry
  pub port_idx : List (Text × ℕ)

pub record HostStore : Type 0 where
  pub hosts_map : List (Text × ℕ)
  pub hosts_slice : List HostRecord

-- The map `seen` of the source has the items of `base`.
unfoldable pub dedupe_append : List Text → List Text → List Text
unfolding mem_text
dedupe_append base [] = base
dedupe_append base (a ∷ add) =
    dedupe_append (if a ==ₜ [] || mem_text a base then base else base ++ a ∷ []) add

unfoldable pub port_key : ℕ → Text → Text
port_key port proto = itoa port ++ b'/' ∷ proto

unfoldable pub validators : Finding → List Text
validators f =
    if length f.proxies == 0 && not (f.proxy_uri ==ₜ []) then f.proxy_uri ∷ [] else f.proxies

abbrev pub or_else : Text → Text → Text
or_else s t = if s ==ₜ [] then t else s

unfoldable pub merge_entry : Finding → PortEntry → PortEntry
unfolding dedupe_append validators
merge_entry f e = record e {
  proxies = dedupe_append e.proxies (validators f);
  service = or_else e.service f.service;
  version = or_else e.version f.version;
  banner = or_else e.banner f.banner;
}

unfoldable pub new_entry : Finding → PortEntry
unfolding dedupe_append validators
new_entry f = record {
  port = f.port;
  proto = f.proto;
  service = f.service;
  version = f.version;
  banner = f.banner;
  proxies = dedupe_append [] (validators f);
}

-- A change of what stands at a place, through its pointer.
unfoldable pub change_at {ℓ} : {A : Type ℓ} → ℕ → (A → A) → List A → List A
change_at i change [] = []
change_at zero change (x ∷ xs) = change x ∷ xs
change_at (suc i) change (x ∷ xs) = x ∷ change_at i change xs

-- The finding goes to the entry of its port and protocol at the place, or is a new entry.
unfoldable pub enter : Finding → HostRecord → Option ℕ → HostRecord
unfolding change_at merge_entry new_entry port_key
enter f hr (some pi) = record hr { ports = change_at pi (merge_entry f) hr.ports }
enter f hr none = record hr {
  ports = hr.ports ++ new_entry f ∷ [];
  port_idx = insert (port_key f.port f.proto) (length hr.ports) hr.port_idx;
}

unfoldable pub push_port : Finding → HostRecord → HostRecord
unfolding enter
push_port f hr = enter f hr (lookup (port_key f.port f.proto) hr.port_idx)

abbrev pub new_host : Text → HostRecord
new_host ip = record { ip = ip; ports = []; port_idx = [] }

-- The record of a host at the place, or a new one, with its place.
unfoldable pub with_host : Text → HostStore → Option ℕ → ℕ × HostStore
with_host ip st (some idx) = (idx, st)
with_host ip st none = (
  length st.hosts_slice,
  record {
    hosts_map = insert ip (length st.hosts_slice) st.hosts_map;
    hosts_slice = st.hosts_slice ++ new_host ip ∷ [];
  },
)

abbrev pub push_at : Finding → ℕ × HostStore → HostStore
push_at f (idx, st) = record st { hosts_slice = change_at idx (push_port f) st.hosts_slice }

unfoldable pub push_finding : Finding → HostStore → HostStore
unfolding with_host push_port
push_finding f st =
    if f.host ==ₜ [] then st else push_at f (with_host f.host st (lookup f.host st.hosts_map))

unfoldable pub push_findings : List Finding → HostStore → HostStore
unfolding push_finding
push_findings [] st = st
push_findings (f ∷ fs) st = push_findings fs (push_finding f st)

unfoldable pub clear_hosts : HostStore
clear_hosts = record { hosts_map = []; hosts_slice = [] }
