-- ===== src/Gui/Hosts/Merged.antt =====
-- `pushFindings` of gui/app.go merges findings into the hosts that are shown.
use route_fork.Base.{
  ℕ, suc, ◌≡◌, refl, sym, ap, ◌∙◌, subst, inl, inr, ◌||◌, Option, none, some, List, [], ◌∷◌, ◌++◌,
  map, arith, if◌then◌else◌, Bool-cases, length, All, All-append,
}
use route_fork.Text.{Text, ◌==ₜ◌}
use route_fork.Text.Map.{lookup, insert}
use route_fork.Proxy.Parse.{mem_text}
use route_fork.Proxy.Dedupe.{Distinct, Distinct-append}
use route_fork.Gui.{Finding}
use route_fork.Gui.Hosts.{
  PortEntry, HostRecord, HostStore, dedupe_append, port_key, validators, merge_entry, new_entry,
  enter, push_port, new_host, with_host, push_at, push_finding, push_findings,
}
use route_fork.Gui.Hosts.Index.{
  Indexes, place_of, place_of-absent, Indexes-insert, amend, put, put-lookup, keys-change_at,
  All-change_at, change_at-last,
}

abbrev entry_key : PortEntry → Text
entry_key e = port_key e.port e.proto

abbrev finding_key : Finding → Text
finding_key f = port_key f.port f.proto

-- A host with one entry for each of its ports, which its index finds, and each entry with its
-- proxies once each.
pub record IsHost (hr : HostRecord) : Type 0 where
  pub indexed : Indexes hr.port_idx (map entry_key hr.ports)
  pub distinct : Distinct (map entry_key hr.ports)
  pub once : All (λ e. Distinct e.proxies) hr.ports

-- A store with one record for each host, which its map finds.
pub record IsStore (st : HostStore) : Type 0 where
  pub indexed : Indexes st.hosts_map (map HostRecord.ip st.hosts_slice)
  pub distinct : Distinct (map HostRecord.ip st.hosts_slice)
  pub hosts : All IsHost st.hosts_slice

-- What is shown: hosts with their entries.
abbrev pub Shown : Type 0
Shown = Text × List PortEntry

abbrev shown_host : HostRecord → Shown
shown_host hr = (hr.ip, hr.ports)

abbrev pub shown : HostStore → List Shown
shown st = map shown_host st.hosts_slice

-- A finding is merged into the first entry of its port and protocol, or is a new one.
abbrev merge_port : Finding → Shown → Shown
merge_port f (ip, ports) = (ip, amend entry_key (merge_entry f) (new_entry f) (finding_key f) ports)

-- and goes to its host, or makes a new one.
abbrev pub merge_finding : Finding → List Shown → List Shown
merge_finding f hosts =
    if f.host ==ₜ []
    then hosts
    else amend (λ h. h.0) (merge_port f) (merge_port f (f.host, [])) f.host hosts

abbrev pub merge_findings : List Finding → List Shown → List Shown
merge_findings [] hosts = hosts
merge_findings (f ∷ fs) hosts = merge_findings fs (merge_finding f hosts)

dedupe_append-Distinct : (base add : List Text) → Distinct base → Distinct (dedupe_append base add)
unfolding dedupe_append
dedupe_append-Distinct base [] d = d
dedupe_append-Distinct base (a ∷ add) d = elim (Bool-cases (a ==ₜ [] || mem_text a base)) [
  | inl e ↦ rw e (dedupe_append-Distinct base add d)
  | inr e ↦
      rw e (dedupe_append-Distinct (base ++ a ∷ []) add (Distinct-append a base d (ground arith)))
]

map-snoc {ℓ κ} :
    {A : Type ℓ} {B : Type κ} (g : A → B) (x : A) (xs : List A)
    → map g (xs ++ x ∷ []) ≡ map g xs ++ g x ∷ []
map-snoc g x [] = refl
map-snoc g x (y ∷ xs) = ap (λ r. g y ∷ r) (map-snoc g x xs)

length-map {ℓ κ} :
    {A : Type ℓ} {B : Type κ} (g : A → B) (xs : List A) → length (map g xs) ≡ length xs
length-map g [] = refl
length-map g (x ∷ xs) = ap suc (length-map g xs)

module _ (f : Finding) where
  merge_entry-key : (e : PortEntry) → entry_key (merge_entry f e) ≡ entry_key e
  unfolding merge_entry
  merge_entry-key e = refl

  new_entry-key : entry_key (new_entry f) ≡ finding_key f
  unfolding new_entry
  new_entry-key = refl

  merge_entry-once : (e : PortEntry) → Distinct e.proxies → Distinct (merge_entry f e).proxies
  unfolding merge_entry
  merge_entry-once e d = dedupe_append-Distinct e.proxies (validators f) d

  new_entry-once : Distinct (new_entry f).proxies
  unfolding new_entry
  new_entry-once = dedupe_append-Distinct [] (validators f) tt

  enter-ports :
      (hr : HostRecord) (o : Option ℕ)
      → (enter f hr o).ports ≡ put entry_key (merge_entry f) (new_entry f) o hr.ports
  unfolding enter
  enter-ports hr none = refl
  enter-ports hr (some pi) = refl

  enter-ip : (hr : HostRecord) (o : Option ℕ) → (enter f hr o).ip ≡ hr.ip
  unfolding enter
  enter-ip hr none = refl
  enter-ip hr (some pi) = refl

  keys_snoc :
      (ports : List PortEntry)
      → map entry_key (ports ++ new_entry f ∷ []) ≡ map entry_key ports ++ finding_key f ∷ []
  keys_snoc ports =
      map-snoc entry_key (new_entry f) ports ∙ ap (λ k. map entry_key ports ++ k ∷ []) new_entry-key

  enter-IsHost :
      (hr : HostRecord)
      → IsHost hr
      → (o : Option ℕ) → place_of (finding_key f) (map entry_key hr.ports) ≡ o
      → IsHost (enter f hr o)
  unfolding enter
  enter-IsHost hr h none e = record {
    indexed =
        subst (Indexes (insert (finding_key f) (length hr.ports) hr.port_idx))
          (sym (keys_snoc hr.ports))
          (subst
            (λ n.
              Indexes (insert (finding_key f) n hr.port_idx)
                (map entry_key hr.ports ++ finding_key f ∷ []))
            (length-map entry_key hr.ports)
            (Indexes-insert (finding_key f) hr.port_idx (map entry_key hr.ports) h.indexed e));
    distinct = subst Distinct (sym (keys_snoc hr.ports)) (
        Distinct-append (finding_key f) (map entry_key hr.ports) h.distinct
          (place_of-absent (finding_key f) (map entry_key hr.ports) e));
    once =
        All-append (λ e. Distinct e.proxies) hr.ports (new_entry f ∷ []) h.once
          (new_entry-once, tt);
  }
  enter-IsHost hr h (some pi) e =
      let same =
        sym (keys-change_at entry_key (merge_entry f) (new_entry f) merge_entry-key pi hr.ports) in
      record {
        indexed = subst (Indexes hr.port_idx) same h.indexed;
        distinct = subst Distinct same h.distinct;
        once = All-change_at (merge_entry f) merge_entry-once pi hr.ports h.once;
      }

  -- One finding at its host.
  push_port-IsHost : (hr : HostRecord) → IsHost hr → IsHost (push_port f hr)
  unfolding push_port
  push_port-IsHost hr h =
      enter-IsHost hr h (lookup (finding_key f) hr.port_idx) (sym (h.indexed (finding_key f)))

  push_port-ip : (hr : HostRecord) → (push_port f hr).ip ≡ hr.ip
  unfolding push_port
  push_port-ip hr = enter-ip hr (lookup (finding_key f) hr.port_idx)

  push_port-shown :
      (hr : HostRecord) → IsHost hr → shown_host (push_port f hr) ≡ merge_port f (shown_host hr)
  unfolding push_port
  push_port-shown hr h =
      rw
        (
          enter-ip hr (lookup (finding_key f) hr.port_idx),
          enter-ports hr (lookup (finding_key f) hr.port_idx),
          put-lookup entry_key (merge_entry f) (new_entry f) (finding_key f) hr.port_idx hr.ports
              h.indexed,
        )
        refl

  new_host-IsHost : (ip : Text) → IsHost (new_host ip)
  unfolding lookup
  new_host-IsHost ip = record { indexed = λ k. refl; distinct = tt; once = tt }

  abbrev first_record : HostRecord
  first_record = push_port f (new_host f.host)

  push_at-slice :
      (st : HostStore) (o : Option ℕ)
      → (push_at f (with_host f.host st o)).hosts_slice
        ≡ put HostRecord.ip (push_port f) first_record o st.hosts_slice
  unfolding with_host
  push_at-slice st none = change_at-last (push_port f) (new_host f.host) st.hosts_slice
  push_at-slice st (some idx) = refl

  slice_keys :
      (st : HostStore)
      → map HostRecord.ip (st.hosts_slice ++ first_record ∷ [])
        ≡ map HostRecord.ip st.hosts_slice ++ f.host ∷ []
  slice_keys st =
      map-snoc HostRecord.ip first_record st.hosts_slice
      ∙ ap (λ k. map HostRecord.ip st.hosts_slice ++ k ∷ []) (push_port-ip (new_host f.host))

  push_at-IsStore :
      (st : HostStore)
      → IsStore st
      → (o : Option ℕ) → place_of f.host (map HostRecord.ip st.hosts_slice) ≡ o
      → IsStore (push_at f (with_host f.host st o))
  unfolding with_host
  push_at-IsStore st h none e =
      let ips = map HostRecord.ip st.hosts_slice in
      let slice = sym (push_at-slice st none) in
      let same = ap (map HostRecord.ip) slice in
      record {
        indexed =
            subst (Indexes (insert f.host (length st.hosts_slice) st.hosts_map))
              (sym (slice_keys st) ∙ same)
              (subst (λ n. Indexes (insert f.host n st.hosts_map) (ips ++ f.host ∷ []))
                (length-map HostRecord.ip st.hosts_slice)
                (Indexes-insert f.host st.hosts_map ips h.indexed e));
        distinct =
            subst Distinct (sym (slice_keys st) ∙ same)
              (Distinct-append f.host ips h.distinct (place_of-absent f.host ips e));
        hosts = subst (All IsHost) slice (
            All-append IsHost st.hosts_slice (first_record ∷ []) h.hosts
              (push_port-IsHost (new_host f.host) (new_host-IsHost f.host), tt));
      }
  push_at-IsStore st h (some idx) e =
      let same =
        sym (
          keys-change_at HostRecord.ip (push_port f) first_record push_port-ip idx
            st.hosts_slice) in
      record {
        indexed = subst (Indexes st.hosts_map) same h.indexed;
        distinct = subst Distinct same h.distinct;
        hosts = All-change_at (push_port f) push_port-IsHost idx st.hosts_slice h.hosts;
      }

  -- What is shown of a search with a change is the search of what is shown.
  amend-shown :
      (hosts : List HostRecord)
      → All IsHost hosts
      → map shown_host (amend HostRecord.ip (push_port f) first_record f.host hosts)
        ≡ amend (λ h. h.0) (merge_port f) (merge_port f (f.host, [])) f.host (map shown_host hosts)
  amend-shown [] a = ap (λ h. h ∷ []) (push_port-shown (new_host f.host) (new_host-IsHost f.host))
  amend-shown (hr ∷ hosts) (h, a) = elim (Bool-cases (hr.ip ==ₜ f.host)) [
    | inl e ↦ rw e (ap (λ x. x ∷ map shown_host hosts) (push_port-shown hr h))
    | inr e ↦ rw e (ap (λ r. shown_host hr ∷ r) (amend-shown hosts a))
  ]

  push_finding-shown :
      (st : HostStore)
      → IsStore st
      → IsStore (push_finding f st) × (shown (push_finding f st) ≡ merge_finding f (shown st))
  unfolding push_finding
  push_finding-shown st h = elim (Bool-cases (f.host ==ₜ [])) [
    | inl e ↦ rw e (h, refl)
    | inr e ↦ rw e (
      push_at-IsStore st h (lookup f.host st.hosts_map) (sym (h.indexed f.host)),
      ap (map shown_host) (
            push_at-slice st (lookup f.host st.hosts_map)
            ∙ put-lookup HostRecord.ip (push_port f) first_record f.host st.hosts_map st.hosts_slice
                h.indexed)
          ∙ amend-shown st.hosts_slice h.hosts,
    )
  ]

-- In a store with one record for each host, which its map finds, with one entry for each port and
-- protocol, which the record's index finds, and each proxy once in an entry, `pushFindings` keeps
-- all this, and what is shown afterwards is what was shown before with each finding that has a
-- host merged in turn, by a search of the hosts and of the host's ports for the first with its key.
pub push_findings-merged :
    (fs : List Finding) (st : HostStore)
    → IsStore st
    → IsStore (push_findings fs st) × (shown (push_findings fs st) ≡ merge_findings fs (shown st))
unfolding push_findings
push_findings-merged [] st h = (h, refl)
push_findings-merged (f ∷ fs) st h =
    let (kept, merged) = push_finding-shown f st h in
    let (all_kept, all_merged) = push_findings-merged fs (push_finding f st) kept in
    (all_kept, all_merged ∙ ap (merge_findings fs) merged)
