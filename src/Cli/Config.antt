-- ===== src/Cli/Config.antt =====
-- cli/config.go. The file of the settings is a text, if it exists; the entries of a map are written
-- in the order in which they are given, which for the Go language is any. What the calls on files
-- come to is an argument.
pub mod Stored
mod Examples
use route_fork.Base.{
  ℕ, zero, suc, ◌+◌, ◌-◌, ◌*◌, ◌/◌, ◌%◌, ◌^◌, ◌≤◌, ◌<◌, ◌≡◌, refl, sym, ap, ◌∙◌, subst, ◌≢◌, ◌↔◌,
  ◌⊎◌, inl, inr, Bool, true, false, not, ◌&&◌, ◌||◌, Option, none, some, List, [], ◌∷◌, ◌++◌, map,
  append-nil, append_assoc, arith, ltb, leb, ◌==◌, if◌then◌else◌, leb→le, not_leb, ==_iff,
  Bool-cases, Option-cases, length, get_elem?, get_or, length-append, get_elem?-lt, take, drop,
  take-drop, length-take, same_front, All, All-append, All-left, All-right, All-mono,
}
use route_fork.Text.{
  Text, codes, Lacks, ◌==ₜ◌, is_space, trim_left, trim_space, has_prefix, contains, cons_head,
  split, split_n, join, fields, lower, upper, to_lower, to_upper,
}
use route_fork.Text.Map.{lookup, insert}
use route_fork.Proxy.Parse.{cut}

abbrev pub Settings : Type 0
Settings = List (Text × Text)

-- A line with an equals sign behind its first byte.
abbrev pub load_entry : Option (Text × Text) → Settings → Settings
load_entry none m = m
load_entry (some ([], value)) m = m
load_entry (some (c ∷ key, value)) m = insert (trim_space (c ∷ key)) (trim_space value) m

unfoldable pub load_line : Text → Settings → Settings
unfolding cut
load_line line m =
    let line' = trim_space line in
    if line' ==ₜ [] || has_prefix line' (codes "#") then m else load_entry (cut b'=' line') m

-- The line scanner stops at a line that does not fit into 64 KiB. Text behind the last line end is
-- a line too; an empty one changes nothing.
unfoldable pub load_lines : List Text → Settings → Settings
unfolding load_line
load_lines [] m = m
load_lines (line ∷ lines) m =
    let rest = load_lines lines (load_line line m) in if leb 65536 (length line) then m else rest

unfoldable pub load_config : Option Text → Settings
unfolding load_lines
load_config none = []
load_config (some content) = load_lines (split content b'\n') []

abbrev pub heading : Text
heading = codes "# rofk configuration - do not edit manually while the app is running"

abbrev pub entry_line : Text × Text → Text
entry_line (key, value) = key ++ b' ' ∷ b'=' ∷ b' ' ∷ value

abbrev pub entry_lines : Settings → Text
entry_lines [] = []
entry_lines (e ∷ m) = entry_line e ++ b'\n' ∷ entry_lines m

unfoldable pub config_text : Settings → Text
config_text m = heading ++ b'\n' ∷ entry_lines m

-- The errors of the calls, if they fail, and how much is written if the last one does.
pub record Disk : Type 0 where
  pub mkdir_all : Option Text
  pub create : Option Text
  pub flush : Option Text
  pub written : ℕ

-- The error and the file afterwards.
unfoldable pub save_config : Disk → Settings → Option Text → Option Text × Option Text
unfolding config_text
save_config d m old = elim d.mkdir_all [
  | some e ↦ (some e, old)
  | none ↦ (elim d.create [
    | some e ↦ (some e, old)
    | none ↦ (elim d.flush [
      | some e ↦ (some e, some (take d.written (config_text m)))
      | none ↦ (none, some (config_text m))
    ])
  ])
]

-- The order of the entries is what `arrange` makes of the map.
unfoldable pub set_config_key :
    Disk → (Settings → Settings) → Text → Text → Option Text → Option Text × Option Text
unfolding save_config load_config
set_config_key d arrange key value old =
    save_config d (arrange (insert key value (load_config old))) old

pub record FileInfo : Type 0 where
  pub is_dir : Bool
  pub mode : ℕ

pub record Machine : Type 0 where
  pub windows : Bool
  pub stat : Text → Option FileInfo
  pub look_path : Option Text
  pub config_file : Option Text

-- `Mode()&0o111 != 0`
abbrev pub has_execute_bit : ℕ → Bool
has_execute_bit mode = mode % 2 == 1 || (mode / 8) % 2 == 1 || (mode / 64) % 2 == 1

unfoldable pub is_exec : Machine → Text → Bool
is_exec m path = elim (m.stat path) [
  | none ↦ false
  | some info ↦ if m.windows then not info.is_dir else not info.is_dir && has_execute_bit info.mode
]

abbrev pub nmap_candidates : Bool → List Text
nmap_candidates windows =
    codes "/usr/bin/nmap"
    ∷ codes "/usr/local/bin/nmap"
    ∷ codes "/opt/homebrew/bin/nmap"
    ∷ codes "/snap/bin/nmap"
    ∷ codes "/usr/sbin/nmap"
    ∷ (if windows
        then codes "C:\\Program Files (x86)\\Nmap\\nmap.exe"
          ∷ codes "C:\\Program Files\\Nmap\\nmap.exe"
          ∷ []
        else [])

unfoldable pub first_exec : Machine → List Text → Text × Bool
unfolding is_exec
first_exec m [] = (codes "nmap", false)
first_exec m (c ∷ cs) = let later = first_exec m cs in if is_exec m c then (c, true) else later

abbrev pub on_path : Machine → Text × Bool
unfolding first_exec
on_path m = elim m.look_path [
  | some p ↦ (p, true)
  | none ↦ first_exec m (nmap_candidates m.windows)
]

abbrev pub configured : Option Text → Text
configured none = []
configured (some p) = p

unfoldable pub find_nmap : Machine → Text → Text × Bool
unfolding on_path load_config
find_nmap m custom_path =
    let p = configured (lookup (codes "nmap_path") (load_config m.config_file)) in
    if not (custom_path ==ₜ [])
    then (custom_path, is_exec m custom_path)
    else if not (p ==ₜ []) && is_exec m p
    then (p, true)
    else on_path m
