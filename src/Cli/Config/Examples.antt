-- ===== src/Cli/Config/Examples.antt =====
-- Tests of cli/config.go, and its theorem on concrete settings.
use route_fork.Base.{◌≡◌, refl, inl, inr, true, false, none, some, [], ◌∷◌, arith, if◌then◌else◌}
use route_fork.Text.{codes, ◌==ₜ◌, is_space, trim_space, has_prefix, split}
use route_fork.Text.Map.{lookup, insert}
use route_fork.Proxy.Parse.{cut, mem_text}
use route_fork.Nmap.Lines.{IsTight}
use route_fork.Cli.Config.{
  Settings, load_line, load_lines, load_config, config_text, Disk, save_config, set_config_key,
  Machine, is_exec, first_exec, find_nmap,
}
use route_fork.Cli.Config.Stored.{IsEntry, load_config-config_text}

load_test :
    load_config (some (codes "# a = b\n\n nmap_path = /opt/my nmap \r\n=x\ny\nz==\n"))
    ≡ (codes "nmap_path", codes "/opt/my nmap") ∷ (codes "z", codes "=") ∷ []
unfolding load_config load_lines load_line trim_space split has_prefix cut insert
load_test = refl

abbrev disk : Disk
disk = record { mkdir_all = none; create = none; flush = none; written = 0 }

set_test :
    set_config_key disk (λ m. m) (codes "k") (codes "w") (some (codes "k=v\nj=u\n"))
    ≡ (none, some (config_text ((codes "k", codes "w") ∷ (codes "j", codes "u") ∷ [])))
unfolding set_config_key save_config load_config load_lines load_line trim_space split has_prefix
    cut insert
set_test = refl

refused_test :
    save_config (record disk { create = some (codes "denied") }) [] (some (codes "x"))
    ≡ (some (codes "denied"), some (codes "x"))
unfolding save_config
refused_test = refl

abbrev machine : Machine
machine = record {
  windows = false;
  stat = λ path.
      if path ==ₜ codes "/snap/bin/nmap"
      then some (record { is_dir = false; mode = 493 })
      else none;
  look_path = none;
  config_file = some (codes "nmap_path = /gone");
}

find_test : find_nmap machine [] ≡ (codes "/snap/bin/nmap", true)
unfolding find_nmap first_exec is_exec load_config load_lines load_line trim_space split has_prefix
    cut insert lookup
find_test = refl

abbrev saved : Settings
saved = (codes "k", codes "v=w") ∷ (codes "j", []) ∷ []

k-IsTight : IsTight (codes "k")
unfolding is_space
k-IsTight = record {
  first = b'k';
  rest = [];
  starts = refl;
  first_kept = refl;
  init = [];
  last = b'k';
  ends = refl;
  last_kept = refl;
}

j-IsTight : IsTight (codes "j")
unfolding is_space
j-IsTight = record {
  first = b'j';
  rest = [];
  starts = refl;
  first_kept = refl;
  init = [];
  last = b'j';
  ends = refl;
  last_kept = refl;
}

v-IsTight : IsTight (codes "v=w")
unfolding is_space
v-IsTight = record {
  first = b'v';
  rest = codes "=w";
  starts = refl;
  first_kept = refl;
  init = codes "v=";
  last = b'w';
  ends = refl;
  last_kept = refl;
}

k-IsEntry : IsEntry (codes "k", codes "v=w")
unfolding k-IsTight
k-IsEntry = record {
  key_tight = k-IsTight;
  key_lacks = ground arith;
  no_comment = λ e. cc;
  value_tight = inr v-IsTight;
  one_line = ground arith;
  short = omega arith;
}

j-IsEntry : IsEntry (codes "j", [])
unfolding j-IsTight
j-IsEntry = record {
  key_tight = j-IsTight;
  key_lacks = ground arith;
  no_comment = λ e. cc;
  value_tight = inl refl;
  one_line = ground arith;
  short = omega arith;
}

load_config-config_text_example :
    lookup (codes "k") (load_config (some (config_text saved))) ≡ lookup (codes "k") saved
unfolding mem_text
load_config-config_text_example =
    load_config-config_text saved (codes "k") (k-IsEntry, (j-IsEntry, tt)) (refl, (refl, tt))
