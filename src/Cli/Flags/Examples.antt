-- ===== src/Cli/Flags/Examples.antt =====
-- Tests of the flags of cli/flat.go, and their theorem at concrete settings.
use route_fork.Base.{ℕ, ◌≡◌, refl, true, false, List, [], ◌∷◌, arith}
use route_fork.Base.Int.{pos}
use route_fork.Text.{Text, codes, has_prefix, fields}
use route_fork.Text.Decimal.{itoa}
use route_fork.Cli.Flags.{
  defaults, is_one_of, first_case, flag_of, act, parse_from, parse_flat_args, build_flat_nmap_cmd,
  has_pn,
}
use route_fork.Cli.Flags.RoundTrip.{
  Setting, argument, conc, rotate, nmap_flag, nmap_option, render, render_all, set, set_all,
  parse_flat_args-render_all,
}

abbrev no_float : Text → ℕ
no_float s = 0

-- A flag that ends the arguments has the empty text as its value.
end_test :
    parse_flat_args no_float 5 (codes "-p" ∷ codes "-sV" ∷ codes "-out" ∷ [])
    ≡ record (defaults 5) { nmap_extra = codes "-p" ∷ codes "-sV" ∷ []; out_file = [] }
unfolding parse_flat_args parse_from act flag_of first_case is_one_of has_prefix
end_test = refl

cmd_test :
    build_flat_nmap_cmd (codes "nmap") (codes "socks4://x") (codes "a b") (codes "-sV" ∷ []) true
    ≡ codes "nmap"
      ∷ codes "-sT"
      ∷ codes "--proxies=socks4://x"
      ∷ codes "--open"
      ∷ codes "-Pn"
      ∷ codes "-sV"
      ∷ codes "a"
      ∷ codes "b"
      ∷ []
unfolding build_flat_nmap_cmd has_pn fields
cmd_test = refl

abbrev settings : List Setting
settings =
    conc 10
    ∷ nmap_option (codes "-oX") (codes "out.xml")
    ∷ argument (codes "host")
    ∷ nmap_flag (codes "-sV")
    ∷ rotate false
    ∷ conc 20
    ∷ []

parse_flat_args-render_all_example :
    parse_flat_args no_float 5 (
      codes "-conc"
      ∷ codes "10"
      ∷ codes "-oX"
      ∷ codes "out.xml"
      ∷ codes "host"
      ∷ codes "-sV"
      ∷ codes "-no-rotate"
      ∷ codes "-conc"
      ∷ codes "20"
      ∷ [])
    ≡ record (defaults 5) {
      conc = pos 20;
      nmap_extra = codes "-oX" ∷ codes "out.xml" ∷ codes "-sV" ∷ [];
      targets = codes "host" ∷ [];
      rotate = false;
    }
unfolding render_all render set_all set itoa flag_of first_case is_one_of has_prefix
parse_flat_args-render_all_example =
    parse_flat_args-render_all no_float 5 settings
      (omega arith, ((refl, (refl, refl)), (refl, ((refl, refl), (tt, (omega arith, tt))))))
