-- ===== src/Cli/Flags/RoundTrip.antt =====
-- Settings printed as arguments, and read back by `parseFlatArgs` of cli/flat.go.
use route_fork.Base.{ℕ, ◌^◌, ◌<◌, ◌≡◌, refl, ap, ◌∙◌, Bool, true, false, List, [], ◌∷◌, ◌++◌, All}
use route_fork.Base.Int.{pos}
use route_fork.Text.{Text, codes, ◌==ₜ◌, has_prefix}
use route_fork.Text.Decimal.{itoa, atoi-itoa}
use route_fork.Cli.Flags.{
  FlatArgs, defaults, is_one_of, nmap_value_flags, pass_through, positional, flag_of, act,
  parse_from, parse_flat_args,
}

-- What a user may set, in any order and repeatedly.
pub data Setting : Type 0 where
  proxies target argument ports output format tool nmap seconds : Text → Setting
  conc confirm : ℕ → Setting
  rotate wrap : Bool → Setting
  nmap_flag : Text → Setting
  nmap_option : (flag value : Text) → Setting

unfoldable pub render : Setting → List Text
render (proxies f) = codes "-proxlist" ∷ f ∷ []
render (target t) = codes "-ip" ∷ t ∷ []
render (argument t) = t ∷ []
render (ports p) = codes "-p" ∷ p ∷ []
render (output f) = codes "-out" ∷ f ∷ []
render (format f) = codes "-type" ∷ f ∷ []
render (tool t) = codes "-tool" ∷ t ∷ []
render (nmap f) = codes "-nmap-path" ∷ f ∷ []
render (seconds s) = codes "-timeout" ∷ s ∷ []
render (conc n) = codes "-conc" ∷ itoa n ∷ []
render (confirm n) = codes "-confirm" ∷ itoa n ∷ []
render (rotate true) = codes "-rotate" ∷ []
render (rotate false) = codes "-no-rotate" ∷ []
render (wrap true) = codes "-wrap" ∷ []
render (wrap false) = codes "-no-wrap" ∷ []
render (nmap_flag f) = f ∷ []
render (nmap_option f v) = f ∷ v ∷ []

unfoldable pub render_all : List Setting → List Text
unfolding render
render_all [] = []
render_all (s ∷ settings) = render s ++ render_all settings

-- A flag that no case of the program's own takes.
abbrev pub IsForeign : Text → Type 0
IsForeign f = flag_of f ≡ pass_through

abbrev pub IsSetting : Setting → Type 0
IsSetting (argument t) = flag_of t ≡ positional
IsSetting (ports p) = ((p ==ₜ []) ≡ false) × (has_prefix p (codes "-") ≡ false)
IsSetting (conc n) = n < 2 ^ 63
IsSetting (confirm n) = n < 2 ^ 63
IsSetting (nmap_flag f) = IsForeign f × (is_one_of f nmap_value_flags ≡ false)
IsSetting (nmap_option f v) =
    IsForeign f × ((is_one_of f nmap_value_flags ≡ true) × ((v ==ₜ []) ≡ false))
IsSetting _ = Unit

module _ {F : Type 0} (parse_float : Text → F) where
  -- What a setting means.
  unfoldable pub set : Setting → FlatArgs F → FlatArgs F
  set (proxies f) fa = record fa { prox_list = f }
  set (target t) fa = record fa { targets = fa.targets ++ t ∷ [] }
  set (argument t) fa = record fa { targets = fa.targets ++ t ∷ [] }
  set (ports p) fa = record fa { ports = p; nmap_extra = fa.nmap_extra ++ codes "-p" ∷ p ∷ [] }
  set (output f) fa = record fa { out_file = f }
  set (format f) fa = record fa { out_type = f }
  set (tool t) fa = record fa { tool = t }
  set (nmap f) fa = record fa { nmap_path = f }
  set (seconds s) fa = record fa { timeout = parse_float s }
  set (conc n) fa = record fa { conc = pos n }
  set (confirm n) fa = record fa { confirm = pos n }
  set (rotate b) fa = record fa { rotate = b }
  set (wrap b) fa = record fa { wrap = b }
  set (nmap_flag f) fa = record fa { nmap_extra = fa.nmap_extra ++ f ∷ [] }
  set (nmap_option f v) fa = record fa { nmap_extra = fa.nmap_extra ++ f ∷ v ∷ [] }

  unfoldable pub set_all : List Setting → FlatArgs F → FlatArgs F
  unfolding set
  set_all [] fa = fa
  set_all (s ∷ settings) fa = set_all settings (set s fa)

  -- An argument that consumes nothing.
  parse_from-single :
      (arg : Text) (args : List Text) (fa fa' : FlatArgs F)
      → ((next : Text) → act parse_float (flag_of arg) arg next fa ≡ (fa', false))
      → parse_from parse_float (arg ∷ args) fa ≡ parse_from parse_float args fa'
  unfolding parse_from
  parse_from-single arg [] fa fa' h = ap (λ r. r.0) (h [])
  parse_from-single arg (next ∷ args) fa fa' h =
      let kept : (act parse_float (flag_of arg) arg next fa).1 ≡ false = ap (λ r. r.1) (h next) in
      rw (parse_from, kept) (ap (λ r. parse_from parse_float (next ∷ args) r.0) (h next))

  parse_from-pair :
      (arg next : Text) (args : List Text) (fa fa' : FlatArgs F)
      → act parse_float (flag_of arg) arg next fa ≡ (fa', true)
      → parse_from parse_float (arg ∷ next ∷ args) fa ≡ parse_from parse_float args fa'
  unfolding parse_from
  parse_from-pair arg next args fa fa' h =
      let taken : (act parse_float (flag_of arg) arg next fa).1 ≡ true = ap (λ r. r.1) h in
      rw (parse_from, taken) (ap (λ r. parse_from parse_float args r.0) h)

  parse_from-render :
      (s : Setting) (args : List Text) (fa : FlatArgs F)
      → IsSetting s
      → parse_from parse_float (render s ++ args) fa ≡ parse_from parse_float args (set s fa)
  unfolding render set act flag_of is_one_of
  parse_from-render (proxies f) args fa h = parse_from-pair _ f args fa _ refl
  parse_from-render (target t) args fa h = parse_from-pair _ t args fa _ refl
  parse_from-render (argument t) args fa h = parse_from-single t args fa _ (λ next. rw h refl)
  parse_from-render (ports p) args fa h = parse_from-pair _ p args fa _ (rw (h.0, h.1) refl)
  parse_from-render (output f) args fa h = parse_from-pair _ f args fa _ refl
  parse_from-render (format f) args fa h = parse_from-pair _ f args fa _ refl
  parse_from-render (tool f) args fa h = parse_from-pair _ f args fa _ refl
  parse_from-render (nmap f) args fa h = parse_from-pair _ f args fa _ refl
  parse_from-render (seconds s) args fa h = parse_from-pair _ s args fa _ refl
  parse_from-render (conc n) args fa h =
      parse_from-pair _ (itoa n) args fa _ (rw (atoi-itoa n h) refl)
  parse_from-render (confirm n) args fa h =
      parse_from-pair _ (itoa n) args fa _ (rw (atoi-itoa n h) refl)
  parse_from-render (rotate true) args fa h = parse_from-single _ args fa _ (λ next. refl)
  parse_from-render (rotate false) args fa h = parse_from-single _ args fa _ (λ next. refl)
  parse_from-render (wrap true) args fa h = parse_from-single _ args fa _ (λ next. refl)
  parse_from-render (wrap false) args fa h = parse_from-single _ args fa _ (λ next. refl)
  parse_from-render (nmap_flag f) args fa h =
      parse_from-single f args fa _ (λ next. rw (h.0, h.1) refl)
  parse_from-render (nmap_option f v) args fa h =
      parse_from-pair f v args fa _ (rw (h.0, h.1.0, h.1.1) refl)

  parse_from-render_all :
      (settings : List Setting) (fa : FlatArgs F)
      → All IsSetting settings
      → parse_from parse_float (render_all settings) fa ≡ set_all settings fa
  unfolding render_all set_all parse_from
  parse_from-render_all [] fa h = refl
  parse_from-render_all (s ∷ settings) fa h =
      parse_from-render s (render_all settings) fa h.0
      ∙ parse_from-render_all settings (set s fa) h.1

  -- Printed as arguments, in any order and repeatedly, the settings of a user are carried out one
  -- after another on the defaults: numbers fit an int, a port specification is not empty and does
  -- not begin with a dash, positional arguments do not begin with one, and what is for nmap begins
  -- with one, is no spelling of the program's own flags, and has a value that is not empty exactly
  -- if nmap's flag takes one.
  pub parse_flat_args-render_all :
      (five : F) (settings : List Setting)
      → All IsSetting settings
      → parse_flat_args parse_float five (render_all settings) ≡ set_all settings (defaults five)
  unfolding parse_flat_args
  parse_flat_args-render_all five settings h = parse_from-render_all settings (defaults five) h
