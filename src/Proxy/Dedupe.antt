-- ===== src/Proxy/Dedupe.antt =====
-- The de-duplication of `ParseAll`.
use route_fork.Base.{◌≡◌, refl, true, false, ◌||◌, some, List, [], ◌∷◌, ◌++◌, map, arith}
use route_fork.Text.{Text}
use route_fork.Text.Search.{==ₜ_sym}
use route_fork.Proxy.{Proxy}
use route_fork.Proxy.Parse.{parse_line, key, mem_text}

-- No text stands twice in the list.
abbrev pub Distinct : List Text → Type 0
Distinct [] = Unit
Distinct (k ∷ ks) = (mem_text k ks ≡ false) × Distinct ks

abbrev pub keys : List Proxy → List Text
keys = map key

pub mem_text-append :
    (k : Text) (a b : List Text) → mem_text k (a ++ b) ≡ (mem_text k a || mem_text k b)
unfolding mem_text
mem_text-append k [] b = refl
mem_text-append k (s ∷ a) b = ground (arith, mem_text-append k a b)

pub Distinct-append :
    (k : Text) (ks : List Text) → Distinct ks → mem_text k ks ≡ false → Distinct (ks ++ k ∷ [])
unfolding mem_text
Distinct-append k [] d h = (refl, tt)
Distinct-append k (s ∷ ks) d h = (
  ground (arith, mem_text-append s ks (k ∷ []), ==ₜ_sym k s, h, d.0),
  Distinct-append k ks d.1 (ground arith),
)

-- The map `seen` holds exactly the keys of `out`, and these are distinct.
pub record IsIndexed (state : List Text × List Proxy) : Type 0 where
  pub agree : (k : Text) → mem_text k state.0 ≡ mem_text k (keys state.1)
  pub distinct : Distinct (keys state.1)

-- The key stands among those of the results.
abbrev Holds : Text → List Text × List Proxy → Type 0
Holds k state = mem_text k (keys state.1) ≡ true

-- What a line parses to, if anything, has its key among those of the proxies.
abbrev pub IsCovered : List Proxy → Text → Type 0
IsCovered found line = (p : Proxy) → parse_line line ≡ some p → mem_text (key p) (keys found) ≡ true
