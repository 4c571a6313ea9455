-- ===== src/Proxy/Errors.antt =====
-- `IsProxyError` and `IsProxyDead` of proxy/validate.go.
use route_fork.Base.{
  ◌≡◌, refl, ◌⊎◌, inl, inr, Bool, true, false, ◌||◌, Option, none, some, List, [], ◌∷◌, ◌++◌, arith,
  if◌then◌else◌, Bool-cases,
}
use route_fork.Text.{Text, codes, contains, to_lower}
use route_fork.Text.Search.{contains_trans}

-- Some signature of the list stands in the text.
unfoldable pub contains_any : Text → List Text → Bool
contains_any s [] = false
contains_any s (sig ∷ sigs) = contains s sig || contains_any s sigs

abbrev pub dial_signature : Text → Text
dial_signature proxy_addr = codes "dial tcp " ++ proxy_addr

abbrev pub error_signatures : List Text
error_signatures =
    codes "not a socks5 server"
    ∷ codes "auth"
    ∷ codes "connection reset by peer"
    ∷ codes "no connect response"
    ∷ codes "broken pipe"
    ∷ codes "eof"
    ∷ []

abbrev pub dead_signatures : List Text
dead_signatures =
    codes "not a socks5 server"
    ∷ codes "no acceptable auth"
    ∷ codes "authentication failed"
    ∷ codes "auth required"
    ∷ []

-- The error is the text of `err.Error()`, or `none` for nil.
unfoldable pub is_proxy_error : Text → Option Text → Bool
unfolding contains_any
is_proxy_error proxy_addr none = false
is_proxy_error proxy_addr (some e) =
    if contains e (dial_signature proxy_addr)
    then true
    else contains_any (to_lower e) error_signatures

unfoldable pub is_proxy_dead : Text → Option Text → Bool
unfolding contains_any
is_proxy_dead proxy_addr none = false
is_proxy_dead proxy_addr (some e) =
    if contains e (dial_signature proxy_addr)
    then true
    else contains_any (to_lower e) dead_signatures

auth-contains :
    (s : Text)
    → contains s (codes "no acceptable auth") ≡ true
      ⊎ (contains s (codes "authentication failed") ≡ true
          ⊎ contains s (codes "auth required") ≡ true)
    → contains s (codes "auth") ≡ true
auth-contains s (inl h) = contains_trans s _ (codes "auth") h (unfold contains in refl)
auth-contains s (inr (inl h)) = contains_trans s _ (codes "auth") h (unfold contains in refl)
auth-contains s (inr (inr h)) = contains_trans s _ (codes "auth") h (unfold contains in refl)

contains_any_dead :
    (s : Text) → contains_any s dead_signatures ≡ true → contains_any s error_signatures ≡ true
unfolding contains_any
contains_any_dead s h = ground (arith, auth-contains s)

-- A proxy that is pruned was classified as a proxy-side failure: no target-side result, such as a
-- refused connection, ever condemns a proxy.
pub dead-is_proxy_error :
    (proxy_addr : Text) (e : Option Text)
    → is_proxy_dead proxy_addr e ≡ true
    → is_proxy_error proxy_addr e ≡ true
unfolding is_proxy_dead is_proxy_error
dead-is_proxy_error proxy_addr none h = h
dead-is_proxy_error proxy_addr (some e) h =
    elim (Bool-cases (contains e (dial_signature proxy_addr))) [
      | inl t ↦ rw t
      | inr t ↦ rw t (contains_any_dead (to_lower e) (rw t at h))
    ]
