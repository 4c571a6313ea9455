-- ===== src/Proxy/Groups.antt =====
-- What the groups of `uriRE` match in a printed URI.
use route_fork.Base.{
  ℕ, ◌≡◌, refl, ap, ◌≢◌, Bool, true, false, not, ◌||◌, none, some, [], ◌∷◌, ◌++◌, arith, ◌==◌, All,
  All-mono,
}
use route_fork.Base.{All-both}
use route_fork.Text.{Text, Lacks, is_space}
use route_fork.Text.Decimal.{itoa, IsDigit, itoa-IsDigit, itoa-ne-nil}
use route_fork.Text.Parts.{NoSpace}
use route_fork.Proxy.Parse.{
  is_blank, is_digit, all_bytes, nonempty_without, cut, match_host_port, match_auth,
}

cut-append : (sep : ℕ) (a b : Text) → Lacks sep a → cut sep (a ++ sep ∷ b) ≡ some (a, b)
unfolding cut
cut-append sep [] b h = ground arith
cut-append sep (c ∷ a) b h = ground (arith, cut-append sep a b h.1)

cut_lacking : (sep : ℕ) (a : Text) → Lacks sep a → cut sep a ≡ none
unfolding cut
cut_lacking sep [] h = refl
cut_lacking sep (c ∷ a) h = ground (arith, cut_lacking sep a h.1)

all_bytes-true : (p : ℕ → Bool) (s : Text) → All (λ c. p c ≡ true) s → all_bytes p s ≡ true
unfolding all_bytes
all_bytes-true p [] h = refl
all_bytes-true p (c ∷ s) h = rw (h.0) (all_bytes-true p s h.1)

nonempty_without-true :
    (p : ℕ → Bool) (s : Text) → s ≢ [] → All (λ c. p c ≡ false) s → nonempty_without p s ≡ true
unfolding nonempty_without
nonempty_without-true p [] h k = absurd (h refl)
nonempty_without-true p (c ∷ s) h k =
    all_bytes-true (λ b. not (p b)) (c ∷ s) (All-mono (λ b e. ap not e) (c ∷ s) k)

blank_space : (c : ℕ) → is_space c ≡ false → is_blank c ≡ false
unfolding is_space is_blank
blank_space c h = ground arith

digit_test : (c : ℕ) → IsDigit c → not (is_digit c) ≡ false
unfolding is_digit
digit_test c h = ground arith

pub digit_space : (c : ℕ) → IsDigit c → is_space c ≡ false
unfolding is_space
digit_space c h = ground arith

pub match_host_port-print :
    (host : Text) (n : ℕ)
    → host ≢ []
    → NoSpace host
    → Lacks b':' host
    → match_host_port (host ++ b':' ∷ itoa n) ≡ some (host, itoa n)
unfolding match_host_port
match_host_port-print host n h word lacks =
    let a = nonempty_without-true is_blank host h (All-mono blank_space host word) in
    let b =
      nonempty_without-true (λ c. not (is_digit c)) (itoa n) (itoa-ne-nil n)
        (All-mono digit_test (itoa n) (itoa-IsDigit n)) in
    rw (cut-append b':' host (itoa n) lacks, match_host_port) (rw (a, b))

pub match_auth-none :
    (host : Text) (n : ℕ) → Lacks b':' host → match_auth (host ++ b':' ∷ itoa n) ≡ none
unfolding match_auth
match_auth-none host n lacks = rw (
  cut-append b':' host (itoa n) lacks,
  cut_lacking b'@' (itoa n) (All-mono (λ c h. omega arith) (itoa n) (itoa-IsDigit n)),
  match_auth,
)

user_byte : (c : ℕ) → (is_space c ≡ false) × (c ≢ b'@') → (c == b'@' || is_blank c) ≡ false
user_byte c h = ground (arith, blank_space c h.0)

pub match_auth-print :
    (user password host : Text) (n : ℕ)
    → user ≢ []
    → NoSpace user
    → Lacks b':' user
    → Lacks b'@' user
    → NoSpace password
    → Lacks b'@' password
    → match_host_port (host ++ b':' ∷ itoa n) ≡ some (host, itoa n)
    → match_auth (user ++ b':' ∷ (password ++ b'@' ∷ (host ++ b':' ∷ itoa n)))
      ≡ some (user, password, host, itoa n)
unfolding match_auth
match_auth-print user password host n h word lacks lacks_at word' lacks' found =
    rw (cut-append b':' user _ lacks, match_auth)
      (rw (cut-append b'@' password (host ++ b':' ∷ itoa n) lacks')
        (rw found (rw (user_bytes, password_bytes))))
  where
    user_bytes : nonempty_without (λ c. c == b'@' || is_blank c) user ≡ true
    user_bytes =
        nonempty_without-true (λ c. c == b'@' || is_blank c) user h
          (All-mono user_byte user
            (All-both (λ c. is_space c ≡ false) (λ c. c ≢ b'@') user word lacks_at))

    password_bytes : all_bytes (λ c. not (is_blank c)) password ≡ true
    password_bytes =
        all_bytes-true (λ c. not (is_blank c)) password
          (All-mono (λ c e. ap not (blank_space c e)) password word')
