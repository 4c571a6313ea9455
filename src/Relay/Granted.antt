-- ===== src/Relay/Granted.antt =====
-- What a handshake of relay/relay.go that succeeds tells of the proxy.
use route_fork.Base.{
  ℕ, ◌≡◌, refl, ap, ◌∙◌, ◌≢◌, inl, inr, [], ◌∷◌, ◌++◌, arith, ◌==◌, if◌then◌else◌, ==_iff,
  Bool-cases, length,
}
use route_fork.Base.Result.{ok}
use route_fork.Text.{Text, codes, ◌==ₜ◌}
use route_fork.Net.{Conn, Session, ◌>>=◌, ◌>>◌, fail, return, write, read_full, incoming}
use route_fork.Net.Reading.{
  first_result, write-took, test_passed, read_full-took, no_reply, reply_parts,
}
use route_fork.Net.Socks.{greeting, login, connect_request, socks4a_request}
use route_fork.Relay.{byte, authenticate, drain_bound, socks5_connect, socks4a_connect, reply_error}
use route_fork.Net.Server.{IsLogin, without, password, grant}

two_bytes : (bs : Text) → length bs ≡ 2 → bs ≡ byte bs 0 ∷ byte bs 1 ∷ []
two_bytes [] h = absurd (omega arith)
two_bytes (a ∷ []) h = absurd (omega arith)
two_bytes (a ∷ b ∷ []) h = refl
two_bytes (a ∷ b ∷ c ∷ bs) h = absurd (omega arith)

four_bytes : (bs : Text) → length bs ≡ 4 → bs ≡ byte bs 0 ∷ byte bs 1 ∷ byte bs 2 ∷ byte bs 3 ∷ []
four_bytes [] h = absurd (omega arith)
four_bytes (a ∷ []) h = absurd (omega arith)
four_bytes (a ∷ b ∷ []) h = absurd (omega arith)
four_bytes (a ∷ b ∷ c ∷ []) h = absurd (omega arith)
four_bytes (a ∷ b ∷ c ∷ d ∷ []) h = refl
four_bytes (a ∷ b ∷ c ∷ d ∷ e ∷ bs) h = absurd (omega arith)

Accepted : ℕ → Text → Conn → Conn → Type 0
Accepted method user c d =
    (answer : Text) × IsLogin user method answer × (incoming c ≡ answer ++ incoming d)

abbrev credentials_check : Text → Text → Session Unit
credentials_check user pass = do
  write (login user pass)
  ar ← read_full 2
  if byte ar 1 == 0 then return tt else fail (codes "authentication failed")

credentials_check-Accepted :
    (user pass : Text) (c d : Conn)
    → user ≢ []
    → credentials_check user pass c ≡ (ok tt, d)
    → Accepted 2 user c d
unfolding Accepted
credentials_check-Accepted user pass c d u h =
    let (x, c1, e1, h1) = first_result (write (login user pass)) _ c h in
    let (ar, c2, e2, h2) = first_result (read_full 2) _ c1 h1 in
    let (l, took, s) = read_full-took 2 ar c1 c2 e2 in
    let (zero_byte, same) = test_passed (byte ar 1 == 0) _ c2 d h2 in
    let e : ar ≡ byte ar 0 ∷ 0 ∷ [] =
      two_bytes ar l ∙ ap (λ b. byte ar 0 ∷ b ∷ []) ((==_iff (byte ar 1) 0).0 zero_byte) in
    (
      byte ar 0 ∷ 0 ∷ [],
      password (byte ar 0) u,
      write-took (login user pass) c c1 e1 ∙ took ∙ cc (e, same),
    )

asked_for_password :
    (user pass : Text) (c d : Conn)
    → (if user ==ₜ [] then fail (codes "auth required") else credentials_check user pass) c
      ≡ (ok tt, d)
    → Accepted 2 user c d
asked_for_password [] pass c d h = absurd (no_reply h)
asked_for_password (x ∷ user) pass c d h =
    credentials_check-Accepted (x ∷ user) pass c d cons-ne-nil h
  where
    cons-ne-nil : x ∷ user ≢ []
    cons-ne-nil e = cc

authenticate-Accepted :
    (method : ℕ) (user pass : Text) (c d : Conn)
    → authenticate method user pass c ≡ (ok tt, d)
    → Accepted method user c d
unfolding authenticate Accepted
authenticate-Accepted method user pass c d h = elim (Bool-cases (method == 255)) [
  | inl e ↦ absurd (no_reply (rw e at h))
  | inr e ↦ elim (Bool-cases (method == 2)) [
    | inr f ↦ (
      [],
      without (ground arith) (ground arith),
      ap (λ x. incoming x) (reply_parts tt tt c d (rw (e, f) at h)).1,
    )
    | inl f ↦ rw ((==_iff method 2).0 f) (asked_for_password user pass c d (rw (e, f) at h))
  ]
]

-- The part of the handshake behind the log-in.
abbrev request_part : Text → ℕ → Session Unit
request_part host port = do
  write (connect_request host port)
  hdr ← read_full 4
  if byte hdr 1 == 0 then return tt else fail (reply_error (byte hdr 1))
  drain_bound (byte hdr 3)

request_granted :
    (host : Text) (port : ℕ) (c d : Conn)
    → request_part host port c ≡ (ok tt, d)
    → (v r atyp : ℕ) × (more : Text) × (incoming c ≡ v ∷ 0 ∷ r ∷ atyp ∷ more)
request_granted host port c d h =
    let (x, c1, e1, h1) = first_result (write (connect_request host port)) _ c h in
    let (hdr, c2, e2, h2) = first_result (read_full 4) _ c1 h1 in
    let test : Session Unit =
      if byte hdr 1 == 0 then return tt else fail (reply_error (byte hdr 1)) in
    let (y, c3, e3, h3) = first_result test _ c2 h2 in
    let (l, took, s) = read_full-took 4 hdr c1 c2 e2 in
    let (zero_byte, same) = test_passed (byte hdr 1 == 0) _ c2 c3 e3 in
    let done : hdr ≡ byte hdr 0 ∷ 0 ∷ byte hdr 2 ∷ byte hdr 3 ∷ [] =
      four_bytes hdr l
      ∙ ap (λ b. byte hdr 0 ∷ b ∷ byte hdr 2 ∷ byte hdr 3 ∷ [])
          ((==_iff (byte hdr 1) 0).0 zero_byte) in
    (
      byte hdr 0,
      byte hdr 2,
      byte hdr 3,
      incoming c2,
      write-took (connect_request host port) c c1 e1 ∙ took ∙ ap (λ b. b ++ incoming c2) done,
    )

-- The SOCKS5 handshake succeeds only if the proxy let the client in by a method that asks for no
-- password or for one that the client has and the proxy then took, and reported success (0) for
-- the request.
pub socks5_connect-granted :
    (host : Text) (port : ℕ) (user pass : Text) (c d : Conn)
    → socks5_connect host port user pass c ≡ (ok tt, d)
    → (method : ℕ) × (answer : Text) × (v r atyp : ℕ) × (more : Text) × IsLogin user method answer
      × (incoming c ≡ grant method answer v r atyp more)
unfolding socks5_connect Accepted
socks5_connect-granted host port user pass c d h =
    let (x1, c1, e1, h1) = first_result (write (greeting user)) _ c h in
    let (resp, c2, e2, h2) = first_result (read_full 2) _ c1 h1 in
    let test : Session Unit =
      if byte resp 0 == 5 then return tt else fail (codes "not a SOCKS5 server") in
    let (x3, c3, e3, h3) = first_result test _ c2 h2 in
    let (x4, c4, e4, h4) = first_result (authenticate (byte resp 1) user pass) _ c3 h3 in
    let (l, took, s) = read_full-took 2 resp c1 c2 e2 in
    let (five, same) = test_passed (byte resp 0 == 5) _ c2 c3 e3 in
    let (answer, is_login, t4) = authenticate-Accepted (byte resp 1) user pass c3 c4 e4 in
    let (v, r, atyp, more, reply) = request_granted host port c4 d h4 in
    let chosen : resp ≡ 5 ∷ byte resp 1 ∷ [] =
      two_bytes resp l ∙ ap (λ b. b ∷ byte resp 1 ∷ []) ((==_iff (byte resp 0) 5).0 five) in
    (
      byte resp 1,
      answer,
      v,
      r,
      atyp,
      more,
      is_login,
      write-took (greeting user) c c1 e1
          ∙ took
          ∙ ap (λ b. b ++ incoming c2) chosen
          ∙ ap (λ b. 5 ∷ byte resp 1 ∷ b) (same ∙ t4 ∙ ap (λ b. answer ++ b) reply),
    )

-- The SOCKS4a handshake succeeds only if the second byte of the proxy's reply is 0x5A.
pub socks4a_connect-granted :
    (host : Text) (port : ℕ) (c d : Conn)
    → socks4a_connect host port c ≡ (ok tt, d)
    → (resp : Text) × (length resp ≡ 8) × (byte resp 1 ≡ 90) × (incoming c ≡ resp ++ incoming d)
unfolding socks4a_connect
socks4a_connect-granted host port c d h =
    let (x1, c1, e1, h1) = first_result (write (socks4a_request host port)) _ c h in
    let (resp, c2, e2, h2) = first_result (read_full 8) _ c1 h1 in
    let (l2, t2, s2) = read_full-took 8 resp c1 c2 e2 in
    let (granted, same) = test_passed (byte resp 1 == 90) _ c2 d h2 in
    (
      resp,
      l2,
      (==_iff (byte resp 1) 90).0 granted,
      write-took (socks4a_request host port) c c1 e1 ∙ t2 ∙ ap (λ b. resp ++ b) same,
    )
