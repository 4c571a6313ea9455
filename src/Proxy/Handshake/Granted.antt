-- ===== src/Proxy/Handshake/Granted.antt =====
-- What `socks5Handshake` of proxy/validate.go tells of a proxy, and when it succeeds.
use route_fork.Base.{
  ℕ, ◌≤◌, ◌<◌, ◌≡◌, refl, ap, ◌∙◌, ◌≢◌, inl, inr, true, false, List, [], ◌∷◌, ◌++◌, append-nil,
  arith, leb, ◌==◌, if◌then◌else◌, leb→le, ==_iff, Bool-cases, length, take, drop,
}
use route_fork.Base.Result.{ok, err}
use route_fork.Text.{Text, codes, ◌==ₜ◌}
use route_fork.Net.{
  Conn, Session, Reply, ◌>>=◌, ◌>>◌, fail, return, write, read, take_segment, incoming, byte,
}
use route_fork.Net.Reading.{
  first_result, write-took, write-lem, test_passed, no_reply, reply_parts, read-took, read-lem,
}
use route_fork.Net.Socks.{greeting, login, connect_request}
use route_fork.Net.Server.{
  IsLogin, without, password, credentials, ==ₜ_nil, hello, password_message, connect_message,
  greeting-hello, credentials-password_message, connect_request-connect_message,
}
use route_fork.Proxy.Handshake.{
  choose, handshake_error, no_response, or_no_response, read_reply, socks5_handshake,
}

-- A proxy whose messages arrive each in a segment of its own.
abbrev pub in_segments : Text → List Text → List Text
in_segments [] rest = rest
in_segments (b ∷ answer) rest = (b ∷ answer) ∷ rest

-- Reads get the same of both.
abbrev Alike : List Text → List Text → Type 0
Alike ss ts = (n : ℕ) → take_segment n ss ≡ take_segment n ts

choose-IsLogin :
    (method : ℕ) (user pass answer : Text) (rest : List Text) (c : Conn)
    → IsLogin user method answer
    → c.writes ≡ []
    → Alike c.segments (in_segments answer rest)
    → (ss : List Text) × (choose method user pass c
        ≡ (ok tt, record c { segments = ss; sent = c.sent ++ credentials method user pass }))
      × Alike ss rest
unfolding choose take_segment
choose-IsLogin method user pass answer rest c (without h k) w e =
    let two : (method == 2) ≡ false = ground (arith, h) in
    let none_left : (method == 255) ≡ false = ground (arith, k) in
    (c.segments, rw (two, none_left, append-nil) refl, e)
choose-IsLogin method user pass answer rest c (password v h) w e =
    let c' = record c { sent = c.sent ++ login user pass } in
    (
      [] ∷ rest,
      rw
          (
            ==ₜ_nil user h,
            write-lem (login user pass) c w,
            read-lem 2 (v ∷ 0 ∷ []) ([] ∷ rest) c' (e 2),
          )
          refl,
      λ n. refl,
    )

socks5_handshake-sent :
    (host : Text) (port : ℕ) (user pass : Text) (c : Conn) (method : ℕ) (answer : Text) (v : ℕ)
    (tail : Text) (rest : List Text)
    → IsLogin user method answer
    → c.writes ≡ []
    → c.segments ≡ (5 ∷ method ∷ []) ∷ in_segments answer ((v ∷ 0 ∷ tail) ∷ rest)
    → (ss : List Text) × (socks5_handshake host port user pass c ≡ (
      ok tt,
      record c {
        segments = ss;
        sent = c.sent ++ greeting user ++ credentials method user pass ++ connect_request host port;
      },
    ))
unfolding socks5_handshake take_segment
socks5_handshake-sent host port user pass c method answer v tail rest l w e =
    let c1 = record c { sent = c.sent ++ greeting user } in
    let after : List Text = in_segments answer ((v ∷ 0 ∷ tail) ∷ rest) in
    let e1 = read-lem 2 (5 ∷ method ∷ []) ([] ∷ after) c1 (rw e refl) in
    let c2 = record c1 { segments = [] ∷ after } in
    let (s2, e2, alike) =
      choose-IsLogin method user pass answer ((v ∷ 0 ∷ tail) ∷ rest) c2 l w (λ n. refl) in
    let c3 = record c2 { segments = s2; sent = c2.sent ++ credentials method user pass } in
    let c4 = record c3 { sent = c3.sent ++ connect_request host port } in
    let e4 = read-lem 262 (v ∷ 0 ∷ take 260 tail) (drop 260 tail ∷ rest) c4 (alike 262) in
    let two : leb 2 (length (v ∷ 0 ∷ take 260 tail)) ≡ true = ground arith in
    (
      drop 260 tail ∷ rest,
      rw
          (
            write-lem (greeting user) c w,
            e1,
            e2,
            write-lem (connect_request host port) c3 w,
            e4,
            two,
          )
          refl,
    )

-- With a proxy whose messages arrive each in one segment, that lets the client in and reports
-- success in a reply of two bytes or more, the handshake succeeds, if no write fails, and has sent
-- the greeting, the user name and the password if the proxy chose them, and the request, byte by
-- byte as RFC 1928 and RFC 1929 have them, for a host, user name and password below 256 bytes.
pub socks5_handshake-IsLogin :
    (host : Text) (port : ℕ) (user pass : Text) (c : Conn) (method : ℕ) (answer : Text) (v : ℕ)
    (tail : Text) (rest : List Text)
    → length host < 256
    → port < 65536
    → length user < 256
    → length pass < 256
    → IsLogin user method answer
    → c.writes ≡ []
    → c.segments ≡ (5 ∷ method ∷ []) ∷ in_segments answer ((v ∷ 0 ∷ tail) ∷ rest)
    → (ss : List Text) × (socks5_handshake host port user pass c ≡ (
      ok tt,
      record c {
        segments = ss;
        sent =
            c.sent ++ hello user ++ password_message method user pass ++ connect_message host port;
      },
    ))
socks5_handshake-IsLogin host port user pass c method answer v tail rest h p u k l w e =
    let (ss, done) = socks5_handshake-sent host port user pass c method answer v tail rest l w e in
    (
      ss,
      done
          ∙ ap (λ sent. (ok tt, record c { segments = ss; sent = sent }))
              (ap (λ g. c.sent ++ g ++ credentials method user pass ++ connect_request host port)
                  (greeting-hello user)
                ∙ ap (λ m. c.sent ++ hello user ++ m ++ connect_request host port)
                    (credentials-password_message method user pass u k)
                ∙ ap (λ m. c.sent ++ hello user ++ password_message method user pass ++ m)
                    (connect_request-connect_message host port h p)),
    )

-- The proxy let the client in after its choice of the method: a method other than the password, or
-- the password, with success (0) as the second byte of the answer.
pub data LetsIn (user : Text) : ℕ → Text → Type 0 where
  freely : {method : ℕ} → method ≢ 2 → method ≢ 255 → LetsIn user method []
  by_password : {answer : Text} → user ≢ [] → byte answer 1 ≡ 0 → LetsIn user 2 answer

abbrev Answered : ℕ → Text → Conn → Conn → Type 0
Answered method user c d =
    (answer : Text) × LetsIn user method answer × (incoming c ≡ answer ++ incoming d)

abbrev log_in : Text → Text → Session Unit
log_in user pass = do
  write (login user pass)
  ar ← read 2
  if byte ar 1 == 0 then return tt else fail (codes "authentication failed")

asked_for_password :
    (user pass : Text) (c d : Conn)
    → (if user ==ₜ [] then fail (codes "auth required but no credentials") else log_in user pass) c
      ≡ (ok tt, d)
    → Answered 2 user c d
asked_for_password [] pass c d h = absurd (no_reply h)
asked_for_password (x ∷ user) pass c d h =
    let (y, c1, e1, h1) = first_result (write (login (x ∷ user) pass)) _ c h in
    let (ar, c2, e2, h2) = first_result (read 2) _ c1 h1 in
    let (zero_byte, same) = test_passed (byte ar 1 == 0) _ c2 d h2 in
    (
      ar,
      by_password cons-ne-nil ((==_iff (byte ar 1) 0).0 zero_byte),
      write-took (login (x ∷ user) pass) c c1 e1 ∙ read-took 2 ar c1 c2 e2 ∙ ap (λ r. ar ++ r) same,
    )
  where
    cons-ne-nil : x ∷ user ≢ []
    cons-ne-nil e = cc

choose-Answered :
    (method : ℕ) (user pass : Text) (c d : Conn)
    → choose method user pass c ≡ (ok tt, d)
    → Answered method user c d
unfolding choose
choose-Answered method user pass c d h = elim (Bool-cases (method == 255)) [
  | inl e ↦ absurd (no_reply (rw e at h))
  | inr e ↦ elim (Bool-cases (method == 2)) [
    | inr f ↦ (
      [],
      freely (ground arith) (ground arith),
      ap (λ x. incoming x) (reply_parts tt tt c d (rw (e, f) at h)).1,
    )
    | inl f ↦ rw ((==_iff method 2).0 f) (asked_for_password user pass c d (rw (e, f) at h))
  ]
]

read_reply-took :
    (bs : Text) (c d : Conn) → read_reply c ≡ (ok bs, d) → incoming c ≡ bs ++ incoming d
read_reply-took bs c d h = by_read (read 262 c) refl h
  where
    by_read :
        (r : Reply Text)
        → read 262 c ≡ r
        → or_no_response r ≡ (ok bs, d)
        → incoming c ≡ bs ++ incoming d
    by_read (ok got, c') e h = read-took 262 bs c d (e ∙ h)
    by_read (err x, c') e h = absurd (no_reply h)

-- The part of the handshake behind the log-in.
abbrev request_part : Text → ℕ → Session Unit
request_part host port = do
  write (connect_request host port)
  buf ← read_reply
  if leb 2 (length buf) then return tt else no_response
  if byte buf 1 == 0 then return tt else fail (handshake_error (byte buf 1))

request_granted :
    (host : Text) (port : ℕ) (c d : Conn)
    → request_part host port c ≡ (ok tt, d)
    → (reply : Text) × (incoming c ≡ reply ++ incoming d) × (2 ≤ length reply) × (byte reply 1 ≡ 0)
request_granted host port c d h =
    let (x, c1, e1, h1) = first_result (write (connect_request host port)) _ c h in
    let (buf, c2, e2, h2) = first_result read_reply _ c1 h1 in
    let test : Session Unit = if leb 2 (length buf) then return tt else no_response in
    let (y, c3, e3, h3) = first_result test _ c2 h2 in
    let (long, same) = test_passed (leb 2 (length buf)) _ c2 c3 e3 in
    let (zero_byte, same') = test_passed (byte buf 1 == 0) _ c3 d h3 in
    (
      buf,
      write-took (connect_request host port) c c1 e1
          ∙ read_reply-took buf c1 c2 e2
          ∙ ap (λ r. buf ++ r) (same ∙ same'),
      leb→le 2 (length buf) long,
      (==_iff (byte buf 1) 0).0 zero_byte,
    )

-- The handshake succeeds only if the proxy's first byte was 5, its choice of a method one that let
-- the client in, and the second byte of its last message, of two at least, was 0. Each message is
-- what one read got; the first may be less than the proxy's whole choice, and counts as 0 then.
pub socks5_handshake-granted :
    (host : Text) (port : ℕ) (user pass : Text) (c d : Conn)
    → socks5_handshake host port user pass c ≡ (ok tt, d)
    → (choice answer reply : Text) × (incoming c ≡ choice ++ (answer ++ (reply ++ incoming d)))
      × (byte choice 0 ≡ 5)
      × LetsIn user (byte choice 1) answer
      × (2 ≤ length reply)
      × (byte reply 1 ≡ 0)
unfolding socks5_handshake
socks5_handshake-granted host port user pass c d h =
    let (x1, c1, e1, h1) = first_result (write (greeting user)) _ c h in
    let (resp, c2, e2, h2) = first_result (read 2) _ c1 h1 in
    let test : Session Unit =
      if byte resp 0 == 5 then return tt else fail (codes "not a SOCKS5 server") in
    let (x3, c3, e3, h3) = first_result test _ c2 h2 in
    let (x4, c4, e4, h4) = first_result (choose (byte resp 1) user pass) _ c3 h3 in
    let (five, same) = test_passed (byte resp 0 == 5) _ c2 c3 e3 in
    let (answer, lets_in, t4) = choose-Answered (byte resp 1) user pass c3 c4 e4 in
    let (reply, t5, long, zero_byte) = request_granted host port c4 d h4 in
    (
      resp,
      answer,
      reply,
      write-took (greeting user) c c1 e1
          ∙ read-took 2 resp c1 c2 e2
          ∙ ap (λ r. resp ++ r) (same ∙ t4 ∙ ap (λ r. answer ++ r) t5),
      (==_iff (byte resp 0) 5).0 five,
      lets_in,
      long,
      zero_byte,
    )
