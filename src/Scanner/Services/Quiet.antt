-- ===== src/Scanner/Services/Quiet.antt =====
-- What `IdentifyService` of scanner/probe.go writes to a connection.
use route_fork.Base.{
  ℕ, ◌≡◌, refl, ap, ◌∙◌, ◌⊎◌, inl, inr, true, false, not, List, [], ◌∷◌, ◌++◌, if◌then◌else◌,
  Bool-cases, Option-cases, take,
}
use route_fork.Text.{Text, codes, ◌==ₜ◌}
use route_fork.Net.{Conn, read, take_segment}
use route_fork.Net.Quiet.{write-sent}
use route_fork.Scanner.Banner.{clean_banner}
use route_fork.Scanner.Services.{
  is_among, http_ports, got, read_banner, http_request, response, probe_http, Handshake,
  identify_service,
}

pub read-sent : (n : ℕ) (c : Conn) → (read n c).1.sent ≡ c.sent
unfolding read
read-sent n c = elim (Option-cases (take_segment n c.segments)) [
  | inl e ↦ rw (e, read) refl
  | inr (p, e) ↦ rw (e, read) refl
]

-- The request, as a text of its own.
abbrev pub one_get : Text → Text
one_get host =
    codes "GET / HTTP/1.0\r\nHost: "
    ++ (if host ==ₜ [] then codes "scan" else host)
    ++ codes "\r\nUser-Agent: rofk\r\nConnection: close\r\n\r\n"

-- The request is sent, or a front of it before an error.
probe_http-sent :
    (answers : List Text) (host : Text) (c : Conn)
    → ((n : ℕ) × ((probe_http answers host c).1.sent ≡ c.sent ++ take n (one_get host)))
      ⊎ ((probe_http answers host c).1.sent ≡ c.sent ++ one_get host)
unfolding probe_http response http_request
probe_http-sent answers host c = elim (write-sent (one_get host) c) [
  | inl (n, x, q, front) ↦ inl (n, rw q front)
  | inr (q, more) ↦ inr (rw q (read-sent 1024 _ ∙ more))
]

-- What a service may be sent: nothing, or, on a port of HTTP, if the first bytes that it sent on its
-- own, should there be any, have no text that a banner keeps, one GET request, or a front of it if
-- the write fails.
abbrev pub IsPolite : Text → ℕ → Conn → Text → Type 0
IsPolite host port c sent =
    (sent ≡ c.sent)
    ⊎ ((is_among port (80 ∷ 81 ∷ 591 ∷ 3000 ∷ 5000 ∷ 8000 ∷ 8008 ∷ 8080 ∷ 8081 ∷ 8888 ∷ []) ≡ true)
        × (clean_banner (got (read 512 c).0) ≡ [])
        × (((n : ℕ) × (sent ≡ c.sent ++ take n (one_get host))) ⊎ (sent ≡ c.sent ++ one_get host)))

-- Off the ports of TLS, a service is sent nothing, but for one case: on a port of HTTP, a server from
-- which the first read of at most 512 bytes gets nothing that is left in a cleaned banner is sent one
-- GET request and no more, or a front of it if the write fails.
pub identify_service-sent :
    (handshake : Handshake) (answers : List Text) (c : Conn) (host : Text) (port : ℕ)
    → is_among port (443 ∷ 8443 ∷ 993 ∷ 995 ∷ 465 ∷ 990 ∷ 636 ∷ 989 ∷ 992 ∷ 994 ∷ 9443 ∷ []) ≡ false
    → IsPolite host port c (identify_service handshake answers c host port).1.sent
unfolding identify_service read_banner
identify_service-sent handshake answers c host port plain =
    let passive = clean_banner (got (read 512 c).0) in
    elim (Bool-cases (not (passive ==ₜ []))) [
      | inl e ↦ inl (rw (plain, e) (read-sent 512 c))
      | inr e ↦ elim (Bool-cases (is_among port http_ports)) [
        | inr f ↦ inl (rw (plain, e, f) (read-sent 512 c))
        | inl f ↦ inr (
          f,
          nothing_read passive e,
          elim (probe_http-sent answers host (read 512 c).1) [
            | inl (n, front) ↦ inl (
              n,
              rw (plain, e, f) (front ∙ ap (λ s. s ++ take n (one_get host)) (read-sent 512 c)),
            )
            | inr more ↦
                inr (rw (plain, e, f) (more ∙ ap (λ s. s ++ one_get host) (read-sent 512 c)))
          ],
        )
      ]
    ]
  where
    nothing_read : (s : Text) → not (s ==ₜ []) ≡ false → s ≡ []
    nothing_read [] e = refl
    nothing_read (x ∷ s) e = cc
