-- ===== src/Scanner/Rotate/Grid.antt =====
-- The place of a host and a port among the jobs of `RotateScan`.
use route_fork.Base.{
  ℕ, zero, suc, ◌+◌, ◌*◌, ◌≡◌, refl, ap, ◌∙◌, ◌⊎◌, inl, inr, none, some, List, [], ◌∷◌, ◌++◌, arith,
  length, get_elem?, length-append,
}
use route_fork.Text.{Text}
use route_fork.Scanner.Rotate.{with_ports, grid}

module _ {ℓ} {A : Type ℓ} where
  get_elem?-front :
      (xs ys : List A) (i : ℕ) (y : A) → get_elem? xs i ≡ some y → get_elem? (xs ++ ys) i ≡ some y
  get_elem?-front [] ys i y h = absurd (missing h)
    where
      missing : none ≡ some y → ⊥
      missing e = cc
  get_elem?-front (x ∷ xs) ys zero y h = h
  get_elem?-front (x ∷ xs) ys (suc i) y h = get_elem?-front xs ys i y h

  get_elem?-behind :
      (xs ys : List A) (i n : ℕ) → i ≡ length xs + n → get_elem? (xs ++ ys) i ≡ get_elem? ys n
  get_elem?-behind [] ys i n e = ap (get_elem? ys) (omega arith)
  get_elem?-behind (x ∷ xs) ys zero n e = absurd (omega arith)
  get_elem?-behind (x ∷ xs) ys (suc i) n e = get_elem?-behind xs ys i n (omega arith)

  -- A place of an append is one of the first list, or of the second.
  get_elem?-either :
      (xs ys : List A) (i : ℕ) (y : A)
      → get_elem? (xs ++ ys) i ≡ some y
      → (get_elem? xs i ≡ some y) ⊎ ((n : ℕ) × (i ≡ length xs + n) × (get_elem? ys n ≡ some y))
  get_elem?-either [] ys i y h = inr (i, omega arith, h)
  get_elem?-either (x ∷ xs) ys zero y h = inl h
  get_elem?-either (x ∷ xs) ys (suc i) y h = elim (get_elem?-either xs ys i y h) [
    | inl e ↦ inl e
    | inr (n, e, k) ↦ inr (n, omega arith, k)
  ]

with_ports-at :
    (host : Text) (ports : List ℕ) (b port : ℕ)
    → get_elem? ports b ≡ some port
    → get_elem? (with_ports host ports) b ≡ some (host, port)
unfolding with_ports
with_ports-at host [] b port h = absurd (missing h)
  where
    missing : none ≡ some port → ⊥
    missing e = cc
with_ports-at host (p ∷ ports) zero port h = cc
with_ports-at host (p ∷ ports) (suc b) port h = with_ports-at host ports b port h

with_ports-found :
    (host : Text) (ports : List ℕ) (i : ℕ) (j : Text × ℕ)
    → get_elem? (with_ports host ports) i ≡ some j
    → (host ≡ j.0) × (get_elem? ports i ≡ some j.1)
unfolding with_ports
with_ports-found host [] i j h = absurd (missing h)
  where
    missing : none ≡ some j → ⊥
    missing e = cc
with_ports-found host (p ∷ ports) zero j h = (ap (λ x. x.0) (same h), ap (λ x. some x.1) (same h))
  where
    same : some (host, p) ≡ some j → (host, p) ≡ j
    same e = cc
with_ports-found host (p ∷ ports) (suc i) j h = with_ports-found host ports i j h

length-with_ports : (host : Text) (ports : List ℕ) → length (with_ports host ports) ≡ length ports
unfolding with_ports
length-with_ports host [] = refl
length-with_ports host (p ∷ ports) = ap suc (length-with_ports host ports)

pub length-grid :
    (hosts : List Text) (ports : List ℕ) → length (grid hosts ports) ≡ length hosts * length ports
unfolding grid
length-grid [] ports = omega arith
length-grid (h ∷ hosts) ports =
    length-append (with_ports h ports) (grid hosts ports)
    ∙ omega (arith, length-with_ports h ports, length-grid hosts ports)

pub grid-at :
    (hosts : List Text) (ports : List ℕ) (a b : ℕ) (host : Text) (port : ℕ)
    → get_elem? hosts a ≡ some host
    → get_elem? ports b ≡ some port
    → get_elem? (grid hosts ports) (a * length ports + b) ≡ some (host, port)
unfolding grid
grid-at [] ports a b host port h k = absurd (missing h)
  where
    missing : none ≡ some host → ⊥
    missing e = cc
grid-at (x ∷ hosts) ports zero b host port h k =
    ap (get_elem? (with_ports x ports ++ grid hosts ports)) (omega arith)
    ∙ get_elem?-front (with_ports x ports) (grid hosts ports) b (host, port)
        (with_ports-at x ports b port k ∙ ap (λ y. some (y, port)) (same h))
  where
    same : some x ≡ some host → x ≡ host
    same e = cc
grid-at (x ∷ hosts) ports (suc a) b host port h k =
    get_elem?-behind (with_ports x ports) (grid hosts ports) (suc a * length ports + b)
      (a * length ports + b) (omega (arith, length-with_ports x ports))
    ∙ grid-at hosts ports a b host port h k

-- The place of a job among the hosts and the ports.
pub record Placed (hosts : List Text) (ports : List ℕ) (i : ℕ) (host : Text) (port : ℕ)
    : Type 0 where
  pub host_place : ℕ
  pub port_place : ℕ
  pub number : i ≡ host_place * length ports + port_place
  pub host_there : get_elem? hosts host_place ≡ some host
  pub port_there : get_elem? ports port_place ≡ some port

pub grid-Placed :
    (hosts : List Text) (ports : List ℕ) (i : ℕ) (j : Text × ℕ)
    → get_elem? (grid hosts ports) i ≡ some j
    → Placed hosts ports i j.0 j.1
unfolding grid
grid-Placed [] ports i j h = absurd (missing h)
  where
    missing : none ≡ some j → ⊥
    missing e = cc
grid-Placed (x ∷ hosts) ports i j h =
    elim (get_elem?-either (with_ports x ports) (grid hosts ports) i j h) [
      | inl e ↦
          let (same, there) = with_ports-found x ports i j e in
          record {
            host_place = 0;
            port_place = i;
            number = omega arith;
            host_there = ap some same;
            port_there = there;
          }
      | inr (n, e, k) ↦
          let p = grid-Placed hosts ports n j k in
          record {
            host_place = suc p.host_place;
            port_place = p.port_place;
            number = omega (arith, e, p.number, length-with_ports x ports);
            host_there = p.host_there;
            port_there = p.port_there;
          }
    ]
