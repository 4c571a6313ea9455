-- ===== src/Pool/Examples.antt =====
-- The theorems on the rotation at a concrete pool.
use route_fork.Base.{◌+◌, ◌%◌, ◌≡◌, true, [], ◌∷◌, arith, length, get_elem?}
use route_fork.Text.{codes}
use route_fork.Proxy.{new_proxy}
use route_fork.Pool.{Pool, next}
use route_fork.Pool.Rotation.{turns, next-turns_wrap}

abbrev three : Pool
unfolding new_proxy
three = record {
  valid =
      new_proxy (codes "a") 1 (codes "socks5") [] []
      ∷ new_proxy (codes "b") 2 (codes "socks5") [] []
      ∷ new_proxy (codes "c") 3 (codes "socks5") [] []
      ∷ [];
  failed = [];
  index = 1;
}

next-turns_wrap_example :
    (next (turns true 7 three) true).1
    ≡ get_elem? three.valid ((three.index + 7) % length three.valid)
unfolding three
next-turns_wrap_example = next-turns_wrap 7 three (omega arith) (omega arith)
