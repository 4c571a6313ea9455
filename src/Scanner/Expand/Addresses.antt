-- ===== src/Scanner/Expand/Addresses.antt =====
-- An IPv4 address as a number: `incIP` counts up, and wraps at the end.
use route_fork.Base.{ℕ, ◌+◌, ◌^◌, ◌<◌, ◌≡◌, arith}
use route_fork.Scanner.Expand.{number, bytes_of, inc_ip}

abbrev pub top : ℕ
top = 2 ^ 32

pub number-bytes_of : (n : ℕ) → n < top → number (bytes_of n) ≡ n
unfolding bytes_of
number-bytes_of n h = omega arith

pub inc_ip-bytes_of : (n : ℕ) → n < top → inc_ip (bytes_of n) ≡ bytes_of (n + 1)
unfolding inc_ip bytes_of
inc_ip-bytes_of n h = ground arith
