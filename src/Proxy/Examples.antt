-- ===== src/Proxy/Examples.antt =====
-- The theorems on proxies at concrete ones.
use route_fork.Base.{◌≡◌, refl, inr, true, false, some, arith}
use route_fork.Text.{Text, codes, is_space, trim_space, has_prefix, contains, split, to_lower}
use route_fork.Proxy.{Proxy, new_proxy, uri}
use route_fork.Proxy.Errors.{is_proxy_error, is_proxy_dead}
use route_fork.Text.Decimal.{itoa, atoi}
use route_fork.Proxy.Parse.{match_uri, parse_line}
use route_fork.Proxy.RoundTrip.{IsPrintable, parse_line-uri}

abbrev with_login : Proxy
unfolding new_proxy
with_login = new_proxy (codes "10.0.0.1") 1080 (codes "socks5") (codes "me") (codes "p:w")

with_login-IsPrintable : IsPrintable with_login
unfolding with_login is_space
with_login-IsPrintable = record {
  scheme = inr refl;
  named = λ e. cc;
  host_word = (refl, (refl, (refl, (refl, (refl, (refl, (refl, (refl, tt))))))));
  host_lacks = omega arith;
  low = omega arith;
  high = omega arith;
  user_word = (refl, (refl, tt));
  user_lacks = omega arith;
  user_lacks_at = omega arith;
  password_word = (refl, (refl, (refl, tt)));
  password_lacks = omega arith;
  no_user = λ e. cc;
}

parse_line-uri_example :
    parse_line (uri with_login)
    ≡ some (
        new_proxy with_login.host with_login.port with_login.proto with_login.username
          with_login.password)
parse_line-uri_example = parse_line-uri with_login with_login-IsPrintable

abbrev listing : Text
listing = codes "1.2.3.4:80\n#x\n1.2.3.4:80:u:p\n"

dead_test : is_proxy_dead (codes "1.2.3.4:80") (some (codes "authentication failed")) ≡ true
unfolding is_proxy_dead contains to_lower
dead_test = refl

-- A closed target is no proxy error, and neither is a proxy that times out in the greeting.
closed_test :
    (is_proxy_error (codes "1.2.3.4:80") (some (codes "connection refused")) ≡ false)
    × (is_proxy_error
          (codes "1.2.3.4:80")
          (some (codes "read tcp 9.9.9.9:1->1.2.3.4:80: i/o timeout"))
        ≡ false)
unfolding is_proxy_error contains to_lower
closed_test = (refl, refl)

abbrev with_at : Proxy
unfolding new_proxy
with_at = new_proxy (codes "h") 80 (codes "socks5") (codes "u") (codes "p@s")

read_at : parse_line (codes "h:80:u:p@s") ≡ some with_at
unfolding with_at new_proxy parse_line trim_space split has_prefix match_uri atoi
read_at = refl

misread :
    parse_line (uri with_at)
    ≡ some (new_proxy (codes "s@h") 80 (codes "socks5") (codes "u") (codes "p"))
unfolding with_at new_proxy parse_line trim_space uri itoa has_prefix match_uri atoi
misread = refl
