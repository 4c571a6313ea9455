-- ===== src/Proxy/Egress/Examples.antt =====
-- `extractPublicIP` at a concrete answer.
use route_fork.Base.{◌≡◌, refl}
use route_fork.Text.{Text, codes, split}
use route_fork.Net.Ip.{parse_ipv4}
use route_fork.Proxy.Egress.{is_dot_or_digit, fields_func, is_public_ip, extract_public_ip}
use route_fork.Proxy.Egress.Public.{IsFirst, extract_public_ip-IsFirst}

abbrev answer : Text
answer = codes "from 10.0.0.1, ip 8.8.4.4"

found : extract_public_ip answer ≡ codes "8.8.4.4"
unfolding extract_public_ip fields_func is_dot_or_digit is_public_ip parse_ipv4 split
found = refl

extract_public_ip-IsFirst_example : IsFirst answer (extract_public_ip answer)
extract_public_ip-IsFirst_example = extract_public_ip-IsFirst answer
