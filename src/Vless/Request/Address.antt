-- ===== src/Vless/Request/Address.antt =====
-- `parse_port_address` after `encode_port_address`.
use skadi_core.Prelude.{
  ℕ, ◌+◌, ◌%◌, ◌<◌, ◌≤◌, ◌≡◌, refl, ◌∙◌, true, List, ◌∷◌, ◌++◌, arith, length, length-append,
  take_front,
}
use skadi_core.Prelude.Bytes.{be16, be16-to_be16, is_utf8, IsU16}
use skadi_core.Prelude.Outcome.{ok}
use skadi_core.Endpoint.{Endpoint, IpAddr, ip, domain, v4, v6, IsEndpoint, IsShort, IsIp}
use skadi_core.Vless.Request.{
  parse_port_address, parse_address, parse_ipv4, parse_ipv6, parse_domain, encode_port_address,
}

ipv6_address :
    (o rest : List ℕ) (hi lo : ℕ)
    → length o ≡ 16
    → parse_port_address (hi ∷ lo ∷ 3 ∷ (o ++ rest))
      ≡ ok (ip (record { ip = v6 o; port = be16 hi lo }), 19)
unfolding parse_port_address parse_address parse_ipv6
ipv6_address o rest hi lo h = ground (arith, length-append o rest, take_front 16 o rest h)

domain_address :
    (host rest : List ℕ) (dlen hi lo : ℕ)
    → length host ≡ dlen
    → 0 < dlen
    → dlen ≤ 255
    → is_utf8 host ≡ true
    → parse_port_address (hi ∷ lo ∷ 2 ∷ dlen ∷ (host ++ rest))
      ≡ ok (domain host (be16 hi lo), 3 + (1 + dlen))
unfolding parse_port_address parse_address parse_domain
domain_address host rest dlen hi lo h pos small valid =
    ground (arith, length-append host rest, take_front dlen host rest h)

ip_address :
    (x : IpAddr) (port : ℕ) (rest : List ℕ)
    → IsIp x
    → IsU16 port
    → let target = ip (record { ip = x; port = port }) in
      parse_port_address (encode_port_address target ++ rest)
      ≡ ok (target, length (encode_port_address target))
unfolding encode_port_address
ip_address (v4 x) port rest h k =
    unfold parse_port_address parse_address parse_ipv4 in ground (arith, be16-to_be16 port k)
ip_address (v6 o) port rest h k =
    ipv6_address o rest _ _ h.0 ∙ ground (arith, be16-to_be16 port k, h.0)

-- What `encode_port_address` wrote, for an endpoint within the ranges of its types whose host name has
-- 1 to 255 bytes, parses to that endpoint and to its own length, whatever bytes follow.
pub parse_port_address-encode :
    (target : Endpoint) (rest : List ℕ)
    → IsEndpoint target
    → IsShort target
    → parse_port_address (encode_port_address target ++ rest)
      ≡ ok (target, length (encode_port_address target))
parse_port_address-encode (ip addr) rest e s = ip_address addr.ip addr.port rest e.0 e.1
parse_port_address-encode (domain host port) rest e s =
    unfold encode_port_address in
    rw byte_eq (
      domain_address host rest (length host) _ _ refl s.0 s.1 e.0
      ∙ ground (arith, be16-to_be16 port e.2))
  where
    byte_eq : length host % 256 ≡ length host
    byte_eq = omega arith

ip_short :
    (x : IpAddr) (port : ℕ)
    → IsIp x
    → length (encode_port_address (ip (record { ip = x; port = port }))) ≤ 259
unfolding encode_port_address
ip_short (v4 x) port h = omega arith
ip_short (v6 o) port h = omega (arith, h.0)

pub encode_port_address_short :
    (t : Endpoint) → IsEndpoint t → IsShort t → length (encode_port_address t) ≤ 259
unfolding encode_port_address
encode_port_address_short (ip addr) e s = ip_short addr.ip addr.port e.0
encode_port_address_short (domain host port) e s = omega (arith, s.1)
