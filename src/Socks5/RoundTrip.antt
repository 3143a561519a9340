-- ===== src/Socks5/RoundTrip.antt =====
-- `parse_udp_datagram` after `encode_udp_datagram`.
use skadi_core.Prelude.{
  ℕ, ◌+◌, ◌<◌, ◌≡◌, refl, ◌∙◌, ◌%◌, min, true, List, ◌∷◌, ◌++◌, arith, length, drop, length-append,
  take_front, drop_front, get_elem?_behind, take-all,
}
use mathlib.Core.List.{append_assoc}
use skadi_core.Prelude.Outcome.{ok}
use skadi_core.Prelude.Bytes.{be16, be16-to_be16, is_utf8, to_be16, IsU16}
use skadi_core.Endpoint.{Endpoint, IsEndpoint, IsShort, IsIp, IpAddr, ip, domain, v4, v6}
use skadi_core.Socks5.{
  parse_ipv4, parse_ipv6, parse_domain, parse_target, parse_udp_datagram, encode_udp_datagram,
  encode_target,
}

abbrev pub header_length : Endpoint → ℕ
header_length t = 3 + length (encode_target t)

ipv6_datagram :
    (o payload : List ℕ) (hi lo : ℕ)
    → length o ≡ 16
    → parse_udp_datagram (0 ∷ 0 ∷ 0 ∷ 4 ∷ (o ++ (hi ∷ lo ∷ payload)))
      ≡ ok (ip (record { ip = v6 o; port = be16 hi lo }), 22)
unfolding parse_udp_datagram parse_target parse_ipv6
ipv6_datagram o payload hi lo h =
    let rest : List ℕ = hi ∷ lo ∷ payload in
    ground (
      arith,
      length-append o rest,
      take_front 16 o rest h,
      get_elem?_behind 16 0 o rest h,
      get_elem?_behind 16 1 o rest h,
    )

domain_datagram :
    (host payload : List ℕ) (dlen hi lo : ℕ)
    → length host ≡ dlen
    → 0 < dlen
    → is_utf8 host ≡ true
    → parse_udp_datagram (0 ∷ 0 ∷ 0 ∷ 3 ∷ dlen ∷ (host ++ (hi ∷ lo ∷ payload)))
      ≡ ok (domain host (be16 hi lo), 5 + dlen + 2)
unfolding parse_udp_datagram parse_target parse_domain
domain_datagram host payload dlen hi lo h pos valid =
    let rest : List ℕ = hi ∷ lo ∷ payload in
    ground (
      arith,
      length-append host rest,
      take_front dlen host rest h,
      get_elem?_behind dlen 0 host rest h,
      get_elem?_behind dlen 1 host rest h,
    )

ip_datagram :
    (x : IpAddr) (port : ℕ) (payload : List ℕ)
    → IsIp x
    → IsU16 port
    → let target = ip (record { ip = x; port = port }) in
      parse_udp_datagram (encode_udp_datagram target payload) ≡ ok (target, header_length target)
unfolding encode_udp_datagram encode_target
ip_datagram (v4 x) port payload h k =
    unfold parse_udp_datagram parse_target parse_ipv4 in ground (arith, be16-to_be16 port k)
ip_datagram (v6 o) port payload h k = rw append_assoc (
    ipv6_datagram o payload _ _ h.0
    ∙ ground (arith, be16-to_be16 port k, length-append o (to_be16 port)))

domain_header :
    (host : List ℕ) (port : ℕ) (payload : List ℕ)
    → IsEndpoint (domain host port)
    → IsShort (domain host port)
    → parse_udp_datagram (encode_udp_datagram (domain host port) payload)
      ≡ ok (domain host port, header_length (domain host port))
unfolding encode_udp_datagram encode_target
domain_header host port payload e s =
    rw (min_eq, byte_eq, take-all (length host) host (omega arith), append_assoc)
      (domain_datagram host payload (length host) _ _ refl s.0 e.0
        ∙ ground (arith, be16-to_be16 port e.2, length-append host (to_be16 port)))
  where
    min_eq : min (length host) 255 ≡ length host
    min_eq = omega arith

    byte_eq : length host % 256 ≡ length host
    byte_eq = omega arith

-- A datagram that `encode_udp_datagram` wrote, for an endpoint within the ranges of its types whose
-- host name has 1 to 255 bytes, parses to that endpoint, and the payload stands behind the header.
pub parse_udp_datagram-encode :
    (target : Endpoint) (payload : List ℕ)
    → IsEndpoint target
    → IsShort target
    → (parse_udp_datagram (encode_udp_datagram target payload) ≡ ok (target, header_length target))
      × (drop (header_length target) (encode_udp_datagram target payload) ≡ payload)
parse_udp_datagram-encode target payload e s = (header target e s, behind)
  where
    header :
        (t : Endpoint)
        → IsEndpoint t
        → IsShort t
        → parse_udp_datagram (encode_udp_datagram t payload) ≡ ok (t, header_length t)
    header (ip addr) e s = ip_datagram addr.ip addr.port payload e.0 e.1
    header (domain host port) e s = domain_header host port payload e s

    behind : drop (header_length target) (encode_udp_datagram target payload) ≡ payload
    behind =
        unfold encode_udp_datagram in
        drop_front _ (0 ∷ 0 ∷ 0 ∷ encode_target target) payload (omega arith)
