-- ===== src/Vless/Request/Builders.antt =====
-- `parse_request` after the builders of vless/parse.rs and vless/client.rs.
use mathlib.Core.List.{append_assoc}
use skadi_core.Prelude.{
  ℕ, ◌≤◌, ◌≡◌, refl, ap, ◌∙◌, inl, inr, ◌⊎◌, List, [], ◌∷◌, ◌++◌, arith, length, length-append,
}
use skadi_core.Prelude.Outcome.{ok}
use skadi_core.Endpoint.{Endpoint, IpAddr, ip, domain, v4, v6, IsEndpoint, IsShort}
use skadi_core.Vless.Request.{
  VlessRequest, cmd_tcp, cmd_udp, cmd_mux, vless_version, mux_placeholder_host, parse_request,
  encode_port_address, build_mux_request, build_tcp_request, build_udp_request,
  build_tcp_domain_request, build_udp_domain_request, build_tcp_endpoint_request,
  build_udp_endpoint_request,
}
use skadi_core.Vless.Request.Address.{parse_port_address-encode}
use skadi_core.Vless.Request.RoundTrip.{parse_request-header, parse_request-header_mux}

-- A request without addons for the given command.
abbrev plain : List ℕ → ℕ → Endpoint → List ℕ
plain uuid command target = vless_version ∷ (uuid ++ (0 ∷ command ∷ encode_port_address target))

tcp_plain :
    (uuid : List ℕ) (target : Endpoint)
    → build_tcp_endpoint_request uuid target ≡ plain uuid cmd_tcp target
tcp_plain uuid (ip addr) = go addr.ip addr.port
  where
    go :
        (x : IpAddr) (port : ℕ)
        → let t = ip (record { ip = x; port = port }) in
          build_tcp_endpoint_request uuid t ≡ plain uuid cmd_tcp t
    go (v4 x) port = unfold build_tcp_endpoint_request build_tcp_request encode_port_address in refl
    go (v6 o) port = unfold build_tcp_endpoint_request in refl
tcp_plain uuid (domain host port) =
    unfold build_tcp_endpoint_request build_tcp_domain_request encode_port_address in refl

udp_plain :
    (uuid : List ℕ) (target : Endpoint)
    → build_udp_endpoint_request uuid target ≡ plain uuid cmd_udp target
udp_plain uuid (ip addr) = go addr.ip addr.port
  where
    go :
        (x : IpAddr) (port : ℕ)
        → let t = ip (record { ip = x; port = port }) in
          build_udp_endpoint_request uuid t ≡ plain uuid cmd_udp t
    go (v4 x) port = unfold build_udp_endpoint_request build_udp_request encode_port_address in refl
    go (v6 o) port = unfold build_udp_endpoint_request in refl
udp_plain uuid (domain host port) =
    unfold build_udp_endpoint_request build_udp_domain_request encode_port_address in refl

abbrev pub asked : List ℕ → ℕ → Endpoint → VlessRequest
asked uuid command target = record { uuid = uuid; command = command; addons = []; target = target }

encode_least : (target : Endpoint) → 3 ≤ length (encode_port_address target)
unfolding encode_port_address
encode_least (ip addr) = ground arith
encode_least (domain host port) = omega arith

module _ (uuid rest : List ℕ) (target : Endpoint) (id : length uuid ≡ 16) (e : IsEndpoint target)
    (s : IsShort target) where
  plain_lem :
      (command : ℕ)
      → (command ≡ cmd_tcp) ⊎ (command ≡ cmd_udp)
      → parse_request (plain uuid command target ++ rest)
        ≡ ok (asked uuid command target, length (plain uuid command target))
  plain_lem command c =
      let body = encode_port_address target ++ rest in
      rw append_assoc (
        parse_request-header uuid [] body command id (omega arith) c
          (omega (arith, length-append (encode_port_address target) rest, encode_least target))
        ∙ rw (parse_port_address-encode target rest e s) (
            ap (λ (n : ℕ). ok (asked uuid command target, n))
              (omega (arith, length-append uuid (0 ∷ command ∷ encode_port_address target)))))

  -- The TCP and the UDP request that the client builds, for a UUID of 16 bytes and an endpoint within
  -- the ranges of its types whose host name has 1 to 255 bytes, parse to that UUID, command and
  -- endpoint, without addons, and to the request's own length, whatever bytes follow.
  pub parse_request-build_endpoint :
      (parse_request (build_tcp_endpoint_request uuid target ++ rest)
        ≡ ok (asked uuid cmd_tcp target, length (build_tcp_endpoint_request uuid target)))
      × (parse_request (build_udp_endpoint_request uuid target ++ rest)
          ≡ ok (asked uuid cmd_udp target, length (build_udp_endpoint_request uuid target)))
  parse_request-build_endpoint = (
    rw (tcp_plain uuid target) (plain_lem cmd_tcp (inl refl)),
    rw (udp_plain uuid target) (plain_lem cmd_udp (inr refl)),
  )

pub parse_request-build_mux :
    (uuid rest : List ℕ)
    → length uuid ≡ 16
    → parse_request (build_mux_request uuid ++ rest)
      ≡ ok (asked uuid cmd_mux (domain mux_placeholder_host 0), 19)
unfolding build_mux_request
parse_request-build_mux uuid rest h =
    rw append_assoc (parse_request-header_mux uuid [] rest cmd_mux h (omega arith) refl)
