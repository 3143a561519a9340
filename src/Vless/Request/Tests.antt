-- ===== src/Vless/Request/Tests.antt =====
-- Runs of the parser of vless/parse.rs, some of them that file's own tests, and its theorems at
-- concrete inputs.
use skadi_core.Prelude.{ℕ, ◌≡◌, refl, inr, List, [], ◌∷◌, ◌++◌, arith, length}
use skadi_core.Prelude.Bytes.{codes, is_utf8}
use skadi_core.Prelude.Outcome.{ok, err}
use skadi_core.Endpoint.{Endpoint, ip, domain, v4}
use skadi_core.Vless.Request.{
  cmd_tcp, cmd_udp, incomplete, bad_version, empty_domain, unsupported_address_type, parse_domain,
  parse_address, parse_port_address, parse_request, encode_port_address, build_tcp_request,
  build_tcp_endpoint_request, build_udp_endpoint_request,
}
use skadi_core.Vless.Request.Address.{parse_port_address-encode}
use skadi_core.Vless.Request.RoundTrip.{with_header, input, parse_request-header}
use skadi_core.Vless.Request.Builders.{asked, parse_request-build_endpoint}
use skadi_core.Vless.Request.Prefixes.{parse_request_prefix}

abbrev uuid : List ℕ
uuid =
    0xab ∷ 0xab ∷ 0xab ∷ 0xab ∷ 0xab ∷ 0xab ∷ 0xab ∷ 0xab ∷ 0xab ∷ 0xab ∷ 0xab ∷ 0xab ∷ 0xab ∷ 0xab
    ∷ 0xab ∷ 0xab ∷ []

abbrev site : Endpoint
site = domain (codes "example.com") 443

abbrev host : Endpoint
host = ip (record { ip = v4 (record { a = 10; b = 0; c = 0; d = 1 }); port = 8443 })

bad_version_run : parse_request (1 ∷ (uuid ++ (0 ∷ 1 ∷ []))) ≡ err (bad_version 1)
unfolding parse_request
bad_version_run = refl

empty_domain_run : parse_port_address (1 ∷ 187 ∷ 2 ∷ 0 ∷ []) ≡ err empty_domain
unfolding parse_port_address parse_address parse_domain
empty_domain_run = refl

bad_type_run : parse_port_address (1 ∷ 187 ∷ 0xff ∷ 0 ∷ []) ≡ err (unsupported_address_type 0xff)
unfolding parse_port_address parse_address
bad_type_run = refl

port_address_parses :
    parse_port_address (encode_port_address site ++ (7 ∷ []))
    ≡ ok (site, length (encode_port_address site))
unfolding is_utf8
port_address_parses =
    parse_port_address-encode site (7 ∷ []) (refl, omega arith, omega arith) (omega arith)

header_parses :
    parse_request (input uuid (9 ∷ 9 ∷ []) (encode_port_address site) cmd_udp)
    ≡ with_header uuid (9 ∷ 9 ∷ []) cmd_udp (parse_port_address (encode_port_address site))
unfolding encode_port_address
header_parses =
    parse_request-header uuid (9 ∷ 9 ∷ []) (encode_port_address site) cmd_udp refl (omega arith)
      (inr refl) (omega arith)

parse_request-build_endpoint_example :
    (parse_request (build_tcp_endpoint_request uuid host ++ (5 ∷ []))
      ≡ ok (asked uuid cmd_tcp host, length (build_tcp_endpoint_request uuid host)))
    × (parse_request (build_udp_endpoint_request uuid host ++ (5 ∷ []))
        ≡ ok (asked uuid cmd_udp host, length (build_udp_endpoint_request uuid host)))
parse_request-build_endpoint_example =
    parse_request-build_endpoint uuid (5 ∷ []) host refl (omega arith) tt

prefix_incomplete :
    (need : ℕ) × (have : ℕ) × (parse_request (0 ∷ (uuid ++ (0 ∷ 1 ∷ 32 ∷ [])))
      ≡ err (incomplete need have))
unfolding build_tcp_endpoint_request build_tcp_request
prefix_incomplete =
    parse_request_prefix uuid (0 ∷ (uuid ++ (0 ∷ 1 ∷ 32 ∷ []))) (1 ∷ 10 ∷ 0 ∷ 0 ∷ 1 ∷ []) 251 host
      refl (omega arith) tt (omega arith) refl
