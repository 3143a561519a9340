-- ===== src/Socks5/Tests.antt =====
-- Runs of the parsers of socks5/parse.rs, most of them that file's own tests, and its theorems at
-- concrete inputs.
use skadi_core.Prelude.{◌≡◌, refl, [], ◌∷◌, ◌++◌, arith, drop}
use skadi_core.Prelude.Bytes.{codes, is_utf8}
use skadi_core.Prelude.Outcome.{ok, err}
use skadi_core.Endpoint.{Endpoint, domain}
use skadi_core.Socks5.{
  incomplete, too_many_methods, empty_password, unsupported_command, parse_greeting, parse_auth,
  parse_ipv4, parse_target, parse_request, parse_udp_datagram, encode_udp_datagram,
}
use skadi_core.Socks5.RoundTrip.{header_length, parse_udp_datagram-encode}

greeting_two_methods : parse_greeting (5 ∷ 2 ∷ 0 ∷ 2 ∷ []) ≡ ok (0 ∷ 2 ∷ [], 4)
unfolding parse_greeting
greeting_two_methods = refl

greeting_too_many : parse_greeting (5 ∷ 0xff ∷ []) ≡ err (too_many_methods 255)
unfolding parse_greeting
greeting_too_many = refl

auth_bob :
    parse_auth (1 ∷ 3 ∷ (codes "bob" ++ (4 ∷ codes "pass"))) ≡ ok ((codes "bob", codes "pass"), 10)
unfolding parse_auth is_utf8
auth_bob = refl

auth_no_password : parse_auth (1 ∷ 1 ∷ b'a' ∷ 0 ∷ []) ≡ err empty_password
unfolding parse_auth
auth_no_password = refl

request_cut : parse_request (5 ∷ 1 ∷ 0 ∷ 1 ∷ 127 ∷ []) ≡ err (incomplete 10 5)
unfolding parse_request parse_target parse_ipv4
request_cut = refl

request_unknown_command :
    parse_request (5 ∷ 4 ∷ 0 ∷ 1 ∷ 0 ∷ 0 ∷ 0 ∷ 0 ∷ 0 ∷ 0 ∷ []) ≡ err (unsupported_command 4)
unfolding parse_request
request_unknown_command = refl

abbrev resolver : Endpoint
resolver = domain (codes "dns.google") 53

parse_udp_datagram-encode_example :
    (parse_udp_datagram (encode_udp_datagram resolver (1 ∷ 2 ∷ []))
      ≡ ok (resolver, header_length resolver))
    × (drop (header_length resolver) (encode_udp_datagram resolver (1 ∷ 2 ∷ [])) ≡ 1 ∷ 2 ∷ [])
unfolding is_utf8
parse_udp_datagram-encode_example =
    parse_udp_datagram-encode resolver (1 ∷ 2 ∷ []) (refl, omega arith, omega arith) (omega arith)
