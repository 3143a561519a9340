-- ===== src/Vless/Handler/Tests.antt =====
-- `handshake` of vless/handler.rs on a concrete stream.
use skadi_core.Prelude.{◌≡◌, ◌≢◌, ◌⊎◌, refl, true, List, [], ◌∷◌, none}
use skadi_core.Prelude.Bytes.{codes}
use skadi_core.Prelude.Outcome.{ok}
use skadi_core.Endpoint.{ip, v4, octets_eq}
use skadi_core.Stream.{Conn}
use skadi_core.Vless.Request.{
  parse_request, parse_addons_field, parse_command, parse_addressed, parse_port_address,
  parse_address, parse_ipv4, build_response_header,
}
use skadi_core.Vless.Addons.{parse_addons, validate_flow, check_flow, check_user_flow, fields_loop}
use skadi_core.Vless.Users.{
  VlessUser, parse_uuid, authenticate, offer, without_dashes, parse_bytes, hex_val,
}
use skadi_core.Vless.Handler.{
  VlessHandshake, read_addr_len, read_target, read_header, accept, accept_found, handshake,
}
use skadi_core.Vless.Handler.Silence.{handshake_silent}

abbrev pub users : List VlessUser
users = record { id = codes "01020304-0506-0708-090a-0b0c0d0e0f10"; email = none; flow = none } ∷ []

-- A request for 1.2.3.4:80 by the user.
abbrev pub client : Conn
client = record {
  input =
      0 ∷ 1 ∷ 2 ∷ 3 ∷ 4 ∷ 5 ∷ 6 ∷ 7 ∷ 8 ∷ 9 ∷ 10 ∷ 11 ∷ 12 ∷ 13 ∷ 14 ∷ 15 ∷ 16 ∷ 0 ∷ 1 ∷ 0 ∷ 80 ∷ 1
      ∷ 1 ∷ 2 ∷ 3 ∷ 4 ∷ 71 ∷ [];
  writable = true;
  output = [];
}

abbrev pub served : Conn
served = record { input = 71 ∷ []; writable = true; output = 0 ∷ 0 ∷ [] }

abbrev pub result : VlessHandshake
result = record {
  command = 1;
  target = ip (record { ip = v4 (record { a = 1; b = 2; c = 3; d = 4 }); port = 80 });
}

pub client_passes : handshake octets_eq users client ≡ (ok result, served)
unfolding handshake read_header read_target read_addr_len accept_found accept authenticate offer
    parse_uuid without_dashes parse_bytes hex_val parse_request parse_addons_field parse_command
    parse_addressed parse_port_address parse_address parse_ipv4 parse_addons validate_flow
    check_flow check_user_flow fields_loop octets_eq build_response_header
client_passes = refl

handshake_silent_example :
    let (r, after) = handshake octets_eq users client in
    (after.output ≡ []) × ((a : VlessHandshake) → r ≢ ok a)
    ⊎ (a : VlessHandshake) × (r ≡ ok a) × (after.output ≡ 0 ∷ 0 ∷ [])
handshake_silent_example = handshake_silent octets_eq users client
