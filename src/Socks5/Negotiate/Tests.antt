-- ===== src/Socks5/Negotiate/Tests.antt =====
-- `negotiate` of socks5.rs on concrete streams.
use skadi_core.Prelude.{ℕ, ◌≡◌, refl, inr, true, false, List, [], ◌∷◌, ◌++◌, none, arith}
use skadi_core.Prelude.Bytes.{IsBytes, codes, is_utf8}
use skadi_core.Prelude.Outcome.{ok}
use skadi_core.Endpoint.{ip, v4, octets_eq, octets_eq-IsEquality}
use skadi_core.Stream.{Conn}
use skadi_core.Socks5.{
  Socks5Request, parse_greeting, parse_auth, parse_request, parse_target, parse_ipv4,
}
use skadi_core.Socks5.Negotiate.{
  Socks5Config, user_pass, lookup, expected_password, read_auth, constant_time_eq, perform_auth,
  negotiate, negotiate_selected, read_greeting, select_method, contains, wanted_method,
  read_request, read_socks5_request, read_address, check_command,
}
use skadi_core.Socks5.Negotiate.Access.{Passed, negotiate-authenticated, perform_auth-Accepted}

abbrev config : Socks5Config
config = record {
  enabled = true;
  auth = user_pass;
  users = record { username = codes "ann"; password = codes "pw" } ∷ [];
  bind = false;
  udp_associate = true;
}

-- An unknown user's credentials, and a request for 1.2.3.4:80.
abbrev stranger : Conn
stranger = record {
  input = 1 ∷ 3 ∷ (codes "bob" ++ (16 ∷ codes "__no_such_user__"));
  writable = true;
  output = [];
}

abbrev known : Conn
known = record {
  input =
      5
      ∷ 1
      ∷ 2
      ∷ 1
      ∷ 3
      ∷ (codes "ann" ++ (2 ∷ (codes "pw" ++ (5 ∷ 1 ∷ 0 ∷ 1 ∷ 1 ∷ 2 ∷ 3 ∷ 4 ∷ 0 ∷ 80 ∷ []))));
  writable = true;
  output = [];
}

abbrev request : Socks5Request
request = record {
  command = 1;
  target = ip (record { ip = v4 (record { a = 1; b = 2; c = 3; d = 4 }); port = 80 });
}

abbrev served : Conn
served = record { input = []; writable = true; output = 5 ∷ 2 ∷ 1 ∷ 0 ∷ [] }

stranger_parses : parse_auth stranger.input ≡ ok ((codes "bob", codes "__no_such_user__"), 22)
unfolding parse_auth is_utf8
stranger_parses = refl

stranger_unknown : lookup config.users (codes "bob") ≡ none
unfolding lookup octets_eq
stranger_unknown = refl

known_passes : negotiate octets_eq config known ≡ (ok request, served)
unfolding negotiate negotiate_selected read_greeting parse_greeting select_method contains
    wanted_method perform_auth read_auth parse_auth expected_password lookup octets_eq
    constant_time_eq read_request read_socks5_request read_address parse_request parse_target
    parse_ipv4 check_command is_utf8
known_passes = refl

stranger-IsBytes : IsBytes stranger.input
stranger-IsBytes = ground arith

perform_auth-Accepted_example :
    perform_auth octets_eq config stranger
    ≡ (ok tt, record { input = []; writable = true; output = 1 ∷ 0 ∷ [] })
perform_auth-Accepted_example =
    perform_auth-Accepted octets_eq octets_eq-IsEquality config stranger (codes "bob")
      (codes "__no_such_user__") 22 stranger-IsBytes refl stranger_parses
      (inr (stranger_unknown, refl))

negotiate-authenticated_example :
    (used : List ℕ) × (known.input ≡ used ++ []) × Passed config used request
negotiate-authenticated_example =
    negotiate-authenticated octets_eq octets_eq-IsEquality config known served request refl
      known_passes
