-- ===== src/Socks5/Negotiate.antt =====
-- crates/skadi-protocol/src/socks5.rs: the server's side of a SOCKS5 negotiation. The ten seconds that
-- `negotiate` allows for it are not modelled. `ct_eq` is `subtle::ConstantTimeEq`.
pub mod Greeting
mod Tests
pub mod Auth
pub mod Access
pub mod Target
use skadi_core.Prelude.{
  ℕ, ◌+◌, ◌&&◌, not, Bool, true, false, List, [], ◌∷◌, ◌++◌, Option, none, some, ltb, ◌==◌,
  if◌then◌else◌, length,
}
use skadi_core.Prelude.Bytes.{to_be16, codes}
use skadi_core.Prelude.Outcome.{Outcome, ok, err, panic, byte_at}
use skadi_core.Stream.{
  Conn, Action, ◌>>=◌, ◌>>◌, lift, pure, fail, fail_when, read_exact, write_all, ignore, map_err,
}
use skadi_core.Endpoint.{Endpoint, Ipv4Addr, SocketAddr, IpAddr, v4, v6, octets, octets_eq}
use skadi_core.Socks5.{
  ParseError, unsupported_command, unsupported_address_type, Socks5Request, socks5_version,
  auth_version, cmd_bind, cmd_udp_associate, atyp_ipv4, atyp_domain, atyp_ipv6, max_methods,
  parse_greeting, parse_auth, parse_request,
}

abbrev pub method_no_auth : ℕ
method_no_auth = 0x00

abbrev pub method_user_pass : ℕ
method_user_pass = 0x02

abbrev pub method_no_acceptable : ℕ
method_no_acceptable = 0xff

abbrev pub rep_general_failure : ℕ
rep_general_failure = 0x01

abbrev pub rep_command_not_supported : ℕ
rep_command_not_supported = 0x07

abbrev pub rep_address_not_supported : ℕ
rep_address_not_supported = 0x08

pub data AuthMethod : Type 0 where
  no_auth : AuthMethod
  user_pass : AuthMethod

pub record UserCredential : Type 0 where
  pub username : List ℕ
  pub password : List ℕ

pub record Socks5Config : Type 0 where
  pub enabled : Bool
  pub auth : AuthMethod
  pub users : List UserCredential
  pub bind : Bool
  pub udp_associate : Bool

-- The errors of the handler, which the code writes as texts.
pub data NegotiateError : Type 0 where
  closed : NegotiateError
  unwritable : NegotiateError
  many_methods : ℕ → NegotiateError
  greeting_parse : ParseError → NegotiateError
  no_acceptable_method : NegotiateError
  no_username : NegotiateError
  no_password : NegotiateError
  auth_parse : ParseError → NegotiateError
  authentication_failed : NegotiateError
  no_domain : NegotiateError
  unknown_address_type : ℕ → NegotiateError
  request_parse : ℕ → ParseError → NegotiateError
  bind_disabled : NegotiateError
  udp_associate_disabled : NegotiateError

abbrev pub Negotiation : Type 0 → Type 0
Negotiation = Action NegotiateError

-- `self.users.iter().find(..).map(..)`
unfoldable pub lookup : List UserCredential → List ℕ → Option (List ℕ)
lookup [] username = none
lookup (u ∷ users) username =
    let rest = lookup users username in
    if octets_eq u.username username then some u.password else rest

-- The port and the address behind a reply's RSV byte.
pub bound_bytes : SocketAddr → List ℕ
bound_bytes bound = elim bound.ip [
  | v4 x ↦ atyp_ipv4 ∷ (octets x ++ to_be16 bound.port)
  | v6 o ↦ atyp_ipv6 ∷ (o ++ to_be16 bound.port)
]

pub send_reply : ℕ → SocketAddr → Negotiation (Unit {0})
send_reply code bound = write_all unwritable (socks5_version ∷ code ∷ 0x00 ∷ bound_bytes bound)

pub send_error : ℕ → Negotiation (Unit {0})
send_error code =
    send_reply code (record { ip = v4 (record { a = 0; b = 0; c = 0; d = 0 }); port = 0 })

pub read_greeting : Negotiation (List ℕ)
read_greeting = do
  header ← read_exact closed 2
  nmethods ← lift (byte_at header 1)
  fail_when (ltb max_methods nmethods) (many_methods nmethods)
  methods ← read_exact closed nmethods
  (offered, _) ← lift (map_err greeting_parse (parse_greeting (header ++ methods)))
  pure offered

pub contains : List ℕ → ℕ → Bool
contains [] m = false
contains (x ∷ xs) m = let rest = contains xs m in if x == m then true else rest

pub wanted_method : AuthMethod → ℕ
wanted_method no_auth = method_no_auth
wanted_method user_pass = method_user_pass

pub select_method : List ℕ → Socks5Config → ℕ
select_method methods config =
    if contains methods (wanted_method config.auth)
    then wanted_method config.auth
    else method_no_acceptable

-- What `perform_auth` reads and parses.
pub read_auth : Negotiation (List ℕ × List ℕ)
read_auth = do
  header ← read_exact closed 2
  ulen ← lift (byte_at header 1)
  fail_when (ulen == 0) no_username
  uname ← read_exact closed ulen
  plen_buf ← read_exact closed 1
  plen ← lift (byte_at plen_buf 0)
  fail_when (plen == 0) no_password
  passwd ← read_exact closed plen
  (credentials, _) ←
      lift (map_err auth_parse (parse_auth (header ++ (uname ++ (plen_buf ++ passwd)))))
  pure credentials

-- `unwrap_or("__no_such_user__")`
pub expected_password : Socks5Config → List ℕ → List ℕ
expected_password config uname = elim (lookup config.users uname) [
  | none ↦ codes "__no_such_user__"
  | some password ↦ password
]

pub constant_time_eq : (List ℕ → List ℕ → Bool) → List ℕ → List ℕ → Bool
constant_time_eq ct_eq a b = if length a == length b then ct_eq a b else false

pub perform_auth : (List ℕ → List ℕ → Bool) → Socks5Config → Negotiation (Unit {0})
perform_auth ct_eq config = do
  (uname, passwd) ← read_auth
  let accepted = constant_time_eq ct_eq (expected_password config uname) passwd
  write_all unwritable (auth_version ∷ (if accepted then 0x00 else 0x01) ∷ [])
  fail_when (not accepted) authentication_failed

-- `match atyp`: the rest of the request behind its header.
pub read_address : ℕ → Negotiation (List ℕ)
read_address atyp =
    if atyp == atyp_ipv4
    then read_exact closed 6
    else if atyp == atyp_ipv6
    then read_exact closed 18
    else if atyp == atyp_domain
    then (do
      len_buf ← read_exact closed 1
      dlen ← lift (byte_at len_buf 0)
      if dlen == 0
          then ignore (send_error rep_address_not_supported) >> fail no_domain
          else (do rest ← read_exact closed (dlen + 2); pure (len_buf ++ rest)))
    else ignore (send_error rep_address_not_supported) >> fail (unknown_address_type atyp)

pub reply_code : ParseError → ℕ
reply_code (unsupported_command c) = rep_command_not_supported
reply_code (unsupported_address_type a) = rep_address_not_supported
reply_code _ = rep_general_failure

-- What `read_request` reads and parses.
pub read_socks5_request : Negotiation Socks5Request
read_socks5_request = do
  header ← read_exact closed 4
  atyp ← lift (byte_at header 3)
  address ← read_address atyp
  (request, _) ←
      lift (map_err (λ e. request_parse (reply_code e) e) (parse_request (header ++ address)))
  pure request

-- The commands that the configuration does not allow.
pub check_command : Socks5Config → Socks5Request → Negotiation Socks5Request
check_command config request =
    if request.command == cmd_bind && not config.bind
    then ignore (send_error rep_command_not_supported) >> fail bind_disabled
    else if request.command == cmd_udp_associate && not config.udp_associate
    then ignore (send_error rep_command_not_supported) >> fail udp_associate_disabled
    else pure request

pub read_request : Socks5Config → Negotiation Socks5Request
read_request config = do request ← read_socks5_request; check_command config request

-- `negotiate_inner` behind the reply that names the method.
pub negotiate_selected : (List ℕ → List ℕ → Bool) → Socks5Config → ℕ → Negotiation Socks5Request
negotiate_selected ct_eq config selected = do
  fail_when (selected == method_no_acceptable) no_acceptable_method
  (if selected == method_user_pass then perform_auth ct_eq config else pure tt)
  read_request config

pub negotiate : (List ℕ → List ℕ → Bool) → Socks5Config → Negotiation Socks5Request
negotiate ct_eq config = do
  methods ← read_greeting
  let selected = select_method methods config
  write_all unwritable (socks5_version ∷ selected ∷ [])
  negotiate_selected ct_eq config selected
