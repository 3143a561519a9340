-- ===== src/Vless/Handler.antt =====
-- crates/skadi-protocol/src/vless/handler.rs: the server's side of a VLESS handshake. The ten seconds
-- that `handshake` allows for it are not modelled. `ct_eq` is `subtle::ConstantTimeEq`.
pub mod Access
pub mod Silence
pub mod Tests
use skadi_core.Prelude.{
  ℕ, not, Bool, true, false, List, [], ◌++◌, Option, none, some, ltb, ◌==◌, if◌then◌else◌, length,
}
use skadi_core.Prelude.Outcome.{Outcome, ok, err, panic, byte_at, slice}
use skadi_core.Stream.{
  Conn, Action, ◌>>=◌, ◌>>◌, lift, pure, fail, fail_when, read_exact, write_all, map_err,
}
use skadi_core.Endpoint.{Endpoint}
use skadi_core.Vless.Request.{
  ParseError, VlessRequest, vless_version, cmd_mux, atyp_ipv4, atyp_domain, atyp_ipv6, max_addons,
  max_domain, parse_request, build_response_header,
}
use skadi_core.Vless.Addons.{AddonsError, UnsupportedFlow, parse_addons, validate_flow}
use skadi_core.Vless.Users.{UuidParseError, VlessUser, authenticate}

pub record VlessHandshake : Type 0 where
  pub command : ℕ
  pub target : Endpoint

-- The errors of the handler, which the code writes as texts.
pub data HandshakeError : Type 0 where
  no_prefix : HandshakeError
  bad_version : ℕ → HandshakeError
  large_addons : ℕ → HandshakeError
  no_addons : HandshakeError
  no_command : HandshakeError
  no_port : HandshakeError
  closed : HandshakeError
  bad_address_type : ℕ → HandshakeError
  long_address : ℕ → HandshakeError
  no_address : HandshakeError
  bad_user_id : UuidParseError → HandshakeError
  authentication_failed : HandshakeError
  bad_request : ParseError → HandshakeError
  bad_addons : AddonsError → HandshakeError
  bad_flow : UnsupportedFlow → HandshakeError
  unwritable : HandshakeError

abbrev pub Handshake : Type 0 → Type 0
Handshake = Action HandshakeError

-- `match atyp`: what is read before the address, and the length of the address.
pub read_addr_len : ℕ → Handshake (List ℕ × ℕ)
read_addr_len atyp =
    if atyp == atyp_ipv4
    then pure ([], 4)
    else if atyp == atyp_ipv6
    then pure ([], 16)
    else if atyp == atyp_domain
    then (do dlen ← read_exact closed 1; len ← lift (byte_at dlen 0); pure (dlen, len))
    else fail (bad_address_type atyp)

-- `if command != CMD_MUX`
pub read_target : Handshake (List ℕ)
read_target = do
  port_atyp ← read_exact no_port 3
  atyp ← lift (byte_at port_atyp 2)
  (before, addr_len) ← read_addr_len atyp
  fail_when (ltb max_domain addr_len) (long_address addr_len)
  address ← read_exact no_address addr_len
  pure (port_atyp ++ (before ++ address))

-- What the handshake reads: the identifier of the user, and all the bytes.
pub read_header : Handshake (List ℕ × List ℕ)
read_header = do
  head ← read_exact no_prefix 18
  version ← lift (byte_at head 0)
  fail_when (not (version == vless_version)) (bad_version version)
  uuid ← lift (slice head 1 17)
  addons_len ← lift (byte_at head 17)
  fail_when (ltb max_addons addons_len) (large_addons addons_len)
  addons ← (if ltb 0 addons_len then read_exact no_addons addons_len else pure [])
  command_buf ← read_exact no_command 1
  command ← lift (byte_at command_buf 0)
  rest ← (if not (command == cmd_mux) then read_target else pure [])
  pure (uuid, head ++ (addons ++ (command_buf ++ rest)))

-- What the handshake checks for a user, and its answer.
pub accept : VlessUser → List ℕ → Handshake VlessHandshake
accept user full = do
  (request, _) ← lift (map_err bad_request (parse_request full))
  addons ← lift (map_err bad_addons (parse_addons request.addons))
  lift (map_err bad_flow (validate_flow addons.flow user.flow))
  write_all unwritable (build_response_header vless_version)
  pure (record { command = request.command; target = request.target })

pub accept_found : Option VlessUser → List ℕ → Handshake VlessHandshake
accept_found none full = fail authentication_failed
accept_found (some user) full = accept user full

pub handshake : (List ℕ → List ℕ → Bool) → List VlessUser → Handshake VlessHandshake
handshake ct_eq users = do
  (uuid, full) ← read_header
  user ← lift (map_err bad_user_id (authenticate ct_eq users uuid))
  accept_found user full
