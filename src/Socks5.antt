-- ===== src/Socks5.antt =====
-- crates/skadi-protocol/src/socks5/parse.rs: the parsers of the SOCKS5 messages and the encoder of
-- UDP datagrams, with the constants of socks5.rs. The input is what has been read so far.
mod Bounds
mod Grows
pub mod Safety
pub mod RoundTrip
pub mod Negotiate
mod Tests
use Prim.Native.String.{String}
use skadi_core.Prelude.{
  ℕ, suc, ◌+◌, ◌*◌, ◌/◌, ◌%◌, ◌≡◌, Bool, ◌&&◌, ◌||◌, not, List, [], ◌∷◌, ◌++◌, Option, none, some,
  arith, ltb, ◌==◌, if◌then◌else◌, length, take, min,
}
use skadi_core.Prelude.Outcome.{Outcome, ok, err, panic, ◌>>=◌, ◌>>◌, fail_if, byte_at, slice}
use skadi_core.Prelude.Bytes.{be16, to_be16, from_utf8}
use skadi_core.Endpoint.{Endpoint, Ipv4Addr, SocketAddr, IpAddr, ip, domain, v4, v6, octets}

abbrev pub socks5_version : ℕ
socks5_version = 0x05

abbrev pub auth_version : ℕ
auth_version = 0x01

abbrev pub cmd_connect : ℕ
cmd_connect = 0x01

abbrev pub cmd_bind : ℕ
cmd_bind = 0x02

abbrev pub cmd_udp_associate : ℕ
cmd_udp_associate = 0x03

abbrev pub atyp_ipv4 : ℕ
atyp_ipv4 = 0x01

abbrev pub atyp_domain : ℕ
atyp_domain = 0x03

abbrev pub atyp_ipv6 : ℕ
atyp_ipv6 = 0x04

abbrev pub max_methods : ℕ
max_methods = 16

pub data ParseError : Type 0 where
  incomplete : (need have : ℕ) → ParseError
  bad_version : ℕ → ParseError
  zero_methods : ParseError
  too_many_methods : ℕ → ParseError
  bad_auth_version : ℕ → ParseError
  empty_username : ParseError
  empty_password : ParseError
  non_zero_rsv : ℕ → ParseError
  unsupported_command : ℕ → ParseError
  unsupported_address_type : ℕ → ParseError
  empty_domain : ParseError
  invalid_utf8 : String → ParseError

-- The bytes that an error asks for.
abbrev pub waits : ParseError → Option ℕ
waits (incomplete need have) = some need
waits _ = none

-- The result and the number of bytes used up.
abbrev pub Parsed : Type 0 → Type 0
Parsed A = Outcome ParseError (A × ℕ)

pub record Socks5Request : Type 0 where
  pub command : ℕ
  pub target : Endpoint

-- `if input.len() < need { return Err(Incomplete { need, have: input.len() }) }`
abbrev pub need : List ℕ → ℕ → Outcome ParseError (Unit {0})
need input n = fail_if (ltb (length input) n) (incomplete n (length input))

-- `std::str::from_utf8(bytes).map_err(|_| ParseError::InvalidUtf8(what))?`
abbrev pub text : List ℕ → String → Outcome ParseError (List ℕ)
text bytes what = elim (from_utf8 bytes) [ none ↦ err (invalid_utf8 what) | some s ↦ ok s ]

pub parse_greeting : List ℕ → Parsed (List ℕ)
parse_greeting input = do
  need input 2
  version ← byte_at input 0
  nmethods ← byte_at input 1
  fail_if (not (version == socks5_version)) (bad_version version)
  fail_if (nmethods == 0) zero_methods
  fail_if (ltb max_methods nmethods) (too_many_methods nmethods)
  let total = 2 + nmethods
  need input total
  methods ← slice input 2 total
  ok (methods, total)

pub parse_auth : List ℕ → Parsed (List ℕ × List ℕ)
parse_auth input = do
  need input 2
  version ← byte_at input 0
  ulen ← byte_at input 1
  fail_if (not (version == auth_version)) (bad_auth_version version)
  fail_if (ulen == 0) empty_username
  let after_uname = 2 + ulen
  need input (after_uname + 1)
  plen ← byte_at input after_uname
  fail_if (plen == 0) empty_password
  let total = after_uname + 1 + plen
  need input total
  uname_bytes ← slice input 2 after_uname
  uname ← text uname_bytes "username"
  passwd_bytes ← slice input (after_uname + 1) total
  passwd ← text passwd_bytes "password"
  ok ((uname, passwd), total)

-- The arms of `match atyp` in `parse_target`.
pub parse_ipv4 : List ℕ → ℕ → Parsed Endpoint
parse_ipv4 input offset = do
  let total = offset + 4 + 2
  need input total
  a ← byte_at input offset
  b ← byte_at input (offset + 1)
  c ← byte_at input (offset + 2)
  d ← byte_at input (offset + 3)
  hi ← byte_at input (offset + 4)
  lo ← byte_at input (offset + 5)
  ok (ip (record { ip = v4 (record { a = a; b = b; c = c; d = d }); port = be16 hi lo }), total)

pub parse_ipv6 : List ℕ → ℕ → Parsed Endpoint
parse_ipv6 input offset = do
  let total = offset + 16 + 2
  need input total
  octets ← slice input offset (offset + 16)
  hi ← byte_at input (offset + 16)
  lo ← byte_at input (offset + 17)
  ok (ip (record { ip = v6 octets; port = be16 hi lo }), total)

pub parse_domain : List ℕ → ℕ → Parsed Endpoint
parse_domain input offset = do
  need input (offset + 1)
  dlen ← byte_at input offset
  fail_if (dlen == 0) empty_domain
  let after_domain = offset + 1 + dlen
  let total = after_domain + 2
  need input total
  bytes ← slice input (offset + 1) after_domain
  host ← text bytes "domain"
  hi ← byte_at input after_domain
  lo ← byte_at input (after_domain + 1)
  ok (domain host (be16 hi lo), total)

pub parse_target : List ℕ → ℕ → ℕ → Parsed Endpoint
parse_target input atyp offset =
    if atyp == atyp_ipv4
    then parse_ipv4 input offset
    else if atyp == atyp_ipv6
    then parse_ipv6 input offset
    else if atyp == atyp_domain
    then parse_domain input offset
    else err (unsupported_address_type atyp)

pub parse_request : List ℕ → Parsed Socks5Request
parse_request input = do
  need input 4
  version ← byte_at input 0
  cmd ← byte_at input 1
  rsv ← byte_at input 2
  atyp ← byte_at input 3
  fail_if (not (version == socks5_version)) (bad_version version)
  fail_if (not (rsv == 0)) (non_zero_rsv rsv)
  fail_if (not (cmd == cmd_connect) && not (cmd == cmd_bind) && not (cmd == cmd_udp_associate))
      (unsupported_command cmd)
  (target, consumed) ← parse_target input atyp 4
  ok (record { command = cmd; target = target }, consumed)

pub parse_udp_datagram : List ℕ → Parsed Endpoint
parse_udp_datagram input = do
  need input 4
  rsv0 ← byte_at input 0
  rsv1 ← byte_at input 1
  fail_if (not (rsv0 == 0) || not (rsv1 == 0)) (non_zero_rsv rsv0)
  frag ← byte_at input 2
  fail_if (not (frag == 0)) (unsupported_command frag)
  atyp ← byte_at input 3
  parse_target input atyp 4

-- The address part of `encode_udp_datagram`: the arms of its `match`.
pub encode_target : Endpoint → List ℕ
encode_target (ip addr) = elim addr.ip [
  | v4 x ↦ atyp_ipv4 ∷ (octets x ++ to_be16 addr.port)
  | v6 o ↦ atyp_ipv6 ∷ (o ++ to_be16 addr.port)
]
encode_target (domain host port) =
    let dlen = min (length host) 255 in
    atyp_domain ∷ (dlen % 256) ∷ (take dlen host ++ to_be16 port)

pub encode_udp_datagram : Endpoint → List ℕ → List ℕ
encode_udp_datagram target payload = 0 ∷ 0 ∷ 0 ∷ (encode_target target ++ payload)
