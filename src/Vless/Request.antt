-- ===== src/Vless/Request.antt =====
-- crates/skadi-protocol/src/vless/parse.rs: the VLESS request, its parser and its builders, and the
-- two builders of vless/client.rs that choose among them.
pub mod Bounds
mod Grows
pub mod Safety
pub mod Address
pub mod RoundTrip
pub mod Builders
pub mod Prefixes
pub mod Identifier
mod Tests
use Prim.Native.String.{String}
use skadi_core.Prelude.{
  ℕ, ◌+◌, ◌*◌, ◌/◌, ◌%◌, ◌&&◌, not, List, [], ◌∷◌, ◌++◌, Option, none, some, ltb, ◌==◌,
  if◌then◌else◌, length,
}
use skadi_core.Prelude.Outcome.{Outcome, ok, err, ◌>>=◌, ◌>>◌, fail_if, byte_at, slice, slice_from}
use skadi_core.Prelude.Bytes.{be16, to_be16, from_utf8, codes}
use skadi_core.Endpoint.{Endpoint, Ipv4Addr, SocketAddr, IpAddr, ip, domain, v4, v6, octets}

abbrev pub vless_version : ℕ
vless_version = 0x00

abbrev pub cmd_tcp : ℕ
cmd_tcp = 0x01

abbrev pub cmd_udp : ℕ
cmd_udp = 0x02

abbrev pub cmd_mux : ℕ
cmd_mux = 0x03

abbrev pub mux_placeholder_host : List ℕ
mux_placeholder_host = codes "v1.mux.cool"

abbrev pub atyp_ipv4 : ℕ
atyp_ipv4 = 0x01

abbrev pub atyp_domain : ℕ
atyp_domain = 0x02

abbrev pub atyp_ipv6 : ℕ
atyp_ipv6 = 0x03

abbrev pub max_addons : ℕ
max_addons = 512

abbrev pub max_domain : ℕ
max_domain = 255

pub data ParseError : Type 0 where
  incomplete : (need have : ℕ) → ParseError
  bad_version : ℕ → ParseError
  addons_too_large : ℕ → ParseError
  unsupported_command : ℕ → ParseError
  unsupported_address_type : ℕ → ParseError
  empty_domain : ParseError
  invalid_utf8 : String → ParseError

-- The bytes that an error asks for.
abbrev pub waits : ParseError → Option ℕ
waits (incomplete need have) = some need
waits _ = none

abbrev pub Parsed : Type 0 → Type 0
Parsed A = Outcome ParseError (A × ℕ)

pub record VlessRequest : Type 0 where
  pub uuid : List ℕ
  pub command : ℕ
  pub addons : List ℕ
  pub target : Endpoint

-- `if input.len() < need { return Err(Incomplete { need, have: input.len() }) }`
abbrev pub need : List ℕ → ℕ → Outcome ParseError (Unit {0})
need input n = fail_if (ltb (length input) n) (incomplete n (length input))

-- `std::str::from_utf8(bytes).map_err(|_| ParseError::InvalidUtf8(what))?`
abbrev pub text : List ℕ → String → Outcome ParseError (List ℕ)
text bytes what = elim (from_utf8 bytes) [ none ↦ err (invalid_utf8 what) | some s ↦ ok s ]

-- The arms of `match atyp` in `parse_port_address`: the target and the length of its address.
unfoldable pub parse_ipv4 : List ℕ → ℕ → ℕ → Parsed Endpoint
parse_ipv4 input port addr_start = do
  need input (addr_start + 4)
  a ← byte_at input addr_start
  b ← byte_at input (addr_start + 1)
  c ← byte_at input (addr_start + 2)
  d ← byte_at input (addr_start + 3)
  ok (ip (record { ip = v4 (record { a = a; b = b; c = c; d = d }); port = port }), 4)

pub parse_domain : List ℕ → ℕ → ℕ → Parsed Endpoint
parse_domain input port addr_start = do
  need input (addr_start + 1)
  dlen ← byte_at input addr_start
  fail_if (dlen == 0) empty_domain
  fail_if (ltb max_domain dlen) (incomplete (addr_start + 1 + dlen) (length input))
  let domain_end = addr_start + 1 + dlen
  need input domain_end
  bytes ← slice input (addr_start + 1) domain_end
  host ← text bytes "domain"
  ok (domain host port, 1 + dlen)

pub parse_ipv6 : List ℕ → ℕ → ℕ → Parsed Endpoint
parse_ipv6 input port addr_start = do
  need input (addr_start + 16)
  octets ← slice input addr_start (addr_start + 16)
  ok (ip (record { ip = v6 octets; port = port }), 16)

unfoldable pub parse_address : List ℕ → ℕ → ℕ → ℕ → Parsed Endpoint
parse_address input port atyp addr_start =
    if atyp == atyp_ipv4
    then parse_ipv4 input port addr_start
    else if atyp == atyp_domain
    then parse_domain input port addr_start
    else if atyp == atyp_ipv6
    then parse_ipv6 input port addr_start
    else err (unsupported_address_type atyp)

unfoldable pub parse_port_address : List ℕ → Parsed Endpoint
parse_port_address input = do
  need input 3
  hi ← byte_at input 0
  lo ← byte_at input 1
  let port = be16 hi lo
  atyp ← byte_at input 2
  let addr_start : ℕ = 3
  (target, addr_len) ← parse_address input port atyp addr_start
  ok (target, addr_start + addr_len)

-- The steps of `parse_request` from its back to its front: the port and the address, from
-- `after_cmd` on; what follows the command byte, at `addons_end`; what follows the addons' length.
unfoldable pub parse_addressed : List ℕ → List ℕ → List ℕ → ℕ → ℕ → Parsed VlessRequest
parse_addressed input uuid addons command after_cmd = do
  need input (after_cmd + 3)
  rest ← slice_from input after_cmd
  (target, consumed) ← parse_port_address rest
  ok (
    record { uuid = uuid; command = command; addons = addons; target = target },
    after_cmd + consumed,
  )

unfoldable pub parse_command : List ℕ → List ℕ → List ℕ → ℕ → ℕ → Parsed VlessRequest
parse_command input uuid addons command addons_end =
    if command == cmd_mux
    then ok (
      record {
        uuid = uuid;
        command = command;
        addons = addons;
        target = domain mux_placeholder_host 0;
      },
      addons_end + 1,
    )
    else parse_addressed input uuid addons command (addons_end + 1)

unfoldable pub parse_addons_field : List ℕ → List ℕ → ℕ → Parsed VlessRequest
parse_addons_field input uuid addons_len = do
  let addons_end = 18 + addons_len
  need input (addons_end + 1)
  addons ← slice input 18 addons_end
  command ← byte_at input addons_end
  fail_if (not (command == cmd_tcp) && not (command == cmd_udp) && not (command == cmd_mux))
      (unsupported_command command)
  parse_command input uuid addons command addons_end

unfoldable pub parse_request : List ℕ → Parsed VlessRequest
parse_request input = do
  need input 18
  version ← byte_at input 0
  fail_if (not (version == vless_version)) (bad_version version)
  uuid ← slice input 1 17
  addons_len ← byte_at input 17
  fail_if (ltb max_addons addons_len) (addons_too_large addons_len)
  parse_addons_field input uuid addons_len

pub encode_port_address : Endpoint → List ℕ
encode_port_address (ip addr) =
    to_be16 addr.port ++ elim addr.ip [ v4 x ↦ atyp_ipv4 ∷ octets x | v6 o ↦ atyp_ipv6 ∷ o ]
encode_port_address (domain host port) = to_be16 port ++ (atyp_domain ∷ (length host % 256) ∷ host)

pub build_mux_request : List ℕ → List ℕ
build_mux_request uuid = vless_version ∷ (uuid ++ (0 ∷ cmd_mux ∷ []))

unfoldable pub build_response_header : ℕ → List ℕ
build_response_header version = version ∷ 0x00 ∷ []

pub build_tcp_request : List ℕ → Ipv4Addr → ℕ → List ℕ
build_tcp_request uuid addr port =
    vless_version ∷ (uuid ++ (0 ∷ cmd_tcp ∷ (to_be16 port ++ (atyp_ipv4 ∷ octets addr))))

pub build_udp_request : List ℕ → Ipv4Addr → ℕ → List ℕ
build_udp_request uuid addr port =
    vless_version ∷ (uuid ++ (0 ∷ cmd_udp ∷ (to_be16 port ++ (atyp_ipv4 ∷ octets addr))))

pub build_udp_domain_request : List ℕ → List ℕ → ℕ → List ℕ
build_udp_domain_request uuid host port =
    vless_version
    ∷ (uuid ++ (0 ∷ cmd_udp ∷ (to_be16 port ++ (atyp_domain ∷ (length host % 256) ∷ host))))

pub build_tcp_domain_request : List ℕ → List ℕ → ℕ → List ℕ
build_tcp_domain_request uuid host port =
    vless_version
    ∷ (uuid ++ (0 ∷ cmd_tcp ∷ (to_be16 port ++ (atyp_domain ∷ (length host % 256) ∷ host))))

-- vless/client.rs
pub build_tcp_endpoint_request : List ℕ → Endpoint → List ℕ
build_tcp_endpoint_request uuid (ip addr) = elim addr.ip [
  | v4 x ↦ build_tcp_request uuid x addr.port
  | v6 o ↦ vless_version ∷ (uuid ++ (0 ∷ cmd_tcp ∷ encode_port_address (ip addr)))
]
build_tcp_endpoint_request uuid (domain host port) = build_tcp_domain_request uuid host port

pub build_udp_endpoint_request : List ℕ → Endpoint → List ℕ
build_udp_endpoint_request uuid (ip addr) = elim addr.ip [
  | v4 x ↦ build_udp_request uuid x addr.port
  | v6 o ↦ vless_version ∷ (uuid ++ (0 ∷ cmd_udp ∷ encode_port_address (ip addr)))
]
build_udp_endpoint_request uuid (domain host port) = build_udp_domain_request uuid host port
