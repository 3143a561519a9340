-- ===== src/Config/Common.antt =====
-- crates/skadi-config/src/lib.rs: what the checks of a configuration share. The operating system, the
-- standard library's parsers and the packages base64, hex, wireguard_conf and rustls are a parameter.
use skadi_core.Prelude.{
  ℕ, ◌+◌, not, ◌||◌, ◌==◌, ◌&&◌, Bool, true, false, List, [], ◌∷◌, Option, none, some, leb,
  if◌then◌else◌, length,
}
use skadi_core.Prelude.Bytes.{codes}
use skadi_core.Prelude.Outcome.{Outcome, ok, err, ◌>>=◌, ◌>>◌, fail_if}
use skadi_core.Endpoint.{IpAddr, v4, v6, ip_eq, octets_eq}
use skadi_core.Endpoint.Policy.{is_loopback_ipv6}
use skadi_core.Vless.Users.{UuidParseError}

-- `std::net::SocketAddr`, as `from_str` returns it: with the flow and the scope of an IPv6 address.
pub record ParsedAddr : Type 0 where
  pub ip : IpAddr
  pub port : ℕ
  pub flowinfo : ℕ
  pub scope_id : ℕ

-- `==` of `std::net::SocketAddr`
unfoldable pub addr_eq : ParsedAddr → ParsedAddr → Bool
addr_eq x y =
    ip_eq x.ip y.ip
    && (x.port == y.port)
    && (x.flowinfo == y.flowinfo)
    && (x.scope_id == y.scope_id)

-- `wireguard_conf::HRange`
pub record HRange : Type 0 where
  pub min : ℕ
  pub max : ℕ

-- `AwgObfuscationConfig`: the settings that hide the traffic.
pub record AwgObfuscationConfig : Type 0 where
  pub jc : ℕ
  pub jmin : ℕ
  pub jmax : ℕ
  pub s1 : ℕ
  pub s2 : ℕ
  pub s3 : ℕ
  pub s4 : ℕ
  pub h1 : List ℕ
  pub h2 : List ℕ
  pub h3 : List ℕ
  pub h4 : List ℕ

-- What `AmneziaWG2::builder` is given, the ranges `h1` to `h4` as parsed.
pub record AmneziaSettings : Type 0 where
  pub obfuscation : AwgObfuscationConfig
  pub h1 : HRange
  pub h2 : HRange
  pub h3 : HRange
  pub h4 : HRange

-- What the code calls of the system and of packages; each answers `none` where the call returns an error.
-- A key, a network and a certificate are the bytes that stand for them.
pub record Platform : Type 0 where
  pub parse_addr : List ℕ → Option ParsedAddr
  pub display_addr : ParsedAddr → List ℕ
  pub display_ip : IpAddr → List ℕ
  pub display_port : ℕ → List ℕ
  pub parse_u32 : List ℕ → Option ℕ
  pub trim : List ℕ → List ℕ
  pub is_file : List ℕ → Bool
  pub can_open : List ℕ → Bool
  pub read_file : List ℕ → Option (List ℕ)
  pub extension : List ℕ → Option (List ℕ)
  pub pem_certs : List ℕ → Option (List (List ℕ))
  pub base64_decode : List ℕ → Option (List ℕ)
  pub hex_decode : List ℕ → Option (List ℕ)
  pub private_key : List ℕ → Option (List ℕ)
  pub public_key : List ℕ → Option (List ℕ)
  pub preshared_key : List ℕ → Option (List ℕ)
  pub ip_net : List ℕ → Option (List ℕ)
  pub settings_build : AmneziaSettings → Bool
  pub settings_validate : AmneziaSettings → Bool

-- The errors, which the code writes as texts: the setting and what is wrong with it.
pub data ConfigError : Type 0 where
  missing : List ℕ → ConfigError
  is_empty : List ℕ → ConfigError
  is_zero : List ℕ → ConfigError
  is_invalid : List ℕ → ConfigError
  is_duplicate : List ℕ → ConfigError
  is_conflict : List ℕ → ConfigError
  not_loopback : List ℕ → ConfigError
  not_readable : List ℕ → ConfigError
  bad_uuid : List ℕ → UuidParseError → ConfigError

-- `x.ok_or_else(|| e)`, and `?` on the result
abbrev pub ok_or : {A : Type 0} → Option A → ConfigError → Outcome ConfigError A
ok_or none e = err e
ok_or (some a) e = ok a

-- `if test { action?; }`
abbrev pub when : Bool → Outcome ConfigError (Unit {0}) → Outcome ConfigError (Unit {0})
when true m = m
when false m = ok tt

abbrev pub is_some : {A : Type 0} → Option A → Bool
is_some none = false
is_some (some a) = true

abbrev pub is_nil : {A : Type 0} → List A → Bool
is_nil [] = true
is_nil (x ∷ xs) = false

-- `value.is_some_and(|n| n == 0)`
abbrev pub is_set_zero : Option ℕ → Bool
is_set_zero none = false
is_set_zero (some n) = n == 0

-- `text.starts_with(c)` and `text.ends_with(c)`, of one character
unfoldable pub starts_with : ℕ → List ℕ → Bool
starts_with c [] = false
starts_with c (x ∷ xs) = x == c

unfoldable pub ends_with : ℕ → List ℕ → Bool
ends_with c [] = false
ends_with c (x ∷ []) = x == c
ends_with c (x ∷ y ∷ xs) = ends_with c (y ∷ xs)

-- `text.contains(c)`, of one character
unfoldable pub contains : ℕ → List ℕ → Bool
contains c [] = false
contains c (x ∷ xs) = (x == c) || contains c xs

-- `to_ascii_lowercase`
unfoldable pub to_ascii_lowercase : List ℕ → List ℕ
to_ascii_lowercase [] = []
to_ascii_lowercase (c ∷ cs) =
    (if leb b'A' c && leb c b'Z' then c + 32 else c) ∷ to_ascii_lowercase cs

-- crates/skadi-transport/src/crypto.rs: `TlsKexMode`
pub data TlsKexMode : Type 0 where
  classic hybrid_pq : TlsKexMode

unfoldable pub kex_mode_of : List ℕ → Option TlsKexMode
kex_mode_of value =
    if octets_eq value (codes "classic") || octets_eq value (codes "x25519")
    then some classic
    else if octets_eq value (codes "hybrid")
        || octets_eq value (codes "hybrid_pq")
        || octets_eq value (codes "x25519mlkem768")
    then some hybrid_pq
    else none

unfoldable pub parse_tls_kex_mode : List ℕ → List ℕ → Outcome ConfigError TlsKexMode
parse_tls_kex_mode value field = ok_or (kex_mode_of value) (is_invalid field)

-- crates/skadi-transport/src/xhttp/config.rs: `XhttpMode`
pub data XhttpMode : Type 0 where
  auto packet_up stream_up stream_one : XhttpMode

unfoldable pub xhttp_mode_of : List ℕ → Option XhttpMode
xhttp_mode_of s =
    if is_nil s || octets_eq s (codes "auto")
    then some auto
    else if octets_eq s (codes "packet-up")
    then some packet_up
    else if octets_eq s (codes "stream-up")
    then some stream_up
    else if octets_eq s (codes "stream-one")
    then some stream_one
    else none

unfoldable pub is_loopback_ip : IpAddr → Bool
is_loopback_ip (v4 ip) = ip.a == 127
is_loopback_ip (v6 octets) = is_loopback_ipv6 octets

-- The helpers that call the system.
module _ (platform : Platform) where
  unfoldable pub is_blank : List ℕ → Bool
  is_blank text = is_nil (platform.trim text)

  unfoldable pub ensure_readable_file : List ℕ → List ℕ → Outcome ConfigError (Unit {0})
  ensure_readable_file path field = do
    fail_if (not (platform.is_file path)) (missing field)
    fail_if (not (platform.can_open path)) (not_readable field)

  unfoldable pub decode_base64_32 : List ℕ → List ℕ → Outcome ConfigError (List ℕ)
  decode_base64_32 value field = do
    bytes ← ok_or (platform.base64_decode (platform.trim value)) (is_invalid field)
    fail_if (not (length bytes == 32)) (is_invalid field)
    ok bytes

  -- `s.parse::<SocketAddr>().with_context(..)?`
  unfoldable pub parse_listen : List ℕ → List ℕ → Outcome ConfigError ParsedAddr
  parse_listen text field = ok_or (platform.parse_addr text) (is_invalid field)

  -- `value.clone().filter(|v| !v.trim().is_empty()).ok_or_else(..)?`
  unfoldable pub required : Option (List ℕ) → List ℕ → Outcome ConfigError (List ℕ)
  required none field = err (missing field)
  required (some v) field = if is_blank v then err (missing field) else ok v
