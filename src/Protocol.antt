-- ===== src/Protocol.antt =====
-- crates/skadi-core/src/protocol.rs: which protocol a connection speaks, by its first byte.
pub mod Detect
pub mod Tests
use skadi_core.Prelude.{
  ℕ, ◌+◌, Bool, true, false, Option, none, some, ltb, ◌==◌, if◌then◌else◌, List,
}
use skadi_core.Prelude.Bytes.{codes}
use skadi_core.Prelude.Outcome.{Outcome, ok, err}

abbrev pub socks5_wire_byte : ℕ
socks5_wire_byte = 0x05

abbrev pub vless_wire_byte : ℕ
vless_wire_byte = 0x00

pub data Protocol : Type 0 where
  socks5 : Protocol
  vless : Protocol

-- `Error::DisabledProtocol` and `Error::UnknownProtocolByte`
pub data DetectError : Type 0 where
  disabled_protocol : List ℕ → DetectError
  unknown_protocol_byte : ℕ → DetectError

pub wire_byte : Protocol → ℕ
wire_byte socks5 = socks5_wire_byte
wire_byte vless = vless_wire_byte

pub from_wire_byte : ℕ → Option Protocol
from_wire_byte byte =
    if byte == socks5_wire_byte
    then some socks5
    else if byte == vless_wire_byte
    then some vless
    else none

pub metric_label : Protocol → List ℕ
metric_label socks5 = codes "socks5"
metric_label vless = codes "vless"

pub record EnabledProtocols : Type 0 where
  pub has_socks5 : Bool
  pub has_vless : Bool

-- `usize::from`
abbrev pub from_bool : Bool → ℕ
from_bool true = 1
from_bool false = 0

unfoldable pub count : EnabledProtocols → ℕ
count enabled = from_bool enabled.has_socks5 + from_bool enabled.has_vless

unfoldable pub needs_sniffing : EnabledProtocols → Bool
needs_sniffing enabled = ltb 1 (count enabled)

abbrev pub sole_of : Bool → Bool → Option Protocol
sole_of true false = some socks5
sole_of false true = some vless
sole_of _ _ = none

pub sole : EnabledProtocols → Option Protocol
sole enabled = sole_of enabled.has_socks5 enabled.has_vless

abbrev pub detect_in : EnabledProtocols → ℕ → Option Protocol → Outcome DetectError Protocol
detect_in enabled byte (some socks5) =
    if enabled.has_socks5 then ok socks5 else err (disabled_protocol (codes "socks5"))
detect_in enabled byte (some vless) =
    if enabled.has_vless then ok vless else err (disabled_protocol (codes "vless"))
detect_in enabled byte none = err (unknown_protocol_byte byte)

pub detect : EnabledProtocols → ℕ → Outcome DetectError Protocol
detect enabled byte = detect_in enabled byte (from_wire_byte byte)
