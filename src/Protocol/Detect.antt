-- ===== src/Protocol/Detect.antt =====
-- What the detection of protocol.rs promises.
use skadi_core.Prelude.{
  ℕ, ◌+◌, ◌≡◌, ◌≢◌, ◌⊎◌, inl, inr, refl, Bool, true, false, Bool-cases, Option, none, some, ltb,
  if◌then◌else◌, arith,
}
use skadi_core.Prelude.Outcome.{ok, err, panic}
use skadi_core.Protocol.{
  Protocol, socks5, vless, wire_byte, from_wire_byte, metric_label, EnabledProtocols, count,
  needs_sniffing, from_bool, sole_of, sole, detect, detect_in, disabled_protocol,
  unknown_protocol_byte,
}

abbrev pub is_enabled : EnabledProtocols → Protocol → Bool
is_enabled enabled socks5 = enabled.has_socks5
is_enabled enabled vless = enabled.has_vless

-- The first byte of a protocol is detected as that protocol exactly when it is enabled, else the error names
-- the protocol, and a byte of neither is reported as it came.
pub detect_lem :
    (enabled : EnabledProtocols) (protocol : Protocol) (byte : ℕ)
    → (detect enabled (wire_byte protocol) ≡ (
        if is_enabled enabled protocol
        then ok protocol
        else err (disabled_protocol (metric_label protocol))))
      × (byte ≢ wire_byte socks5
          → byte ≢ wire_byte vless
          → detect enabled byte ≡ err (unknown_protocol_byte byte))
unfolding detect from_wire_byte wire_byte metric_label
detect_lem enabled socks5 byte = (refl, λ h k. ground arith)
detect_lem enabled vless byte = (refl, λ h k. ground arith)

sole_cases :
    (a b : Bool) (protocol : Protocol)
    → is_enabled (record { has_socks5 = a; has_vless = b }) protocol ≡ true
    → ltb 1 (from_bool a + from_bool b) ≡ false
    → sole_of a b ≡ some protocol
sole_cases true true protocol e n = cc
sole_cases true false socks5 e n = refl
sole_cases true false vless e n = cc
sole_cases false true socks5 e n = cc
sole_cases false true vless e n = refl
sole_cases false false socks5 e n = cc
sole_cases false false vless e n = cc

-- If a protocol is enabled and the first byte is not needed to tell, that protocol is the sole one.
pub sole_lem :
    (enabled : EnabledProtocols) (protocol : Protocol)
    → is_enabled enabled protocol ≡ true
    → needs_sniffing enabled ≡ false
    → sole enabled ≡ some protocol
unfolding needs_sniffing count sole
sole_lem enabled protocol e n = sole_cases enabled.has_socks5 enabled.has_vless protocol e n

detect_in-ne-panic :
    (enabled : EnabledProtocols) (byte : ℕ) (found : Option Protocol)
    → detect_in enabled byte found ≢ panic
detect_in-ne-panic enabled byte none = λ p. cc
detect_in-ne-panic enabled byte (some socks5) = elim (Bool-cases enabled.has_socks5) [
  | inl e ↦ rw e (λ p. cc)
  | inr e ↦ rw e (λ p. cc)
]
detect_in-ne-panic enabled byte (some vless) = elim (Bool-cases enabled.has_vless) [
  | inl e ↦ rw e (λ p. cc)
  | inr e ↦ rw e (λ p. cc)
]

pub detect-ne-panic : (enabled : EnabledProtocols) (byte : ℕ) → detect enabled byte ≢ panic
unfolding detect
detect-ne-panic enabled byte = detect_in-ne-panic enabled byte _

-- If a protocol is enabled, there is one to choose without a byte, or a byte is needed.
pub sole-ne-none :
    (enabled : EnabledProtocols)
    → (enabled.has_socks5 ≡ true) ⊎ (enabled.has_vless ≡ true)
    → needs_sniffing enabled ≡ false
    → sole enabled ≢ none
sole-ne-none enabled (inl e) n = rw (sole_lem enabled socks5 e n) (λ p. cc)
sole-ne-none enabled (inr e) n = rw (sole_lem enabled vless e n) (λ p. cc)
