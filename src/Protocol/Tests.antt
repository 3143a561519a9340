-- ===== src/Protocol/Tests.antt =====
-- The theorems on the detection of a protocol at concrete inputs.
use skadi_core.Prelude.{ℕ, ◌≡◌, ◌≢◌, true, false}
use skadi_core.Prelude.Outcome.{ok, err}
use skadi_core.Protocol.{socks5, vless, wire_byte, EnabledProtocols, detect, unknown_protocol_byte}
use skadi_core.Protocol.Detect.{detect_lem}

abbrev only_socks5 : EnabledProtocols
only_socks5 = record { has_socks5 = true; has_vless = false }

abbrev other_byte : ℕ
other_byte = 9

detects_only_enabled :
    (detect only_socks5 (wire_byte socks5) ≡ ok socks5)
    × (other_byte ≢ wire_byte socks5
        → other_byte ≢ wire_byte vless
        → detect only_socks5 other_byte ≡ err (unknown_protocol_byte other_byte))
detects_only_enabled = detect_lem only_socks5 socks5 other_byte
