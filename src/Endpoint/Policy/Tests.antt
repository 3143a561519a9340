-- ===== src/Endpoint/Policy/Tests.antt =====
-- Runs of the policy of endpoint.rs, most of them that file's own tests, and its theorems at concrete inputs.
use skadi_core.Prelude.{ℕ, ◌≡◌, refl, Bool, true, false, List, [], ◌∷◌, All, ◌⊎◌, arith}
use skadi_core.Prelude.Outcome.{ok, err}
use skadi_core.Endpoint.{Ipv4Addr, v4, v6, SocketAddr, ip}
use skadi_core.Endpoint.Policy.{
  forbidden_destination, is_forbidden_ipv4, is_forbidden_ip, is_forbidden_ipv6, is_private,
  is_loopback, is_link_local, is_broadcast, is_documentation, is_unspecified, is_multicast,
  is_carrier_grade_nat, is_benchmarking_ipv4, to_ipv4_mapped, is_loopback_ipv6, is_unspecified_ipv6,
  is_unique_local, is_unicast_link_local, is_multicast_ipv6, first_segment,
  validate_outbound_literal, validate_resolved_addrs,
}
use skadi_core.Endpoint.Policy.Blocks.{
  number, mapped, within_any, forbidden_blocks, is_forbidden_ip-blocks,
}
use skadi_core.Endpoint.Policy.Resolved.{IsPermitted, IsFirstForbidden, validate_resolved_addrs_lem}

abbrev address : ℕ → ℕ → ℕ → ℕ → Ipv4Addr
address a b c d = record { a = a; b = b; c = c; d = d }

below_carrier_grade_nat : is_forbidden_ipv4 (address 100 63 255 255) ≡ false
unfolding is_forbidden_ipv4 is_private is_loopback is_link_local is_broadcast is_documentation
    is_unspecified is_multicast is_carrier_grade_nat is_benchmarking_ipv4
below_carrier_grade_nat = refl

unique_local :
    is_forbidden_ipv6 (0xfd ∷ 0 ∷ 0 ∷ 0 ∷ 0 ∷ 0 ∷ 0 ∷ 0 ∷ 0 ∷ 0 ∷ 0 ∷ 0 ∷ 0 ∷ 0 ∷ 0 ∷ 1 ∷ []) ≡ true
unfolding is_forbidden_ipv6 to_ipv4_mapped is_loopback_ipv6 is_unspecified_ipv6 is_unique_local
    first_segment
unique_local = refl

public_ipv6 :
    is_forbidden_ipv6
      (0x20 ∷ 1 ∷ 0x48 ∷ 0x60 ∷ 0x48 ∷ 0x60 ∷ 0 ∷ 0 ∷ 0 ∷ 0 ∷ 0 ∷ 0 ∷ 0 ∷ 0 ∷ 0x88 ∷ 0x88 ∷ [])
    ≡ false
unfolding is_forbidden_ipv6 to_ipv4_mapped is_loopback_ipv6 is_unspecified_ipv6 is_unique_local
    is_unicast_link_local is_multicast_ipv6 first_segment
public_ipv6 = refl

is_forbidden_ip-blocks_example :
    (is_forbidden_ip (v4 (address 100 64 0 1)) ≡ within_any (number 100 64 0 1) forbidden_blocks)
    × (is_forbidden_ip (v6 (mapped (address 100 64 0 1)))
        ≡ within_any (number 100 64 0 1) forbidden_blocks)
is_forbidden_ip-blocks_example =
    is_forbidden_ip-blocks (address 100 64 0 1) (omega arith, omega arith, omega arith, omega arith)

abbrev resolved : List SocketAddr
resolved =
    record { ip = v4 (address 8 8 8 8); port = 443 }
    ∷ record { ip = v4 (address 10 0 0 1); port = 443 }
    ∷ []

validate_resolved_addrs_lem_example :
    (((validate_resolved_addrs resolved false ≡ ok tt) × All IsPermitted resolved)
      ⊎ ((addr : SocketAddr) × (validate_resolved_addrs resolved false
            ≡ err (forbidden_destination addr))
          × IsFirstForbidden resolved addr))
    × (validate_resolved_addrs resolved true ≡ ok tt)
    × ((addr : SocketAddr) (allow : Bool)
        → validate_outbound_literal (ip addr) allow ≡ validate_resolved_addrs (addr ∷ []) allow)
validate_resolved_addrs_lem_example = validate_resolved_addrs_lem resolved
