-- ===== src/Client/Pmtud/Tests.antt =====
-- pmtud.rs on concrete values.
use skadi_core.Prelude.{
  ℕ, ◌+◌, ◌≤◌, ◌≡◌, refl, if◌then◌else◌, List, [], ◌∷◌, All, some, max, arith, ltb, take, drop,
}
use skadi_core.Prelude.Bytes.{to_be16}
use skadi_core.Prelude.Outcome.{ok, err}
use skadi_core.Endpoint.{Ipv4Addr, IsIpv4}
use skadi_core.Client.Pmtud.{
  probe, min_tun_mtu, resolve_effective_mtu, max_udp_payload_ipv4, build_icmp_frag_needed_v4,
  parse_icmp_frag_needed_v4, internet_checksum, sum_words, fold_carry, try_lower, probed_mtu,
}
use skadi_core.Client.Pmtud.Lowered.{most, lowered, lowered_lem}
use skadi_core.Client.Pmtud.Messages.{header, parse-build}

abbrev here : Ipv4Addr
here = record { a = 10; b = 0; c = 0; d = 2 }

abbrev there : Ipv4Addr
there = record { a = 93; b = 184; c = 216; d = 34 }

here-IsIpv4 : IsIpv4 here
here-IsIpv4 = ground arith

there-IsIpv4 : IsIpv4 there
there-IsIpv4 = ground arith

lowered_lem_example :
    let mtu = lowered (resolve_effective_mtu 1500 probe 100 (some 1480)) (1300 ∷ 1350 ∷ 500 ∷ []) in
    (mtu ≤ 1500)
    × (mtu ≤ most 1500 probe 100 (some 1480))
    × (min_tun_mtu ≤ mtu)
    × All (λ report. mtu ≤ max report min_tun_mtu) (1300 ∷ 1350 ∷ 500 ∷ [])
    × (max_udp_payload_ipv4 mtu + 28 ≡ mtu)
lowered_lem_example = lowered_lem 1500 100 probe (some 1480) (1300 ∷ 1350 ∷ 500 ∷ []) (omega arith)

lowered_twice : lowered 1400 (1300 ∷ 1350 ∷ []) ≡ 1300
unfolding try_lower
lowered_twice = refl

-- The loopback device has an MTU of 65536.
probed_loopback : probed_mtu 65536 ≡ some 0
unfolding probed_mtu
probed_loopback = refl

-- The checksum of the header, which stands where its total length of 56 belongs.
header_checksum : internet_checksum (header here there 12345 443 1400 (to_be16 56)) ≡ 15081
unfolding internet_checksum sum_words fold_carry
header_checksum = refl

parse-build_example :
    (built : List ℕ) × (build_icmp_frag_needed_v4 here there 12345 443 1400 ≡ ok built)
    × (parse_icmp_frag_needed_v4 built ≡ (if ltb 1400 min_tun_mtu then err tt else ok 1400))
    × (internet_checksum (drop 20 built) ≡ 0)
    × (take 2 (drop 2 built)
        ≡ to_be16 (internet_checksum (header here there 12345 443 1400 (to_be16 56))))
    × (take 2 (drop 10 built) ≡ 0 ∷ 0 ∷ [])
parse-build_example = parse-build here there 12345 443 1400 (omega arith) here-IsIpv4 there-IsIpv4
