-- ===== src/Client/Pmtud/Messages.antt =====
-- The ICMP messages that pmtud.rs builds, as it reads them.
use skadi_core.Prelude.{
  ℕ, ◌+◌, ◌/◌, ◌%◌, ◌<◌, ◌≡◌, refl, if◌then◌else◌, List, [], ◌∷◌, ◌++◌, ltb, take, drop, arith,
}
use skadi_core.Prelude.Bytes.{IsU16, to_be16, be16-to_be16}
use skadi_core.Prelude.Outcome.{ok, err}
use skadi_core.Endpoint.{Ipv4Addr, IsIpv4, octets}
use skadi_core.Client.Pmtud.{
  min_tun_mtu, zeros, put, sum_words, internet_checksum, write_ipv4_header, build_inner, build_icmp,
  build_icmp_frag_needed_v4, parse_icmp_frag_needed_v4,
}
use skadi_core.Client.Pmtud.Checksum.{internet_checksum_verifies}

module _ (src dst : Ipv4Addr) (src_port dst_port mtu : ℕ) where
  abbrev inner : List ℕ
  inner =
      0x45
      ∷ 0
      ∷ (28 / 256 % 256)
      ∷ (28 % 256)
      ∷ 0
      ∷ 0
      ∷ 0
      ∷ 0
      ∷ 64
      ∷ 17
      ∷ 0
      ∷ 0
      ∷ (octets src
          ++ (octets dst ++ (to_be16 src_port ++ (to_be16 dst_port ++ (0 ∷ 0 ∷ 0 ∷ 0 ∷ [])))))

  abbrev icmp : List ℕ → List ℕ
  icmp checksum = 3 ∷ 4 ∷ (checksum ++ (0 ∷ 0 ∷ (to_be16 mtu ++ inner)))

  build_inner_lem : build_inner src dst src_port dst_port ≡ ok inner
  unfolding build_inner write_ipv4_header put zeros
  build_inner_lem = refl

  build_icmp_lem :
      build_icmp inner mtu ≡ ok (icmp (to_be16 (internet_checksum (icmp (0 ∷ 0 ∷ [])))))
  unfolding build_icmp put zeros
  build_icmp_lem = refl

  -- The outer header, with what stands in its bytes 2 and 3.
  abbrev pub header : List ℕ → List ℕ
  header field = 0x45 ∷ 0 ∷ (field ++ (0 ∷ 0 ∷ 0 ∷ 0 ∷ 64 ∷ 1 ∷ 0 ∷ 0 ∷ (octets dst ++ octets src)))

  abbrev message : List ℕ
  message = icmp (to_be16 (internet_checksum (icmp (0 ∷ 0 ∷ []))))

  abbrev packet : List ℕ
  packet = header (to_be16 (internet_checksum (header (to_be16 56)))) ++ message

  build_lem : build_icmp_frag_needed_v4 src dst src_port dst_port mtu ≡ ok packet
  unfolding build_icmp_frag_needed_v4 write_ipv4_header put zeros
  build_lem = rw (build_inner_lem, build_icmp_lem) refl

  parse_lem :
      IsU16 mtu
      → parse_icmp_frag_needed_v4 packet ≡ (if ltb mtu min_tun_mtu then err tt else ok mtu)
  unfolding parse_icmp_frag_needed_v4
  parse_lem h = ground (arith, be16-to_be16 mtu h)

  icmp_sum : IsIpv4 src → IsIpv4 dst → sum_words (icmp (0 ∷ 0 ∷ [])) + 65535 < 4294967296
  unfolding sum_words
  icmp_sum (a, b, c, d) (e, f, g, h) = omega arith

  -- A message that the client builds names its MTU to whoever reads it, if that is not below the least MTU
  -- of a TUN device, and its ICMP checksum verifies. In the IPv4 header the bytes 2 and 3, the total length,
  -- hold the checksum of the header, and the bytes 10 and 11, the checksum, are 0.
  pub parse-build :
      IsU16 mtu
      → IsIpv4 src
      → IsIpv4 dst
      → (built : List ℕ) × (build_icmp_frag_needed_v4 src dst src_port dst_port mtu ≡ ok built)
        × (parse_icmp_frag_needed_v4 built ≡ (if ltb mtu min_tun_mtu then err tt else ok mtu))
        × (internet_checksum (drop 20 built) ≡ 0)
        × (take 2 (drop 2 built) ≡ to_be16 (internet_checksum (header (to_be16 56))))
        × (take 2 (drop 10 built) ≡ 0 ∷ 0 ∷ [])
  parse-build h s d = (
    packet,
    build_lem,
    parse_lem h,
    internet_checksum_verifies 1 (3 ∷ 4 ∷ []) (0 ∷ 0 ∷ (to_be16 mtu ++ inner)) refl (icmp_sum s d),
    refl,
    refl,
  )
