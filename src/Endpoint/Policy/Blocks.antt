-- ===== src/Endpoint/Policy/Blocks.antt =====
-- The IPv4 policy of endpoint.rs against the table of address blocks that it stands for.
use skadi_core.Prelude.{
  ℕ, ◌+◌, ◌*◌, ◌≡◌, refl, ◌&&◌, ◌||◌, Bool, true, false, List, [], ◌∷◌, arith, ltb, leb, ◌==◌,
}
use skadi_core.Endpoint.{Ipv4Addr, IsIpv4, v4, v6}
use skadi_core.Endpoint.Policy.{
  is_private, is_loopback, is_link_local, is_broadcast, is_documentation, is_unspecified,
  is_multicast, is_carrier_grade_nat, is_benchmarking_ipv4, is_forbidden_ipv4, to_ipv4_mapped,
  is_forbidden_ipv6, is_forbidden_ip,
}

-- The address as one 32-bit number.
abbrev pub number : ℕ → ℕ → ℕ → ℕ → ℕ
number a b c d = a * 16777216 + (b * 65536 + (c * 256 + d))

-- A block of addresses: the first one and how many.
abbrev pub Block : Type 0
Block = ℕ × ℕ

abbrev pub within : ℕ → Block → Bool
within n (first, size) = leb first n && ltb n (first + size)

abbrev pub within_any : ℕ → List Block → Bool
within_any n [] = false
within_any n (block ∷ blocks) = within n block || within_any n blocks

-- `::ffff:a.b.c.d`
abbrev pub mapped : Ipv4Addr → List ℕ
mapped x = 0 ∷ 0 ∷ 0 ∷ 0 ∷ 0 ∷ 0 ∷ 0 ∷ 0 ∷ 0 ∷ 0 ∷ 0xff ∷ 0xff ∷ x.a ∷ x.b ∷ x.c ∷ x.d ∷ []

abbrev pub forbidden_blocks : List Block
forbidden_blocks =
    (number 10 0 0 0, 16777216)
    ∷ (number 172 16 0 0, 1048576)
    ∷ (number 192 168 0 0, 65536)
    ∷ (number 127 0 0 0, 16777216)
    ∷ (number 169 254 0 0, 65536)
    ∷ (number 255 255 255 255, 1)
    ∷ (number 192 0 2 0, 256)
    ∷ (number 198 51 100 0, 256)
    ∷ (number 203 0 113 0, 256)
    ∷ (number 224 0 0 0, 268435456)
    ∷ (number 100 64 0 0, 4194304)
    ∷ (number 198 18 0 0, 131072)
    ∷ (number 0 0 0 0, 16777216)
    ∷ []

module _ (x : Ipv4Addr) (h : IsIpv4 x) where
  private_lem :
      is_private x
      ≡ within (number x.a x.b x.c x.d) (number 10 0 0 0, 16777216)
        || within (number x.a x.b x.c x.d) (number 172 16 0 0, 1048576)
        || within (number x.a x.b x.c x.d) (number 192 168 0 0, 65536)
  unfolding is_private
  private_lem = ground arith

  loopback_lem : is_loopback x ≡ within (number x.a x.b x.c x.d) (number 127 0 0 0, 16777216)
  unfolding is_loopback
  loopback_lem = ground arith

  broadcast_lem : is_broadcast x ≡ within (number x.a x.b x.c x.d) (number 255 255 255 255, 1)
  unfolding is_broadcast
  broadcast_lem = ground arith

  documentation_lem :
      is_documentation x
      ≡ within (number x.a x.b x.c x.d) (number 192 0 2 0, 256)
        || within (number x.a x.b x.c x.d) (number 198 51 100 0, 256)
        || within (number x.a x.b x.c x.d) (number 203 0 113 0, 256)
  unfolding is_documentation
  documentation_lem = ground arith

  link_local_lem : is_link_local x ≡ within (number x.a x.b x.c x.d) (number 169 254 0 0, 65536)
  unfolding is_link_local
  link_local_lem = ground arith

  multicast_lem : is_multicast x ≡ within (number x.a x.b x.c x.d) (number 224 0 0 0, 268435456)
  unfolding is_multicast
  multicast_lem = ground arith

  carrier_grade_nat_lem :
      is_carrier_grade_nat x ≡ within (number x.a x.b x.c x.d) (number 100 64 0 0, 4194304)
  unfolding is_carrier_grade_nat
  carrier_grade_nat_lem = ground arith

  benchmarking_lem :
      is_benchmarking_ipv4 x ≡ within (number x.a x.b x.c x.d) (number 198 18 0 0, 131072)
  unfolding is_benchmarking_ipv4
  benchmarking_lem = ground arith

  this_network_lem : (x.a == 0) ≡ within (number x.a x.b x.c x.d) (number 0 0 0 0, 16777216)
  this_network_lem = ground arith

  unspecified_lem : is_unspecified x ≡ true → (x.a == 0) ≡ true
  unfolding is_unspecified
  unspecified_lem e = ground arith

or_assoc : (p q r : Bool) → ((p || q) || r) ≡ (p || (q || r))
or_assoc true q r = refl
or_assoc false q r = refl

or_false : (p : Bool) → (p || false) ≡ p
or_false true = refl
or_false false = refl

or_comm : (p q : Bool) → (p || q) ≡ (q || p)
or_comm true true = refl
or_comm true false = refl
or_comm false true = refl
or_comm false false = refl

-- A test that a later one covers adds nothing.
covered :
    (u p q r z : Bool)
    → (u ≡ true → z ≡ true)
    → (u || (p || (q || (r || z)))) ≡ (p || (q || (r || z)))
covered true p q r z h = rw (h refl, or_comm r true, or_comm q true, or_comm p true) refl
covered false p q r z h = refl

-- The address blocks that the relay refuses are exactly those of `forbidden_blocks`: for an address of four
-- octets the policy answers as the table does, and for the IPv4-mapped IPv6 address as for that address.
pub is_forbidden_ip-blocks :
    (x : Ipv4Addr)
    → IsIpv4 x
    → (is_forbidden_ip (v4 x) ≡ within_any (number x.a x.b x.c x.d) forbidden_blocks)
      × (is_forbidden_ip (v6 (mapped x)) ≡ within_any (number x.a x.b x.c x.d) forbidden_blocks)
unfolding is_forbidden_ip is_forbidden_ipv6 to_ipv4_mapped
is_forbidden_ip-blocks x h = (ipv4, ipv4)
  where
    ipv4 : is_forbidden_ipv4 x ≡ within_any (number x.a x.b x.c x.d) forbidden_blocks
    ipv4 =
        unfold is_forbidden_ipv4 in
        rw
          (
            private_lem x h,
            loopback_lem x h,
            link_local_lem x h,
            broadcast_lem x h,
            documentation_lem x h,
            multicast_lem x h,
            carrier_grade_nat_lem x h,
            benchmarking_lem x h,
          )
          (simp (or_assoc, or_false)
            (rw (covered (is_unspecified x) _ _ _ _ (unspecified_lem x h), this_network_lem x h)
              refl))
