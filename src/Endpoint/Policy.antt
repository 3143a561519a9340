-- ===== src/Endpoint/Policy.antt =====
-- crates/skadi-core/src/endpoint.rs: the destinations that the outbound relay refuses.
pub mod Blocks
pub mod Resolved
pub mod Tests
use Prim.Native.Nat.{bit_and}
use skadi_core.Prelude.{
  ℕ, ◌&&◌, ◌||◌, Bool, true, false, List, [], ◌∷◌, Option, none, some, ltb, leb, ◌==◌,
  if◌then◌else◌,
}
use skadi_core.Prelude.Bytes.{be16}
use skadi_core.Prelude.Outcome.{Outcome, ok, err}
use skadi_core.Endpoint.{Ipv4Addr, IpAddr, v4, v6, SocketAddr, Endpoint, ip, domain}

-- `skadi_core::Error`, as far as these functions build it. It holds the address where the code holds its text.
pub data Error : Type 0 where
  forbidden_destination : SocketAddr → Error

-- The predicates of `std::net::Ipv4Addr`.
pub is_private : Ipv4Addr → Bool
is_private x = (x.a == 10) || (x.a == 172 && leb 16 x.b && leb x.b 31) || (x.a == 192 && x.b == 168)

pub is_loopback : Ipv4Addr → Bool
is_loopback x = x.a == 127

pub is_link_local : Ipv4Addr → Bool
is_link_local x = x.a == 169 && x.b == 254

pub is_broadcast : Ipv4Addr → Bool
is_broadcast x = x.a == 255 && x.b == 255 && x.c == 255 && x.d == 255

pub is_documentation : Ipv4Addr → Bool
is_documentation x =
    (x.a == 192 && x.b == 0 && x.c == 2)
    || (x.a == 198 && x.b == 51 && x.c == 100)
    || (x.a == 203 && x.b == 0 && x.c == 113)

pub is_unspecified : Ipv4Addr → Bool
is_unspecified x = x.a == 0 && x.b == 0 && x.c == 0 && x.d == 0

pub is_multicast : Ipv4Addr → Bool
is_multicast x = leb 224 x.a && leb x.a 239

pub is_carrier_grade_nat : Ipv4Addr → Bool
is_carrier_grade_nat x = x.a == 100 && (leb 64 x.b && ltb x.b 128)

pub is_benchmarking_ipv4 : Ipv4Addr → Bool
is_benchmarking_ipv4 x = x.a == 198 && (leb 18 x.b && ltb x.b 20)

pub is_forbidden_ipv4 : Ipv4Addr → Bool
is_forbidden_ipv4 x =
    is_private x
    || is_loopback x
    || is_link_local x
    || is_broadcast x
    || is_documentation x
    || is_unspecified x
    || is_multicast x
    || is_carrier_grade_nat x
    || is_benchmarking_ipv4 x
    || (x.a == 0)

pub all_zero : List ℕ → Bool
all_zero [] = true
all_zero (o ∷ os) = (o == 0) && all_zero os

-- `Ipv6Addr::to_ipv4_mapped`: the address `::ffff:a.b.c.d`.
pub to_ipv4_mapped : List ℕ → Option Ipv4Addr
unfolding all_zero
to_ipv4_mapped (o0 ∷ o1 ∷ o2 ∷ o3 ∷ o4 ∷ o5 ∷ o6 ∷ o7 ∷ o8 ∷ o9 ∷ f ∷ g ∷ a ∷ b ∷ c ∷ d ∷ []) =
    if all_zero (o0 ∷ o1 ∷ o2 ∷ o3 ∷ o4 ∷ o5 ∷ o6 ∷ o7 ∷ o8 ∷ o9 ∷ []) && f == 0xff && g == 0xff
    then some (record { a = a; b = b; c = c; d = d })
    else none
to_ipv4_mapped _ = none

-- The predicates of `std::net::Ipv6Addr`, on the octets.
pub is_unspecified_ipv6 : List ℕ → Bool
is_unspecified_ipv6 os = all_zero os

pub is_loopback_ipv6 : List ℕ → Bool
is_loopback_ipv6 [] = false
is_loopback_ipv6 (o ∷ []) = o == 1
is_loopback_ipv6 (o ∷ os) = (o == 0) && is_loopback_ipv6 os

-- `self.segments()[0]`
pub first_segment : List ℕ → ℕ
first_segment (hi ∷ lo ∷ _) = be16 hi lo
first_segment _ = 0

pub is_unique_local : List ℕ → Bool
is_unique_local os = bit_and (first_segment os) 0xfe00 == 0xfc00

pub is_unicast_link_local : List ℕ → Bool
is_unicast_link_local os = bit_and (first_segment os) 0xffc0 == 0xfe80

pub is_multicast_ipv6 : List ℕ → Bool
is_multicast_ipv6 os = bit_and (first_segment os) 0xff00 == 0xff00

pub is_forbidden_ipv6 : List ℕ → Bool
is_forbidden_ipv6 os = elim (to_ipv4_mapped os) [
  | some x ↦ is_forbidden_ipv4 x
  | none ↦
      is_loopback_ipv6 os
      || is_unspecified_ipv6 os
      || is_unique_local os
      || is_unicast_link_local os
      || is_multicast_ipv6 os
]

pub is_forbidden_ip : IpAddr → Bool
is_forbidden_ip (v4 x) = is_forbidden_ipv4 x
is_forbidden_ip (v6 os) = is_forbidden_ipv6 os

pub validate_outbound_literal : Endpoint → Bool → Outcome Error (Unit {0})
validate_outbound_literal (ip addr) allow_private =
    if allow_private
    then ok tt
    else if is_forbidden_ip addr.ip
    then err (forbidden_destination addr)
    else ok tt
validate_outbound_literal (domain host port) allow_private = ok tt

-- `for addr in addrs`
pub check_addrs : List SocketAddr → Outcome Error (Unit {0})
check_addrs [] = ok tt
check_addrs (addr ∷ addrs) =
    if is_forbidden_ip addr.ip then err (forbidden_destination addr) else check_addrs addrs

pub validate_resolved_addrs : List SocketAddr → Bool → Outcome Error (Unit {0})
validate_resolved_addrs addrs allow_private = if allow_private then ok tt else check_addrs addrs
