-- ===== src/Endpoint.antt =====
-- crates/skadi-core/src/endpoint.rs: target addresses. An address holds its octets, a host name the
-- bytes of its text.
pub mod Policy
use skadi_core.Prelude.{
  ℕ, ◌<◌, ◌≤◌, ◌≡◌, ◌↔◌, ◌==◌, ◌&&◌, List, [], ◌∷◌, Bool, true, false, length, arith, refl, ap,
}
use skadi_core.Prelude.Bytes.{IsByte, IsBytes, IsU16, is_utf8}

-- `std::net::Ipv4Addr`
pub record Ipv4Addr : Type 0 where
  pub a : ℕ
  pub b : ℕ
  pub c : ℕ
  pub d : ℕ

-- `Ipv4Addr::octets`
abbrev pub octets : Ipv4Addr → List ℕ
octets ip = ip.a ∷ ip.b ∷ ip.c ∷ ip.d ∷ []

-- `std::net::IpAddr`; an IPv6 address is the list of its sixteen octets.
pub data IpAddr : Type 0 where
  v4 : Ipv4Addr → IpAddr
  v6 : List ℕ → IpAddr

-- `std::net::SocketAddr`, as `SocketAddr::new` builds it.
pub record SocketAddr : Type 0 where
  pub ip : IpAddr
  pub port : ℕ

pub data Endpoint : Type 0 where
  ip : SocketAddr → Endpoint
  domain : List ℕ → ℕ → Endpoint

unfoldable pub octets_eq : List ℕ → List ℕ → Bool
octets_eq [] [] = true
octets_eq (x ∷ xs) (y ∷ ys) = (x == y) && octets_eq xs ys
octets_eq _ _ = false

-- `==` of `std::net::IpAddr`
unfoldable pub ip_eq : IpAddr → IpAddr → Bool
unfolding octets_eq
ip_eq (v4 x) (v4 y) = octets_eq (octets x) (octets y)
ip_eq (v6 xs) (v6 ys) = octets_eq xs ys
ip_eq _ _ = false

pub octets_eq_refl : (xs : List ℕ) → octets_eq xs xs ≡ true
unfolding octets_eq
octets_eq_refl [] = refl
octets_eq_refl (x ∷ xs) = ground (arith, octets_eq_refl xs)

pub ip_eq_refl : (x : IpAddr) → ip_eq x x ≡ true
unfolding ip_eq
ip_eq_refl (v4 x) = octets_eq_refl (octets x)
ip_eq_refl (v6 xs) = octets_eq_refl xs

octets_eq_parts :
    (x y : ℕ) (xs ys : List ℕ)
    → octets_eq (x ∷ xs) (y ∷ ys) ≡ true
    → (x ≡ y) × (octets_eq xs ys ≡ true)
unfolding octets_eq
octets_eq_parts x y xs ys e = ground arith

pub octets_eq_same : (xs ys : List ℕ) → octets_eq xs ys ≡ true → xs ≡ ys
unfolding octets_eq
octets_eq_same [] [] e = refl
octets_eq_same [] (y ∷ ys) e = cc
octets_eq_same (x ∷ xs) [] e = cc
octets_eq_same (x ∷ xs) (y ∷ ys) e =
    let (p, q) = octets_eq_parts x y xs ys e in rw (p, octets_eq_same xs ys q) refl

-- What is documented of `subtle::ConstantTimeEq` on slices of one length.
abbrev pub IsEquality : (List ℕ → List ℕ → Bool) → Type 0
IsEquality ct_eq = (a b : List ℕ) → length a ≡ length b → (ct_eq a b ≡ true) ↔ (a ≡ b)

pub octets_eq-IsEquality : IsEquality octets_eq
octets_eq-IsEquality a b h = ((λ e. octets_eq_same a b e), λ e. rw e (octets_eq_refl b))

ipv4_of : List ℕ → Ipv4Addr
ipv4_of (a ∷ b ∷ c ∷ d ∷ _) = record { a = a; b = b; c = c; d = d }
ipv4_of _ = record { a = 0; b = 0; c = 0; d = 0 }

pub ip_eq_same : (x y : IpAddr) → ip_eq x y ≡ true → x ≡ y
unfolding ip_eq ipv4_of
ip_eq_same (v4 x) (v4 y) e = ap (λ os. v4 (ipv4_of os)) (octets_eq_same (octets x) (octets y) e)
ip_eq_same (v6 xs) (v6 ys) e = ap v6 (octets_eq_same xs ys e)
ip_eq_same (v4 x) (v6 ys) e = cc
ip_eq_same (v6 xs) (v4 y) e = cc

-- The ranges that Rust's types give for nothing.
abbrev pub IsIpv4 : Ipv4Addr → Type 0
IsIpv4 x = IsByte x.a × IsByte x.b × IsByte x.c × IsByte x.d

abbrev pub IsIp : IpAddr → Type 0
IsIp (v4 x) = IsIpv4 x
IsIp (v6 o) = (length o ≡ 16) × IsBytes o

abbrev pub IsEndpoint : Endpoint → Type 0
IsEndpoint (ip addr) = IsIp addr.ip × IsU16 addr.port
IsEndpoint (domain host port) = (is_utf8 host ≡ true) × IsBytes host × IsU16 port

-- A host name that fits the byte that tells its length.
abbrev pub IsShort : Endpoint → Type 0
IsShort (ip addr) = Unit
IsShort (domain host port) = (0 < length host) × (length host ≤ 255)
