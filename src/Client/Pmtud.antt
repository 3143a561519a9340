-- ===== src/Client/Pmtud.antt =====
-- crates/skadi-client/src/pmtud.rs: the MTU of the TUN device, and the ICMP messages that lower it.
-- `probe` stands for the system calls that ask the kernel for the MTU of the path to the proxy.
pub mod Checksum
pub mod Messages
pub mod Lowered
mod Tests
use skadi_core.Prelude.{
  ℕ, zero, suc, ◌+◌, ◌-◌, ◌*◌, ◌/◌, ◌%◌, ◌||◌, not, Bool, true, false, List, [], ◌∷◌, ◌++◌, Option,
  none, some, ltb, leb, ◌==◌, if◌then◌else◌, length, take, drop, min, max,
}
use skadi_core.Prelude.Bytes.{be16, to_be16, codes}
use skadi_core.Prelude.Outcome.{Outcome, ok, err, panic, ◌>>=◌, ◌>>◌, fail_if, byte_at, slice_from}
use skadi_core.Endpoint.{Ipv4Addr, octets, octets_eq}

abbrev pub ipv4_header_len : ℕ
ipv4_header_len = 20

abbrev pub udp_header_len : ℕ
udp_header_len = 8

abbrev pub icmp_header_len : ℕ
icmp_header_len = 8

abbrev pub min_tun_mtu : ℕ
min_tun_mtu = 576

abbrev pub recommended_tun_mtu : ℕ
recommended_tun_mtu = 1400

pub data PmtudMode : Type 0 where
  off : PmtudMode
  static : PmtudMode
  probe : PmtudMode

-- The error holds the text that is no mode.
pub parse_pmtud_mode : List ℕ → Outcome (List ℕ) PmtudMode
parse_pmtud_mode value =
    if octets_eq value (codes "off")
    then ok off
    else if octets_eq value (codes "static")
    then ok static
    else if octets_eq value (codes "probe")
    then ok probe
    else err value

-- What `probe_path_mtu_linux` makes of the value of `IP_MTU`, where that is not negative.
pub probed_mtu : ℕ → Option ℕ
probed_mtu mtu = if mtu == 0 then none else some (mtu % 65536)

pub resolve_effective_mtu : ℕ → PmtudMode → ℕ → Option ℕ → ℕ
resolve_effective_mtu configured_mtu off overhead path_mtu = configured_mtu
resolve_effective_mtu configured_mtu static overhead path_mtu = configured_mtu
resolve_effective_mtu configured_mtu probe overhead (some path_mtu) =
    min (max (path_mtu - overhead) min_tun_mtu) configured_mtu
resolve_effective_mtu configured_mtu probe overhead none = min configured_mtu recommended_tun_mtu

pub max_udp_payload_ipv4 : ℕ → ℕ
max_udp_payload_ipv4 mtu = max (mtu - (ipv4_header_len + udp_header_len)) 1

-- `MtuState::try_lower` on the value of its atomic word: the answer, and the value that it leaves.
pub try_lower : ℕ → ℕ → Bool × ℕ
try_lower prev next_hop_mtu =
    let clamped = max next_hop_mtu min_tun_mtu in
    if leb prev clamped then (false, prev) else (true, clamped)

-- `return None` is `err tt`.
abbrev pub Found : Type 0 → Type 0
Found A = Outcome (Unit {0}) A

pub parse_icmp_frag_needed_v4 : List ℕ → Found ℕ
parse_icmp_frag_needed_v4 packet = do
  fail_if (ltb (length packet) (ipv4_header_len + icmp_header_len)) tt
  first ← byte_at packet 0
  let version = first / 16
  fail_if (not (version == 4)) tt
  let ihl = first % 16 * 4
  fail_if (ltb ihl ipv4_header_len || ltb (length packet) (ihl + icmp_header_len)) tt
  icmp ← slice_from packet ihl
  kind ← byte_at icmp 0
  code ← byte_at icmp 1
  fail_if (not (kind == 3) || not (code == 4)) tt
  hi ← byte_at icmp 6
  lo ← byte_at icmp 7
  let mtu = be16 hi lo
  fail_if (ltb mtu min_tun_mtu) tt
  ok mtu

-- The sum of the big-endian words, and of a last byte on its own. It is below 2 ^ 32 for the messages
-- that are built here.
pub sum_words : List ℕ → ℕ
sum_words [] = 0
sum_words (a ∷ []) = a * 256
sum_words (a ∷ b ∷ rest) = be16 a b + sum_words rest

-- `while sum >> 16 != 0 { sum = (sum & 0xffff) + (sum >> 16) }`, in at most `fuel` passes.
pub fold_carry : ℕ → ℕ → ℕ
fold_carry zero sum = sum
fold_carry (suc fuel) sum =
    let rest = fold_carry fuel (sum % 65536 + sum / 65536) in if sum / 65536 == 0 then sum else rest

-- `!(sum as u16)`; three passes are enough for a 32-bit sum.
pub internet_checksum : List ℕ → ℕ
internet_checksum bytes = 65535 - fold_carry 3 (sum_words bytes) % 65536

pub zeros : ℕ → List ℕ
zeros zero = []
zeros (suc n) = 0 ∷ zeros n

-- `buf[at..at + bytes.len()].copy_from_slice(bytes)`
pub put : ℕ → List ℕ → List ℕ → Found (List ℕ)
put at bytes buf =
    if ltb (length buf) (at + length bytes)
    then panic
    else ok (take at buf ++ (bytes ++ drop (at + length bytes) buf))

pub write_ipv4_header : List ℕ → Ipv4Addr → Ipv4Addr → ℕ → ℕ → Found (List ℕ)
write_ipv4_header buf src dst protocol payload_len = do
  let total_len = (ipv4_header_len + payload_len) % 65536
  buf ← put 0 (0x45 ∷ []) buf
  buf ← put 2 (to_be16 total_len) buf
  buf ← put 8 (64 ∷ []) buf
  buf ← put 9 (protocol ∷ []) buf
  buf ← put 12 (octets src) buf
  put 16 (octets dst) buf

-- The datagram that did not fit.
pub build_inner : Ipv4Addr → Ipv4Addr → ℕ → ℕ → Found (List ℕ)
build_inner inner_src inner_dst inner_src_port inner_dst_port = do
  inner ←
      write_ipv4_header (zeros (ipv4_header_len + udp_header_len)) inner_src inner_dst 17
        udp_header_len
  inner ← put ipv4_header_len (to_be16 inner_src_port) inner
  put (ipv4_header_len + 2) (to_be16 inner_dst_port) inner

pub build_icmp : List ℕ → ℕ → Found (List ℕ)
build_icmp inner mtu = do
  let icmp_len = icmp_header_len + length inner
  icmp ← put 0 (3 ∷ []) (zeros icmp_len)
  icmp ← put 1 (4 ∷ []) icmp
  icmp ← put 6 (to_be16 mtu) icmp
  icmp ← put icmp_header_len inner icmp
  put 2 (to_be16 (internet_checksum icmp)) icmp

pub build_icmp_frag_needed_v4 : Ipv4Addr → Ipv4Addr → ℕ → ℕ → ℕ → Found (List ℕ)
build_icmp_frag_needed_v4 inner_src inner_dst inner_src_port inner_dst_port mtu = do
  inner ← build_inner inner_src inner_dst inner_src_port inner_dst_port
  icmp ← build_icmp inner mtu
  let total_len = ipv4_header_len + length icmp
  packet ← write_ipv4_header (zeros total_len) inner_dst inner_src 1 (length icmp % 65536)
  packet ← put ipv4_header_len icmp packet
  put 2 (to_be16 (internet_checksum (take ipv4_header_len packet))) packet
