-- ===== src/Client/Pmtud/Lowered.antt =====
-- The MTU of the TUN device while ICMP messages lower it.
use skadi_core.Prelude.{
  ℕ, ◌+◌, ◌-◌, ◌≤◌, ◌≡◌, List, [], ◌∷◌, All, Option, none, some, min, max, arith,
}
use skadi_core.Client.Pmtud.{
  PmtudMode, off, static, probe, min_tun_mtu, recommended_tun_mtu, resolve_effective_mtu,
  max_udp_payload_ipv4, try_lower,
}

-- The MTU after the reports of the routers, one after another.
abbrev pub lowered : ℕ → List ℕ → ℕ
lowered mtu [] = mtu
lowered mtu (report ∷ reports) = lowered (try_lower mtu report).1 reports

try_lower_lem :
    (mtu report : ℕ)
    → let after = (try_lower mtu report).1 in
      (after ≤ mtu) × (after ≤ max report min_tun_mtu) × (min mtu min_tun_mtu ≤ after)
unfolding try_lower
try_lower_lem mtu report = ground arith

lowered-bounds :
    (mtu : ℕ) (reports : List ℕ)
    → (lowered mtu reports ≤ mtu)
      × (min mtu min_tun_mtu ≤ lowered mtu reports)
      × All (λ report. lowered mtu reports ≤ max report min_tun_mtu) reports
lowered-bounds mtu [] = (omega arith, omega arith, tt)
lowered-bounds mtu (report ∷ reports) =
    let (less, below, least) = try_lower_lem mtu report in
    let (h, k, a) = lowered-bounds (try_lower mtu report).1 reports in
    (omega arith, omega arith, (omega arith, a))

-- The most that the probe leaves for the device: what the path carries behind the overhead, or the least
-- MTU; and the recommended one where the path did not answer.
abbrev pub most : ℕ → PmtudMode → ℕ → Option ℕ → ℕ
most configured off overhead path_mtu = configured
most configured static overhead path_mtu = configured
most configured probe overhead (some path_mtu) = max (path_mtu - overhead) min_tun_mtu
most configured probe overhead none = recommended_tun_mtu

resolve_effective_mtu-bounds :
    (configured overhead : ℕ) (mode : PmtudMode) (path_mtu : Option ℕ)
    → let mtu = resolve_effective_mtu configured mode overhead path_mtu in
      (mtu ≤ configured)
      × (mtu ≤ most configured mode overhead path_mtu)
      × (min configured min_tun_mtu ≤ mtu)
unfolding resolve_effective_mtu
resolve_effective_mtu-bounds configured overhead off path_mtu =
    (omega arith, omega arith, omega arith)
resolve_effective_mtu-bounds configured overhead static path_mtu =
    (omega arith, omega arith, omega arith)
resolve_effective_mtu-bounds configured overhead probe none =
    (omega arith, omega arith, omega arith)
resolve_effective_mtu-bounds configured overhead probe (some m) =
    (omega arith, omega arith, omega arith)

-- Whatever the probe finds and routers report, the MTU of the device, configured to at least the least MTU of
-- a TUN device, stays within the configured one, within what the probed path carries behind the overhead or
-- the recommended MTU where the path did not answer, and within each report, these two raised to the least
-- MTU; it is not lowered below that, and leaves room for the headers of a largest datagram.
pub lowered_lem :
    (configured overhead : ℕ) (mode : PmtudMode) (path_mtu : Option ℕ) (reports : List ℕ)
    → min_tun_mtu ≤ configured
    → let mtu = lowered (resolve_effective_mtu configured mode overhead path_mtu) reports in
      (mtu ≤ configured)
      × (mtu ≤ most configured mode overhead path_mtu)
      × (min_tun_mtu ≤ mtu)
      × All (λ report. mtu ≤ max report min_tun_mtu) reports
      × (max_udp_payload_ipv4 mtu + 28 ≡ mtu)
unfolding max_udp_payload_ipv4
lowered_lem configured overhead mode path_mtu reports enough =
    let (h, p, k) = resolve_effective_mtu-bounds configured overhead mode path_mtu in
    let (l, m, a) =
      lowered-bounds (resolve_effective_mtu configured mode overhead path_mtu) reports in
    (omega arith, omega arith, omega arith, a, omega arith)
