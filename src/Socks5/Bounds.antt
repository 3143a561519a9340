-- ===== src/Socks5/Bounds.antt =====
-- The parsers of socks5/parse.rs on one input: no read is out of bounds, and the bytes used are there.
use skadi_core.Prelude.{
  ℕ, refl, ◌==◌, ◌&&◌, ◌||◌, not, List, arith, length, in_bounds, Bool-cases, inl, inr,
}
use skadi_core.Incremental.{IsSound}
use skadi_core.Incremental.Rules.{IsSound-need, IsSound-byte, IsSound-fail, IsSound-map}
use skadi_core.Socks5.{
  waits, incomplete, bad_version, non_zero_rsv, unsupported_command, socks5_version, cmd_connect,
  cmd_bind, cmd_udp_associate, atyp_ipv4, atyp_ipv6, atyp_domain, parse_greeting, parse_auth,
  parse_ipv4, parse_ipv6, parse_domain, parse_target, parse_request, parse_udp_datagram,
}

module _ (input : List ℕ) where
  pub parse_greeting-IsSound : IsSound waits 0 0 3 (length input) (parse_greeting input)
  unfolding parse_greeting
  parse_greeting-IsSound = grind (arith, in_bounds)

  pub parse_auth-IsSound : IsSound waits 0 0 5 (length input) (parse_auth input)
  unfolding parse_auth
  parse_auth-IsSound = record {
    no_panic = grind (arith, in_bounds);
    asks = grind (arith, in_bounds);
    ends = λ a n e. grind (arith, in_bounds);
  }

  parse_ipv4-IsSound :
      (offset : ℕ) → IsSound waits 0 0 offset (length input) (parse_ipv4 input offset)
  unfolding parse_ipv4
  parse_ipv4-IsSound offset = grind (arith, in_bounds)

  parse_ipv6-IsSound :
      (offset : ℕ) → IsSound waits 0 0 offset (length input) (parse_ipv6 input offset)
  unfolding parse_ipv6
  parse_ipv6-IsSound offset = grind (arith, in_bounds)

  parse_domain-IsSound :
      (offset : ℕ) → IsSound waits 0 0 offset (length input) (parse_domain input offset)
  unfolding parse_domain
  parse_domain-IsSound offset = grind (arith, in_bounds)

  pub parse_target-IsSound :
      (atyp offset : ℕ) → IsSound waits 0 0 offset (length input) (parse_target input atyp offset)
  unfolding parse_target
  parse_target-IsSound atyp offset = elim (Bool-cases (atyp == atyp_ipv4)) [
    | inl e ↦ rw e (parse_ipv4-IsSound offset)
    | inr e ↦ rw e (elim (Bool-cases (atyp == atyp_ipv6)) [
      | inl e ↦ rw e (parse_ipv6-IsSound offset)
      | inr e ↦ rw e (elim (Bool-cases (atyp == atyp_domain)) [
        | inl e ↦ rw e (parse_domain-IsSound offset)
        | inr e ↦ rw e (grind arith)
      ])
    ])
  ]

  pub parse_request-IsSound : IsSound waits 0 0 4 (length input) (parse_request input)
  unfolding parse_request
  parse_request-IsSound = IsSound-need input 4 (incomplete 4 (length input)) _ refl λ h.
      IsSound-byte input 0 _ (omega arith) λ version _.
        IsSound-byte input 1 _ (omega arith) λ cmd _. IsSound-byte input 2 _ (omega arith) λ rsv _.
          IsSound-byte input 3 _ h λ atyp _.
            IsSound-fail input (not (version == socks5_version)) (bad_version version) _ refl λ _.
              IsSound-fail input (not (rsv == 0)) (non_zero_rsv rsv) _ refl λ _.
                IsSound-fail input
                  (not (cmd == cmd_connect)
                    && not (cmd == cmd_bind)
                    && not (cmd == cmd_udp_associate))
                  (unsupported_command cmd) _ refl
                  λ _.
                    IsSound-map (λ t. record { command = cmd; target = t }) (λ n. n) _
                      (λ n. omega arith) (parse_target-IsSound atyp 4)

  pub parse_udp_datagram-IsSound : IsSound waits 0 0 4 (length input) (parse_udp_datagram input)
  unfolding parse_udp_datagram
  parse_udp_datagram-IsSound = IsSound-need input 4 (incomplete 4 (length input)) _ refl λ h.
      IsSound-byte input 0 _ (omega arith) λ rsv0 _. IsSound-byte input 1 _ (omega arith) λ rsv1 _.
        IsSound-fail input (not (rsv0 == 0) || not (rsv1 == 0)) (non_zero_rsv rsv0) _ refl λ _.
          IsSound-byte input 2 _ (omega arith) λ frag _.
            IsSound-fail input (not (frag == 0)) (unsupported_command frag) _ refl
              λ _. IsSound-byte input 3 _ h λ atyp _. parse_target-IsSound atyp 4
