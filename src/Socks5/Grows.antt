-- ===== src/Socks5/Grows.antt =====
-- The parsers of socks5/parse.rs on the bytes read so far and with more bytes behind them.
use skadi_core.Prelude.{
  ℕ, refl, ◌+◌, ◌++◌, List, arith, in_bounds, Bool-cases, inl, inr, ◌==◌, not, ltb, ◌&&◌, ◌||◌,
}
use skadi_core.Incremental.Rules.{
  Grows, same, Grows-need, Grows-byte, Grows-slice, Grows-step, Grows-map, Grows-fail,
}
use skadi_core.Socks5.{
  waits, incomplete, non_zero_rsv, unsupported_command, cmd_connect, cmd_bind, cmd_udp_associate,
  text, socks5_version, auth_version, max_methods, bad_version, bad_auth_version, zero_methods,
  too_many_methods, empty_username, empty_password, empty_domain, atyp_ipv4, atyp_ipv6, atyp_domain,
  parse_greeting, parse_auth, parse_ipv4, parse_ipv6, parse_domain, parse_target, parse_request,
  parse_udp_datagram,
}
use skadi_core.Socks5.Bounds.{parse_request-IsSound, parse_udp_datagram-IsSound}

module _ (input more : List ℕ) where
  pub parse_greeting-Grows : Grows waits 0 (parse_greeting input) (parse_greeting (input ++ more))
  unfolding parse_greeting
  parse_greeting-Grows =
      Grows-need input more 2 (incomplete 2) _ _ refl (omega arith)
        (λ a m e. grind (arith, in_bounds))
        λ h. Grows-byte input more 0 _ _ (omega arith) λ version _.
          Grows-byte input more 1 _ _ h λ nmethods _.
            Grows-fail (not (version == socks5_version)) (bad_version version) _ _ λ _.
              Grows-fail (nmethods == 0) zero_methods _ _ λ _.
                Grows-fail (ltb max_methods nmethods) (too_many_methods nmethods) _ _ λ _.
                  Grows-need input more (2 + nmethods) (incomplete (2 + nmethods)) _ _ refl
                    (omega arith) (λ a m e. grind (arith, in_bounds))
                    λ k.
                      Grows-slice input more 2 (2 + nmethods) _ _ (omega arith) k
                        λ methods _. same refl

  pub parse_auth-Grows : Grows waits 0 (parse_auth input) (parse_auth (input ++ more))
  unfolding parse_auth
  parse_auth-Grows =
      Grows-need input more 2 (incomplete 2) _ _ refl (omega arith)
        (λ a m e. grind (arith, in_bounds))
        λ h. Grows-byte input more 0 _ _ (omega arith) λ version _.
          Grows-byte input more 1 _ _ h λ ulen _.
            Grows-fail (not (version == auth_version)) (bad_auth_version version) _ _ λ _.
              Grows-fail (ulen == 0) empty_username _ _ λ _.
                Grows-need input more (2 + ulen + 1) (incomplete (2 + ulen + 1)) _ _ refl
                  (omega arith) (λ a m e. grind (arith, in_bounds))
                  λ k. Grows-byte input more (2 + ulen) _ _ (omega arith) λ plen _.
                    Grows-fail (plen == 0) empty_password _ _ λ _.
                      Grows-need input more (2 + ulen + 1 + plen) (incomplete (2 + ulen + 1 + plen))
                        _ _ refl (omega arith) (λ a m e. grind (arith, in_bounds))
                        λ l.
                          Grows-slice input more 2 (2 + ulen) _ _ (omega arith) (omega arith)
                            λ uname_bytes _. Grows-step (text uname_bytes "username") _ _ λ uname _.
                              Grows-slice input more (2 + ulen + 1) (2 + ulen + 1 + plen) _ _
                                (omega arith) l λ passwd_bytes _. same refl

  parse_ipv4-Grows :
      (offset : ℕ) → Grows waits 0 (parse_ipv4 input offset) (parse_ipv4 (input ++ more) offset)
  unfolding parse_ipv4
  parse_ipv4-Grows offset =
      Grows-need input more (offset + 4 + 2) (incomplete (offset + 4 + 2)) _ _ refl (omega arith)
        (λ a m e. grind (arith, in_bounds))
        λ h. Grows-byte input more offset _ _ (omega arith) λ a _.
          Grows-byte input more (offset + 1) _ _ (omega arith) λ b _.
            Grows-byte input more (offset + 2) _ _ (omega arith) λ c _.
              Grows-byte input more (offset + 3) _ _ (omega arith) λ d _.
                Grows-byte input more (offset + 4) _ _ (omega arith)
                  λ hi _. Grows-byte input more (offset + 5) _ _ (omega arith) λ lo _. same refl

  parse_ipv6-Grows :
      (offset : ℕ) → Grows waits 0 (parse_ipv6 input offset) (parse_ipv6 (input ++ more) offset)
  unfolding parse_ipv6
  parse_ipv6-Grows offset =
      Grows-need input more (offset + 16 + 2) (incomplete (offset + 16 + 2)) _ _ refl (omega arith)
        (λ a m e. grind (arith, in_bounds))
        λ h. Grows-slice input more offset (offset + 16) _ _ (omega arith) (omega arith) λ octets _.
          Grows-byte input more (offset + 16) _ _ (omega arith)
            λ hi _. Grows-byte input more (offset + 17) _ _ (omega arith) λ lo _. same refl

  parse_domain-Grows :
      (offset : ℕ) → Grows waits 0 (parse_domain input offset) (parse_domain (input ++ more) offset)
  unfolding parse_domain
  parse_domain-Grows offset =
      Grows-need input more (offset + 1) (incomplete (offset + 1)) _ _ refl (omega arith)
        (λ a m e. grind (arith, in_bounds))
        λ h. Grows-byte input more offset _ _ (omega arith) λ dlen _.
          Grows-fail (dlen == 0) empty_domain _ _ λ _.
            Grows-need input more (offset + 1 + dlen + 2) (incomplete (offset + 1 + dlen + 2)) _ _
              refl (omega arith) (λ a m e. grind (arith, in_bounds))
              λ k.
                Grows-slice input more (offset + 1) (offset + 1 + dlen) _ _ (omega arith)
                  (omega arith)
                  λ bytes _. Grows-step (text bytes "domain") _ _ λ host _.
                    Grows-byte input more (offset + 1 + dlen) _ _ (omega arith) λ hi _.
                      Grows-byte input more (offset + 1 + dlen + 1) _ _ (omega arith)
                        λ lo _. same refl

  parse_target-Grows :
      (atyp offset : ℕ)
      → Grows waits 0 (parse_target input atyp offset) (parse_target (input ++ more) atyp offset)
  unfolding parse_target
  parse_target-Grows atyp offset = elim (Bool-cases (atyp == atyp_ipv4)) [
    | inl e ↦ rw e (parse_ipv4-Grows offset)
    | inr e ↦ rw e (elim (Bool-cases (atyp == atyp_ipv6)) [
      | inl e ↦ rw e (parse_ipv6-Grows offset)
      | inr e ↦ rw e (elim (Bool-cases (atyp == atyp_domain)) [
        | inl e ↦ rw e (parse_domain-Grows offset)
        | inr e ↦ rw e (same refl)
      ])
    ])
  ]

  pub parse_request-Grows : Grows waits 0 (parse_request input) (parse_request (input ++ more))
  unfolding parse_request
  parse_request-Grows =
      Grows-need input more 4 (incomplete 4) _ _ refl (omega arith)
        (λ a m e. omega (arith, ((parse_request-IsSound (input ++ more)).ends a m e).0))
        λ h. Grows-byte input more 0 _ _ (omega arith) λ version _.
          Grows-byte input more 1 _ _ (omega arith) λ cmd _.
            Grows-byte input more 2 _ _ (omega arith) λ rsv _.
              Grows-byte input more 3 _ _ h λ atyp _.
                Grows-fail (not (version == socks5_version)) (bad_version version) _ _ λ _.
                  Grows-fail (not (rsv == 0)) (non_zero_rsv rsv) _ _ λ _.
                    Grows-fail
                      (not (cmd == cmd_connect)
                        && not (cmd == cmd_bind)
                        && not (cmd == cmd_udp_associate))
                      (unsupported_command cmd) _ _
                      λ _.
                        Grows-map (λ t. record { command = cmd; target = t }) (λ n. n) _ _ 0
                          (λ n. omega arith) (parse_target-Grows atyp 4)

  pub parse_udp_datagram-Grows :
      Grows waits 0 (parse_udp_datagram input) (parse_udp_datagram (input ++ more))
  unfolding parse_udp_datagram
  parse_udp_datagram-Grows =
      Grows-need input more 4 (incomplete 4) _ _ refl (omega arith)
        (λ a m e. omega (arith, ((parse_udp_datagram-IsSound (input ++ more)).ends a m e).0))
        λ h. Grows-byte input more 0 _ _ (omega arith) λ rsv0 _.
          Grows-byte input more 1 _ _ (omega arith) λ rsv1 _.
            Grows-fail (not (rsv0 == 0) || not (rsv1 == 0)) (non_zero_rsv rsv0) _ _ λ _.
              Grows-byte input more 2 _ _ (omega arith) λ frag _.
                Grows-fail (not (frag == 0)) (unsupported_command frag) _ _
                  λ _. Grows-byte input more 3 _ _ h λ atyp _. parse_target-Grows atyp 4
