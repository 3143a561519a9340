-- ===== src/Vless/Request/Grows.antt =====
-- The parsers of vless/parse.rs on the bytes read so far and with more bytes behind them.
use skadi_core.Prelude.{
  ℕ, ◌+◌, ◌≤◌, refl, ◌==◌, ◌&&◌, not, ltb, List, ◌++◌, arith, length, drop, in_bounds, Bool-cases,
  inl, inr, le→ltb, drop_grow, length-append,
}
use skadi_core.Prelude.Bytes.{be16}
use skadi_core.Incremental.Rules.{
  Grows, same, Grows-need, Grows-byte, Grows-slice, Grows-step, Grows-fail, Grows-stop, Grows-map,
}
use skadi_core.Vless.Request.Bounds.{
  parse_port_address-IsSound, parse_addressed-IsSound, parse_addons_field-IsSound,
  parse_request-IsSound,
}
use skadi_core.Vless.Request.{
  waits, text, incomplete, empty_domain, max_domain, bad_version, addons_too_large,
  unsupported_command, vless_version, max_addons, cmd_tcp, cmd_udp, cmd_mux, atyp_ipv4, atyp_domain,
  atyp_ipv6, parse_ipv4, parse_domain, parse_ipv6, parse_address, parse_port_address,
  parse_addressed, parse_command, parse_addons_field, parse_request,
}

module _ (input more : List ℕ) (port : ℕ) where
  ipv4-Grows : Grows waits 3 (parse_ipv4 input port 3) (parse_ipv4 (input ++ more) port 3)
  unfolding parse_ipv4
  ipv4-Grows =
      Grows-need input more 7 (incomplete 7) _ _ refl (omega arith)
        (λ a m e. grind (arith, in_bounds))
        λ h. Grows-byte input more 3 _ _ (omega arith) λ a _.
          Grows-byte input more 4 _ _ (omega arith) λ b _.
            Grows-byte input more 5 _ _ (omega arith)
              λ c _. Grows-byte input more 6 _ _ (omega arith) λ d _. same refl

  domain-Grows : Grows waits 3 (parse_domain input port 3) (parse_domain (input ++ more) port 3)
  unfolding parse_domain
  domain-Grows =
      Grows-need input more 4 (incomplete 4) _ _ refl (omega arith)
        (λ a m e. grind (arith, in_bounds))
        λ h. Grows-byte input more 3 _ _ (omega arith) λ dlen _.
          Grows-fail (dlen == 0) empty_domain _ _ λ _.
            Grows-stop (ltb max_domain dlen) (incomplete (4 + dlen) (length input))
              (incomplete (4 + dlen) (length (input ++ more))) _ _ (omega arith)
              λ _.
                Grows-need input more (4 + dlen) (incomplete (4 + dlen)) _ _ refl (omega arith)
                  (λ a m e. grind (arith, in_bounds))
                  λ k.
                    Grows-slice input more 4 (4 + dlen) _ _ (omega arith) k
                      λ bytes _. Grows-step (text bytes "domain") _ _ λ host _. same refl

  ipv6-Grows : Grows waits 3 (parse_ipv6 input port 3) (parse_ipv6 (input ++ more) port 3)
  unfolding parse_ipv6
  ipv6-Grows =
      Grows-need input more 19 (incomplete 19) _ _ refl (omega arith)
        (λ a m e. grind (arith, in_bounds))
        λ h. Grows-slice input more 3 19 _ _ (omega arith) h λ octets _. same refl

  parse_address-Grows :
      (atyp : ℕ)
      → Grows waits 3 (parse_address input port atyp 3) (parse_address (input ++ more) port atyp 3)
  unfolding parse_address
  parse_address-Grows atyp = elim (Bool-cases (atyp == atyp_ipv4)) [
    | inl e ↦ rw e ipv4-Grows
    | inr e ↦ rw e (elim (Bool-cases (atyp == atyp_domain)) [
      | inl e ↦ rw e domain-Grows
      | inr e ↦ rw e (elim (Bool-cases (atyp == atyp_ipv6)) [
        | inl e ↦ rw e ipv6-Grows
        | inr e ↦ rw e (same refl)
      ])
    ])
  ]

pub parse_port_address-Grows :
    (input more : List ℕ)
    → Grows waits 0 (parse_port_address input) (parse_port_address (input ++ more))
unfolding parse_port_address
parse_port_address-Grows input more =
    Grows-need input more 3 (incomplete 3) _ _ refl (omega arith)
      (λ a m e. omega (
        arith,
        (parse_port_address-IsSound (input ++ more) (length (input ++ more))
              (inr (omega arith))).ends
            a m e,
      ))
      λ h. Grows-byte input more 0 _ _ (omega arith) λ hi _.
        Grows-byte input more 1 _ _ (omega arith) λ lo _. Grows-byte input more 2 _ _ h λ atyp _.
          Grows-map (λ t. t) (λ n. 3 + n) _ _ 3 (λ n. omega arith)
            (parse_address-Grows input more (be16 hi lo) atyp)

module _ (input more uuid : List ℕ) where
  parse_addressed-Grows :
      (addons : List ℕ) (command start : ℕ)
      → start ≤ length input
      → Grows waits 0
          (parse_addressed input uuid addons command start)
          (parse_addressed (input ++ more) uuid addons command start)
  unfolding parse_addressed
  parse_addressed-Grows addons command start h =
      let longer = length-append input more in
      Grows-need input more (start + 3) (incomplete (start + 3)) _ _ refl (omega arith)
        (λ a m q. omega (
          arith,
          (parse_addressed-IsSound (input ++ more) uuid addons command start
                (omega (arith, longer))).ends
              a m q,
        ))
        λ k.
          rw
            (
              le→ltb (length input) start h,
              le→ltb (length (input ++ more)) start (omega (arith, longer)),
              drop_grow start input more h,
            )
            (Grows-map _ (λ n. start + n) _ _ 0 (λ n. omega arith)
              (parse_port_address-Grows (drop start input) more))

  parse_command-Grows :
      (addons : List ℕ) (command addons_end : ℕ)
      → addons_end + 1 ≤ length input
      → Grows waits 0
          (parse_command input uuid addons command addons_end)
          (parse_command (input ++ more) uuid addons command addons_end)
  unfolding parse_command
  parse_command-Grows addons command addons_end h = elim (Bool-cases (command == cmd_mux)) [
    | inl e ↦ rw e (same refl)
    | inr e ↦ rw e (parse_addressed-Grows addons command (addons_end + 1) h)
  ]

  parse_addons_field-Grows :
      (n : ℕ)
      → Grows waits 0 (parse_addons_field input uuid n) (parse_addons_field (input ++ more) uuid n)
  unfolding parse_addons_field
  parse_addons_field-Grows n =
      Grows-need input more (18 + n + 1) (incomplete (18 + n + 1)) _ _ refl (omega arith)
        (λ a m q. omega (arith, (parse_addons_field-IsSound (input ++ more) uuid n).ends a m q))
        λ k. Grows-slice input more 18 (18 + n) _ _ (omega arith) (omega arith) λ addons _.
          Grows-byte input more (18 + n) _ _ (omega arith) λ command _.
            Grows-fail
              (not (command == cmd_tcp) && not (command == cmd_udp) && not (command == cmd_mux))
              (unsupported_command command) _ _ λ _. parse_command-Grows addons command (18 + n) k

pub parse_request-Grows :
    (input more : List ℕ) → Grows waits 0 (parse_request input) (parse_request (input ++ more))
unfolding parse_request
parse_request-Grows input more =
    Grows-need input more 18 (incomplete 18) _ _ refl (omega arith)
      (λ a m e. omega (arith, (parse_request-IsSound (input ++ more)).ends a m e))
      λ h. Grows-byte input more 0 _ _ (omega arith) λ version _.
        Grows-fail (not (version == vless_version)) (bad_version version) _ _ λ _.
          Grows-slice input more 1 17 _ _ (omega arith) (omega arith) λ uuid _.
            Grows-byte input more 17 _ _ (omega arith) λ n _.
              Grows-fail (ltb max_addons n) (addons_too_large n) _ _
                λ _. parse_addons_field-Grows input more uuid n
