-- ===== src/Vless/Request/Bounds.antt =====
-- The parsers of vless/parse.rs on one input: no read is out of bounds, and the bytes used are there.
use skadi_core.Prelude.{
  ℕ, ◌+◌, ◌≤◌, refl, ◌==◌, ◌&&◌, not, ltb, List, arith, length, drop, length-drop, in_bounds,
  Bool-cases, inl, inr, ◌⊎◌, ◌≢◌, le→ltb,
}
use skadi_core.Prelude.Bytes.{be16, IsBytes, byte_lt}
use skadi_core.Prelude.Outcome.{panic}
use skadi_core.Incremental.{IsSound}
use skadi_core.Incremental.Rules.{
  IsSound-need, IsSound-byte, IsSound-fail, IsSound-map, IsSound-part, IsSound-slice, IsSound-lower,
}
use skadi_core.Vless.Request.{
  waits, incomplete, bad_version, addons_too_large, unsupported_command, vless_version, max_addons,
  cmd_tcp, cmd_udp, cmd_mux, atyp_ipv4, atyp_domain, atyp_ipv6, parse_ipv4, parse_domain,
  parse_ipv6, parse_address, parse_port_address, parse_addressed, parse_command, parse_addons_field,
  parse_request,
}

-- With a length byte above 255 the domain arm would ask for bytes that are there; it can not be one.
abbrev Counts : List ℕ → ℕ → Type 0
Counts input base = IsBytes input ⊎ (length input ≤ base)

module _ (input : List ℕ) (port base : ℕ) where
  ipv4-IsSound : IsSound waits base 3 3 (length input) (parse_ipv4 input port 3)
  unfolding parse_ipv4
  ipv4-IsSound = grind (arith, in_bounds)

  domain-IsSound :
      Counts input base → IsSound waits base 3 3 (length input) (parse_domain input port 3)
  unfolding parse_domain
  domain-IsSound (inl h) = grind (arith, in_bounds, byte_lt)
  domain-IsSound (inr h) = grind (arith, in_bounds)

  ipv6-IsSound : IsSound waits base 3 3 (length input) (parse_ipv6 input port 3)
  unfolding parse_ipv6
  ipv6-IsSound = grind (arith, in_bounds)

  parse_address-IsSound :
      (atyp : ℕ)
      → Counts input base
      → IsSound waits base 3 3 (length input) (parse_address input port atyp 3)
  unfolding parse_address
  parse_address-IsSound atyp h = elim (Bool-cases (atyp == atyp_ipv4)) [
    | inl e ↦ rw e ipv4-IsSound
    | inr e ↦ rw e (elim (Bool-cases (atyp == atyp_domain)) [
      | inl e ↦ rw e (domain-IsSound h)
      | inr e ↦ rw e (elim (Bool-cases (atyp == atyp_ipv6)) [
        | inl e ↦ rw e ipv6-IsSound
        | inr e ↦ rw e (grind arith)
      ])
    ])
  ]

pub parse_port_address-IsSound :
    (input : List ℕ) (base : ℕ)
    → Counts input base
    → IsSound waits base 0 3 (length input) (parse_port_address input)
unfolding parse_port_address
parse_port_address-IsSound input base counts =
    IsSound-need input 3 (incomplete 3 (length input)) _ refl λ h.
      IsSound-byte input 0 _ (omega arith) λ hi _. IsSound-byte input 1 _ (omega arith) λ lo _.
        IsSound-byte input 2 _ h λ atyp _.
          IsSound-map (λ t. t) (λ n. 3 + n) _ (λ n. refl)
            (parse_address-IsSound input (be16 hi lo) base atyp counts)

pub parse_port_address-ne-panic : (input : List ℕ) → parse_port_address input ≢ panic
parse_port_address-ne-panic input =
    (parse_port_address-IsSound input (length input) (inr (omega arith))).no_panic

-- The bytes that the address asks for are counted from its own start, so here from anywhere.
module _ (input uuid : List ℕ) where
  pub parse_addressed-IsSound :
      (addons : List ℕ) (command start : ℕ)
      → start ≤ length input
      → IsSound waits
          (length input)
          0
          (start + 3)
          (length input)
          (parse_addressed input uuid addons command start)
  unfolding parse_addressed
  parse_addressed-IsSound addons command start h =
      let rest = drop start input in
      IsSound-need input (start + 3) (incomplete (start + 3) (length input)) _ refl λ k.
        rw (le→ltb (length input) start h) (
          IsSound-map _ (λ n. start + n) _ (λ n. refl)
            (IsSound-part (length input) start (start + 3) (length input) _
              (omega (arith, length-drop start input)) (omega arith) (omega arith)
              (parse_port_address-IsSound rest (length rest) (inr (omega arith)))))

  parse_command-IsSound :
      (addons : List ℕ) (command addons_end : ℕ)
      → addons_end + 1 ≤ length input
      → IsSound waits
          (length input)
          0
          (addons_end + 1)
          (length input)
          (parse_command input uuid addons command addons_end)
  unfolding parse_command
  parse_command-IsSound addons command addons_end h = elim (Bool-cases (command == cmd_mux)) [
    | inl e ↦ rw e (record { no_panic = λ p. cc; asks = inl refl; ends = λ a n q. ground arith })
    | inr e ↦ rw e (
        IsSound-lower (addons_end + 1 + 3) _ _ (omega arith)
          (parse_addressed-IsSound addons command (addons_end + 1) h))
  ]

  pub parse_addons_field-IsSound :
      (n : ℕ)
      → IsSound waits (length input) 0 (18 + n + 1) (length input) (parse_addons_field input uuid n)
  unfolding parse_addons_field
  parse_addons_field-IsSound n =
      IsSound-need input (18 + n + 1) (incomplete (18 + n + 1) (length input)) _ refl λ k.
        IsSound-slice input 18 (18 + n) _ (omega arith) (omega arith) λ addons.
          IsSound-byte input (18 + n) _ (omega arith) λ command _.
            IsSound-fail input
              (not (command == cmd_tcp) && not (command == cmd_udp) && not (command == cmd_mux))
              (unsupported_command command) _ refl
              λ _. parse_command-IsSound addons command (18 + n) k

pub parse_request-IsSound :
    (input : List ℕ) → IsSound waits (length input) 0 19 (length input) (parse_request input)
unfolding parse_request
parse_request-IsSound input = IsSound-need input 18 (incomplete 18 (length input)) _ refl λ h.
    IsSound-byte input 0 _ (omega arith) λ version _.
      IsSound-fail input (not (version == vless_version)) (bad_version version) _ refl λ _.
        IsSound-slice input 1 17 _ (omega arith) (omega arith) λ uuid.
          IsSound-byte input 17 _ (omega arith) λ n _.
            IsSound-fail input (ltb max_addons n) (addons_too_large n) _ refl λ _.
              IsSound-lower (18 + n + 1) 19 _ (omega arith)
                (parse_addons_field-IsSound input uuid n)
