-- ===== src/Vless/Addons/Tests.antt =====
-- Runs of vless/addons.rs and its theorems at concrete inputs.
use skadi_core.Prelude.{◌≡◌, ◌≢◌, refl, [], ◌∷◌, none, some, arith}
use skadi_core.Prelude.Bytes.{is_utf8}
use skadi_core.Prelude.Outcome.{ok, err, panic}
use skadi_core.Endpoint.{octets_eq}
use skadi_core.Vless.Addons.{
  vision, flow_xtls_vision, varint_loop, read_tag, skip_field, fields_loop, addons_step,
  parse_addons, build_addons_with_flow, check_flow, validate_flow,
}
use skadi_core.Vless.Addons.Returns.{parse_addons-ne-panic}
use skadi_core.Vless.Addons.Flow.{IsUnset, parse_addons-build, validate_flow_lem}

reject_vision : validate_flow (some flow_xtls_vision) none ≡ err vision
unfolding validate_flow check_flow octets_eq
reject_vision = refl

-- A fixed-width field that the data cuts short is accepted.
cut_fixed_field : parse_addons (0x19 ∷ []) ≡ ok (record { flow = none; seed = none })
unfolding parse_addons fields_loop addons_step read_tag varint_loop skip_field
cut_fixed_field = refl

flow_parses :
    parse_addons (build_addons_with_flow flow_xtls_vision)
    ≡ ok (record { flow = some flow_xtls_vision; seed = none })
unfolding is_utf8
flow_parses = parse_addons-build flow_xtls_vision refl (omega arith)

parse_addons-ne-panic_example : parse_addons (0x0a ∷ 0xff ∷ 0x01 ∷ []) ≢ panic
parse_addons-ne-panic_example = parse_addons-ne-panic (0x0a ∷ 0xff ∷ 0x01 ∷ []) (omega arith)

flows_refused :
    (validate_flow (some []) (some flow_xtls_vision) ≡ ok tt
      → IsUnset (some []) × IsUnset (some flow_xtls_vision))
    × (IsUnset (some [])
        → IsUnset (some flow_xtls_vision)
        → validate_flow (some []) (some flow_xtls_vision) ≡ ok tt)
flows_refused = validate_flow_lem (some []) (some flow_xtls_vision)
