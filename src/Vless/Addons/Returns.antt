-- ===== src/Vless/Addons/Returns.antt =====
-- The loops of vless/addons.rs end, within the data, on any input.
use skadi_core.Prelude.{
  ℕ, zero, suc, ◌+◌, ◌≤◌, ◌<◌, ◌≢◌, ◌==◌, ◌&&◌, not, List, [], ltb, length, arith, ltb→lt, ltb→le,
  drop, length-take, ◌-◌,
}
use Prim.Native.Nat.{bit_and}
use skadi_core.Prelude.Bytes.{is_utf8}
use skadi_core.Prelude.Outcome.{Outcome, panic, fail_if, byte_at_some, slice_some}
use skadi_core.Prelude.Lands.{
  Lands, returns, fails, Lands-ne-panic, Lands-bind, Lands-map, Lands-if, Lands-fail_if,
}
use skadi_core.Vless.Addons.{
  AddonsError, VlessAddons, truncated, varint_loop, read_varint, read_tag, skip_varint,
  read_length_delimited, skip_field, flow_step, fields_loop, parse_flow_message, addons_step,
  parse_addons, max_nested, max_seed, max_addons_skip, usize_max,
}

-- An end behind an offset and within the data.
abbrev IsPast : {A : Type 0} → ℕ → ℕ → A × ℕ → Type 0
IsPast offset size r = (offset < r.1) × (r.1 ≤ size)

varint_loop-Lands :
    (steps : ℕ) (bytes : List ℕ) (pos shift result : ℕ)
    → Lands (IsPast pos (length bytes)) (varint_loop steps bytes pos shift result)
unfolding varint_loop
varint_loop-Lands zero bytes pos shift result = fails truncated
varint_loop-Lands (suc steps) bytes pos shift result =
    Lands-if (ltb pos (length bytes)) _ _
      (λ e.
        let inside = ltb→lt pos (length bytes) e in
        let (byte, f) = byte_at_some {E = AddonsError} bytes pos inside in
        rw f (
          Lands-if (bit_and byte 0x80 == 0) _ _
            (λ _. returns _ (omega arith, omega (arith, inside)))
            λ _.
              Lands-if (ltb 63 (shift + 7)) _ _ (λ _. fails _)
                λ _.
                  Lands-map _ (λ r h. (omega (arith, h.0), h.1))
                    (varint_loop-Lands steps bytes (pos + 1) (shift + 7) _)))
      λ _. fails _

read_tag-Lands :
    (bytes : List ℕ) (offset : ℕ)
    → Lands
        (λ (tag, wire_type, next). (offset < next) × (next ≤ length bytes))
        (read_tag bytes offset)
unfolding read_tag
read_tag-Lands bytes offset =
    Lands-bind (read_varint bytes offset) _ (varint_loop-Lands 10 bytes offset 0 0)
      λ (value, next) h. returns _ h

read_length_delimited-Lands :
    (bytes : List ℕ) (offset max_len : ℕ)
    → Lands
        (λ r. (offset < r.1) × (length r.0 ≤ length bytes))
        (read_length_delimited bytes offset max_len)
unfolding read_length_delimited
read_length_delimited-Lands bytes offset max_len =
    Lands-bind (read_varint bytes offset) _ (varint_loop-Lands 10 bytes offset 0 0)
      λ (len, next) (h, k).
        Lands-bind (fail_if (ltb max_len len) _) _ (Lands-fail_if (ltb max_len len) _) λ _ _.
          Lands-bind (fail_if (ltb (length bytes) (next + len)) _) _
            (Lands-fail_if (ltb (length bytes) (next + len)) _)
            λ _ e.
              let inside = ltb→le (length bytes) (next + len) e in
              rw (slice_some {E = AddonsError} bytes next (next + len) (omega arith) inside) (
                returns _ (
                  omega (arith, h),
                  omega (arith, length-take (next + len - next) (drop next bytes), inside),
                ))

skip_field-Lands :
    (bytes : List ℕ) (wire_type offset max_len : ℕ)
    → offset ≤ length bytes
    → length bytes < usize_max
    → Lands (λ next. offset < next) (skip_field bytes wire_type offset max_len)
unfolding skip_field skip_varint
skip_field-Lands bytes wire_type offset max_len h s =
    Lands-if (wire_type == 0) _ _
      (λ _.
        Lands-bind (read_varint bytes offset) _ (varint_loop-Lands 10 bytes offset 0 0)
          λ (value, next) (k, _). returns _ k)
      λ _.
        Lands-if (wire_type == 1) _ _ (λ _. returns _ (omega (arith, h, s)))
          λ _.
            Lands-if (wire_type == 2) _ _
              (λ _.
                Lands-bind (read_length_delimited bytes offset max_len) _
                  (read_length_delimited-Lands bytes offset max_len)
                  λ (part, next) (k, _). returns _ k)
              λ _. Lands-if (wire_type == 5) _ _ (λ _. returns _ (omega (arith, h, s))) λ _. fails _

fields_loop-Lands :
    {S : Type 0} (step : ℕ → S → Outcome AddonsError (S × ℕ)) (size passes offset : ℕ) (state : S)
    → ((at : ℕ) (s : S) → Lands (λ r. at < r.1) (step at s))
    → size ≤ passes + offset
    → Lands (λ _. Unit {0}) (fields_loop step size passes offset state)
unfolding fields_loop
fields_loop-Lands step size zero offset state h k =
    Lands-if (ltb offset size) _ _ (λ e. absurd (omega (arith, ltb→lt offset size e, k)))
      λ _. returns state tt
fields_loop-Lands step size (suc passes) offset state h k =
    Lands-if (ltb offset size) _ _
      (λ _. Lands-bind (step offset state) _ (h offset state) λ (after, next) past.
        fields_loop-Lands step size passes next after h (omega (arith, k, past)))
      λ _. returns state tt

flow_step-Lands :
    (bytes : List ℕ) (offset : ℕ) (flow : List ℕ)
    → length bytes < usize_max
    → Lands (λ r. offset < r.1) (flow_step bytes offset flow)
unfolding flow_step
flow_step-Lands bytes offset flow s =
    Lands-bind (read_tag bytes offset) _ (read_tag-Lands bytes offset)
      λ (tag, wire_type, next) (h, k).
        Lands-if (tag == 1 && wire_type == 2) _ _
          (λ _.
            Lands-bind (read_length_delimited bytes next max_nested) _
              (read_length_delimited-Lands bytes next max_nested)
              λ (value, after) (p, _).
                Lands-bind (fail_if (not (is_utf8 value)) truncated) _
                  (Lands-fail_if (not (is_utf8 value)) truncated)
                  λ _ _. returns _ (omega (arith, h, p)))
          λ _.
            Lands-bind (skip_field bytes wire_type next max_nested) _
              (skip_field-Lands bytes wire_type next max_nested k s)
              λ after p. returns _ (omega (arith, h, p))

parse_flow_message-Lands :
    (bytes : List ℕ) → length bytes < usize_max → Lands (λ _. Unit {0}) (parse_flow_message bytes)
unfolding parse_flow_message
parse_flow_message-Lands bytes s =
    fields_loop-Lands (flow_step bytes) (length bytes) (length bytes) 0 []
      (λ at flow. flow_step-Lands bytes at flow s) (omega arith)

addons_step-Lands :
    (bytes : List ℕ) (offset : ℕ) (addons : VlessAddons)
    → length bytes < usize_max
    → Lands (λ r. offset < r.1) (addons_step bytes offset addons)
unfolding addons_step
addons_step-Lands bytes offset addons s =
    Lands-bind (read_tag bytes offset) _ (read_tag-Lands bytes offset)
      λ (tag, wire_type, next) (h, k).
        Lands-if (tag == 1 && wire_type == 2) _ _
          (λ _.
            Lands-bind (read_length_delimited bytes next max_nested) _
              (read_length_delimited-Lands bytes next max_nested)
              λ (nested, after) (p, q).
                Lands-bind (parse_flow_message nested) _
                  (parse_flow_message-Lands nested (omega (arith, q, s)))
                  λ flow _. returns _ (omega (arith, h, p)))
          λ _.
            Lands-if (tag == 2 && wire_type == 2) _ _
              (λ _.
                Lands-bind (read_length_delimited bytes next max_seed) _
                  (read_length_delimited-Lands bytes next max_seed)
                  λ (seed, after) (p, q). returns _ (omega (arith, h, p)))
              λ _.
                Lands-bind (skip_field bytes wire_type next max_addons_skip) _
                  (skip_field-Lands bytes wire_type next max_addons_skip k s)
                  λ after p. returns _ (omega (arith, h, p))

-- On any data that fits into memory the parser of the addons returns: it never reads past the end, and the
-- passes that its loops are given are enough.
pub parse_addons-ne-panic : (bytes : List ℕ) → length bytes < usize_max → parse_addons bytes ≢ panic
unfolding parse_addons
parse_addons-ne-panic bytes s = Lands-ne-panic _ (
    fields_loop-Lands (addons_step bytes) (length bytes) (length bytes) 0 _
      (λ at addons. addons_step-Lands bytes at addons s) (omega arith))
