-- ===== src/Vless/Addons/Flow.antt =====
-- The flow that vless/addons.rs writes, reads and accepts.
use Prim.Native.Nat.{bit_and, bit_or}
use skadi_core.Prelude.{
  ℕ, zero, suc, ◌+◌, ◌*◌, ◌%◌, ◌≤◌, ◌<◌, ◌≡◌, ◌≢◌, refl, true, List, [], ◌∷◌, Option, none, some,
  length, arith, take-all, lt→ltb, le→ltb, Bool-cases, inl, inr,
}
use skadi_core.Prelude.Bytes.{is_utf8, agree_below, agree_below→eq}
use skadi_core.Prelude.Outcome.{Outcome, ok, >>=-returns}
use skadi_core.Endpoint.{octets_eq}
use skadi_core.Vless.Addons.{
  AddonsError, varint_loop, read_tag, read_length_delimited, flow_step, fields_loop,
  parse_flow_message, addons_step, parse_addons, build_flow_message, build_addons_with_flow,
  check_flow, check_user_flow, validate_flow, max_nested, is_empty, same_flow, flow_xtls_vision,
}

no_top_bit : (b : ℕ) → b < 128 → bit_and b 0x80 ≡ 0
unfolding agree_below
no_top_bit = agree_below→eq _ _ 128 refl

only_bits : (b : ℕ) → b < 128 → bit_or 0 (bit_and b 0x7f * 1 % 18446744073709551616) ≡ b
unfolding agree_below
only_bits = agree_below→eq _ _ 128 refl

one_byte :
    (steps b x : ℕ) (rest : List ℕ)
    → b < 128
    → varint_loop (suc steps) (x ∷ b ∷ rest) 1 0 0 ≡ ok (b, 2)
unfolding varint_loop
one_byte steps b x rest h =
    rw (lt→ltb 1 (suc (suc (length rest))) (omega arith), no_top_bit b h, only_bits b h) refl

tag_one : (rest : List ℕ) → read_tag (10 ∷ rest) 0 ≡ ok (1, 2, 1)
unfolding read_tag varint_loop
tag_one rest = rw (lt→ltb 0 (suc (length rest)) (omega arith)) refl

-- A field that is all of the data.
whole_field :
    (part : List ℕ)
    → length part ≤ 127
    → read_length_delimited (10 ∷ length part ∷ part) 1 max_nested ≡ ok (part, 2 + length part)
unfolding read_length_delimited
whole_field part h =
    rw (one_byte 9 (length part) 10 part (omega arith))
      (ground (arith, take-all (length part) part (omega arith)))

module _ {S : Type 0} (step : ℕ → S → Outcome AddonsError (S × ℕ)) (size : ℕ) where
  fields_loop_done :
      (passes offset : ℕ) (state : S)
      → size ≤ offset
      → fields_loop step size passes offset state ≡ ok state
  unfolding fields_loop
  fields_loop_done zero offset state h = rw (le→ltb offset size h) refl
  fields_loop_done (suc passes) offset state h = rw (le→ltb offset size h) refl

  fields_loop_once :
      (passes next : ℕ) (state after : S)
      → 0 < size
      → size ≤ next
      → step 0 state ≡ ok (after, next)
      → fields_loop step size (suc passes) 0 state ≡ ok after
  unfolding fields_loop
  fields_loop_once passes next state after h k e =
      rw (lt→ltb 0 size h, e) (fields_loop_done passes next after k)

flow_step_whole :
    (flow : List ℕ)
    → is_utf8 flow ≡ true
    → length flow ≤ 125
    → flow_step (10 ∷ length flow ∷ flow) 0 [] ≡ ok (flow, 2 + length flow)
unfolding flow_step
flow_step_whole flow v h = rw (tag_one (length flow ∷ flow), whole_field flow (omega arith), v) refl

parse_flow_message-build :
    (flow : List ℕ)
    → is_utf8 flow ≡ true
    → length flow ≤ 125
    → parse_flow_message (build_flow_message flow) ≡ ok flow
unfolding parse_flow_message build_flow_message
parse_flow_message-build flow v h = rw (fits (length flow) h) (
    fields_loop_once (flow_step (10 ∷ length flow ∷ flow)) (suc (suc (length flow)))
      (suc (length flow)) (2 + length flow) [] flow (omega arith) (omega arith)
      (flow_step_whole flow v h))
  where
    fits : (n : ℕ) → n ≤ 125 → n % 256 ≡ n
    fits n k = omega arith

-- A flow of at most 125 bytes of UTF-8 that was written into addons is read back, and nothing else.
pub parse_addons-build :
    (flow : List ℕ)
    → is_utf8 flow ≡ true
    → length flow ≤ 125
    → parse_addons (build_addons_with_flow flow) ≡ ok (record { flow = some flow; seed = none })
unfolding parse_addons build_addons_with_flow
parse_addons-build flow v h = rw fits (
    fields_loop_once (addons_step (10 ∷ length message ∷ message)) (suc (suc (length message)))
      (suc (length message)) (2 + length message) _ _ (omega arith) (omega arith) step)
  where
    message : List ℕ
    message = build_flow_message flow

    short : length message ≤ 127
    short = unfold build_flow_message in omega arith

    fits : length message % 256 ≡ length message
    fits = omega (arith, short)

    step :
        addons_step (10 ∷ length message ∷ message) 0 (record { flow = none; seed = none })
        ≡ ok (record { flow = some flow; seed = none }, 2 + length message)
    step =
        unfold addons_step in
        rw
          (
            tag_one (length message ∷ message),
            whole_field message short,
            parse_flow_message-build flow v h,
          )
          refl

-- No flow, or an empty one.
abbrev pub IsUnset : Option (List ℕ) → Type 0
IsUnset none = Unit
IsUnset (some []) = Unit
IsUnset (some (x ∷ xs)) = ⊥

check_flow_set : (x : ℕ) (xs : List ℕ) → check_flow (some (x ∷ xs)) ≢ ok tt
unfolding check_flow is_empty
check_flow_set x xs = elim (Bool-cases (octets_eq (x ∷ xs) flow_xtls_vision)) [
  | inl e ↦ rw e (λ p. cc)
  | inr e ↦ rw e (λ p. cc)
]

-- The test of the flow passes exactly when neither the request nor the user names one, or only an empty one.
pub validate_flow_lem :
    (flow user_flow : Option (List ℕ))
    → (validate_flow flow user_flow ≡ ok tt → IsUnset flow × IsUnset user_flow)
      × (IsUnset flow → IsUnset user_flow → validate_flow flow user_flow ≡ ok tt)
unfolding validate_flow check_flow check_user_flow is_empty same_flow octets_eq
validate_flow_lem none none = ((λ _. (tt, tt)), λ _ _. refl)
validate_flow_lem none (some []) = ((λ _. (tt, tt)), λ _ _. refl)
validate_flow_lem none (some (y ∷ ys)) = ((λ p. cc), λ _ h. elim h [ ])
validate_flow_lem (some []) none = ((λ _. (tt, tt)), λ _ _. refl)
validate_flow_lem (some []) (some []) = ((λ _. (tt, tt)), λ _ _. refl)
validate_flow_lem (some []) (some (y ∷ ys)) = ((λ p. cc), λ _ h. elim h [ ])
validate_flow_lem (some (x ∷ xs)) user_flow = (
  (λ p.
      let (_, e, _) =
        >>=-returns (check_flow (some (x ∷ xs))) (λ _. check_user_flow (some (x ∷ xs)) user_flow) tt
          p in
      absurd (check_flow_set x xs e)),
  λ h. elim h [ ],
)
