-- ===== src/Vless/Addons.antt =====
-- crates/skadi-protocol/src/vless/addons.rs: the protobuf field of a request that names its flow.
pub mod Returns
pub mod Flow
pub mod Tests
use Prim.Native.Nat.{bit_and, bit_or}
use skadi_core.Prelude.{
  ℕ, zero, suc, ◌+◌, ◌*◌, ◌/◌, ◌%◌, ◌^◌, ◌&&◌, min, not, Bool, true, false, List, [], ◌∷◌, ◌++◌,
  Option, none, some, ltb, leb, ◌==◌, if◌then◌else◌, length,
}
use skadi_core.Prelude.Bytes.{codes, is_utf8}
use skadi_core.Prelude.Outcome.{Outcome, ok, err, panic, ◌>>=◌, ◌>>◌, fail_if, byte_at, slice}
use skadi_core.Endpoint.{octets_eq}

abbrev pub flow_xtls_vision : List ℕ
flow_xtls_vision = codes "xtls-rprx-vision"

pub record VlessAddons : Type 0 where
  pub flow : Option (List ℕ)
  pub seed : Option (List ℕ)

pub data AddonsError : Type 0 where
  truncated : AddonsError
  invalid_wire_type : ℕ → AddonsError
  flow_too_large : ℕ → AddonsError
  seed_too_large : ℕ → AddonsError

abbrev pub max_nested : ℕ
max_nested = 128

abbrev pub max_seed : ℕ
max_seed = 64

abbrev pub max_addons_skip : ℕ
max_addons_skip = 512

abbrev pub usize_max : ℕ
usize_max = 18446744073709551615

-- The loop of `read_varint`. The tenth step is the last one: behind it `shift > 63`.
pub varint_loop : ℕ → List ℕ → ℕ → ℕ → ℕ → Outcome AddonsError (ℕ × ℕ)
varint_loop zero bytes pos shift result = err truncated
varint_loop (suc steps) bytes pos shift result =
    if ltb pos (length bytes)
    then (do
      byte ← byte_at bytes pos
      let value = bit_or result (bit_and byte 0x7f * 2 ^ shift % 18446744073709551616)
      if bit_and byte 0x80 == 0
          then ok (value, pos + 1)
          else if ltb 63 (shift + 7)
          then err truncated
          else varint_loop steps bytes (pos + 1) (shift + 7) value)
    else err truncated

abbrev pub read_varint : List ℕ → ℕ → Outcome AddonsError (ℕ × ℕ)
read_varint bytes offset = varint_loop 10 bytes offset 0 0

-- The tag, the wire type and the end.
pub read_tag : List ℕ → ℕ → Outcome AddonsError (ℕ × ℕ × ℕ)
read_tag bytes offset = do
  (value, next) ← read_varint bytes offset
  ok (value / 8 % 4294967296, bit_and value 0x07 % 256, next)

pub skip_varint : List ℕ → ℕ → Outcome AddonsError ℕ
skip_varint bytes offset = do (_, next) ← read_varint bytes offset; ok next

pub read_length_delimited : List ℕ → ℕ → ℕ → Outcome AddonsError (List ℕ × ℕ)
read_length_delimited bytes offset max_len = do
  (len, next) ← read_varint bytes offset
  fail_if (ltb max_len len) (if max_len == max_seed then seed_too_large len else flow_too_large len)
  fail_if (ltb (length bytes) (next + len)) truncated
  part ← slice bytes next (next + len)
  ok (part, next + len)

abbrev pub saturating_add : ℕ → ℕ → ℕ
saturating_add a b = min (a + b) usize_max

-- The arms for a field that is passed over.
pub skip_field : List ℕ → ℕ → ℕ → ℕ → Outcome AddonsError ℕ
skip_field bytes wire_type offset max_len =
    if wire_type == 0
    then skip_varint bytes offset
    else if wire_type == 1
    then ok (saturating_add offset 8)
    else if wire_type == 2
    then (do (_, next) ← read_length_delimited bytes offset max_len; ok next)
    else if wire_type == 5
    then ok (saturating_add offset 4)
    else err (invalid_wire_type wire_type)

-- One pass of the loop of `parse_flow_message`.
pub flow_step : List ℕ → ℕ → List ℕ → Outcome AddonsError (List ℕ × ℕ)
flow_step bytes offset flow_type = do
  (tag, wire_type, next) ← read_tag bytes offset
  if tag == 1 && wire_type == 2
      then (do
        (value, after) ← read_length_delimited bytes next max_nested
        fail_if (not (is_utf8 value)) truncated
        ok (value, after))
      else (do after ← skip_field bytes wire_type next max_nested; ok (flow_type, after))

-- A loop that reads one field after the other, as long as the offset lies within the data. It is given
-- enough passes; without one left it would panic.
unfoldable pub fields_loop :
    {S : Type 0} → (ℕ → S → Outcome AddonsError (S × ℕ)) → ℕ → ℕ → ℕ → S → Outcome AddonsError S
fields_loop step size zero offset state = if ltb offset size then panic else ok state
fields_loop step size (suc passes) offset state =
    if ltb offset size
    then (do (state_after, next) ← step offset state; fields_loop step size passes next state_after)
    else ok state

pub parse_flow_message : List ℕ → Outcome AddonsError (List ℕ)
parse_flow_message bytes = fields_loop (flow_step bytes) (length bytes) (length bytes) 0 []

-- One pass of the loop of `parse_addons`.
pub addons_step : List ℕ → ℕ → VlessAddons → Outcome AddonsError (VlessAddons × ℕ)
addons_step bytes offset addons = do
  (tag, wire_type, next) ← read_tag bytes offset
  if tag == 1 && wire_type == 2
      then (do
        (nested, after) ← read_length_delimited bytes next max_nested
        flow ← parse_flow_message nested
        ok (record { flow = some flow; seed = addons.seed }, after))
      else if tag == 2 && wire_type == 2
      then (do
        (seed, after) ← read_length_delimited bytes next max_seed
        ok (record { flow = addons.flow; seed = some seed }, after))
      else (do after ← skip_field bytes wire_type next max_addons_skip; ok (addons, after))

-- On empty data the loop returns at once, as the test in front of it does.
unfoldable pub parse_addons : List ℕ → Outcome AddonsError VlessAddons
parse_addons bytes =
    fields_loop (addons_step bytes) (length bytes) (length bytes) 0
      (record { flow = none; seed = none })

pub data UnsupportedFlow : Type 0 where
  vision : UnsupportedFlow
  unknown : List ℕ → UnsupportedFlow
  mismatch : List ℕ → Option (List ℕ) → UnsupportedFlow

pub is_empty : List ℕ → Bool
is_empty [] = true
is_empty (x ∷ xs) = false

-- The test of the flow that the request names.
unfoldable pub check_flow : Option (List ℕ) → Outcome UnsupportedFlow (Unit {0})
unfolding is_empty
check_flow none = ok tt
check_flow (some flow) =
    if octets_eq flow flow_xtls_vision
    then err vision
    else if is_empty flow
    then ok tt
    else err (unknown flow)

pub same_flow : Option (List ℕ) → List ℕ → Bool
same_flow none expected = false
same_flow (some flow) expected = octets_eq flow expected

-- The test against the flow that the user is configured with.
unfoldable pub check_user_flow :
    Option (List ℕ) → Option (List ℕ) → Outcome UnsupportedFlow (Unit {0})
unfolding is_empty same_flow
check_user_flow flow none = ok tt
check_user_flow flow (some expected) =
    if not (is_empty expected) && not (same_flow flow expected)
    then err (mismatch expected flow)
    else ok tt

unfoldable pub validate_flow :
    Option (List ℕ) → Option (List ℕ) → Outcome UnsupportedFlow (Unit {0})
validate_flow flow user_flow = check_flow flow >> check_user_flow flow user_flow

pub build_flow_message : List ℕ → List ℕ
build_flow_message flow = 0x0a ∷ (length flow % 256) ∷ flow

pub build_addons_with_flow : List ℕ → List ℕ
build_addons_with_flow flow =
    0x0a ∷ (length (build_flow_message flow) % 256) ∷ build_flow_message flow
