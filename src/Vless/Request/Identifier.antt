-- ===== src/Vless/Request/Identifier.antt =====
-- The identifier that `parse_request` of vless/parse.rs finds.
use skadi_core.Prelude.{ℕ, ◌≡◌, List, take, drop, arith}
use skadi_core.Prelude.Outcome.{ok}
use skadi_core.Vless.Request.{
  VlessRequest, parse_request, parse_addons_field, parse_command, parse_addressed,
}

pub request_uuid :
    (input : List ℕ) (request : VlessRequest) (n : ℕ)
    → parse_request input ≡ ok (request, n)
    → take 16 (drop 1 input) ≡ request.uuid
unfolding parse_request parse_addons_field parse_command parse_addressed
request_uuid input request n e = grind arith
