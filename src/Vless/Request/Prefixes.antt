-- ===== src/Vless/Request/Prefixes.antt =====
-- `parse_request` on a request that has not arrived whole.
use mathlib.Core.List.{append-nil}
use skadi_core.Prelude.{ℕ, ◌≡◌, ◌≢◌, refl, List, [], ◌∷◌, ◌++◌, length, arith, length-append}
use skadi_core.Prelude.Bytes.{IsBytes}
use skadi_core.Prelude.Outcome.{Outcome, ok, err, panic}
use skadi_core.Endpoint.{Endpoint, IsEndpoint, IsShort}
use skadi_core.Incremental.{wanted}
use skadi_core.Incremental.Messages.{prefix_asks}
use skadi_core.Vless.Request.{
  ParseError, waits, incomplete, parse_request, build_tcp_endpoint_request, cmd_tcp,
}
use skadi_core.Vless.Request.Safety.{parse_request-IsDecisive}
use skadi_core.Vless.Request.Builders.{parse_request-build_endpoint}

asks-incomplete :
    {A : Type 0} (r : Outcome ParseError A)
    → wanted waits r ≢ 0
    → (need : ℕ) × (have : ℕ) × (r ≡ err (incomplete need have))
asks-incomplete (ok a) h = absurd (h refl)
asks-incomplete (err (incomplete need have)) h = (need, have, refl)
asks-incomplete (err e) h = absurd (h refl)
asks-incomplete panic h = absurd (h refl)

-- Every proper prefix of the TCP request that the client builds, for a UUID of 16 bytes and an endpoint
-- within the ranges of its types whose host name has 1 to 255 bytes, is answered by `Incomplete`.
pub parse_request_prefix :
    (uuid front back : List ℕ) (x : ℕ) (target : Endpoint)
    → length uuid ≡ 16
    → IsEndpoint target
    → IsShort target
    → IsBytes front
    → build_tcp_endpoint_request uuid target ≡ front ++ (x ∷ back)
    → (need : ℕ) × (have : ℕ) × (parse_request front ≡ err (incomplete need have))
parse_request_prefix uuid front back x target u e s b split =
    asks-incomplete (parse_request front) (
      prefix_asks parse_request-IsDecisive front (x ∷ back) _ _ b whole
        (omega (arith, length-append front (x ∷ back))))
  where
    whole :
        parse_request (front ++ (x ∷ back))
        ≡ ok (
          record { uuid = uuid; command = cmd_tcp; addons = []; target = target },
          length (front ++ (x ∷ back)),
        )
    whole = rw (append-nil, split) at ((parse_request-build_endpoint uuid [] target u e s).0)
