-- ===== src/Server/Tests.antt =====
-- The theorems on the limits of calls and of failed logins at concrete inputs.
use skadi_core.Prelude.{
  ◌+◌, ◌-◌, ◌*◌, ◌≤◌, ◌≡◌, refl, List, min, false, [], ◌∷◌, none, some, arith, ltb,
}
use skadi_core.Endpoint.{IpAddr, v4, ip_eq, octets_eq}
use skadi_core.Server.RateLimit as Api
use skadi_core.Server.RateLimit.Window.{admitted, admitted_rest, admitted_span}
use skadi_core.Server.AuthRateLimit as Auth
use skadi_core.Server.AuthRateLimit.{is_blocked, record_failure, with_states, duration_max}
use skadi_core.Server.AuthRateLimit.Isolation.{Keeps, is_blocked_isolated}
use skadi_core.Server.AuthRateLimit.Ban.{
  Call, fails, tests, failures_of, run_calls, is_blocked-record_failure, record_failure_forgets,
}

abbrev two_calls : Api.LimiterInner
two_calls = record { limit = 2; window = 1000; state = record { start = 5; count = 1 } }

two_admitted : admitted two_calls (6 ∷ 7 ∷ 8 ∷ []) ≡ min 3 (2 - 1)
two_admitted =
    admitted_rest two_calls (6 ∷ 7 ∷ 8 ∷ []) (omega arith, (omega arith, (omega arith, tt)))
      (omega arith)

admitted_span_example : admitted two_calls (900 ∷ 1100 ∷ 1200 ∷ 1300 ∷ []) ≤ 2 * 2
admitted_span_example = admitted_span two_calls 900 (900 ∷ 1100 ∷ 1200 ∷ 1300 ∷ []) (omega arith) (
  (omega arith, omega arith),
  ((omega arith, omega arith), ((omega arith, omega arith), ((omega arith, omega arith), tt))),
)

abbrev client : IpAddr
client = v4 (record { a = 203; b = 0; c = 113; d = 1 })

abbrev neighbour : IpAddr
neighbour = v4 (record { a = 203; b = 0; c = 113; d = 2 })

abbrev three_failures : Auth.LimiterInner
three_failures = record {
  max_failures = 3;
  window = 600;
  ban_base = 60;
  ban_max = 3600;
  states = λ _. none;
}

abbrev long_banned : Auth.IpState
long_banned = record { failures = 0; window_start = 1000; blocked_until = some 1960; ban_level = 4 }

abbrev after_bans : Auth.LimiterInner
after_bans = record {
  max_failures = 3;
  window = 600;
  ban_base = 60;
  ban_max = 3600;
  states = λ _. some long_banned;
}

is_blocked_isolated_example :
    let tested = (is_blocked after_bans client 1500).1 in
    let failed = record_failure after_bans client 1500 in
    ((is_blocked tested neighbour 1600).0 ≡ (is_blocked after_bans neighbour 1600).0)
    × Keeps 600 1500 (some long_banned) (tested.states neighbour)
    × (ip_eq client neighbour ≡ false
        → ((is_blocked failed neighbour 1600).0 ≡ (is_blocked after_bans neighbour 1600).0)
          × Keeps 600 1500 (some long_banned) (failed.states neighbour))
is_blocked_isolated_example =
    is_blocked_isolated after_bans client neighbour 1500 1600 (omega arith)

-- One more failure of the client, between tests of it and a failure of its neighbour.
abbrev mixed_calls : List Call
mixed_calls = tests client 120 ∷ fails neighbour 130 ∷ fails client 150 ∷ tests client 160 ∷ []

one_failure : failures_of client mixed_calls ≡ 1
unfolding failures_of ip_eq octets_eq
one_failure = refl

is_blocked-record_failure_example :
    let before = run_calls (record_failure three_failures client 100) mixed_calls in
    ((is_blocked before client 260).0 ≡ false)
    × ((is_blocked (record_failure before client 200) client 260).0
        ≡ ltb 260 (200 + min (min (60 * 2) duration_max) 3600))
is_blocked-record_failure_example =
    is_blocked-record_failure three_failures client 100 200 260 mixed_calls refl
      (omega (arith, one_failure)) (omega arith, (omega arith, (omega arith, (omega arith, tt))))
      (omega arith) (omega arith)

failure_forgotten :
    (record_failure after_bans client 2000).states client
    ≡ (record_failure (with_states after_bans (λ _. none)) client 2000).states client
failure_forgotten =
    record_failure_forgets after_bans client 2000 1960 long_banned refl refl refl (omega arith)
      (omega arith)
