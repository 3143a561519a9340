-- ===== src/Server/AuthRateLimit.antt =====
-- crates/skadi-server/src/auth_rate_limit.rs: bans on addresses whose logins fail. An instant and a
-- duration are numbers of nanoseconds; `Instant::now()` is an argument.
pub mod Isolation
pub mod Ban
use skadi_core.Prelude.{
  ℕ, ◌+◌, ◌-◌, ◌*◌, ◌^◌, ◌≡◌, min, Bool, true, false, ◌||◌, List, [], ◌∷◌, Option, none, some, ltb,
  leb, ◌==◌, if◌then◌else◌,
}
use skadi_core.Endpoint.{IpAddr, ip_eq}

pub record IpState : Type 0 where
  pub failures : ℕ
  pub window_start : ℕ
  pub blocked_until : Option ℕ
  pub ban_level : ℕ

-- `HashMap<IpAddr, IpState>`, as the function that looks an address up.
abbrev pub States : Type 0
States = IpAddr → Option IpState

pub record LimiterInner : Type 0 where
  pub max_failures : ℕ
  pub window : ℕ
  pub ban_base : ℕ
  pub ban_max : ℕ
  pub states : States

pub record AuthRateLimitConfig : Type 0 where
  pub enabled : Bool
  pub max_failures : Option ℕ
  pub window_secs : ℕ
  pub ban_base_secs : ℕ
  pub ban_max_secs : ℕ

-- `Duration::from_secs`
abbrev pub from_secs : ℕ → ℕ
from_secs secs = secs * 1000000000

-- `Duration::MAX`
abbrev pub duration_max : ℕ
duration_max = 18446744073709551615 * 1000000000 + 999999999

pub from_config : AuthRateLimitConfig → Option LimiterInner
from_config config =
    if config.enabled
    then (elim config.max_failures [
      | none ↦ none
      | some n ↦
          if n == 0
          then none
          else some (record {
            max_failures = n;
            window = from_secs config.window_secs;
            ban_base = from_secs config.ban_base_secs;
            ban_max = from_secs config.ban_max_secs;
            states = λ _. none;
          })
    ])
    else none

abbrev pub with_states : LimiterInner → States → LimiterInner
with_states limiter states = record {
  max_failures = limiter.max_failures;
  window = limiter.window;
  ban_base = limiter.ban_base;
  ban_max = limiter.ban_max;
  states = states;
}

-- `guard.insert(ip, state)`, and a write through `&mut` to the state of `ip`.
pub insert : States → IpAddr → IpState → States
insert states ip state key = if ip_eq ip key then some state else states key

-- `state.blocked_until.is_some_and(|until| now < until)`
pub ban_active : IpState → ℕ → Bool
ban_active state now = elim state.blocked_until [ none ↦ false | some until ↦ ltb now until ]

pub keeps : ℕ → ℕ → IpState → Bool
keeps window now state =
    ltb (now - state.window_start) window || ban_active state now || ltb 0 state.failures

pub retained : ℕ → ℕ → Option IpState → Option IpState
retained window now none = none
retained window now (some state) = if keeps window now state then some state else none

-- The states that `cleanup_expired` leaves.
abbrev pub cleanup_expired : LimiterInner → ℕ → States
cleanup_expired limiter now key = retained limiter.window now (limiter.states key)

-- `match guard.get_mut(&ip)`: the answer of `is_blocked` and the states behind it.
pub look_up : States → IpAddr → ℕ → Option IpState → Bool × States
look_up states ip now none = (false, states)
look_up states ip now (some state) = elim state.blocked_until [
  | none ↦ (false, states)
  | some until ↦ if ltb now until then (true, states) else (
    false,
    insert states ip (record {
      failures = state.failures;
      window_start = state.window_start;
      blocked_until = none;
      ban_level = state.ban_level;
    }),
  )
]

pub is_blocked : LimiterInner → IpAddr → ℕ → Bool × LimiterInner
is_blocked limiter ip now =
    let states = cleanup_expired limiter now in
    let (answer, after) = look_up states ip now (states ip) in (answer, with_states limiter after)

-- `guard.entry(ip).or_insert_with(..)`
abbrev pub entry : Option IpState → ℕ → IpState
entry none now = record { failures = 0; window_start = now; blocked_until = none; ban_level = 0 }
entry (some state) now = state

-- The window is over: the count starts again.
pub renew : ℕ → ℕ → IpState → IpState
renew window now state =
    if leb window (now - state.window_start)
    then record {
      failures = 0;
      window_start = now;
      blocked_until = state.blocked_until;
      ban_level = state.ban_level;
    }
    else state

-- `u32::saturating_add(1)`
pub next_level : ℕ → ℕ
next_level level = min (level + 1) 4294967295

pub ban_for : LimiterInner → ℕ → ℕ
ban_for limiter level = min (min (limiter.ban_base * 2 ^ min level 10) duration_max) limiter.ban_max

-- The state after one more failure, from `state.failures += 1` on.
pub count_failure : LimiterInner → ℕ → IpState → IpState
count_failure limiter now state =
    if ltb (state.failures + 1) limiter.max_failures
    then record {
      failures = state.failures + 1;
      window_start = state.window_start;
      blocked_until = state.blocked_until;
      ban_level = state.ban_level;
    }
    else (let level = next_level state.ban_level in
        record {
          failures = 0;
          window_start = now;
          blocked_until = some (now + ban_for limiter level);
          ban_level = level;
        })

pub record_failure : LimiterInner → IpAddr → ℕ → LimiterInner
record_failure limiter ip now =
    let states = cleanup_expired limiter now in
    let state = renew limiter.window now (entry (states ip) now) in
    with_states limiter (insert states ip (count_failure limiter now state))
