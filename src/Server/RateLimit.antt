-- ===== src/Server/RateLimit.antt =====
-- crates/skadi-server/src/api/rate_limit.rs: the fixed-window limit on calls. An instant and a duration
-- are numbers of nanoseconds; `Instant::now()` is an argument.
pub mod Window
use skadi_core.Prelude.{
  ℕ, ◌+◌, ◌-◌, ◌≡◌, Bool, true, false, List, [], ◌∷◌, Option, none, some, ltb, leb, ◌==◌,
  if◌then◌else◌,
}
use skadi_core.Prelude.Outcome.{Outcome, ok, err}

pub record WindowState : Type 0 where
  pub start : ℕ
  pub count : ℕ

pub record LimiterInner : Type 0 where
  pub limit : ℕ
  pub window : ℕ
  pub state : WindowState

-- `Status::resource_exhausted`
pub data Status : Type 0 where
  resource_exhausted : Status

pub new : Option ℕ → ℕ → Option LimiterInner
new none now = none
new (some limit) now =
    if limit == 0
    then none
    else some
        (record { limit = limit; window = 1000000000; state = record { start = now; count = 0 } })

-- `now.duration_since(earlier)`, which is 0 when `earlier` is later.
abbrev pub duration_since : ℕ → ℕ → ℕ
duration_since now earlier = now - earlier

-- The window that a call at `now` counts in.
pub current_window : LimiterInner → ℕ → WindowState
current_window limiter now =
    if leb limiter.window (duration_since now limiter.state.start)
    then record { start = now; count = 0 }
    else limiter.state

abbrev pub with_state : LimiterInner → WindowState → LimiterInner
with_state limiter state = record { limit = limiter.limit; window = limiter.window; state = state }

pub check : LimiterInner → ℕ → Outcome Status (Unit {0}) × LimiterInner
unfolding current_window
check limiter now =
    let state = current_window limiter now in
    if leb limiter.limit state.count
    then (err resource_exhausted, with_state limiter state)
    else (ok tt, with_state limiter (record { start = state.start; count = state.count + 1 }))
