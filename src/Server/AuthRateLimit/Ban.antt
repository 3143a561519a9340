-- ===== src/Server/AuthRateLimit/Ban.antt =====
-- When auth_rate_limit.rs bans an address, for how long, and when it forgets the ban.
use skadi_core.Prelude.{
  ℕ, suc, ◌+◌, ◌*◌, ◌≤◌, ◌<◌, ◌≡◌, refl, sym, ap, ◌∙◌, min, true, false, Bool-cases, Option-cases,
  inl, inr, if◌then◌else◌, List, [], ◌∷◌, All, Option, none, some, ltb, arith,
}
use skadi_core.Endpoint.{IpAddr, ip_eq, ip_eq_refl, ip_eq_same}
use skadi_core.Server.AuthRateLimit.{
  IpState, States, LimiterInner, with_states, insert, look_up, cleanup_expired, ban_active, keeps,
  retained, is_blocked, entry, renew, ban_for, next_level, count_failure, record_failure,
  duration_max,
}
use skadi_core.Server.AuthRateLimit.Isolation.{banned, is_blocked_lem}

-- The calls of the limiter, each with its instant: a failure of an address, and a test of one.
pub data Call : Type 0 where
  fails tests : IpAddr → ℕ → Call

abbrev pub time_of : Call → ℕ
time_of (fails ip now) = now
time_of (tests ip now) = now

pub called : LimiterInner → Call → LimiterInner
called limiter (fails ip now) = record_failure limiter ip now
called limiter (tests ip now) = (is_blocked limiter ip now).1

pub run_calls : LimiterInner → List Call → LimiterInner
run_calls limiter [] = limiter
run_calls limiter (call ∷ calls) = run_calls (called limiter call) calls

-- How many of the calls are failures of an address.
unfoldable pub failures_of : IpAddr → List Call → ℕ
failures_of ip [] = 0
failures_of ip (fails other now ∷ calls) =
    let rest = failures_of ip calls in if ip_eq other ip then suc rest else rest
failures_of ip (tests other now ∷ calls) = failures_of ip calls

-- The state of an address that has failed some times since `start` and was never banned.
abbrev pub failed : ℕ → ℕ → IpState
failed n start = record { failures = n; window_start = start; blocked_until = none; ban_level = 0 }

abbrev pub banned_at : LimiterInner → ℕ → IpState
banned_at limiter now = record {
  failures = 0;
  window_start = now;
  blocked_until = some (now + min (min (limiter.ban_base * 2) duration_max) limiter.ban_max);
  ban_level = 1;
}

record_failure-entry :
    (limiter : LimiterInner) (ip : IpAddr) (now : ℕ) (o : Option IpState)
    → limiter.states ip ≡ o
    → (record_failure limiter ip now).states ip
      ≡ some (
          count_failure limiter now
            (renew limiter.window now (entry (retained limiter.window now o) now)))
unfolding record_failure insert
record_failure-entry limiter ip now o e = rw (ip_eq_refl ip, e) refl

entry_fresh :
    (window now : ℕ) → renew window now (entry (retained window now none) now) ≡ failed 0 now
unfolding renew retained
entry_fresh window now = ground arith

entry_running :
    (window n start now : ℕ)
    → 0 < n
    → 0 < window
    → now < start + window
    → renew window now (entry (retained window now (some (failed n start))) now) ≡ failed n start
unfolding renew retained keeps
entry_running window n start now p w h = ground arith

-- A ban that is over, and whose window is over too, leaves nothing.
entry_forgotten :
    (window now until : ℕ) (state : IpState)
    → state.blocked_until ≡ some until
    → state.failures ≡ 0
    → state.window_start + window ≤ now
    → until ≤ now
    → retained window now (some state) ≡ none
unfolding retained keeps ban_active
entry_forgotten window now until state e f h k = rw e (ground arith)

next_failure :
    (limiter : LimiterInner) (ip : IpAddr) (n start now : ℕ)
    → limiter.states ip ≡ some (failed n start)
    → 0 < n
    → 0 < limiter.window
    → now < start + limiter.window
    → (record_failure limiter ip now).states ip ≡ some (count_failure limiter now (failed n start))
next_failure limiter ip n start now e p w h =
    record_failure-entry limiter ip now _ e
    ∙ ap (λ state. some (count_failure limiter now state))
        (entry_running limiter.window n start now p w h)

one_more :
    (limiter : LimiterInner) (now n start : ℕ)
    → n + 1 < limiter.max_failures
    → count_failure limiter now (failed n start) ≡ failed (n + 1) start
unfolding count_failure
one_more limiter now n start h = ground arith

the_last :
    (limiter : LimiterInner) (now n start : ℕ)
    → n + 1 ≡ limiter.max_failures
    → count_failure limiter now (failed n start) ≡ banned_at limiter now
unfolding count_failure next_level ban_for
the_last limiter now n start h = ground arith

-- Neither the upkeep of the map nor a call about another address, nor a test, changes a running count.
retained_running :
    (window n start now : ℕ)
    → 0 < n
    → retained window now (some (failed n start)) ≡ some (failed n start)
unfolding retained keeps
retained_running window n start now p = ground arith

looked_up :
    (states : States) (ip key : IpAddr) (now n start : ℕ) (o : Option IpState)
    → states ip ≡ o
    → states key ≡ some (failed n start)
    → (look_up states ip now o).1 key ≡ some (failed n start)
unfolding look_up insert
looked_up states ip key now n start none e k = k
looked_up states ip key now n start (some state) e k = elim (Option-cases state.blocked_until) [
  | inl f ↦ rw f k
  | inr (until, f) ↦ elim (Bool-cases (ltb now until)) [
    | inl g ↦ rw (f, g) k
    | inr g ↦ elim (Bool-cases (ip_eq ip key)) [
      | inl same ↦
          let one : some state ≡ some (failed n start) =
            sym e ∙ ap states (ip_eq_same ip key same) ∙ k in
          let never : some until ≡ none = sym f ∙ blocked_same state (failed n start) one in
          absurd cc
      | inr other ↦ rw (f, g, other) k
    ]
  ]
]
  where
    blocked_same : (a b : IpState) → some a ≡ some b → a.blocked_until ≡ b.blocked_until
    blocked_same a b q = let same : a ≡ b = cc in ap (λ s. s.blocked_until) same

tested-running :
    (limiter : LimiterInner) (ip key : IpAddr) (now n start : ℕ)
    → 0 < n
    → limiter.states key ≡ some (failed n start)
    → (is_blocked limiter ip now).1.states key ≡ some (failed n start)
unfolding is_blocked
tested-running limiter ip key now n start p e =
    looked_up (cleanup_expired limiter now) ip key now n start _ refl
      (ap (retained limiter.window now) e ∙ retained_running limiter.window n start now p)

neighbour-running :
    (limiter : LimiterInner) (ip key : IpAddr) (now n start : ℕ)
    → 0 < n
    → ip_eq ip key ≡ false
    → limiter.states key ≡ some (failed n start)
    → (record_failure limiter ip now).states key ≡ some (failed n start)
unfolding record_failure insert
neighbour-running limiter ip key now n start p differ e =
    rw differ (ap (retained limiter.window now) e ∙ retained_running limiter.window n start now p)

-- The settings stay as they are.
called_settings :
    (limiter : LimiterInner) (call : Call) (states : States)
    → with_states (called limiter call) states ≡ with_states limiter states
unfolding called record_failure is_blocked
called_settings limiter (fails ip now) states = refl
called_settings limiter (tests ip now) states = refl

run_calls_settings :
    (limiter : LimiterInner) (calls : List Call) (states : States)
    → with_states (run_calls limiter calls) states ≡ with_states limiter states
unfolding run_calls
run_calls_settings limiter [] states = refl
run_calls_settings limiter (call ∷ calls) states =
    run_calls_settings (called limiter call) calls states ∙ called_settings limiter call states

-- A running count, a number of failures and a start of their window, in a limiter with these settings.
abbrev Counts : ℕ → ℕ → IpAddr → ℕ → ℕ → LimiterInner → Type 0
Counts limit window ip n start limiter =
    (limiter.states ip ≡ some (failed n start))
    × (limiter.max_failures ≡ limit)
    × (limiter.window ≡ window)

failed-Counts :
    (limiter : LimiterInner) (ip other : IpAddr) (limit window n start now : ℕ)
    → Counts limit window ip n start limiter
    → 0 < n
    → n + 1 < limit
    → 0 < window
    → now < start + window
    → ip_eq other ip ≡ true
    → Counts limit window ip (n + 1) start (record_failure limiter other now)
failed-Counts limiter ip other limit window n start now (e, m, w) p below some_window k same =
    let is = ip_eq_same other ip same in
    rw is (
      next_failure limiter ip n start now e p (omega (arith, w)) (omega (arith, w))
          ∙ ap some (one_more limiter now n start (omega (arith, m))),
      unfold record_failure in m,
      unfold record_failure in w,
    )

-- Calls with fewer failures than the limit leave are only counted.
counted :
    (limiter : LimiterInner) (ip : IpAddr) (limit window n start : ℕ) (calls : List Call)
    → Counts limit window ip n start limiter
    → 0 < n
    → 0 < window
    → n + failures_of ip calls < limit
    → All (λ call. time_of call < start + window) calls
    → Counts limit window ip (n + failures_of ip calls) start (run_calls limiter calls)
unfolding run_calls called failures_of
counted limiter ip limit window n start [] (e, m, w) p h below all =
    (e ∙ ap (λ k. some (failed k start)) (omega arith), m, w)
counted limiter ip limit window n start (tests other now ∷ calls) (e, m, w) p h below (k, all) =
    counted (is_blocked limiter other now).1 ip limit window n start calls
      (
        tested-running limiter other ip now n start p e,
        unfold is_blocked in m,
        unfold is_blocked in w,
      )
      p h below all
counted limiter ip limit window n start (fails other now ∷ calls) c p h below (k, all) =
    elim (Bool-cases (ip_eq other ip)) [
      | inl same ↦
          let fewer : n + suc (failures_of ip calls) < limit = rw same at below in
          let one =
            failed-Counts limiter ip other limit window n start now c p (omega (arith, fewer)) h k
              same in
          let all_counted =
            counted (record_failure limiter other now) ip limit window (n + 1) start calls one
              (omega arith) h (omega (arith, fewer)) all in
          rw (same, total (failures_of ip calls)) all_counted
      | inr differ ↦
          let fewer : n + failures_of ip calls < limit = rw differ at below in
          let kept = neighbour-running limiter other ip now n start p differ c.0 in
          rw differ (
            counted (record_failure limiter other now) ip limit window n start calls
              (kept, unfold record_failure in c.1, unfold record_failure in c.2) p h fewer all)
    ]
  where
    total : (m : ℕ) → n + suc m ≡ n + 1 + m
    total m = omega arith

blocked_of :
    (limiter : LimiterInner) (ip : IpAddr) (t : ℕ) (state : IpState)
    → limiter.states ip ≡ some state
    → (is_blocked limiter ip t).0 ≡ ban_active state t
blocked_of limiter ip t state e = is_blocked_lem limiter ip t ∙ ap (λ o. banned o t) e

-- An address that nothing is known about fails at the start of a window, and behind that come any calls
-- within the window: tests, of this address or of others, failures of others, and failures of its own, two
-- fewer than the limit. Up to there it is not blocked; one more failure within the window, the one that
-- reaches the limit, bans it from its instant on for twice the base time, cut off at the longest ban, and
-- not for longer.
pub is_blocked-record_failure :
    (limiter : LimiterInner) (ip : IpAddr) (first last t : ℕ) (calls : List Call)
    → limiter.states ip ≡ none
    → failures_of ip calls + 2 ≡ limiter.max_failures
    → All (λ call. time_of call < first + limiter.window) calls
    → last < first + limiter.window
    → 0 < limiter.window
    → let before = run_calls (record_failure limiter ip first) calls in
      ((is_blocked before ip t).0 ≡ false)
      × ((is_blocked (record_failure before ip last) ip t).0
          ≡ ltb t (last + min (min (limiter.ban_base * 2) duration_max) limiter.ban_max))
is_blocked-record_failure limiter ip first last t calls e n all h w = (
  unfold ban_active in blocked_of before ip t (failed (1 + failures_of ip calls) first) known.0,
  unfold ban_active in
      blocked_of (record_failure before ip last) ip t (banned_at limiter last) at_last,
)
  where
    once : LimiterInner
    once = record_failure limiter ip first

    before : LimiterInner
    before = run_calls (record_failure limiter ip first) calls

    one : once.states ip ≡ some (failed 1 first)
    one =
        record_failure-entry limiter ip first none e
        ∙ ap (λ state. some (count_failure limiter first state)) (entry_fresh limiter.window first)
        ∙ ap some (one_more limiter first 0 first (omega arith))

    known : Counts limiter.max_failures limiter.window ip (1 + failures_of ip calls) first before
    known =
        counted once ip limiter.max_failures limiter.window 1 first calls
          (one, unfold record_failure in refl, unfold record_failure in refl) (omega arith) w
          (omega arith) all

    same : with_states before (λ _. none) ≡ with_states limiter (λ _. none)
    same = run_calls_settings once calls (λ _. none) ∙ unfold record_failure in refl

    at_last : (record_failure before ip last).states ip ≡ some (banned_at limiter last)
    at_last =
        next_failure before ip (1 + failures_of ip calls) first last known.0 (omega arith)
          (omega (arith, known.2)) (omega (arith, known.2))
        ∙ ap some (the_last before last (1 + failures_of ip calls) first (omega (arith, known.1)))
        ∙ ap (λ l. some (banned_at l last)) same

-- Once a ban is over and a window has passed since the failure that brought it, the next failure is counted
-- as if the address had never failed: the level of the next ban is the first one again.
pub record_failure_forgets :
    (limiter : LimiterInner) (ip : IpAddr) (now until : ℕ) (state : IpState)
    → limiter.states ip ≡ some state
    → state.blocked_until ≡ some until
    → state.failures ≡ 0
    → state.window_start + limiter.window ≤ now
    → until ≤ now
    → (record_failure limiter ip now).states ip
      ≡ (record_failure (with_states limiter (λ _. none)) ip now).states ip
record_failure_forgets limiter ip now until state e b f h k =
    record_failure-entry limiter ip now _ e
    ∙ ap (λ o. some (count_failure limiter now (renew limiter.window now (entry o now))))
        (entry_forgotten limiter.window now until state b f h k)
    ∙ unfold retained count_failure ban_for in
      sym (record_failure-entry (with_states limiter (λ _. none)) ip now none refl)
