-- ===== src/Server/AuthRateLimit/Isolation.antt =====
-- What the operations of auth_rate_limit.rs do to the later answers of `is_blocked`.
use skadi_core.Prelude.{
  ℕ, ◌-◌, ◌≤◌, ◌≡◌, ◌⊎◌, refl, sym, ap, ◌∙◌, Bool, false, Option, none, some, ltb, arith,
  Bool-cases, Option-cases, inl, inr,
}
use skadi_core.Endpoint.{IpAddr, ip_eq, ip_eq_same}
use skadi_core.Server.AuthRateLimit.{
  IpState, States, LimiterInner, insert, ban_active, keeps, retained, look_up, cleanup_expired,
  is_blocked, record_failure,
}

-- Whether the map holds a ban on an address: what `is_blocked` answers, without its upkeep of the map.
abbrev pub banned : Option IpState → ℕ → Bool
banned none t = false
banned (some state) t = ban_active state t

banned-none : (state : IpState) (t : ℕ) → state.blocked_until ≡ none → banned (some state) t ≡ false
unfolding ban_active
banned-none state t e = rw e refl

banned-some :
    (state : IpState) (until t : ℕ)
    → state.blocked_until ≡ some until
    → banned (some state) t ≡ ltb t until
unfolding ban_active
banned-some state until t e = rw e refl

-- The upkeep of the map at an earlier time changes no answer.
pub retained-banned :
    (window now t : ℕ) (o : Option IpState)
    → now ≤ t
    → banned (retained window now o) t ≡ banned o t
unfolding retained keeps
retained-banned window now t none h = refl
retained-banned window now t (some state) h = elim (Option-cases state.blocked_until) [
  | inl e ↦ ground (arith, banned-none state t e, banned-none state now e)
  | inr (until, e) ↦ ground (arith, banned-some state until t e, banned-some state until now e)
]

look_up-banned :
    (states : States) (ip : IpAddr) (t : ℕ) (o : Option IpState)
    → (look_up states ip t o).0 ≡ banned o t
unfolding look_up
look_up-banned states ip t none = refl
look_up-banned states ip t (some state) = elim (Option-cases state.blocked_until) [
  | inl e ↦ rw (banned-none state t e, e) refl
  | inr (until, e) ↦ ground (arith, banned-some state until t e, e)
]

-- What a test of an address leaves of the other states, and of its own.
look_up_states :
    (states : States) (ip key : IpAddr) (now t : ℕ) (o : Option IpState)
    → states ip ≡ o
    → now ≤ t
    → banned ((look_up states ip now o).1 key) t ≡ banned (states key) t
unfolding look_up insert ban_active
look_up_states states ip key now t none e h = refl
look_up_states states ip key now t (some state) e h = elim (Option-cases state.blocked_until) [
  | inl f ↦ rw f refl
  | inr (until, f) ↦ elim (Bool-cases (ltb now until)) [
    | inl g ↦ rw (f, g) refl
    | inr g ↦ elim (Bool-cases (ip_eq ip key)) [
      | inl same ↦
          rw (f, g, same)
            (sym (
              ap (λ key. banned (states key) t) (sym (ip_eq_same ip key same))
              ∙ ap (λ o. banned o t) e
              ∙ ground (arith, banned-some state until t f)))
      | inr other ↦ rw (f, g, other) refl
    ]
  ]
]

pub is_blocked_lem :
    (limiter : LimiterInner) (ip : IpAddr) (t : ℕ)
    → (is_blocked limiter ip t).0 ≡ banned (limiter.states ip) t
unfolding is_blocked
is_blocked_lem limiter ip t =
    look_up-banned (cleanup_expired limiter t) ip t _
    ∙ retained-banned limiter.window t t (limiter.states ip) (omega arith)

-- What a ban is decided by: the failures, the start of their window, and the level of the last ban.
abbrev pub counts : Option IpState → Option (ℕ × ℕ × ℕ)
counts none = none
counts (some state) = some (state.failures, state.window_start, state.ban_level)

-- What is known of an address stays, or is dropped where no failure is counted, the window is over and no
-- ban lasts.
abbrev pub Keeps : ℕ → ℕ → Option IpState → Option IpState → Type 0
Keeps window now none after = after ≡ none
Keeps window now (some state) after =
    (counts after ≡ counts (some state))
    ⊎ ((after ≡ none)
        × (state.failures ≡ 0)
        × (window ≤ now - state.window_start)
        × (banned (some state) now ≡ false))

dropped :
    (window now : ℕ) (state : IpState)
    → keeps window now state ≡ false
    → (state.failures ≡ 0) × (window ≤ now - state.window_start) × (banned (some state) now ≡ false)
unfolding keeps
dropped window now state e = (ground arith, ground arith, ground arith)

retained-Keeps : (window now : ℕ) (o : Option IpState) → Keeps window now o (retained window now o)
unfolding retained
retained-Keeps window now none = refl
retained-Keeps window now (some state) = elim (Bool-cases (keeps window now state)) [
  | inl e ↦ inl (rw e refl)
  | inr e ↦ let (f, w, b) = dropped window now state e in inr (rw e refl, f, w, b)
]

counts-none : (o : Option IpState) → counts o ≡ none → o ≡ none
counts-none none e = refl
counts-none (some state) e = cc

Keeps-counts :
    (window now : ℕ) (o x y : Option IpState)
    → counts y ≡ counts x
    → Keeps window now o x
    → Keeps window now o y
Keeps-counts window now none x y e k = counts-none y (e ∙ ap counts k)
Keeps-counts window now (some state) x y e (inl k) = inl (e ∙ k)
Keeps-counts window now (some state) x y e (inr (gone, f, w, b)) =
    inr (counts-none y (e ∙ ap counts gone), f, w, b)

look_up-counts :
    (states : States) (ip key : IpAddr) (now : ℕ) (o : Option IpState)
    → states ip ≡ o
    → counts ((look_up states ip now o).1 key) ≡ counts (states key)
unfolding look_up insert
look_up-counts states ip key now none e = refl
look_up-counts states ip key now (some state) e = elim (Option-cases state.blocked_until) [
  | inl f ↦ rw f refl
  | inr (until, f) ↦ elim (Bool-cases (ltb now until)) [
    | inl g ↦ rw (f, g) refl
    | inr g ↦ elim (Bool-cases (ip_eq ip key)) [
      | inl same ↦
          rw (f, g, same)
            (sym (ap (λ key. counts (states key)) (sym (ip_eq_same ip key same)) ∙ ap counts e))
      | inr other ↦ rw (f, g, other) refl
    ]
  ]
]

-- A test of an address changes no answer at a later time, about that address or another one, and of no
-- address what its next ban is decided by: its failures, their window and the level of its bans stay, or
-- are dropped where there is no failure, the window is over and no ban lasts. A failure of one address
-- does as little to another one.
pub is_blocked_isolated :
    (limiter : LimiterInner) (ip other : IpAddr) (now t : ℕ)
    → now ≤ t
    → let tested = (is_blocked limiter ip now).1 in
      let failed = record_failure limiter ip now in
      ((is_blocked tested other t).0 ≡ (is_blocked limiter other t).0)
      × Keeps limiter.window now (limiter.states other) (tested.states other)
      × (ip_eq ip other ≡ false
          → ((is_blocked failed other t).0 ≡ (is_blocked limiter other t).0)
            × Keeps limiter.window now (limiter.states other) (failed.states other))
is_blocked_isolated limiter ip other now t h =
    (tested, tested_keeps, λ e. (failed e, failed_keeps e))
  where
    kept : banned (cleanup_expired limiter now other) t ≡ banned (limiter.states other) t
    kept = retained-banned limiter.window now t (limiter.states other) h

    tested : (is_blocked (is_blocked limiter ip now).1 other t).0 ≡ (is_blocked limiter other t).0
    tested =
        is_blocked_lem _ other t
        ∙ unfold is_blocked in
          look_up_states (cleanup_expired limiter now) ip other now t _ refl h
          ∙ kept
          ∙ sym (is_blocked_lem limiter other t)

    tested_keeps :
        Keeps limiter.window now (limiter.states other) ((is_blocked limiter ip now).1.states other)
    tested_keeps =
        unfold is_blocked in
        Keeps-counts limiter.window now (limiter.states other) (cleanup_expired limiter now other) _
          (look_up-counts (cleanup_expired limiter now) ip other now _ refl)
          (retained-Keeps limiter.window now (limiter.states other))

    failed :
        ip_eq ip other ≡ false
        → (is_blocked (record_failure limiter ip now) other t).0 ≡ (is_blocked limiter other t).0
    failed e =
        is_blocked_lem _ other t
        ∙ unfold record_failure insert in rw e (kept ∙ sym (is_blocked_lem limiter other t))

    failed_keeps :
        ip_eq ip other ≡ false
        → Keeps limiter.window now
            (limiter.states other)
            ((record_failure limiter ip now).states other)
    failed_keeps e =
        unfold record_failure insert in
        rw e (retained-Keeps limiter.window now (limiter.states other))
