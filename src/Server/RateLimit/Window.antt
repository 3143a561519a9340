-- ===== src/Server/RateLimit/Window.antt =====
-- How many calls the limiter of api/rate_limit.rs admits.
use skadi_core.Prelude.{
  ℕ, ◌+◌, ◌-◌, ◌*◌, ◌≤◌, ◌<◌, ◌≡◌, List, [], ◌∷◌, All, ltb, arith, Bool-cases, inl, inr, length,
  min, ltb→lt, ltb→le, All-map,
}
use skadi_core.Prelude.Outcome.{Outcome, ok, err}
use skadi_core.Server.RateLimit.{
  LimiterInner, resource_exhausted, check, current_window, with_state,
}

abbrev pub one_if_ok : {E : Type 0} → Outcome E (Unit {0}) → ℕ
one_if_ok (ok tt) = 1
one_if_ok _ = 0

-- The number of calls at these instants that the limiter admits.
pub admitted : LimiterInner → List ℕ → ℕ
admitted limiter [] = 0
admitted limiter (now ∷ later) =
    let (result, after) = check limiter now in one_if_ok result + admitted after later

module _ (limiter : LimiterInner) (now : ℕ) (p : 0 < limiter.window) where
  check_open :
      now < limiter.state.start + limiter.window
      → limiter.state.count < limiter.limit
      → check limiter now ≡ (
        ok tt,
        with_state limiter
            (record { start = limiter.state.start; count = limiter.state.count + 1 }),
      )
  unfolding check current_window
  check_open h k = ground arith

  check_full :
      now < limiter.state.start + limiter.window
      → limiter.limit ≤ limiter.state.count
      → check limiter now ≡ (err resource_exhausted, limiter)
  unfolding check current_window
  check_full h k = ground arith

  check_renewed :
      limiter.state.start + limiter.window ≤ now
      → 0 < limiter.limit
      → check limiter now ≡ (ok tt, with_state limiter (record { start = now; count = 1 }))
  unfolding check current_window
  check_renewed h k = ground arith

-- Of the calls that come before the window ends, the limiter admits exactly as many as the limit leaves.
pub admitted_rest :
    (limiter : LimiterInner) (times : List ℕ)
    → All (λ now. now < limiter.state.start + limiter.window) times
    → 0 < limiter.window
    → admitted limiter times ≡ min (length times) (limiter.limit - limiter.state.count)
unfolding admitted
admitted_rest limiter [] h p = omega arith
admitted_rest limiter (now ∷ times) (h, k) p =
    elim (Bool-cases (ltb limiter.state.count limiter.limit)) [
      | inl e ↦
          let open_state =
            with_state limiter
              (record { start = limiter.state.start; count = limiter.state.count + 1 }) in
          let c = ltb→lt limiter.state.count limiter.limit e in
          rw (check_open limiter now p h c) (omega (arith, c, admitted_rest open_state times k p))
      | inr e ↦
          let c = ltb→le limiter.state.count limiter.limit e in
          rw (check_full limiter now p h c) (omega (arith, c, admitted_rest limiter times k p))
    ]

admitted_twice :
    (limiter : LimiterInner) (from : ℕ) (times : List ℕ)
    → 0 < limiter.limit
    → All (λ now. (from ≤ now) × (now < from + limiter.window)) times
    → admitted limiter times ≤ (limiter.limit - limiter.state.count) + limiter.limit
unfolding admitted
admitted_twice limiter from [] l h = omega arith
admitted_twice limiter from (now ∷ times) l ((a, b), k) =
    elim (Bool-cases (ltb now (limiter.state.start + limiter.window))) [
      | inl e ↦ elim (Bool-cases (ltb limiter.state.count limiter.limit)) [
        | inl f ↦
            let open_state =
              with_state limiter
                (record { start = limiter.state.start; count = limiter.state.count + 1 }) in
            let c = ltb→lt limiter.state.count limiter.limit f in
            rw (check_open limiter now (omega arith) (ltb→lt now _ e) c)
              (omega (arith, c, admitted_twice open_state from times l k))
        | inr f ↦
            rw
              (check_full limiter now (omega arith) (ltb→lt now _ e)
                (ltb→le limiter.state.count limiter.limit f))
              (omega (arith, admitted_twice limiter from times l k))
      ]
      | inr e ↦
          let renewed = with_state limiter (record { start = now; count = 1 }) in
          rw (check_renewed limiter now (omega arith) (ltb→le now _ e) l) (
            omega (
              arith,
              admitted_rest renewed times (All-map times (λ t (c, d). omega arith) k) (omega arith),
            ))
    ]

-- In any span shorter than a window a limiter with a limit above zero admits at most twice its limit, in
-- whatever state it is.
pub admitted_span :
    (limiter : LimiterInner) (from : ℕ) (times : List ℕ)
    → 0 < limiter.limit
    → All (λ now. (from ≤ now) × (now < from + limiter.window)) times
    → admitted limiter times ≤ 2 * limiter.limit
admitted_span limiter from times l h = omega (arith, admitted_twice limiter from times l h)
