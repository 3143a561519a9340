-- ===== src/Server/Gate/Alone.antt =====
-- `try_acquire` of connection_gate.rs without interference.
use skadi_core.Prelude.{
  ℕ, ◌+◌, ◌<◌, ◌≡◌, ◌≢◌, refl, ap, ◌∙◌, Bool, true, false, Bool-cases, inl, inr, List, [], ◌∷◌,
  ◌++◌, All, Option, some, ltb, if◌then◌else◌, arith,
}
use skadi_core.Server.Gate.{
  Session, outside, trying, counted, refused, released, session_step, u32_values,
}

-- Steps of one session, without a step of another one between them; each tells whether an exchange fails
-- though the values agree.
pub run : Option ℕ → ℕ → Session → List Bool → ℕ × Session
run max active session [] = (active, session)
run max active session (fails ∷ steps) =
    let (active_after, session_after) = session_step max active session fails in
    run max active_after session_after steps

-- What the gate promises: a slot if there is one.
abbrev pub decision : ℕ → ℕ → ℕ × Session
decision max active = if ltb active max then (active + 1, counted) else (active, refused)

abbrev pub AreFailures : List Bool → Type 0
AreFailures = All (λ fails. fails ≡ true)

refused_for_good :
    (max active : ℕ) (steps : List Bool) → run (some max) active refused steps ≡ (active, refused)
unfolding run session_step
refused_for_good max active [] = refl
refused_for_good max active (fails ∷ steps) = refused_for_good max active steps

failed-again :
    (max active : ℕ)
    → ltb active max ≡ true
    → session_step (some max) active (trying active) true ≡ (active, trying active)
unfolding session_step
failed-again max active h = ground (arith, h)

no_slot :
    (max active : ℕ) (fails : Bool)
    → ltb active max ≡ false
    → session_step (some max) active (trying active) fails ≡ (active, refused)
unfolding session_step
no_slot max active fails h = rw h refl

decided :
    (max active : ℕ)
    → max < u32_values
    → session_step (some max) active (trying active) false ≡ decision max active
unfolding session_step
decided max active u = ground arith

-- A session that has read the counter is decided by the first exchange that does not fail of itself.
read-decision :
    (max active : ℕ) (failures : List Bool)
    → max < u32_values
    → AreFailures failures
    → run (some max) active (trying active) (failures ++ (false ∷ [])) ≡ decision max active
unfolding run
read-decision max active [] u h = decided max active u
read-decision max active (fails ∷ failures) u (e, h) = elim (Bool-cases (ltb active max)) [
  | inl p ↦ rw e (
      ap (λ r. run (some max) r.0 r.1 (failures ++ (false ∷ []))) (failed-again max active p)
      ∙ read-decision max active failures u h)
  | inr p ↦
      ap (λ r. run (some max) r.0 r.1 (failures ++ (false ∷ []))) (no_slot max active fails p)
      ∙ refused_for_good max active (failures ++ (false ∷ []))
      ∙ rw p refl
]

-- Undisturbed, a session that enters the gate, and one that read an outdated value below the limit, reads the
-- counter, and is then admitted exactly when a slot is free, by the first exchange that does not fail though
-- the values agree, however many fail before it; a permit that is then dropped gives the slot back.
pub run-decision :
    (max active : ℕ) (failures : List Bool) (first : Bool)
    → max < u32_values
    → AreFailures failures
    → let steps = first ∷ (failures ++ (false ∷ [])) in
      (run (some max) active outside steps ≡ decision max active)
      × ((current : ℕ)
          → current < max
          → current ≢ active
          → run (some max) active (trying current) steps ≡ decision max active)
      × (active < max → (session_step (some max) (active + 1) counted false) ≡ (active, released))
unfolding run session_step
run-decision max active failures first u h = (
  read-decision max active failures u h,
  (λ current k d. ground (arith, read-decision max active failures u h)),
  λ k. ground arith,
)
