-- ===== src/Server/Gate/Tests.antt =====
-- The theorems on the limit on sessions at concrete inputs.
use skadi_core.Prelude.{ℕ, ◌≤◌, ◌<◌, ◌≡◌, ◌≢◌, refl, true, ◌+◌, false, [], ◌∷◌, some, arith}
use skadi_core.Server.Gate.{outside, trying, counted, released, session_step, Reaches, start, next}
use skadi_core.Server.Gate.Bounded.{holders, active-holders}
use skadi_core.Server.Gate.Alone.{run, decision, run-decision}

-- Two sessions at a gate for one: both read 0, the first one takes the slot.
raced : Reaches (some 1) 1 (counted ∷ trying 0 ∷ [])
unfolding session_step
raced = next 0 [] (trying 0 ∷ []) (trying 0) false (
    next 0 (trying 0 ∷ []) [] outside false
      (next 0 [] (outside ∷ []) outside false (start (outside ∷ outside ∷ []) (refl, (refl, tt)))))

active-holders_example :
    (1 ≡ holders (counted ∷ trying 0 ∷ [])) × (holders (counted ∷ trying 0 ∷ []) ≤ 1)
active-holders_example = active-holders 1 1 (counted ∷ trying 0 ∷ []) (omega arith) raced

run-decision_example :
    (run (some 4) 3 outside (false ∷ true ∷ true ∷ false ∷ []) ≡ decision 4 3)
    × ((current : ℕ)
        → current < 4
        → current ≢ 3
        → run (some 4) 3 (trying current) (false ∷ true ∷ true ∷ false ∷ []) ≡ decision 4 3)
    × (3 < 4 → session_step (some 4) (3 + 1) counted false ≡ (3, released))
run-decision_example = run-decision 4 3 (true ∷ true ∷ []) false (omega arith) (refl, (refl, tt))
