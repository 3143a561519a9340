-- ===== src/Server/Gate/Bounded.antt =====
-- The counter of connection_gate.rs is the number of live permits, in every interleaving.
use skadi_core.Prelude.{
  ℕ, ◌+◌, ◌≤◌, ◌<◌, ◌≡◌, refl, sym, ◌∙◌, Bool, List, [], ◌∷◌, ◌++◌, some, All, arith,
}
use skadi_core.Server.Gate.{
  Session, outside, trying, counted, uncounted, refused, released, session_step, Reaches, start,
  next, IsOutside, u32_values,
}

-- 1 for a session whose permit counts.
abbrev pub holds : Session → ℕ
holds counted = 1
holds _ = 0

abbrev pub holders : List Session → ℕ
holders [] = 0
holders (s ∷ ss) = holds s + holders ss

holders-append :
    (before after : List Session) (s : Session)
    → holders (before ++ (s ∷ after)) ≡ holds s + (holders before + holders after)
holders-append [] after s = omega arith
holders-append (x ∷ before) after s = omega (arith, holders-append before after s)

holders-outside : (sessions : List Session) → All IsOutside sessions → holders sessions ≡ 0
holders-outside [] h = refl
holders-outside (s ∷ sessions) (e, h) = rw e (omega (arith, holders-outside sessions h))

-- The counter and the count of permits that a step of one session among `others` holders leaves.
step_lem :
    (max active others : ℕ) (session : Session) (fails : Bool)
    → max < u32_values
    → active ≡ holds session + others
    → active ≤ max
    → let (active_after, session_after) = session_step (some max) active session fails in
      (active_after ≡ holds session_after + others) × (active_after ≤ max)
unfolding session_step
step_lem max active others outside fails u e h = (e, h)
step_lem max active others (trying current) fails u e h = ground arith
step_lem max active others counted fails u e h = (omega arith, omega arith)
step_lem max active others uncounted fails u e h = (e, h)
step_lem max active others refused fails u e h = (e, h)
step_lem max active others released fails u e h = (e, h)

-- In every interleaving of any number of sessions the counter of a gate with a limit is the number of live
-- permits, and that number is within the limit.
pub active-holders :
    (max active : ℕ) (sessions : List Session)
    → max < u32_values
    → Reaches (some max) active sessions
    → (active ≡ holders sessions) × (holders sessions ≤ max)
active-holders max _ _ u (start sessions outside_all) = (
  rw (holders-outside sessions outside_all) refl,
  rw (holders-outside sessions outside_all) (omega arith),
)
active-holders max _ _ u (next now before after session fails r) =
    let (e, h) = active-holders max now (before ++ (session ∷ after)) u r in
    let (f, k) =
      step_lem max now (holders before + holders after) session fails u
        (e ∙ holders-append before after session) (omega (arith, e)) in
    let g = holders-append before after (session_step (some max) now session fails).1 in
    (f ∙ sym g, omega (arith, f, g))
