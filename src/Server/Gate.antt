-- ===== src/Server/Gate.antt =====
-- crates/skadi-server/src/connection_gate.rs: the limit on sessions. The counter is one atomic word that
-- many sessions share; a session is where it stands in `try_acquire` or in the life of its permit, and
-- one step of it is one atomic operation.
pub mod Bounded
pub mod Alone
pub mod Tests
use skadi_core.Prelude.{
  ℕ, suc, ◌+◌, ◌-◌, ◌%◌, ◌≡◌, Bool, true, false, ◌&&◌, not, List, [], ◌∷◌, ◌++◌, Option, none, some,
  All, ltb, ◌==◌, if◌then◌else◌,
}

abbrev pub u32_values : ℕ
u32_values = 4294967296

-- `trying current` holds the local variable of the loop. A permit counts or, without a limit, does not.
pub data Session : Type 0 where
  outside : Session
  trying : ℕ → Session
  counted : Session
  uncounted : Session
  refused : Session
  released : Session

-- One atomic operation of a session on the counter `active`; `fails` tells that
-- `compare_exchange_weak` fails though the values agree.
pub session_step : Option ℕ → ℕ → Session → Bool → ℕ × Session
session_step none active outside fails = (active, uncounted)
session_step (some max) active outside fails = (active, trying active)
session_step none active (trying current) fails = (active, trying current)
session_step (some max) active (trying current) fails =
    if ltb current max
    then (if active == current && not fails
        then ((current + 1) % u32_values, counted)
        else (active, trying active))
    else (active, refused)
session_step max active counted fails = ((active + (u32_values - 1)) % u32_values, released)
session_step max active uncounted fails = (active, released)
session_step max active refused fails = (active, refused)
session_step max active released fails = (active, released)

abbrev pub IsOutside : Session → Type 0
IsOutside session = session ≡ outside

-- The values of the counter and the sessions that some interleaving of the steps reaches.
pub data Reaches (max : Option ℕ) : ℕ → List Session → Type 0 where
  start : (sessions : List Session) → All IsOutside sessions → Reaches max 0 sessions
  next :
      (active : ℕ) (before after : List Session) (session : Session) (fails : Bool)
      → Reaches max active (before ++ (session ∷ after))
      → Reaches max
          ((session_step max active session fails).0)
          (before ++ ((session_step max active session fails).1 ∷ after))
