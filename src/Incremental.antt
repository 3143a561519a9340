-- ===== src/Incremental.antt =====
-- What the pure parsers of crates/skadi-protocol promise to the code that reads a stream: each is
-- given the bytes read so far, and answers with a value and the bytes used, with an error, or with
-- how many bytes it needs (`ParseError::Incomplete`).
pub mod Rules
pub mod Messages
use skadi_core.Prelude.{ℕ, ◌+◌, ◌≤◌, ◌<◌, ◌≡◌, ◌≢◌, ◌⊎◌, List, ◌++◌, Option, none, some, length}
use skadi_core.Prelude.Bytes.{IsBytes}
use skadi_core.Prelude.Outcome.{Outcome, ok, err, panic}

module _ {E : Type 0} (waits : E → Option ℕ) where
  -- The bytes that an answer asks for, 0 where it asks for none.
  abbrev pub wanted : {A : Type 0} → Outcome E A → ℕ
  wanted (ok a) = 0
  wanted (err e) = elim (waits e) [ none ↦ 0 | some n ↦ n ]
  wanted panic = 0

  -- One answer, to an input of `size` bytes. A step inside a parser may count the bytes that it asks
  -- for from `base`, and those that it used from `off`.
  pub record IsSound {A : Type 0} (base off lo size : ℕ) (r : Outcome E (A × ℕ)) : Type 0 where
    pub no_panic : r ≢ panic
    -- It asks for more bytes than there are, or for none.
    pub asks : (wanted r ≡ 0) ⊎ (size < base + wanted r)
    -- What it used up lies between `lo` and the end.
    pub ends : (a : A) (n : ℕ) → r ≡ ok (a, n) → (lo ≤ off + n) × (off + n ≤ size)

  pub record IsDecisive {A : Type 0} (parse : List ℕ → Outcome E (A × ℕ)) : Type 0 where
    pub returns : (input : List ℕ) → IsBytes input → parse input ≢ panic
    -- A decision stands, whatever bytes follow.
    pub settled :
        (input more : List ℕ) → wanted (parse input) ≡ 0 → parse (input ++ more) ≡ parse input
    -- It never asks for bytes that the message does not have.
    pub modest :
        (input more : List ℕ) (a : A) (n : ℕ)
        → parse (input ++ more) ≡ ok (a, n)
        → wanted (parse input) ≤ n
    pub within :
        (input : List ℕ) (a : A) (n : ℕ)
        → IsBytes input
        → parse input ≡ ok (a, n)
        → n ≤ length input

  -- Besides, it asks for more than it has, or it has decided.
  pub record IsIncremental {A : Type 0} (parse : List ℕ → Outcome E (A × ℕ)) : Type 0 where
    pub decisive : IsDecisive parse
    pub open decisive use *
    pub honest :
        (input : List ℕ)
        → IsBytes input
        → (wanted (parse input) ≡ 0) ⊎ (length input < wanted (parse input))
