-- ===== src/Incremental/Messages.antt =====
-- What the promises give to a reader of a stream.
use skadi_core.Prelude.{ℕ, ◌<◌, ◌≡◌, ◌≢◌, sym, ◌∙◌, List, ◌++◌, Option, length, arith, inl, inr}
use skadi_core.Prelude.Bytes.{IsBytes}
use skadi_core.Prelude.Outcome.{Outcome, ok}
use skadi_core.Incremental.{wanted, IsDecisive, IsIncremental}

module _ {E A : Type 0} {waits : E → Option ℕ} {parse : List ℕ → Outcome E (A × ℕ)} where
  -- No proper prefix of a message is taken for a message, or refused: it asks for more bytes.
  pub prefix_asks :
      IsDecisive waits parse
      → (front back : List ℕ) (a : A) (n : ℕ) → IsBytes front
      → parse (front ++ back) ≡ ok (a, n)
      → length front < n
      → wanted waits (parse front) ≢ 0
  prefix_asks d front back a n b e h w =
      omega (arith, d.within front a n b (sym (d.settled front back w) ∙ e))

  -- A message is read from its own bytes alone.
  pub own_bytes :
      IsIncremental waits parse
      → (front back : List ℕ) (a : A) → IsBytes front
      → parse (front ++ back) ≡ ok (a, length front)
      → parse front ≡ ok (a, length front)
  own_bytes i front back a b e =
      sym (
        i.settled front back (elim (i.honest front b) [
          | inl w ↦ w
          | inr w ↦ absurd (omega (arith, i.modest front back a (length front) e))
        ]))
      ∙ e
