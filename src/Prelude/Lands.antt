-- ===== src/Prelude/Lands.antt =====
-- A call that does not panic, and what it returns.
use skadi_core.Prelude.{ℕ, ◌≤◌, ◌<◌, ◌≡◌, ◌≢◌, refl, Bool, true, false, List, if◌then◌else◌, length}
use skadi_core.Prelude.Outcome.{
  Outcome, ok, err, panic, ◌>>=◌, fail_if, byte_at, byte_at_some, slice, slice_some,
}

-- No panic, and what is returned has a property.
pub data Lands {E A : Type 0} (P : A → Type 0) : Outcome E A → Type 0 where
  returns : (a : A) → P a → Lands P (ok a)
  fails : (e : E) → Lands P (err e)

module _ {E : Type 0} where
  pub Lands-ne-panic : {A : Type 0} {P : A → Type 0} (r : Outcome E A) → Lands P r → r ≢ panic
  Lands-ne-panic _ (returns a h) = λ p. cc
  Lands-ne-panic _ (fails e) = λ p. cc

  pub Lands-bind :
      {A B : Type 0} {P : A → Type 0} {Q : B → Type 0} (x : Outcome E A) (f : A → Outcome E B)
      → Lands P x
      → ((a : A) → P a → Lands Q (f a))
      → Lands Q (x >>= f)
  Lands-bind _ f (returns a h) k = k a h
  Lands-bind _ f (fails e) k = fails e

  pub Lands-map :
      {A : Type 0} {P Q : A → Type 0} (x : Outcome E A)
      → ((a : A) → P a → Q a)
      → Lands P x
      → Lands Q x
  Lands-map _ f (returns a h) = returns a (f a h)
  Lands-map _ f (fails e) = fails e

  pub Lands-if :
      {A : Type 0} {P : A → Type 0} (test : Bool) (x y : Outcome E A)
      → (test ≡ true → Lands P x)
      → (test ≡ false → Lands P y)
      → Lands P (if test then x else y)
  Lands-if true x y h k = h refl
  Lands-if false x y h k = k refl

  pub Lands-fail_if : (test : Bool) (e : E) → Lands (λ _. test ≡ false) (fail_if test e)
  Lands-fail_if true e = fails e
  Lands-fail_if false e = returns tt refl

  pub Lands-byte_at :
      (xs : List ℕ) (i : ℕ) → i < length xs → Lands {E = E} (λ _. Unit {0}) (byte_at xs i)
  Lands-byte_at xs i h = let (b, e) = byte_at_some {E = E} xs i h in rw e (returns b tt)

  pub Lands-slice :
      (xs : List ℕ) (a b : ℕ) → a ≤ b → b ≤ length xs → Lands {E = E} (λ _. Unit {0}) (slice xs a b)
  Lands-slice xs a b h k = rw (slice_some {E = E} xs a b h k) (returns _ tt)
