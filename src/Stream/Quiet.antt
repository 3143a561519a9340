-- ===== src/Stream/Quiet.antt =====
-- Handlers that write nothing.
use skadi_core.Prelude.{
  ℕ, ◌≡◌, refl, ◌∙◌, Bool, true, false, Bool-cases, inl, inr, if◌then◌else◌, ltb, length,
}
use skadi_core.Prelude.Outcome.{Outcome, ok, err, panic}
use skadi_core.Stream.{Conn, Action, resume, ◌>>=◌, lift, fail_when, read_exact}

module _ {F : Type 0} where
  -- Whatever it returns, the output is as before.
  pub record IsQuiet {A : Type 0} (m : Action F A) : Type 0 where
    pub quiet : (c : Conn) → (m c).1.output ≡ c.output

  pub IsQuiet-bind :
      {A B : Type 0} (m : Action F A) (f : A → Action F B)
      → IsQuiet m
      → ((a : A) → IsQuiet (f a))
      → IsQuiet (m >>= f)
  IsQuiet-bind {A = A} m f h k = record { quiet = λ c. go (m c).0 (m c).1 ∙ h.quiet c }
    where
      go : (r : Outcome F A) (now : Conn) → (resume f r now).1.output ≡ now.output
      go (ok a) now = (k a).quiet now
      go (err e) now = refl
      go panic now = refl

  pub IsQuiet-read : (e : F) (n : ℕ) → IsQuiet (read_exact e n)
  IsQuiet-read e n = record {
    quiet =
        λ c. elim (Bool-cases (ltb (length c.input) n)) [ inl h ↦ rw h refl | inr h ↦ rw h refl ];
  }

  pub IsQuiet-lift : {A : Type 0} (r : Outcome F A) → IsQuiet (lift r)
  IsQuiet-lift r = record { quiet = λ c. refl }

  pub IsQuiet-fail_when : (test : Bool) (e : F) → IsQuiet (fail_when test e)
  IsQuiet-fail_when true e = record { quiet = λ c. refl }
  IsQuiet-fail_when false e = record { quiet = λ c. refl }

  pub IsQuiet-if :
      {A : Type 0} (test : Bool) (m k : Action F A)
      → IsQuiet m
      → IsQuiet k
      → IsQuiet (if test then m else k)
  IsQuiet-if true m k f g = f
  IsQuiet-if false m k f g = g
