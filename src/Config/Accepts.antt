-- ===== src/Config/Accepts.antt =====
-- What a chain of checks accepts: rules that read the condition off it, step by step.
use skadi_core.Prelude.{◌≡◌, ◌≢◌, refl, Bool, true, false, Option, none, some}
use skadi_core.Prelude.Outcome.{Outcome, ok, err, panic, ◌>>=◌, ◌>>◌, fail_if, >>=-ne-panic}
use skadi_core.Config.Common.{ConfigError, ok_or, when}
use skadi_core.Config.Checks.{discard}

pub record Returns {A : Type 0} (m : Outcome ConfigError A) : Type 0 where
  pub value : A
  pub returned : m ≡ ok value

-- The call returns exactly where the condition holds, and it never panics.
pub record Accepts {A : Type 0} (m : Outcome ConfigError A) (P : Type 0) : Type 0 where
  pub sound : Returns m → P
  pub complete : P → Returns m
  pub calm : m ≢ panic

abbrev pub return : {A : Type 0} (m : Outcome ConfigError A) (a : A) → m ≡ ok a → Returns m
return m a e = record { value = a; returned = e }

pub Accepts-weaken :
    {A P Q : Type 0} {m : Outcome ConfigError A} → (P → Q) → (Q → P) → Accepts m P → Accepts m Q
Accepts-weaken f g h = record {
  sound = λ r. f (h.sound r);
  complete = λ q. h.complete (g q);
  calm = h.calm;
}

pub Accepts-ok : {A : Type 0} (a : A) → Accepts (ok a) Unit
Accepts-ok a = record { sound = λ r. tt; complete = λ p. return (ok a) a refl; calm = λ p. cc }

pub Accepts-fail_if : (b : Bool) (e : ConfigError) → Accepts (fail_if b e) (b ≡ false)
Accepts-fail_if true e = record {
  sound = λ r. let never = r.returned in cc;
  complete = λ p. cc;
  calm = λ p. cc;
}
Accepts-fail_if false e = record {
  sound = λ r. refl;
  complete = λ p. return (ok tt) tt refl;
  calm = λ p. cc;
}

pub Accepts-bind :
    {A B : Type 0} {Q : A → Type 0} (m : Outcome ConfigError A) (f : A → Outcome ConfigError B)
    → m ≢ panic
    → ((a : A) → m ≡ ok a → Accepts (f a) (Q a))
    → Accepts (m >>= f) ((a : A) × (m ≡ ok a) × Q a)
Accepts-bind (ok a) f h k = record {
  sound = λ r. (a, refl, (k a refl).sound r);
  complete = λ (b, same, q).
      let r = (k b same).complete q in return (f a) r.value (let x = r.returned in cc);
  calm = (k a refl).calm;
}
Accepts-bind (err e) f h k = record {
  sound = λ r. let never = r.returned in cc;
  complete = λ (a, never, q). cc;
  calm = λ p. cc;
}
Accepts-bind panic f h k = absurd (h refl)

pub Accepts-ok_or :
    {A B : Type 0} {Q : A → Type 0} (x : Option A) (e : ConfigError) (f : A → Outcome ConfigError B)
    → ((a : A) → x ≡ some a → Accepts (f a) (Q a))
    → Accepts (ok_or x e >>= f) ((a : A) × (x ≡ some a) × Q a)
Accepts-ok_or none e f k = record {
  sound = λ r. let never = r.returned in cc;
  complete = λ (a, never, q). cc;
  calm = λ p. cc;
}
Accepts-ok_or (some a) e f k = record {
  sound = λ r. (a, refl, (k a refl).sound r);
  complete = λ (b, same, q).
      let r = (k b same).complete q in return (f a) r.value (let x = r.returned in cc);
  calm = (k a refl).calm;
}

pub Accepts-then :
    {B P Q : Type 0} (m : Outcome ConfigError (Unit {0})) (k : Outcome ConfigError B)
    → Accepts m P
    → (P → Accepts k Q)
    → Accepts (m >> k) (P × Q)
Accepts-then (ok tt) k h l =
    let p = h.sound (return (ok tt) tt refl) in
    record {
      sound = λ r. (p, (l p).sound r);
      complete = λ (p, q). (l p).complete q;
      calm = (l p).calm;
    }
Accepts-then (err e) k h l = record {
  sound = λ r. let never = r.returned in cc;
  complete = λ (p, q). let r = h.complete p in let never = r.returned in cc;
  calm = λ p. cc;
}
Accepts-then panic k h l = absurd (h.calm refl)

pub Accepts-when :
    {P : Type 0} (b : Bool) (m : Outcome ConfigError (Unit {0}))
    → (b ≡ true → Accepts m P)
    → Accepts (when b m) (b ≡ true → P)
Accepts-when true m h = Accepts-weaken (λ p same. p) (λ f. f refl) (h refl)
Accepts-when false m h = record {
  sound = λ r never. cc;
  complete = λ p. return (ok tt) tt refl;
  calm = λ p. cc;
}

pub Accepts-discard :
    {A P : Type 0} (m : Outcome ConfigError A) → Accepts m P → Accepts (discard m) P
Accepts-discard (ok a) h = record {
  sound = λ r. h.sound (return (ok a) a refl);
  complete = λ p. return (ok tt) tt refl;
  calm = λ p. cc;
}
Accepts-discard (err e) h = record {
  sound = λ r. let never = r.returned in cc;
  complete = λ p. let r = h.complete p in let never = r.returned in cc;
  calm = λ p. cc;
}
Accepts-discard panic h = absurd (h.calm refl)

-- The call does not panic.
pub record Calm {A : Type 0} (m : Outcome ConfigError A) : Type 0 where
  pub never : m ≢ panic

pub Calm-ok : {A : Type 0} (a : A) → Calm (ok a)
Calm-ok a = record { never = λ p. cc }

pub Calm-err : {A : Type 0} (e : ConfigError) → Calm {A = A} (err e)
Calm-err e = record { never = λ p. cc }

pub Calm-ok_or : {A : Type 0} (x : Option A) (e : ConfigError) → Calm (ok_or x e)
Calm-ok_or none e = Calm-err e
Calm-ok_or (some a) e = Calm-ok a

pub Calm-fail_if : (b : Bool) (e : ConfigError) → Calm (fail_if b e)
Calm-fail_if true e = Calm-err e
Calm-fail_if false e = Calm-ok tt

pub Calm-bind :
    {A B : Type 0} (m : Outcome ConfigError A) (f : A → Outcome ConfigError B)
    → Calm m
    → ((a : A) → Calm (f a))
    → Calm (m >>= f)
Calm-bind m f h k = record { never = >>=-ne-panic m f h.never λ a e. (k a).never }

-- A step whose condition is that it returns.
pub Accepts-itself : {A : Type 0} {m : Outcome ConfigError A} → Calm m → Accepts m (Returns m)
Accepts-itself h = record { sound = λ r. r; complete = λ r. r; calm = h.never }

-- A step whose result plays no part in what the rest accepts.
pub Accepts-step :
    {A B P Q : Type 0} (m : Outcome ConfigError A) (f : A → Outcome ConfigError B)
    → Accepts m P
    → ((a : A) → m ≡ ok a → Accepts (f a) Q)
    → Accepts (m >>= f) (P × Q)
Accepts-step m f h k =
    Accepts-weaken (λ (a, e, q). (h.sound (return m a e), q))
      (λ (p, q). let r = h.complete p in (r.value, r.returned, q)) (Accepts-bind m f h.calm k)

-- What follows from the checks before needs no condition of its own.
pub Accepts-returned : {A : Type 0} {m : Outcome ConfigError A} → Returns m → Accepts m Unit
Accepts-returned r = record {
  sound = λ q. tt;
  complete = λ q. r;
  calm = λ p. let same = r.returned in cc;
}

-- The conditions of several steps as one flat product.
pub flat3 :
    {X A B C : Type 0} {m : Outcome ConfigError X} → Accepts m (A × (B × C)) → Accepts m (A × B × C)
flat3 h = Accepts-weaken (λ (a, (b, c)). (a, b, c)) (λ (a, b, c). (a, (b, c))) h

pub flat4 :
    {X A B C D : Type 0} {m : Outcome ConfigError X}
    → Accepts m (A × (B × (C × D)))
    → Accepts m (A × B × C × D)
flat4 h = Accepts-weaken (λ (a, (b, (c, d))). (a, b, c, d)) (λ (a, b, c, d). (a, (b, (c, d)))) h

pub flat5 :
    {X A B C D E : Type 0} {m : Outcome ConfigError X}
    → Accepts m (A × (B × (C × (D × E))))
    → Accepts m (A × B × C × D × E)
flat5 h =
    Accepts-weaken (λ (a, (b, (c, (d, e)))). (a, b, c, d, e))
      (λ (a, b, c, d, e). (a, (b, (c, (d, e))))) h
