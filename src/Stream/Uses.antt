-- ===== src/Stream/Uses.antt =====
-- What a handler that returns has read of its stream, and what it makes of it.
use skadi_core.Prelude.{
  ℕ, ◌≡◌, refl, sym, ap, ◌∙◌, Bool, true, false, List, [], ◌++◌, Option, if◌then◌else◌, length,
  drop, arith, take-drop, length-take,
}
use mathlib.Core.List.{append_assoc}
use mathlib.Core.Path.{subst}
use skadi_core.Prelude.Bytes.{IsBytes}
use skadi_core.Prelude.Outcome.{Outcome, ok, err, panic}
use skadi_core.Incremental.{IsIncremental}
use skadi_core.Stream.{
  Conn, Action, ◌>>=◌, ◌>>◌, lift, pure, fail, fail_when, with_input, with_output, write_all,
  read_exact,
}
use skadi_core.Stream.Reads.{IsReader, >>=-returns, read_exact-returns, lift-returns}

module _ {F : Type 0} where
  pub record Uses {B : Type 0} (Q : List ℕ → B → Type 0) (m : Action F B) : Type 0 where
    pub uses :
        (c after : Conn) (b : B)
        → m c ≡ (ok b, after)
        → (used : List ℕ) × (c.input ≡ used ++ after.input) × Q used b

  pub Uses-bind :
      {A B : Type 0} {P : List ℕ → A → Type 0} {Q : List ℕ → B → Type 0} (m : Action F A)
      (f : A → Action F B)
      → Uses P m
      → ((used : List ℕ) (a : A) → P used a → Uses (λ more b. Q (used ++ more) b) (f a))
      → Uses Q (m >>= f)
  Uses-bind m f h k = record {
    uses = λ c after b e.
        let (a, between, p, q) = >>=-returns m f c after b e in
        let (used, u, pa) = h.uses c between a p in
        let (more, v, qb) = (k used a pa).uses between after b q in
        (used ++ more, u ∙ ap (◌++◌ used) v ∙ sym (append_assoc used more after.input), qb);
  }

  pub Uses-read :
      {B : Type 0} {Q : List ℕ → B → Type 0} (e : F) (n : ℕ) (f : List ℕ → Action F B)
      → ((bytes : List ℕ) → length bytes ≡ n → Uses (λ more b. Q (bytes ++ more) b) (f bytes))
      → Uses Q (read_exact e n >>= f)
  Uses-read e n f k = record {
    uses = λ c after b p.
        let (bytes, between, m, q) = >>=-returns (read_exact e n) f c after b p in
        let (h, t, l) = read_exact-returns e n c between bytes m in
        let all : c.input ≡ bytes ++ between.input = sym (
          ap (◌++◌ bytes) (ap (λ d. d.input) l)
          ∙ ap (λ x. x ++ drop n c.input) t
          ∙ take-drop n c.input) in
        let (more, v, qb) =
          (k bytes (omega (arith, ap length t, length-take n c.input))).uses between after b q in
        (bytes ++ more, all ∙ ap (◌++◌ bytes) v ∙ sym (append_assoc bytes more after.input), qb);
  }

  pub Uses-exact : (e : F) (n : ℕ) → Uses (λ used bytes. used ≡ bytes) (read_exact e n)
  Uses-exact e n = record {
    uses = λ c after bytes p.
        let (h, t, l) = read_exact-returns e n c after bytes p in
        (
          bytes,
          sym (
              ap (◌++◌ bytes) (ap (λ d. d.input) l)
              ∙ ap (λ x. x ++ drop n c.input) t
              ∙ take-drop n c.input),
          refl,
        );
  }

  pub Uses-lift :
      {A B : Type 0} {Q : List ℕ → B → Type 0} (r : Outcome F A) (f : A → Action F B)
      → ((a : A) → r ≡ ok a → Uses Q (f a))
      → Uses Q (lift r >>= f)
  Uses-lift (ok a) f k = k a refl
  Uses-lift (err e) f k = record { uses = λ c after b p. cc }
  Uses-lift panic f k = record { uses = λ c after b p. cc }

  pub Uses-fail_when :
      {B : Type 0} {Q : List ℕ → B → Type 0} (test : Bool) (e : F) (m : Action F B)
      → (test ≡ false → Uses Q m)
      → Uses Q (fail_when test e >> m)
  Uses-fail_when true e m k = record { uses = λ c after b p. cc }
  Uses-fail_when false e m k = k refl

  write_all-input :
      (e : F) (bytes : List ℕ) (c after : Conn) (u : Unit {0})
      → write_all e bytes c ≡ (ok u, after)
      → c.input ≡ after.input
  write_all-input e bytes c after u p = go c.writable p
    where
      go :
          (writable : Bool)
          → ◌≡◌ {A = Outcome F (Unit {0}) × Conn}
              (if writable then (ok tt, with_output c (c.output ++ bytes)) else (err e, c))
              (ok u, after)
          → c.input ≡ after.input
      go true q = ap (λ r. r.1.input) q
      go false q = cc

  pub Uses-write :
      {B : Type 0} {Q : List ℕ → B → Type 0} (e : F) (bytes : List ℕ) (m : Action F B)
      → Uses Q m
      → Uses Q (write_all e bytes >> m)
  Uses-write e bytes m k = record {
    uses = λ c after b p.
        let (u, between, w, q) = >>=-returns (write_all e bytes) (λ _. m) c after b p in
        let (used, all, h) = k.uses between after b q in
        (used, write_all-input e bytes c between u w ∙ all, h);
  }

  pub Uses-pure : {B : Type 0} {Q : List ℕ → B → Type 0} (b : B) → Q [] b → Uses Q (pure b)
  Uses-pure {Q = Q} b q = record {
    uses = λ c after d p.
        let (h, k) = lift-returns (ok b) c after d p in
        let same : b ≡ d = cc in ([], sym (ap (λ d. d.input) k), subst (Q []) same q);
  }

  pub Uses-last_check :
      {Q : List ℕ → Unit {0} → Type 0} (test : Bool) (e : F)
      → (test ≡ false → Q [] tt)
      → Uses Q (fail_when test e)
  Uses-last_check true e q = record { uses = λ c after b p. cc }
  Uses-last_check false e q = Uses-pure tt (q refl)

  pub Uses-fail :
      {A : Type 0} {Q : List ℕ → A → Type 0} (m : Action F (Unit {0})) (e : F)
      → Uses Q (m >> fail e)
  Uses-fail m e = record {
    uses = λ c after a p. let (u, between, h, k) = >>=-returns m (λ _. fail e) c after a p in cc;
  }

  pub Uses-if :
      {A : Type 0} {Q : List ℕ → A → Type 0} (test : Bool) (m k : Action F A)
      → (test ≡ true → Uses Q m)
      → (test ≡ false → Uses Q k)
      → Uses Q (if test then m else k)
  Uses-if true m k f g = f refl
  Uses-if false m k f g = g refl

-- A handler that parses what it has read, and that takes every message, reads as the parser does.
pub IsReader-of :
    {E F A : Type 0} {waits : E → Option ℕ} {parse : List ℕ → Outcome E (A × ℕ)} {read : Action F A}
    → IsIncremental waits parse
    → ((c : Conn) (a : A) (n : ℕ)
        → IsBytes c.input
        → parse c.input ≡ ok (a, n)
        → read c ≡ (ok a, with_input c (drop n c.input)))
    → Uses (λ used a. (n : ℕ) × (parse used ≡ ok (a, n))) read
    → IsReader parse read
IsReader-of {parse = parse} i t u = record {
  takes = t;
  only = λ c after a _ e.
      let (used, all, (n, p)) = u.uses c after a e in
      (n, ap parse all ∙ i.settled used after.input (rw p refl) ∙ p);
}

pub Uses-weaken :
    {F B : Type 0} {P Q : List ℕ → B → Type 0} {m : Action F B}
    → Uses P m
    → ((used : List ℕ) (b : B) → P used b → Q used b)
    → Uses Q m
Uses-weaken u f = record {
  uses = λ c after b p. let (used, all, h) = u.uses c after b p in (used, all, f used b h);
}
