-- ===== src/Incremental/Rules.antt =====
-- Two runs of one parser side by side: on the bytes read so far, and with more bytes behind them.
-- One rule for each kind of step, so that a proof follows the parser's text.
use skadi_core.Prelude.{
  ℕ, ◌+◌, ◌≤◌, ◌<◌, ◌≡◌, refl, ◌≢◌, Bool, true, false, List, ◌++◌, Option, none, some, inl, inr,
  length, arith, ltb, Bool-cases, ltb→le, ltb→lt, le→ltb, length-append,
}
use skadi_core.Prelude.Bytes.{IsBytes}
use skadi_core.Prelude.Outcome.{
  Outcome, ok, err, panic, ◌>>=◌, ◌>>◌, fail_if, byte_at, slice, byte_at_some, slice_some,
  byte_at_grow, slice_grow,
}
use skadi_core.Incremental.{wanted, IsSound, IsIncremental, IsDecisive}

-- `s` is what the longer run answers: the same, unless `r` asks for bytes, and then for no more than
-- the longer run uses.
pub data Grows {E A : Type 0} (waits : E → Option ℕ) (off : ℕ) (r s : Outcome E (A × ℕ))
    : Type 0 where
  same : s ≡ r → Grows waits off r s
  short :
      wanted waits r ≢ 0
      → ((a : A) (m : ℕ) → s ≡ ok (a, m) → wanted waits r ≤ off + m)
      → Grows waits off r s

module _ {E A : Type 0} {waits : E → Option ℕ} {off : ℕ} where
  pub Grows-settled : (r s : Outcome E (A × ℕ)) → Grows waits off r s → wanted waits r ≡ 0 → s ≡ r
  Grows-settled r s (same e) h = e
  Grows-settled r s (short n k) h = absurd (n h)

  pub Grows-modest :
      (r s : Outcome E (A × ℕ))
      → Grows waits off r s
      → (a : A) (m : ℕ) → s ≡ ok (a, m)
      → wanted waits r ≤ off + m
  Grows-modest r s (same e) a m h = ground arith
  Grows-modest r s (short n k) a m h = k a m h

  -- A step that the two runs share.
  pub Grows-step :
      {B : Type 0} (x : Outcome E B) (f g : B → Outcome E (A × ℕ))
      → ((b : B) → x ≡ ok b → Grows waits off (f b) (g b))
      → Grows waits off (x >>= f) (x >>= g)
  Grows-step (ok b) f g h = h b refl
  Grows-step (err e) f g h = same refl
  Grows-step panic f g h = same refl

-- The value of an inner parser, put into a larger one that counts from further ahead.
pub Grows-map :
    {E A B : Type 0} {waits : E → Option ℕ} {off : ℕ} (k : A → B) (far : ℕ → ℕ)
    (r s : Outcome E (A × ℕ)) (ahead : ℕ)
    → ((n : ℕ) → ahead + n ≤ off + far n)
    → Grows waits ahead r s
    → Grows waits off (r >>= λ p. ok (k p.0, far p.1)) (s >>= λ p. ok (k p.0, far p.1))
Grows-map k far r s ahead le (same e) = same (rw e)
Grows-map k far (ok a) s ahead le (short n h) = absurd (n refl)
Grows-map k far (err e) (ok (a, l)) ahead le (short n h) =
    short n (λ b m q. ground (arith, h a l refl, le l))
Grows-map k far (err e) (err e') ahead le (short n h) = short n (λ b m q. cc)
Grows-map k far (err e) panic ahead le (short n h) = short n (λ b m q. cc)
Grows-map k far panic s ahead le (short n h) = absurd (n refl)

-- `if test { return Err(e) }`, the same test in both runs.
pub Grows-fail :
    {E A : Type 0} {waits : E → Option ℕ} {off : ℕ} (test : Bool) (e : E) (f g : Outcome E (A × ℕ))
    → (test ≡ false → Grows waits off f g)
    → Grows waits off (fail_if test e >> f) (fail_if test e >> g)
Grows-fail true e f g h = same refl
Grows-fail false e f g h = h refl

-- The same, where the error is an `Incomplete` that tells the length of the input.
pub Grows-stop :
    {E A : Type 0} {waits : E → Option ℕ} {off : ℕ} (test : Bool) (e e' : E)
    (f g : Outcome E (A × ℕ))
    → wanted {E = E} waits {A = A} (err e) ≢ 0
    → (test ≡ false → Grows waits off f g)
    → Grows waits off (fail_if test e >> f) (fail_if test e' >> g)
Grows-stop true e e' f g w h = short w (λ a m q. cc)
Grows-stop false e e' f g w h = h refl

module _ {E A : Type 0} {waits : E → Option ℕ} {off : ℕ} (input more : List ℕ) where
  -- `if input.len() < n { return Err(Incomplete { .. }) }`
  pub Grows-need :
      (n : ℕ) (missing : ℕ → E) (f g : Outcome E (A × ℕ))
      → waits (missing (length input)) ≡ some n
      → 0 < n
      → ((a : A) (m : ℕ)
          → (fail_if (ltb (length (input ++ more)) n) (missing (length (input ++ more))) >> g)
            ≡ ok (a, m)
          → n ≤ off + m)
      → (n ≤ length input → Grows waits off f g)
      → Grows waits off
          (fail_if (ltb (length input) n) (missing (length input)) >> f)
          (fail_if (ltb (length (input ++ more)) n) (missing (length (input ++ more))) >> g)
  Grows-need n missing f g w pos uses rest = elim (Bool-cases (ltb (length input) n)) [
    | inl few ↦ rw few (short (rw w (omega arith)) (λ a m e. rw w (uses a m e)))
    | inr enough ↦
        rw
          (
            enough,
            le→ltb (length (input ++ more)) n
                (omega (arith, length-append input more, ltb→le _ _ enough)),
          )
          (rest (ltb→le _ _ enough))
  ]

  -- The same, where the error does not tell how many bytes are missing.
  pub Grows-less :
      (n : ℕ) (e : E) (f g : Outcome E (A × ℕ))
      → wanted {E = E} waits {A = A} (err e) ≢ 0
      → wanted {E = E} waits {A = A} (err e) ≤ off
      → (n ≤ length input → Grows waits off f g)
      → Grows waits off
          (fail_if (ltb (length input) n) e >> f)
          (fail_if (ltb (length (input ++ more)) n) e >> g)
  Grows-less n e f g w some_off rest = elim (Bool-cases (ltb (length input) n)) [
    | inl few ↦ rw few (short w (λ a m q. omega arith))
    | inr enough ↦
        rw
          (
            enough,
            le→ltb (length (input ++ more)) n
                (omega (arith, length-append input more, ltb→le _ _ enough)),
          )
          (rest (ltb→le _ _ enough))
  ]

  -- `input[i]`, within the bounds.
  pub Grows-byte :
      (i : ℕ) (f g : ℕ → Outcome E (A × ℕ))
      → i < length input
      → ((b : ℕ) → byte_at {E = E} input i ≡ ok b → Grows waits off (f b) (g b))
      → Grows waits off (byte_at input i >>= f) (byte_at (input ++ more) i >>= g)
  Grows-byte i f g h rest = rw (byte_at_grow {E = E} input more i h) (Grows-step _ f g rest)

  -- `&input[a..b]`, within the bounds.
  pub Grows-slice :
      (a b : ℕ) (f g : List ℕ → Outcome E (A × ℕ))
      → a ≤ b
      → b ≤ length input
      → ((s : List ℕ) → slice {E = E} input a b ≡ ok s → Grows waits off (f s) (g s))
      → Grows waits off (slice input a b >>= f) (slice (input ++ more) a b >>= g)
  Grows-slice a b f g h k rest = rw (slice_grow {E = E} input more a b h k) (Grows-step _ f g rest)

-- The rules for one run.
module _ {E A : Type 0} {waits : E → Option ℕ} {base off lo : ℕ} (input : List ℕ) where
  pub IsSound-need :
      (n : ℕ) (e : E) (f : Outcome E (A × ℕ))
      → waits e ≡ some n
      → (n ≤ length input → IsSound waits base off lo (length input) f)
      → IsSound waits base off lo (length input) (fail_if (ltb (length input) n) e >> f)
  IsSound-need n e f w rest = elim (Bool-cases (ltb (length input) n)) [
    | inl few ↦ rw few (record {
      no_panic = λ p. cc;
      asks = rw w (inr (omega (arith, ltb→lt _ _ few)));
      ends = λ a m q. cc;
    })
    | inr enough ↦ rw enough (rest (ltb→le _ _ enough))
  ]

  pub IsSound-less :
      (n : ℕ) (e : E) (f : Outcome E (A × ℕ))
      → length input < base + wanted {E = E} waits {A = A} (err e)
      → (n ≤ length input → IsSound waits base off lo (length input) f)
      → IsSound waits base off lo (length input) (fail_if (ltb (length input) n) e >> f)
  IsSound-less n e f w rest = elim (Bool-cases (ltb (length input) n)) [
    | inl few ↦ rw few (record { no_panic = λ p. cc; asks = inr w; ends = λ a m q. cc })
    | inr enough ↦ rw enough (rest (ltb→le _ _ enough))
  ]

  -- A step that does not panic, and whose errors ask for nothing or count from the end.
  pub IsSound-step {κ} :
      {B : Type κ} (x : Outcome E B) (f : B → Outcome E (A × ℕ))
      → x ≢ panic
      → length input ≤ base
      → ((b : B) → x ≡ ok b → IsSound waits base off lo (length input) (f b))
      → IsSound waits base off lo (length input) (x >>= f)
  IsSound-step (ok b) f h k rest = rest b refl
  IsSound-step (err e) f h k rest = record {
    no_panic = λ p. cc;
    asks = omega arith;
    ends = λ a m q. cc;
  }
  IsSound-step panic f h k rest = absurd (h refl)

  pub IsSound-fail :
      (test : Bool) (e : E) (f : Outcome E (A × ℕ))
      → waits e ≡ none
      → (test ≡ false → IsSound waits base off lo (length input) f)
      → IsSound waits base off lo (length input) (fail_if test e >> f)
  IsSound-fail true e f w rest = record {
    no_panic = λ p. cc;
    asks = rw w (inl refl);
    ends = λ a m q. cc;
  }
  IsSound-fail false e f w rest = rest refl

  pub IsSound-byte :
      (i : ℕ) (f : ℕ → Outcome E (A × ℕ))
      → i < length input
      → ((b : ℕ) → byte_at {E = E} input i ≡ ok b → IsSound waits base off lo (length input) (f b))
      → IsSound waits base off lo (length input) (byte_at input i >>= f)
  IsSound-byte i f h rest = let (b, e) = byte_at_some {E = E} input i h in rw e (rest b e)

  pub IsSound-slice :
      (a b : ℕ) (f : List ℕ → Outcome E (A × ℕ))
      → a ≤ b
      → b ≤ length input
      → ((s : List ℕ) → IsSound waits base off lo (length input) (f s))
      → IsSound waits base off lo (length input) (slice input a b >>= f)
  IsSound-slice a b f h k rest = rw (slice_some {E = E} input a b h k) (rest _)

pub IsSound-lower :
    {E A : Type 0} {waits : E → Option ℕ} {base off size : ℕ} (more lo : ℕ) (r : Outcome E (A × ℕ))
    → lo ≤ more
    → IsSound waits base off more size r
    → IsSound waits base off lo size r
IsSound-lower more lo r h s = record {
  no_panic = s.no_panic;
  asks = s.asks;
  ends = λ a n e. omega (arith, s.ends a n e);
}

-- An answer about a part of the input, which starts at `off`.
pub IsSound-part :
    {E A : Type 0} {waits : E → Option ℕ} {from low part : ℕ} (base off lo size : ℕ)
    (r : Outcome E (A × ℕ))
    → off + part ≤ size
    → size + from ≤ base + part
    → lo ≤ off + low
    → IsSound waits from 0 low part r
    → IsSound waits base off lo size r
IsSound-part base off lo size r h k l s = record {
  no_panic = s.no_panic;
  asks = omega (arith, s.asks);
  ends = λ a n e. omega (arith, s.ends a n e);
}

pub IsSound-map :
    {E A B : Type 0} {waits : E → Option ℕ} {base off lo size : ℕ} (k : A → B) (far : ℕ → ℕ)
    (r : Outcome E (A × ℕ))
    → ((n : ℕ) → off + n ≡ far n)
    → IsSound waits base off lo size r
    → IsSound waits base 0 lo size (r >>= λ p. ok (k p.0, far p.1))
IsSound-map k far (ok (a, n)) eq h = record {
  no_panic = λ p. cc;
  asks = inl refl;
  ends = λ b m q. ground (arith, eq n, h.ends a n refl);
}
IsSound-map k far (err e) eq h = record { no_panic = λ p. cc; asks = h.asks; ends = λ b m q. cc }
IsSound-map k far panic eq h = absurd (h.no_panic refl)

module _ {E A : Type 0} {waits : E → Option ℕ} (parse : List ℕ → Outcome E (A × ℕ)) where
  -- Of a parser whose answers count from anywhere.
  pub IsDecisive-of :
      (base : List ℕ → ℕ) (lo : ℕ)
      → ((input : List ℕ)
          → IsBytes input
          → IsSound waits (base input) 0 lo (length input) (parse input))
      → ((input more : List ℕ) → Grows waits 0 (parse input) (parse (input ++ more)))
      → IsDecisive waits parse
  IsDecisive-of base lo sound grows = record {
    returns = λ input h. (sound input h).no_panic;
    settled = λ input more h. Grows-settled _ _ (grows input more) h;
    modest = λ input more a n e. omega (arith, Grows-modest _ _ (grows input more) a n e);
    within = λ input a n h e. omega (arith, ((sound input h).ends a n e).1);
  }

  pub IsIncremental-of :
      (lo : ℕ)
      → ((input : List ℕ) → IsBytes input → IsSound waits 0 0 lo (length input) (parse input))
      → ((input more : List ℕ) → Grows waits 0 (parse input) (parse (input ++ more)))
      → IsIncremental waits parse
  IsIncremental-of lo sound grows = record {
    decisive = IsDecisive-of (λ _. 0) lo sound grows;
    honest = λ input h. omega (arith, (sound input h).asks);
  }
