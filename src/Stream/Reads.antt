-- ===== src/Stream/Reads.antt =====
-- Handlers that read one message after another, against the pure parsers of those messages.
use skadi_core.Prelude.{
  ℕ, ◌≤◌, ◌≡◌, ◌≢◌, refl, sym, ap, ◌∙◌, Bool, true, false, List, [], ◌++◌, Option, ltb,
  if◌then◌else◌, length, take, drop, arith, le→ltb, take-drop, length-take,
}
use skadi_core.Prelude.Bytes.{IsBytes, IsBytes-take}
use skadi_core.Prelude.Outcome.{Outcome, ok, err, panic}
use skadi_core.Incremental.{IsIncremental}
use skadi_core.Incremental.Messages.{own_bytes}
use skadi_core.Stream.{
  Conn, Action, resume, ◌>>=◌, lift, fail_when, with_input, read_exact, map_err,
}

-- A handler that reads one message of a stream reads exactly the message that the parser finds at the
-- front of it, and nothing else.
pub record IsReader {E F A : Type 0} (parse : List ℕ → Outcome E (A × ℕ)) (read : Action F A)
    : Type 0 where
  pub takes :
      (c : Conn) (a : A) (n : ℕ)
      → IsBytes c.input
      → parse c.input ≡ ok (a, n)
      → read c ≡ (ok a, with_input c (drop n c.input))
  pub only :
      (c after : Conn) (a : A)
      → IsBytes c.input
      → read c ≡ (ok a, after)
      → (n : ℕ) × (parse c.input ≡ ok (a, n))

module _ {F : Type 0} where
  err-ne-ok : {A : Type 0} {e : F} {a : A} → err e ≢ ok a
  err-ne-ok p = cc

  -- A chain returns only where its first part does.
  pub >>=-returns :
      {A B : Type 0} (m : Action F A) (f : A → Action F B) (c after : Conn) (b : B)
      → (m >>= f) c ≡ (ok b, after)
      → (a : A) × (between : Conn) × (m c ≡ (ok a, between)) × (f a between ≡ (ok b, after))
  >>=-returns {A = A} {B = B} m f c after b e = go (m c).0 (m c).1 refl e
    where
      go :
          (r : Outcome F A) (now : Conn)
          → m c ≡ (r, now)
          → resume f r now ≡ (ok b, after)
          → (a : A) × (between : Conn) × (m c ≡ (ok a, between)) × (f a between ≡ (ok b, after))
      go (ok a) now p q = (a, now, p, q)
      go (err e) now p q = cc
      go panic now p q = cc

  pub read_exact_enough :
      (e : F) (n : ℕ) (c : Conn)
      → n ≤ length c.input
      → read_exact e n c ≡ (ok (take n c.input), with_input c (drop n c.input))
  read_exact_enough e n c h = rw (le→ltb (length c.input) n h) refl

  pub read_exact-returns :
      (e : F) (n : ℕ) (c after : Conn) (bytes : List ℕ)
      → read_exact e n c ≡ (ok bytes, after)
      → (n ≤ length c.input) × (bytes ≡ take n c.input) × (after ≡ with_input c (drop n c.input))
  read_exact-returns e n c after bytes p = go (ltb (length c.input) n) refl p
    where
      go :
          (short : Bool)
          → ltb (length c.input) n ≡ short
          → ◌≡◌ {A = Outcome F (List ℕ) × Conn}
              (if short
                then (err e, with_input c [])
                else (ok (take n c.input), with_input c (drop n c.input)))
              (ok bytes, after)
          → (n ≤ length c.input)
            × (bytes ≡ take n c.input)
            × (after ≡ with_input c (drop n c.input))
      go true h q = absurd (err-ne-ok (ap (λ r. r.0) q))
      go false h q = (ground arith, cc, cc)

  pub lift-returns :
      {A : Type 0} (r : Outcome F A) (c after : Conn) (a : A)
      → lift r c ≡ (ok a, after)
      → (r ≡ ok a) × (after ≡ c)
  lift-returns r c after a p = (ap (λ q. q.0) p, sym (ap (λ q. q.1) p))

  pub fail_when-returns :
      (test : Bool) (e : F) (c after : Conn)
      → fail_when test e c ≡ (ok tt, after)
      → (test ≡ false) × (after ≡ c)
  fail_when-returns true e c after p = cc
  fail_when-returns false e c after p = (refl, sym (ap (λ q. q.1) p))

  pub map_err-returns :
      {E A : Type 0} (f : E → F) (r : Outcome E A) (a : A) → map_err f r ≡ ok a → r ≡ ok a
  map_err-returns f (ok b) a p = cc
  map_err-returns f (err e) a p = cc
  map_err-returns f panic a p = cc

-- A message is parsed from its own bytes alone.
pub own_bytes_take :
    {E A : Type 0} {waits : E → Option ℕ} {parse : List ℕ → Outcome E (A × ℕ)}
    → IsIncremental waits parse
    → (input : List ℕ) (a : A) (n : ℕ) → IsBytes input
    → parse input ≡ ok (a, n)
    → parse (take n input) ≡ ok (a, n)
own_bytes_take {parse = parse} i input a n b e =
    let l : length (take n input) ≡ n =
      omega (arith, length-take n input, i.within input a n b e) in
    let whole : parse (take n input ++ drop n input) ≡ ok (a, length (take n input)) =
      rw (take-drop n input, l) e in
    let own : parse (take n input) ≡ ok (a, length (take n input)) =
      own_bytes i (take n input) (drop n input) a (IsBytes-take n input b) whole in
    own ∙ ap (λ k. ok (a, k)) l
