-- ===== src/Stream.antt =====
-- A connection as the asynchronous handlers of crates/skadi-protocol see it: what the peer will have
-- sent in all, whether writes succeed, and what has been written. How the bytes are cut into packets
-- does not show, since the handlers read by `read_exact`.
pub mod Reads
pub mod Uses
pub mod Quiet
use skadi_core.Prelude.{
  ℕ, ◌≡◌, Bool, true, false, List, [], ◌++◌, Option, none, some, ltb, if◌then◌else◌, length, take,
  drop,
}
use skadi_core.Prelude.Outcome.{Outcome, ok, err, panic}

pub record Conn : Type 0 where
  pub input : List ℕ
  pub writable : Bool
  pub output : List ℕ

abbrev pub Action : Type 0 → Type 0 → Type 0
Action E A = Conn → Outcome E A × Conn

abbrev pub resume : {E A B : Type 0} → (A → Action E B) → Outcome E A → Action E B
resume f (ok a) c = f a c
resume f (err e) c = (err e, c)
resume f panic c = (panic, c)

infixl 5 ◌>>=◌ ◌>>◌
abbrev pub ◌>>=◌ : {E A B : Type 0} → Action E A → (A → Action E B) → Action E B
(m >>= f) c = resume f (m c).0 (m c).1

abbrev pub ◌>>◌ : {E B : Type 0} → Action E (Unit {0}) → Action E B → Action E B
m >> k = m >>= λ _. k

abbrev pub lift : {E A : Type 0} → Outcome E A → Action E A
lift r c = (r, c)

abbrev pub pure : {E A : Type 0} → A → Action E A
pure a c = (ok a, c)

-- `bail!`
abbrev pub fail : {E A : Type 0} → E → Action E A
fail e c = (err e, c)

abbrev pub fail_when : {E : Type 0} → Bool → E → Action E (Unit {0})
fail_when true e = fail e
fail_when false e = pure tt

abbrev pub with_input : Conn → List ℕ → Conn
with_input c rest = record { input = rest; writable = c.writable; output = c.output }

abbrev pub with_output : Conn → List ℕ → Conn
with_output c sent = record { input = c.input; writable = c.writable; output = sent }

-- `stream.read_exact(&mut buf).await?` for a buffer of `n` bytes. Where the stream ends before, what was
-- left of it is gone.
abbrev pub read_exact : {E : Type 0} → E → ℕ → Action E (List ℕ)
read_exact e n c =
    if ltb (length c.input) n
    then (err e, with_input c [])
    else (ok (take n c.input), with_input c (drop n c.input))

-- `stream.write_all(bytes).await?; stream.flush().await?`
abbrev pub write_all : {E : Type 0} → E → List ℕ → Action E (Unit {0})
write_all e bytes c = if c.writable then (ok tt, with_output c (c.output ++ bytes)) else (err e, c)

-- `let _ = action.await`
abbrev pub ignore : {E : Type 0} → Action E (Unit {0}) → Action E (Unit {0})
ignore m c = (ok tt, (m c).1)

-- `.map_err(f)`
abbrev pub map_err : {E F A : Type 0} → (E → F) → Outcome E A → Outcome F A
map_err f (ok a) = ok a
map_err f (err e) = err (f e)
map_err f panic = panic
