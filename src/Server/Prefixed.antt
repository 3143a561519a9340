-- ===== src/Server/Prefixed.antt =====
-- crates/skadi-server/src/prefixed.rs: a connection from which one byte was read already.
use mathlib.Core.List.{append_assoc}
use skadi_core.Prelude.{
  ℕ, zero, suc, ◌≤◌, ◌≡◌, refl, ap, sym, ◌∙◌, Bool-cases, inl, inr, take-drop, List, [], ◌∷◌, ◌++◌,
  Option, none, some, ◌==◌, min, if◌then◌else◌, length, take, drop, arith,
}
use skadi_core.Stream.{Conn, with_input}

pub record PrefixedStream : Type 0 where
  pub inner : Conn
  pub prefix : Option ℕ

abbrev pub new : Conn → Option ℕ → PrefixedStream
new inner prefix = record { inner = inner; prefix = prefix }

-- `poll_read` into a buffer with this room; the connection within gives at most the bytes that are ready.
abbrev pub polled : ℕ → ℕ → Conn → Option ℕ → List ℕ × PrefixedStream
polled room ready inner (some byte) =
    if room == 0 then ([], new inner (some byte)) else (byte ∷ [], new inner none)
polled room ready inner none =
    let n = min room ready in (take n inner.input, new (with_input inner (drop n inner.input)) none)

unfoldable pub poll_read : ℕ → ℕ → PrefixedStream → List ℕ × PrefixedStream
poll_read room ready s = polled room ready s.inner s.prefix

-- What reads of one byte after another get.
unfoldable pub read_all : ℕ → PrefixedStream → List ℕ
read_all zero s = []
read_all (suc n) s = let (bytes, after) = poll_read 1 1 s in bytes ++ read_all n after

-- The connection as a handler sees it through the stream, which reads all there is and one byte before it.
unfoldable pub prefixed : Conn → Option ℕ → Conn
prefixed c prefix = with_input c (read_all (suc (length c.input)) (new c prefix))

read_rest :
    (c : Conn) (input : List ℕ) (n : ℕ)
    → length input ≤ n
    → read_all n (new (with_input c input) none) ≡ input
unfolding read_all poll_read
read_rest c [] zero h = refl
read_rest c [] (suc n) h = read_rest c [] n (omega arith)
read_rest c (b ∷ input) zero h = absurd (omega (arith, h))
read_rest c (b ∷ input) (suc n) h = ap (◌∷◌ b) (read_rest c input n (omega (arith, h)))

pub prefixed-none : (c : Conn) → prefixed c none ≡ c
unfolding prefixed
prefixed-none c = ap (with_input c) (read_rest c c.input (suc (length c.input)) (omega arith))

-- The byte that was looked at is in front of the others.
pub prefixed-some : (c : Conn) (b : ℕ) → prefixed c (some b) ≡ with_input c (b ∷ c.input)
unfolding prefixed read_all poll_read
prefixed-some c b =
    ap (λ rest. with_input c (b ∷ rest)) (read_rest c c.input (length c.input) (omega arith))

-- Reads with this room and these bytes ready, one after another: what they get, and the stream behind them.
pub poll_all : PrefixedStream → List (ℕ × ℕ) → List ℕ × PrefixedStream
poll_all s [] = ([], s)
poll_all s (r ∷ reads) =
    let (bytes, after) = poll_read r.0 r.1 s in
    let (more, last) = poll_all after reads in (bytes ++ more, last)

-- What is left to read.
abbrev pub pending : PrefixedStream → List ℕ
pending s = (prefixed s.inner s.prefix).input

pending-none : (c : Conn) → pending (new c none) ≡ c.input
pending-none c = ap (λ d. d.input) (prefixed-none c)

polled-pending :
    (room ready : ℕ) (inner : Conn) (prefix : Option ℕ)
    → let (bytes, after) = polled room ready inner prefix in
      bytes ++ pending after ≡ pending (new inner prefix)
polled-pending room ready inner (some byte) = elim (Bool-cases (room == 0)) [
  | inl e ↦ rw e refl
  | inr e ↦
      rw e (ap (◌∷◌ byte) (pending-none inner) ∙ sym (ap (λ d. d.input) (prefixed-some inner byte)))
]
polled-pending room ready inner none =
    let n = min room ready in
    ap (λ rest. take n inner.input ++ rest) (pending-none (with_input inner (drop n inner.input)))
    ∙ take-drop n inner.input
    ∙ sym (pending-none inner)

-- However the stream is read, the bytes that were got and those that are left are those of the stream.
pub poll_all-pending :
    (s : PrefixedStream) (reads : List (ℕ × ℕ))
    → let (bytes, after) = poll_all s reads in bytes ++ pending after ≡ pending s
unfolding poll_all poll_read
poll_all-pending s [] = refl
poll_all-pending s (r ∷ reads) =
    let (bytes, after) = polled r.0 r.1 s.inner s.prefix in
    append_assoc bytes (poll_all after reads).0 (pending (poll_all after reads).1)
    ∙ ap (λ rest. bytes ++ rest) (poll_all-pending after reads)
    ∙ polled-pending r.0 r.1 s.inner s.prefix
