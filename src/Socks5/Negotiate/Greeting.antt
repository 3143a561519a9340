-- ===== src/Socks5/Negotiate/Greeting.antt =====
-- `read_greeting` of socks5.rs against `parse_greeting` of socks5/parse.rs.
use skadi_core.Prelude.{
  ℕ, ◌+◌, ◌≤◌, ◌≡◌, ◌∙◌, false, List, ◌++◌, some, ltb, length, get_elem?, get_elem?-some, take,
  drop, arith, take_more, length-drop, drop-drop, get_elem?-take,
}
use mathlib.Core.List.{append-nil}
use skadi_core.Prelude.Bytes.{IsBytes}
use skadi_core.Prelude.Outcome.{ok, byte_at}
use skadi_core.Stream.{Conn, with_input, map_err}
use skadi_core.Stream.Reads.{IsReader, own_bytes_take, map_err-returns}
use skadi_core.Stream.Uses.{Uses, Uses-read, Uses-lift, Uses-fail_when, Uses-pure, IsReader-of}
use skadi_core.Socks5.{parse_greeting, max_methods}
use skadi_core.Socks5.Safety.{parse_greeting-IsIncremental}
use skadi_core.Socks5.Negotiate.{closed, many_methods, greeting_parse, read_greeting}

greeting_size : (input a : List ℕ) (n : ℕ) → parse_greeting input ≡ ok (a, n) → (2 ≤ length input)
unfolding parse_greeting
greeting_size input a n e = grind arith

greeting_shape :
    (input a : List ℕ) (n m : ℕ)
    → parse_greeting input ≡ ok (a, n)
    → get_elem? input 1 ≡ some m
    → (n ≡ 2 + m) × (ltb max_methods m ≡ false)
unfolding parse_greeting
greeting_shape input a n m e h = grind arith

read_greeting-takes :
    (c : Conn) (a : List ℕ) (n : ℕ)
    → IsBytes c.input
    → parse_greeting c.input ≡ ok (a, n)
    → read_greeting c ≡ (ok a, with_input c (drop n c.input))
unfolding read_greeting
read_greeting-takes c a n b e =
    let two = greeting_size c.input a n e in
    let (m, at_1) = get_elem?-some c.input 1 two in
    let (total, few) = greeting_shape c.input a n m e at_1 in
    let fits = parse_greeting-IsIncremental.within c.input a n b e in
    let own = own_bytes_take parse_greeting-IsIncremental c.input a n b e in
    let at : get_elem? (take 2 c.input) 1 ≡ some m =
      get_elem?-take 1 2 c.input (omega arith) ∙ at_1 in
    ground (
      arith,
      at,
      few,
      total,
      own,
      take_more 2 m c.input,
      drop-drop m 2 c.input,
      length-drop 2 c.input,
    )

pub read_greeting-Uses : Uses (λ used a. (n : ℕ) × (parse_greeting used ≡ ok (a, n))) read_greeting
unfolding read_greeting
read_greeting-Uses = Uses-read closed 2 _ λ header _. Uses-lift (byte_at header 1) _ λ nmethods _.
    Uses-fail_when (ltb max_methods nmethods) (many_methods nmethods) _ λ _.
      Uses-read closed nmethods _ λ methods _.
        Uses-lift (map_err greeting_parse (parse_greeting (header ++ methods))) _
          λ r e. Uses-pure r.0 (r.1, rw (append-nil methods, map_err-returns greeting_parse _ r e))

-- `read_greeting` reads the message that `parse_greeting` finds at the front of the stream, and not a
-- byte more; and where it returns methods, `parse_greeting` finds them there.
pub read_greeting-IsReader : IsReader parse_greeting read_greeting
read_greeting-IsReader =
    IsReader-of parse_greeting-IsIncremental read_greeting-takes read_greeting-Uses
