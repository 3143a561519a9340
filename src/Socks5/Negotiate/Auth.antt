-- ===== src/Socks5/Negotiate/Auth.antt =====
-- `perform_auth` of socks5.rs: what it reads, against `parse_auth` of socks5/parse.rs.
use skadi_core.Prelude.{
  ℕ, ◌+◌, ◌≤◌, ◌≡◌, ap, ◌∙◌, false, ◌==◌, List, ◌++◌, some, length, get_elem?, get_elem?-some, take,
  drop, arith, length-drop, take_more, drop-drop, get_elem?-take, get_elem?-drop,
}
use mathlib.Core.List.{append-nil}
use skadi_core.Prelude.Bytes.{IsBytes}
use skadi_core.Prelude.Outcome.{ok, byte_at}
use skadi_core.Stream.{Conn, with_input, map_err}
use skadi_core.Stream.Reads.{IsReader, own_bytes_take, map_err-returns}
use skadi_core.Stream.Uses.{Uses, Uses-read, Uses-lift, Uses-fail_when, Uses-pure, IsReader-of}
use skadi_core.Socks5.{parse_auth}
use skadi_core.Socks5.Safety.{parse_auth-IsIncremental}
use skadi_core.Socks5.Negotiate.{closed, no_username, no_password, auth_parse, read_auth}

auth_size :
    (input : List ℕ) (a : List ℕ × List ℕ) (n : ℕ) → parse_auth input ≡ ok (a, n) → 5 ≤ length input
unfolding parse_auth
auth_size input a n e = grind arith

auth_uname :
    (input : List ℕ) (a : List ℕ × List ℕ) (n ulen : ℕ)
    → parse_auth input ≡ ok (a, n)
    → get_elem? input 1 ≡ some ulen
    → ((ulen == 0) ≡ false) × (2 + ulen + 1 ≤ length input)
unfolding parse_auth
auth_uname input a n ulen e h = grind arith

auth_passwd :
    (input : List ℕ) (a : List ℕ × List ℕ) (n ulen plen : ℕ)
    → parse_auth input ≡ ok (a, n)
    → get_elem? input 1 ≡ some ulen
    → get_elem? input (2 + ulen) ≡ some plen
    → ((plen == 0) ≡ false) × (n ≡ 2 + ulen + 1 + plen)
unfolding parse_auth
auth_passwd input a n ulen plen e h k = grind arith

pub read_auth-Uses : Uses (λ used a. (n : ℕ) × (parse_auth used ≡ ok (a, n))) read_auth
unfolding read_auth
read_auth-Uses = Uses-read closed 2 _ λ header _. Uses-lift (byte_at header 1) _ λ ulen _.
    Uses-fail_when (ulen == 0) no_username _ λ _. Uses-read closed ulen _ λ uname _.
      Uses-read closed 1 _ λ plen_buf _. Uses-lift (byte_at plen_buf 0) _ λ plen _.
        Uses-fail_when (plen == 0) no_password _ λ _. Uses-read closed plen _ λ passwd _.
          Uses-lift (map_err auth_parse (parse_auth (header ++ (uname ++ (plen_buf ++ passwd))))) _
            λ r e. Uses-pure r.0 (r.1, rw (append-nil passwd, map_err-returns auth_parse _ r e))

-- The pieces that `read_auth` reads.
module _ (input : List ℕ) (ulen plen : ℕ) where
  plen_at :
      get_elem? input (2 + ulen) ≡ some plen
      → get_elem? (take 1 (drop ulen (drop 2 input))) 0 ≡ some plen
  plen_at e =
      get_elem?-take 0 1 (drop ulen (drop 2 input)) (omega arith)
      ∙ ap (λ xs. get_elem? xs 0) (drop-drop ulen 2 input)
      ∙ get_elem?-drop 0 (2 + ulen) input
      ∙ ap (get_elem? input) (omega arith)
      ∙ e

  pieces :
      take 2 input
        ++ (take ulen (drop 2 input)
            ++ (take 1 (drop ulen (drop 2 input)) ++ take plen (drop 1 (drop ulen (drop 2 input)))))
      ≡ take (2 + ulen + 1 + plen) input
  pieces =
      rw
        (
          take_more 1 plen (drop ulen (drop 2 input)),
          take_more ulen (1 + plen) (drop 2 input),
          take_more 2 (ulen + (1 + plen)) input,
        )
        (ap (λ k. take k input) (omega arith))

  behind : drop plen (drop 1 (drop ulen (drop 2 input))) ≡ drop (2 + ulen + 1 + plen) input
  behind =
      rw (drop-drop ulen 2 input, drop-drop 1 (2 + ulen) input)
        (drop-drop plen (2 + ulen + 1) input)

read_auth-takes :
    (c : Conn) (a : List ℕ × List ℕ) (n : ℕ)
    → IsBytes c.input
    → parse_auth c.input ≡ ok (a, n)
    → read_auth c ≡ (ok a, with_input c (drop n c.input))
unfolding read_auth
read_auth-takes c a n b e =
    let five = auth_size c.input a n e in
    let (ulen, at_1) = get_elem?-some c.input 1 (omega arith) in
    let (some_name, enough) = auth_uname c.input a n ulen e at_1 in
    let (plen, at_p) = get_elem?-some c.input (2 + ulen) (omega arith) in
    let (some_pass, total) = auth_passwd c.input a n ulen plen e at_1 at_p in
    let fits = parse_auth-IsIncremental.within c.input a n b e in
    let own = own_bytes_take parse_auth-IsIncremental c.input a n b e in
    let at : get_elem? (take 2 c.input) 1 ≡ some ulen =
      get_elem?-take 1 2 c.input (omega arith) ∙ at_1 in
    let past = drop ulen (drop 2 c.input) in
    ground (
      arith,
      at,
      plen_at c.input ulen plen at_p,
      some_name,
      some_pass,
      total,
      pieces c.input ulen plen,
      behind c.input ulen plen,
      own,
      length-drop 2 c.input,
      length-drop ulen (drop 2 c.input),
      length-drop 1 past,
    )

pub read_auth-IsReader : IsReader parse_auth read_auth
read_auth-IsReader = IsReader-of parse_auth-IsIncremental read_auth-takes read_auth-Uses
