-- ===== src/Socks5/Negotiate/Target.antt =====
-- `read_request` of socks5.rs: what it reads, against `parse_request` of socks5/parse.rs.
use skadi_core.Prelude.{
  ℕ, ◌+◌, ◌-◌, ◌≤◌, ◌≡◌, inl, inr, refl, ap, ◌∙◌, true, false, Bool-cases, ◌==◌, List, ◌++◌, some,
  length, get_elem?, get_elem?-some, take, drop, arith, length-drop, take_more, drop-drop,
  get_elem?-take, get_elem?-drop,
}
use mathlib.Core.List.{append-nil}
use skadi_core.Prelude.Bytes.{IsBytes}
use skadi_core.Prelude.Outcome.{ok, byte_at}
use skadi_core.Stream.{Conn, with_input, map_err, ignore}
use skadi_core.Stream.Reads.{IsReader, own_bytes_take, map_err-returns}
use skadi_core.Stream.Uses.{
  Uses, Uses-bind, Uses-read, Uses-lift, Uses-pure, Uses-fail, Uses-if, Uses-exact, IsReader-of,
}
use skadi_core.Endpoint.{Endpoint}
use skadi_core.Socks5.{
  Socks5Request, parse_request, parse_target, parse_ipv4, parse_ipv6, parse_domain, atyp_ipv4,
  atyp_ipv6, atyp_domain,
}
use skadi_core.Socks5.Safety.{parse_request-IsIncremental}
use skadi_core.Socks5.Negotiate.{
  closed, no_domain, unknown_address_type, request_parse, reply_code, rep_address_not_supported,
  send_error, read_address, read_socks5_request,
}

request_size :
    (input : List ℕ) (a : Socks5Request) (n : ℕ)
    → parse_request input ≡ ok (a, n)
    → 4 ≤ length input
unfolding parse_request
request_size input a n e = grind arith

request_target :
    (input : List ℕ) (a : Socks5Request) (n atyp : ℕ)
    → parse_request input ≡ ok (a, n)
    → get_elem? input 3 ≡ some atyp
    → parse_target input atyp 4 ≡ ok (a.target, n)
unfolding parse_request
request_target input a n atyp e h = grind arith

read_address-Uses : (atyp : ℕ) → Uses (λ used bytes. used ≡ bytes) (read_address atyp)
unfolding read_address
read_address-Uses atyp =
    Uses-if (atyp == atyp_ipv4) _ _ (λ _. Uses-exact closed 6)
      λ _.
        Uses-if (atyp == atyp_ipv6) _ _ (λ _. Uses-exact closed 18)
          λ _.
            Uses-if (atyp == atyp_domain) _ _
              (λ _. Uses-read closed 1 _ λ len_buf _. Uses-lift (byte_at len_buf 0) _ λ dlen _.
                Uses-if (dlen == 0) _ _
                  (λ _. Uses-fail (ignore (send_error rep_address_not_supported)) no_domain)
                  λ _.
                    Uses-read closed (dlen + 2) _
                      λ rest _. Uses-pure (len_buf ++ rest) (ap (◌++◌ len_buf) (append-nil rest)))
              λ _.
                Uses-fail (ignore (send_error rep_address_not_supported))
                  (unknown_address_type atyp)

pub read_socks5_request-Uses :
    Uses (λ used a. (n : ℕ) × (parse_request used ≡ ok (a, n))) read_socks5_request
unfolding read_socks5_request
read_socks5_request-Uses = Uses-read closed 4 _ λ header _. Uses-lift (byte_at header 3) _ λ atyp _.
    Uses-bind _ _ (read_address-Uses atyp) λ used address same.
      Uses-lift (map_err (λ e. request_parse (reply_code e) e) (parse_request (header ++ address)))
        _ λ r e. Uses-pure r.0 (r.1, rw (append-nil used, same, map_err-returns _ _ r e))

ipv4_size : (input : List ℕ) (t : Endpoint) (n : ℕ) → parse_ipv4 input 4 ≡ ok (t, n) → n ≡ 10
unfolding parse_ipv4
ipv4_size input t n e = grind arith

ipv6_size : (input : List ℕ) (t : Endpoint) (n : ℕ) → parse_ipv6 input 4 ≡ ok (t, n) → n ≡ 22
unfolding parse_ipv6
ipv6_size input t n e = grind arith

domain_size :
    (input : List ℕ) (t : Endpoint) (n : ℕ) → parse_domain input 4 ≡ ok (t, n) → 5 ≤ length input
unfolding parse_domain
domain_size input t n e = grind arith

domain_shape :
    (input : List ℕ) (t : Endpoint) (n dlen : ℕ)
    → parse_domain input 4 ≡ ok (t, n)
    → get_elem? input 4 ≡ some dlen
    → ((dlen == 0) ≡ false) × (n ≡ 7 + dlen)
unfolding parse_domain
domain_shape input t n dlen e h = grind arith

read_domain :
    (c : Conn) (atyp dlen n : ℕ)
    → (atyp == atyp_ipv4) ≡ false
    → (atyp == atyp_ipv6) ≡ false
    → (atyp == atyp_domain) ≡ true
    → get_elem? c.input 0 ≡ some dlen
    → (dlen == 0) ≡ false
    → n ≡ 7 + dlen
    → 3 + dlen ≤ length c.input
    → read_address atyp c ≡ (ok (take (n - 4) c.input), with_input c (drop (n - 4) c.input))
unfolding read_address
read_domain c atyp dlen n p q r at_0 some_domain size fits =
    let size_1 : 1 + (dlen + 2) ≡ n - 4 = omega arith in
    let piece : take 1 c.input ++ take (dlen + 2) (drop 1 c.input) ≡ take (n - 4) c.input =
      take_more 1 (dlen + 2) c.input ∙ ap (λ k. take k c.input) size_1 in
    let rest : drop (dlen + 2) (drop 1 c.input) ≡ drop (n - 4) c.input =
      drop-drop (dlen + 2) 1 c.input ∙ ap (λ k. drop k c.input) size_1 in
    let at : get_elem? (take 1 c.input) 0 ≡ some dlen =
      get_elem?-take 0 1 c.input (omega arith) ∙ at_0 in
    ground (arith, p, q, r, at, some_domain, piece, rest, length-drop 1 c.input)

-- The address behind the header is read to its end.
read_address-takes :
    (c : Conn) (input : List ℕ) (atyp n : ℕ) (t : Endpoint)
    → c.input ≡ drop 4 input
    → parse_target input atyp 4 ≡ ok (t, n)
    → n ≤ length input
    → (4 ≤ n)
      × (read_address atyp c ≡ (ok (take (n - 4) c.input), with_input c (drop (n - 4) c.input)))
unfolding read_address parse_target
read_address-takes c input atyp n t s e h = elim (Bool-cases (atyp == atyp_ipv4)) [
  | inl p ↦
      let size = ipv4_size input t n (rw p at e) in
      (omega arith, ground (arith, p, size, ap length s, length-drop 4 input))
  | inr p ↦ elim (Bool-cases (atyp == atyp_ipv6)) [
    | inl q ↦
        let size = ipv6_size input t n (rw (p, q) at e) in
        (omega arith, ground (arith, p, q, size, ap length s, length-drop 4 input))
    | inr q ↦ elim (Bool-cases (atyp == atyp_domain)) [
      | inl r ↦
          let named = rw (p, q, r) at e in
          let five = domain_size input t n named in
          let (dlen, at_4) = get_elem?-some input 4 five in
          let (some_domain, size) = domain_shape input t n dlen named at_4 in
          (
            omega arith,
            read_domain c atyp dlen n p q r
                (ap (λ xs. get_elem? xs 0) s ∙ get_elem?-drop 0 4 input ∙ at_4) some_domain size
                (omega (arith, ap length s, length-drop 4 input)),
          )
      | inr r ↦ let no = rw (p, q, r) at e in cc
    ]
  ]
]

request_read :
    (c : Conn) (a : Socks5Request) (n atyp : ℕ)
    → 4 ≤ length c.input
    → get_elem? c.input 3 ≡ some atyp
    → parse_request (take n c.input) ≡ ok (a, n)
    → (4 ≤ n)
      × (read_address atyp (with_input c (drop 4 c.input))
          ≡ (ok (take (n - 4) (drop 4 c.input)), with_input c (drop (n - 4) (drop 4 c.input))))
    → read_socks5_request c ≡ (ok a, with_input c (drop n c.input))
unfolding read_socks5_request
request_read c a n atyp four at_3 own (size, reads) =
    let size_1 : 4 + (n - 4) ≡ n = omega arith in
    let piece : take 4 c.input ++ take (n - 4) (drop 4 c.input) ≡ take n c.input =
      take_more 4 (n - 4) c.input ∙ ap (λ k. take k c.input) size_1 in
    let rest : drop (n - 4) (drop 4 c.input) ≡ drop n c.input =
      drop-drop (n - 4) 4 c.input ∙ ap (λ k. drop k c.input) size_1 in
    let at : get_elem? (take 4 c.input) 3 ≡ some atyp =
      get_elem?-take 3 4 c.input (omega arith) ∙ at_3 in
    ground (arith, at, piece, rest, own, reads)

read_socks5_request-takes :
    (c : Conn) (a : Socks5Request) (n : ℕ)
    → IsBytes c.input
    → parse_request c.input ≡ ok (a, n)
    → read_socks5_request c ≡ (ok a, with_input c (drop n c.input))
unfolding read_socks5_request
read_socks5_request-takes c a n b e =
    let four = request_size c.input a n e in
    let (atyp, at_3) = get_elem?-some c.input 3 four in
    let named = request_target c.input a n atyp e at_3 in
    let fits = parse_request-IsIncremental.within c.input a n b e in
    let own = own_bytes_take parse_request-IsIncremental c.input a n b e in
    request_read c a n atyp four at_3 own
      (read_address-takes (with_input c (drop 4 c.input)) c.input atyp n a.target refl named fits)

pub read_socks5_request-IsReader : IsReader parse_request read_socks5_request
read_socks5_request-IsReader =
    IsReader-of parse_request-IsIncremental read_socks5_request-takes read_socks5_request-Uses
