-- ===== src/Vless/Users/Uuid.antt =====
-- Parsing and printing a UUID as vless/config.rs does.
use Prim.Native.Nat.{bit_or}
use mathlib.Core.List.{append_assoc}
use skadi_core.Prelude.{
  ℕ, zero, suc, ◌+◌, ◌*◌, ◌/◌, ◌%◌, ◌≤◌, ◌<◌, ◌≡◌, ◌≢◌, refl, ap, sym, ◌∙◌, false, not, List, [],
  ◌∷◌, ◌++◌, ◌==◌, length, take, drop, arith, get_elem?, get_elem?_behind, Bool-cases, inl, inr,
  some, length-append, take-drop, drop-drop, take-all, length-drop,
}
use skadi_core.Prelude.Bytes.{agree_below, agree_below→eq, IsBytes, IsBytes-take, IsBytes-drop}
use skadi_core.Prelude.Outcome.{
  ok, panic, byte_at, byte_at_some, fail_if, >>=-ne-panic, >>=-returns,
}
use skadi_core.Vless.Users.{
  UuidParseError, hex_val, without_dashes, parse_bytes, parse_uuid, hex_digit, hex_text, display,
  dash,
}

halves : (b : ℕ) → b < 256 → bit_or (b / 16 * 16 % 256) (b % 16) ≡ b
unfolding agree_below
halves = agree_below→eq _ _ 256 refl

hex_val-hex_digit : (n : ℕ) → n < 16 → hex_val (hex_digit n) ≡ ok n
unfolding hex_val hex_digit
hex_val-hex_digit n h = ground arith

hex_digit-ne-dash : (n : ℕ) → n < 16 → (hex_digit n == dash) ≡ false
unfolding hex_digit
hex_digit-ne-dash n h = ground arith

hex_text-append : (xs ys : List ℕ) → hex_text (xs ++ ys) ≡ hex_text xs ++ hex_text ys
unfolding hex_text
hex_text-append [] ys = refl
hex_text-append (x ∷ xs) ys = rw (hex_text-append xs ys) refl

length-hex_text : (xs : List ℕ) → length (hex_text xs) ≡ length xs * 2
unfolding hex_text
length-hex_text [] = refl
length-hex_text (x ∷ xs) = omega (arith, length-hex_text xs)

without_dashes-append :
    (xs ys : List ℕ) → without_dashes (xs ++ ys) ≡ without_dashes xs ++ without_dashes ys
unfolding without_dashes
without_dashes-append [] ys = refl
without_dashes-append (x ∷ xs) ys = elim (Bool-cases (x == dash)) [
  | inl e ↦ rw (e, without_dashes-append xs ys) refl
  | inr e ↦ rw (e, without_dashes-append xs ys) refl
]

without_dashes-hex_text : (xs : List ℕ) → IsBytes xs → without_dashes (hex_text xs) ≡ hex_text xs
unfolding without_dashes hex_text
without_dashes-hex_text [] h = refl
without_dashes-hex_text (x ∷ xs) (b, h) =
    rw
      (
        hex_digit-ne-dash (x / 16) (omega arith),
        hex_digit-ne-dash (x % 16) (omega arith),
        without_dashes-hex_text xs h,
      )
      refl

zero_more : (n : ℕ) → n ≡ n + 0
zero_more n = omega arith

byte_behind :
    (front more : List ℕ) (a n : ℕ)
    → length front ≡ n
    → byte_at {E = UuidParseError} (front ++ (a ∷ more)) n ≡ ok a
byte_behind front more a n e = rw (found, byte_at) refl
  where
    found : get_elem? (front ++ (a ∷ more)) n ≡ some a
    found =
        ap (get_elem? (front ++ (a ∷ more))) (zero_more n) ∙ get_elem?_behind n 0 front (a ∷ more) e

-- The loop on the text of the bytes that are left, behind what it has read.
parse_bytes-hex_text :
    (front xs : List ℕ) (i : ℕ)
    → length front ≡ i * 2
    → IsBytes xs
    → parse_bytes (length xs) i (front ++ hex_text xs) ≡ ok xs
unfolding parse_bytes hex_text
parse_bytes-hex_text front [] i e h = refl
parse_bytes-hex_text front (x ∷ xs) i e (b, h) =
    rw
      (
        first,
        hex_val-hex_digit (x / 16) (omega arith),
        second,
        hex_val-hex_digit (x % 16) (omega arith),
        rest (
            parse_bytes-hex_text (front ++ (hex_digit (x / 16) ∷ hex_digit (x % 16) ∷ [])) xs
              (i + 1)
              (omega (arith, e, length-append front (hex_digit (x / 16) ∷ hex_digit (x % 16) ∷ [])))
              h),
        halves x b,
      )
      refl
  where
    text : List ℕ
    text = hex_digit (x / 16) ∷ hex_digit (x % 16) ∷ hex_text xs

    first : byte_at {E = UuidParseError} (front ++ text) (i * 2) ≡ ok (hex_digit (x / 16))
    first = byte_behind front (hex_digit (x % 16) ∷ hex_text xs) (hex_digit (x / 16)) (i * 2) e

    second : byte_at {E = UuidParseError} (front ++ text) (i * 2 + 1) ≡ ok (hex_digit (x % 16))
    second =
        ap (λ input. byte_at input (i * 2 + 1))
          (sym (append_assoc front (hex_digit (x / 16) ∷ []) (hex_digit (x % 16) ∷ hex_text xs)))
        ∙ byte_behind (front ++ (hex_digit (x / 16) ∷ [])) (hex_text xs) (hex_digit (x % 16))
            (i * 2 + 1) (omega (arith, e, length-append front (hex_digit (x / 16) ∷ [])))

    rest :
        parse_bytes
            (length xs)
            (i + 1)
            ((front ++ (hex_digit (x / 16) ∷ hex_digit (x % 16) ∷ [])) ++ hex_text xs)
          ≡ ok xs
        → parse_bytes (length xs) (i + 1) (front ++ text) ≡ ok xs
    rest later =
        ap (parse_bytes (length xs) (i + 1))
          (sym (append_assoc front (hex_digit (x / 16) ∷ hex_digit (x % 16) ∷ []) (hex_text xs)))
        ∙ later

dash_between :
    (xs ys : List ℕ)
    → IsBytes xs
    → without_dashes (hex_text xs ++ (dash ∷ ys)) ≡ hex_text xs ++ without_dashes ys
unfolding without_dashes
dash_between xs ys h =
    without_dashes-append (hex_text xs) (dash ∷ ys)
    ∙ ap (λ t. t ++ without_dashes ys) (without_dashes-hex_text xs h)

hex_text_split :
    (n m : ℕ) (xs : List ℕ)
    → hex_text (take m (drop n xs)) ++ hex_text (drop (n + m) xs) ≡ hex_text (drop n xs)
hex_text_split n m xs =
    ap (λ t. hex_text (take m (drop n xs)) ++ hex_text t) (sym (drop-drop m n xs))
    ∙ sym (hex_text-append (take m (drop n xs)) (drop m (drop n xs)))
    ∙ ap hex_text (take-drop m (drop n xs))

segment :
    (n m : ℕ) (uuid rest : List ℕ)
    → IsBytes uuid
    → without_dashes rest ≡ hex_text (drop (n + m) uuid)
    → without_dashes (hex_text (take m (drop n uuid)) ++ (dash ∷ rest)) ≡ hex_text (drop n uuid)
segment n m uuid rest h e =
    dash_between (take m (drop n uuid)) rest (IsBytes-take m _ (IsBytes-drop n uuid h))
    ∙ ap (λ t. hex_text (take m (drop n uuid)) ++ t) e
    ∙ hex_text_split n m uuid

without_dashes-display :
    (uuid : List ℕ)
    → length uuid ≡ 16
    → IsBytes uuid
    → without_dashes (display uuid) ≡ hex_text uuid
unfolding display
without_dashes-display uuid e h =
    segment 0 4 uuid _ h (segment 4 2 uuid _ h (segment 6 2 uuid _ h (segment 8 2 uuid _ h last)))
  where
    all : take 6 (drop 10 uuid) ≡ drop 10 uuid
    all = take-all 6 (drop 10 uuid) (omega (arith, length-drop 10 uuid))

    last : without_dashes (hex_text (take 6 (drop 10 uuid))) ≡ hex_text (drop 10 uuid)
    last = rw all (without_dashes-hex_text (drop 10 uuid) (IsBytes-drop 10 uuid h))

hex_val-ne-panic : (b : ℕ) → hex_val b ≢ panic
unfolding hex_val
hex_val-ne-panic b = ground arith

parse_bytes-ne-panic :
    (count i : ℕ) (clean : List ℕ)
    → (i + count) * 2 ≤ length clean
    → parse_bytes count i clean ≢ panic
unfolding parse_bytes
parse_bytes-ne-panic zero i clean h = λ p. cc
parse_bytes-ne-panic (suc count) i clean h =
    let (first, e) = byte_at_some {E = UuidParseError} clean (i * 2) (omega arith) in
    let (second, f) = byte_at_some {E = UuidParseError} clean (i * 2 + 1) (omega arith) in
    rw (e, f)
      (>>=-ne-panic (hex_val first) _ (hex_val-ne-panic first) λ hi _.
        >>=-ne-panic (hex_val second) _ (hex_val-ne-panic second) λ lo _.
          >>=-ne-panic (parse_bytes count (i + 1) clean) _
            (parse_bytes-ne-panic count (i + 1) clean (omega arith)) λ rest _ p. cc)

pub parse_uuid-ne-panic : (text : List ℕ) → parse_uuid text ≢ panic
unfolding parse_uuid
parse_uuid-ne-panic text = elim (Bool-cases (length (without_dashes text) == 32)) [
  | inl e ↦ rw e (parse_bytes-ne-panic 16 0 (without_dashes text) (ground arith))
  | inr e ↦ rw e (λ p. cc)
]

parse_bytes-length :
    (count i : ℕ) (clean uuid : List ℕ) → parse_bytes count i clean ≡ ok uuid → length uuid ≡ count
unfolding parse_bytes
parse_bytes-length zero i clean uuid e = ground (arith, e)
parse_bytes-length (suc count) i clean uuid e =
    let (first, _, e) = >>=-returns (byte_at clean (i * 2)) _ uuid e in
    let (hi, _, e) = >>=-returns (hex_val first) _ uuid e in
    let (second, _, e) = >>=-returns (byte_at clean (i * 2 + 1)) _ uuid e in
    let (lo, _, e) = >>=-returns (hex_val second) _ uuid e in
    let (rest, f, e) = >>=-returns (parse_bytes count (i + 1) clean) _ uuid e in
    let shorter = parse_bytes-length count (i + 1) clean rest f in ground (arith, e, shorter)

pub parse_uuid-length : (text uuid : List ℕ) → parse_uuid text ≡ ok uuid → length uuid ≡ 16
unfolding parse_uuid
parse_uuid-length text uuid e =
    let (_, _, f) = >>=-returns (fail_if (not (length (without_dashes text) == 32)) _) _ uuid e in
    parse_bytes-length 16 0 (without_dashes text) uuid f

-- The text that a UUID of sixteen bytes is printed as parses to it; and no text makes the parser panic.
pub parse_uuid-display :
    (uuid text : List ℕ)
    → length uuid ≡ 16
    → IsBytes uuid
    → (parse_uuid (display uuid) ≡ ok uuid) × (parse_uuid text ≢ panic)
unfolding parse_uuid
parse_uuid-display uuid text e h = (
  rw (without_dashes-display uuid e h, length-hex_text uuid, e)
      (rw e at (parse_bytes-hex_text [] uuid 0 refl h)),
  parse_uuid-ne-panic text,
)
