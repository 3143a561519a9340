-- ===== src/Config/Texts/RoundTrip.antt =====
-- What a reader of the texts of crates/skadi-transport/src/hysteria2/render.rs and tuic/render.rs gets
-- back.
use skadi_core.Prelude.{
  ℕ, ◌≡◌, ◌≢◌, sym, ltb, ◌+◌, ◌*◌, ◌-◌, ◌/◌, ◌%◌, ◌<◌, ◌||◌, refl, Bool, true, false, Bool-cases,
  inl, inr, List, [], ◌∷◌, Option, none, some, All, arith, leb, ◌==◌, if◌then◌else◌, ==_iff,
}
use skadi_core.Prelude.Bytes.{IsBytes, codes}
use skadi_core.Config.Texts.{is_unreserved, upper_hex_digit, urlencoding_simple}

-- A reader behind an opening quote, which may have just seen a backslash: the text up to the closing
-- quote, and what follows it.
abbrev pub push_front : ℕ → Option (List ℕ × List ℕ) → Option (List ℕ × List ℕ)
push_front c none = none
push_front c (some (text, rest)) = some (c ∷ text, rest)

-- A control character, which neither a TOML nor a JSON text may hold as it is.
unfoldable pub is_control : ℕ → Bool
is_control c = ltb c 32 || c == 127

-- An escape is that of a quote or of a backslash; the reader knows no other.
unfoldable pub read_quoted : Bool → List ℕ → Option (List ℕ × List ℕ)
read_quoted escaped [] = none
read_quoted true (c ∷ cs) =
    let plain = push_front c (read_quoted false cs) in
    if c == b'"' then plain else if c == b'\\' then plain else none
read_quoted false (c ∷ cs) =
    let plain = read_quoted false cs in
    let next = read_quoted true cs in
    if c == b'"'
    then some ([], cs)
    else if c == b'\\'
    then next
    else if is_control c
    then none
    else push_front c plain

-- A text without control characters.
abbrev pub IsPrintable : List ℕ → Type 0
IsPrintable = All (λ c. is_control c ≡ false)

-- A decoder of percent signs: between two characters, or behind one or two characters of an escape.
pub data Percent : Type 0 where
  plain first : Percent
  second : ℕ → Percent

unfoldable pub hex_digit_of : ℕ → ℕ
hex_digit_of c = if leb c b'9' then c - b'0' else c - b'A' + 10

unfoldable pub percent_decode : Percent → List ℕ → List ℕ
percent_decode state [] = []
percent_decode plain (c ∷ cs) =
    let escape = percent_decode first cs in
    let rest = percent_decode plain cs in if c == b'%' then escape else c ∷ rest
percent_decode first (c ∷ cs) = percent_decode (second (hex_digit_of c)) cs
percent_decode (second hi) (c ∷ cs) = (hi * 16 + hex_digit_of c) ∷ percent_decode plain cs

hex_digit_back : (n : ℕ) → n < 16 → hex_digit_of (upper_hex_digit n) ≡ n
unfolding hex_digit_of upper_hex_digit
hex_digit_back n h = ground (arith, h)

byte_back :
    (b : ℕ)
    → b < 256
    → hex_digit_of (upper_hex_digit (b / 16)) * 16 + hex_digit_of (upper_hex_digit (b % 16)) ≡ b
byte_back b h =
    rw (hex_digit_back (b / 16) (omega (arith, h)), hex_digit_back (b % 16) (omega arith))
      (omega arith)

unreserved_percent : (b : ℕ) → is_unreserved b ≡ true → (b == b'%') ≡ false
unfolding is_unreserved
unreserved_percent b h = elim (Bool-cases (b == b'%')) [
  | inl e ↦ let never = rw ((==_iff b b'%').0 e) at h in cc
  | inr e ↦ e
]

-- The signs that RFC 3986 reserves, and the blank: those that end a part of an address, or that divide it.
abbrev pub signs : List ℕ
signs = codes ":/?#[]@!$&'()*+,;= "

abbrev pub IsUrlByte : ℕ → Type 0
IsUrlByte b = All (λ sign. b ≢ sign) signs

not_sign : (sign b : ℕ) → is_unreserved sign ≡ false → is_unreserved b ≡ true → b ≢ sign
not_sign sign b refused accepted = λ same. let also = rw same at accepted in cc

unreserved-IsUrlByte : (b : ℕ) → is_unreserved b ≡ true → IsUrlByte b
unfolding is_unreserved
unreserved-IsUrlByte b h = go signs (
  refl,
  (
    refl,
    (
      refl,
      (
        refl,
        (
          refl,
          (
            refl,
            (
              refl,
              (
                refl,
                (
                  refl,
                  (
                    refl,
                    (refl, (refl, (refl, (refl, (refl, (refl, (refl, (refl, (refl, tt))))))))),
                  ),
                ),
              ),
            ),
          ),
        ),
      ),
    ),
  ),
)
  where
    go : (xs : List ℕ) → All (λ x. is_unreserved x ≡ false) xs → All (λ sign. b ≢ sign) xs
    go [] k = tt
    go (x ∷ xs) (k, ks) = (not_sign x b k h, go xs ks)

percent_IsUrlByte : IsUrlByte b'%'
percent_IsUrlByte = go signs (
  refl,
  (
    refl,
    (
      refl,
      (
        refl,
        (
          refl,
          (
            refl,
            (
              refl,
              (
                refl,
                (
                  refl,
                  (
                    refl,
                    (refl, (refl, (refl, (refl, (refl, (refl, (refl, (refl, (refl, tt))))))))),
                  ),
                ),
              ),
            ),
          ),
        ),
      ),
    ),
  ),
)
  where
    go : (xs : List ℕ) → All (λ x. (x == b'%') ≡ false) xs → All (λ sign. b'%' ≢ sign) xs
    go [] k = tt
    go (x ∷ xs) (k, ks) = ((λ same. let yes = (==_iff x b'%').1 (sym same) in cc), go xs ks)

hex_digit_unreserved : (n : ℕ) → n < 16 → is_unreserved (upper_hex_digit n) ≡ true
unfolding is_unreserved upper_hex_digit
hex_digit_unreserved n h = ground (arith, h)

hex_digit-IsUrlByte : (n : ℕ) → n < 16 → IsUrlByte (upper_hex_digit n)
hex_digit-IsUrlByte n h = unreserved-IsUrlByte (upper_hex_digit n) (hex_digit_unreserved n h)

encode-IsUrlByte : (s : List ℕ) → IsBytes s → All IsUrlByte (urlencoding_simple s)
unfolding urlencoding_simple
encode-IsUrlByte [] h = tt
encode-IsUrlByte (b ∷ bs) (h, hs) = elim (Bool-cases (is_unreserved b)) [
  | inl e ↦ rw e (unreserved-IsUrlByte b e, encode-IsUrlByte bs hs)
  | inr e ↦ rw e (
    percent_IsUrlByte,
    (
      hex_digit-IsUrlByte (b / 16) (omega (arith, h)),
      (hex_digit-IsUrlByte (b % 16) (omega arith), encode-IsUrlByte bs hs),
    ),
  )
]

decode-encode : (s : List ℕ) → IsBytes s → percent_decode plain (urlencoding_simple s) ≡ s
unfolding percent_decode urlencoding_simple
decode-encode [] h = refl
decode-encode (b ∷ bs) (h, hs) = elim (Bool-cases (is_unreserved b)) [
  | inl e ↦ rw (e, unreserved_percent b e, decode-encode bs hs) refl
  | inr e ↦ rw (e, byte_back b h, decode-encode bs hs) refl
]

-- A password or a name in the address that a user is given decodes to what it was, and holds none of the
-- signs that RFC 3986 reserves and no blank, so that its part of the address ends where it was put.
pub decode-urlencoding_simple :
    (s : List ℕ)
    → IsBytes s
    → (percent_decode plain (urlencoding_simple s) ≡ s) × All IsUrlByte (urlencoding_simple s)
decode-urlencoding_simple s h = (decode-encode s h, encode-IsUrlByte s h)
