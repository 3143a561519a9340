-- ===== src/Prelude/Bytes.antt =====
-- Bytes, big-endian 16-bit words, and UTF-8 as `std::str::from_utf8` checks it. A Rust `String` is
-- the list of its bytes.
use Prim.Native.Char.{code}
use Prim.Native.String.{String}
use skadi_core.Prelude.{
  ℕ, zero, suc, ◌+◌, ◌*◌, ◌/◌, ◌%◌, ◌<◌, ◌≡◌, refl, Bool, true, false, ◌&&◌, List, [], ◌∷◌, arith,
  ltb, leb, ◌==◌, if◌then◌else◌, All, Option, none, some, get_elem?, take, drop,
}

abbrev pub IsByte : ℕ → Type 0
IsByte b = b < 256

abbrev pub IsU16 : ℕ → Type 0
IsU16 w = w < 65536

abbrev pub IsBytes : List ℕ → Type 0
IsBytes = All IsByte

-- `u16::from_be_bytes([hi, lo])`
abbrev pub be16 : ℕ → ℕ → ℕ
be16 hi lo = hi * 256 + lo

-- `w.to_be_bytes()`
abbrev pub to_be16 : ℕ → List ℕ
to_be16 w = (w / 256 % 256) ∷ (w % 256) ∷ []

pub be16-to_be16 : (w : ℕ) → IsU16 w → be16 (w / 256 % 256) (w % 256) ≡ w
be16-to_be16 w h = omega arith

-- The code points of a text: its bytes, if it is ASCII.
abbrev pub codes : String → List ℕ
codes String.[] = []
codes (String.◌∷◌ c s) = code c ∷ codes s

-- Where a decoder stands: between two characters, or inside one, whose next byte lies in the range
-- `lo` to `hi` and is followed by `more` continuation bytes.
pub data Utf8 : Type 0 where
  boundary : Utf8
  inside : ℕ → ℕ → ℕ → Utf8

within : ℕ → ℕ → ℕ → Bool
within lo hi b = leb lo b && leb b hi

lead_byte : ℕ → Option Utf8
unfolding within
lead_byte b =
    if ltb b 0x80
    then some boundary
    else if within 0xc2 0xdf b
    then some (inside 0x80 0xbf 0)
    else if b == 0xe0
    then some (inside 0xa0 0xbf 1)
    else if b == 0xed
    then some (inside 0x80 0x9f 1)
    else if within 0xe1 0xef b
    then some (inside 0x80 0xbf 1)
    else if b == 0xf0
    then some (inside 0x90 0xbf 2)
    else if within 0xf1 0xf3 b
    then some (inside 0x80 0xbf 2)
    else if b == 0xf4
    then some (inside 0x80 0x8f 2)
    else none

utf8_step : Utf8 → ℕ → Option Utf8
unfolding lead_byte within
utf8_step boundary b = lead_byte b
utf8_step (inside lo hi zero) b = if within lo hi b then some boundary else none
utf8_step (inside lo hi (suc more)) b =
    if within lo hi b then some (inside 0x80 0xbf more) else none

utf8_run : Utf8 → List ℕ → Option Utf8
utf8_run s [] = some s
utf8_run s (b ∷ bs) = elim (utf8_step s b) [ none ↦ none | some t ↦ utf8_run t bs ]

at_boundary : Option Utf8 → Bool
at_boundary none = false
at_boundary (some boundary) = true
at_boundary (some (inside lo hi more)) = false

unfoldable pub is_utf8 : List ℕ → Bool
unfolding utf8_run utf8_step at_boundary
is_utf8 bs = at_boundary (utf8_run boundary bs)

-- `std::str::from_utf8(bs)`
abbrev pub from_utf8 : List ℕ → Option (List ℕ)
from_utf8 bs = if is_utf8 bs then some bs else none

ascii_step : (b : ℕ) → b < 128 → utf8_step boundary b ≡ some boundary
unfolding utf8_step
ascii_step b h = ground arith

utf8_run-ascii : (bs : List ℕ) → All (λ b. b < 128) bs → utf8_run boundary bs ≡ some boundary
unfolding utf8_run
utf8_run-ascii [] h = refl
utf8_run-ascii (b ∷ bs) h = rw (ascii_step b h.0, utf8_run) (utf8_run-ascii bs h.1)

-- ASCII is UTF-8.
pub is_utf8-ascii : (bs : List ℕ) → All (λ b. b < 128) bs → is_utf8 bs ≡ true
unfolding is_utf8
is_utf8-ascii bs h = rw (utf8_run-ascii bs h)

-- What a byte string holds at a position is a byte.
pub byte_lt : (xs : List ℕ) (i : ℕ) {b : ℕ} → IsBytes xs → get_elem? xs i ≡ some b → b < 256
byte_lt [] i h e = cc
byte_lt (x ∷ xs) zero h e = ground arith
byte_lt (x ∷ xs) (suc i) h e = byte_lt xs i h.1 e

pub IsBytes-drop : (n : ℕ) (xs : List ℕ) → IsBytes xs → IsBytes (drop n xs)
IsBytes-drop zero xs h = h
IsBytes-drop (suc n) [] h = h
IsBytes-drop (suc n) (x ∷ xs) h = IsBytes-drop n xs h.1

pub IsBytes-take : (n : ℕ) (xs : List ℕ) → IsBytes xs → IsBytes (take n xs)
IsBytes-take zero xs h = tt
IsBytes-take (suc n) [] h = tt
IsBytes-take (suc n) (x ∷ xs) h = (h.0, IsBytes-take n xs h.1)

-- Two functions that agree below a number, which evaluation checks.
module _ (f g : ℕ → ℕ) where
  unfoldable pub agree_below : ℕ → Bool
  agree_below zero = true
  agree_below (suc n) = (f n == g n) && agree_below n

  pub agree_below→eq : (n : ℕ) → agree_below n ≡ true → (i : ℕ) → i < n → f i ≡ g i
  unfolding agree_below
  agree_below→eq zero e i h = absurd (omega arith)
  agree_below→eq (suc n) e i h = ground (arith, agree_below→eq n (ground arith) i)
