-- ===== src/Vless/Users.antt =====
-- crates/skadi-protocol/src/vless/config.rs: user identifiers, and the user that a request names.
pub mod Uuid
pub mod Authenticate
pub mod Tests
use Prim.Native.Nat.{bit_or}
use skadi_core.Prelude.{
  ℕ, zero, suc, ◌+◌, ◌-◌, ◌*◌, ◌/◌, ◌%◌, ◌&&◌, not, Bool, true, false, List, [], ◌∷◌, ◌++◌, Option,
  none, some, ltb, leb, ◌==◌, if◌then◌else◌, length, take, drop,
}
use skadi_core.Prelude.Outcome.{Outcome, ok, err, panic, ◌>>=◌, ◌>>◌, fail_if, byte_at}

-- `BadHex` holds the character; here it holds its byte.
pub data UuidParseError : Type 0 where
  bad_length : ℕ → UuidParseError
  bad_hex : ℕ → UuidParseError

unfoldable pub hex_val : ℕ → Outcome UuidParseError ℕ
hex_val b =
    if leb b'0' b && leb b b'9'
    then ok (b - b'0')
    else if leb b'a' b && leb b b'f'
    then ok (b - b'a' + 10)
    else if leb b'A' b && leb b b'F'
    then ok (b - b'A' + 10)
    else err (bad_hex b)

abbrev pub dash : ℕ
dash = b'-'

-- `s.chars().filter(|c| *c != '-')`
unfoldable pub without_dashes : List ℕ → List ℕ
without_dashes [] = []
without_dashes (c ∷ cs) = let rest = without_dashes cs in if c == dash then rest else c ∷ rest

-- The loop over the bytes from number `i` on, `count` of them.
unfoldable pub parse_bytes : ℕ → ℕ → List ℕ → Outcome UuidParseError (List ℕ)
parse_bytes zero i clean = ok []
parse_bytes (suc count) i clean = do
  first ← byte_at clean (i * 2)
  hi ← hex_val first
  second ← byte_at clean (i * 2 + 1)
  lo ← hex_val second
  rest ← parse_bytes count (i + 1) clean
  ok (bit_or (hi * 16 % 256) lo ∷ rest)

-- `Uuid::parse`; a `Uuid` is the list of its sixteen bytes.
unfoldable pub parse_uuid : List ℕ → Outcome UuidParseError (List ℕ)
parse_uuid s = do
  let clean = without_dashes s
  fail_if (not (length clean == 32)) (bad_length (length clean))
  parse_bytes 16 0 clean

-- `{:02x}`
pub hex_digit : ℕ → ℕ
hex_digit n = if ltb n 10 then b'0' + n else b'a' + (n - 10)

pub hex_text : List ℕ → List ℕ
hex_text [] = []
hex_text (b ∷ bs) = hex_digit (b / 16) ∷ hex_digit (b % 16) ∷ hex_text bs

-- `Display for Uuid`
pub display : List ℕ → List ℕ
display b =
    hex_text (take 4 b)
    ++ (dash
        ∷ (hex_text (take 2 (drop 4 b))
            ++ (dash
                ∷ (hex_text (take 2 (drop 6 b))
                    ++ (dash
                        ∷ (hex_text (take 2 (drop 8 b))
                            ++ (dash ∷ hex_text (take 6 (drop 10 b)))))))))

pub record VlessUser : Type 0 where
  pub id : List ℕ
  pub email : Option (List ℕ)
  pub flow : Option (List ℕ)

pub record VlessConfig : Type 0 where
  pub enabled : Bool
  pub users : List VlessUser

-- The body of the loop of `authenticate`: what becomes of a user whose identifier parses so, before the
-- users that are left.
unfoldable pub offer :
    (List ℕ → List ℕ → Bool)
    → List ℕ
    → VlessUser
    → Outcome UuidParseError (Option VlessUser)
    → Outcome UuidParseError (List ℕ)
    → Outcome UuidParseError (Option VlessUser)
offer ct_eq candidate user rest (ok uuid) = if ct_eq uuid candidate then ok (some user) else rest
offer ct_eq candidate user rest (err e) = rest
offer ct_eq candidate user rest panic = panic

-- `ct_eq` is `subtle::ConstantTimeEq`.
unfoldable pub authenticate :
    (List ℕ → List ℕ → Bool) → List VlessUser → List ℕ → Outcome UuidParseError (Option VlessUser)
authenticate ct_eq [] candidate = ok none
authenticate ct_eq (user ∷ users) candidate =
    offer ct_eq candidate user (authenticate ct_eq users candidate) (parse_uuid user.id)
