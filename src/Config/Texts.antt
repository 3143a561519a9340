-- ===== src/Config/Texts.antt =====
-- The escapes that crates/skadi-transport/src/hysteria2/render.rs and tuic/render.rs use in the texts
-- that they write.
mod Tests
pub mod RoundTrip
use skadi_core.Prelude.{
  ℕ, ◌+◌, ◌/◌, ◌-◌, ◌%◌, ◌||◌, ◌&&◌, Bool, true, false, List, [], ◌∷◌, ◌++◌, ltb, leb, ◌==◌,
  if◌then◌else◌,
}
use skadi_core.Config.Common.{contains, is_nil}

-- `s.replace(c, by)` for a character
unfoldable pub replace : ℕ → List ℕ → List ℕ → List ℕ
replace c by [] = []
replace c by (x ∷ xs) = let rest = replace c by xs in if x == c then by ++ rest else x ∷ rest

unfoldable pub escape_toml_string : List ℕ → List ℕ
escape_toml_string s = replace b'"' (b'\\' ∷ b'"' ∷ []) (replace b'\\' (b'\\' ∷ b'\\' ∷ []) s)

unfoldable pub json_escape : List ℕ → List ℕ
json_escape s = replace b'"' (b'\\' ∷ b'"' ∷ []) (replace b'\\' (b'\\' ∷ b'\\' ∷ []) s)

abbrev pub starts_with_digit : List ℕ → Bool
starts_with_digit [] = false
starts_with_digit (c ∷ cs) = leb b'0' c && leb c b'9'

unfoldable pub needs_quotes : List ℕ → Bool
needs_quotes value =
    is_nil value
    || contains b':' value
    || contains b'#' value
    || contains b' ' value
    || contains b'"' value
    || contains b'\'' value
    || starts_with_digit value

unfoldable pub yaml_quote : List ℕ → List ℕ
yaml_quote value =
    if needs_quotes value
    then b'"'
      ∷ (replace b'"' (b'\\' ∷ b'"' ∷ []) (replace b'\\' (b'\\' ∷ b'\\' ∷ []) value) ++ (b'"' ∷ []))
    else value

unfoldable pub is_unreserved : ℕ → Bool
is_unreserved b =
    leb b'A' b && leb b b'Z'
    || leb b'a' b && leb b b'z'
    || leb b'0' b && leb b b'9'
    || b == b'-'
    || b == b'_'
    || b == b'.'
    || b == b'~'

-- `{b:02X}`
unfoldable pub upper_hex_digit : ℕ → ℕ
upper_hex_digit n = if ltb n 10 then b'0' + n else b'A' + (n - 10)

unfoldable pub urlencoding_simple : List ℕ → List ℕ
urlencoding_simple [] = []
urlencoding_simple (b ∷ bs) =
    let rest = urlencoding_simple bs in
    if is_unreserved b
    then b ∷ rest
    else b'%' ∷ upper_hex_digit (b / 16) ∷ upper_hex_digit (b % 16) ∷ rest
