-- ===== src/Config/Texts/Tests.antt =====
-- Concrete texts for the daemons.
use skadi_core.Prelude.{ℕ, ◌≡◌, refl, List, All, arith}
use skadi_core.Prelude.Bytes.{codes, IsBytes}
use skadi_core.Config.Texts.{urlencoding_simple, yaml_quote, needs_quotes, replace}
use skadi_core.Config.Common.{contains}
use skadi_core.Config.Texts.RoundTrip.{plain, percent_decode, IsUrlByte, decode-urlencoding_simple}

abbrev password : List ℕ
password = codes "a\"b\\c d"

quoted_password : yaml_quote password ≡ codes "\"a\\\"b\\\\c d\""
unfolding yaml_quote needs_quotes contains replace
quoted_password = refl

password-IsBytes : IsBytes password
password-IsBytes = (
  omega arith,
  (omega arith, (omega arith, (omega arith, (omega arith, (omega arith, (omega arith, tt)))))),
)

decode-urlencoding_simple_example :
    (percent_decode plain (urlencoding_simple password) ≡ password)
    × All IsUrlByte (urlencoding_simple password)
decode-urlencoding_simple_example = decode-urlencoding_simple password password-IsBytes
