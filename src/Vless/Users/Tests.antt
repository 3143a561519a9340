-- ===== src/Vless/Users/Tests.antt =====
-- Runs of vless/config.rs and its theorems at concrete inputs.
use skadi_core.Prelude.{ℕ, ◌≡◌, ◌≢◌, refl, List, [], ◌∷◌, All, none, some, ◌⊎◌, arith}
use skadi_core.Prelude.Bytes.{codes}
use skadi_core.Prelude.Outcome.{ok, err, panic}
use skadi_core.Endpoint.{octets_eq, octets_eq-IsEquality}
use skadi_core.Vless.Users.{
  VlessUser, bad_length, hex_val, without_dashes, parse_bytes, parse_uuid, hex_digit, hex_text,
  display, authenticate,
}
use skadi_core.Vless.Users.Uuid.{parse_uuid-display}
use skadi_core.Vless.Users.Authenticate.{IsFirstUser, authenticate_lem}

abbrev uuid : List ℕ
uuid =
    0x12 ∷ 0x3e ∷ 0x45 ∷ 0x67 ∷ 0xe8 ∷ 0x9b ∷ 0x12 ∷ 0xd3 ∷ 0xa4 ∷ 0x56 ∷ 0x42 ∷ 0x66 ∷ 0x14 ∷ 0x17
    ∷ 0x40 ∷ 0x00 ∷ []

display_run : display uuid ≡ codes "123e4567-e89b-12d3-a456-426614174000"
unfolding display hex_text hex_digit
display_run = refl

parse_upper_case : parse_uuid (codes "123E4567E89B12D3A456426614174000") ≡ ok uuid
unfolding parse_uuid without_dashes parse_bytes hex_val
parse_upper_case = refl

parse_too_short : parse_uuid (codes "123e-45") ≡ err (bad_length 6)
unfolding parse_uuid without_dashes
parse_too_short = refl

parse_uuid-display_example :
    (parse_uuid (display uuid) ≡ ok uuid) × (parse_uuid (codes "123e-45") ≢ panic)
parse_uuid-display_example = parse_uuid-display uuid (codes "123e-45") refl (
  omega arith,
  (
    omega arith,
    (
      omega arith,
      (
        omega arith,
        (
          omega arith,
          (
            omega arith,
            (
              omega arith,
              (
                omega arith,
                (
                  omega arith,
                  (
                    omega arith,
                    (
                      omega arith,
                      (omega arith, (omega arith, (omega arith, (omega arith, (omega arith, tt))))),
                    ),
                  ),
                ),
              ),
            ),
          ),
        ),
      ),
    ),
  ),
)

abbrev users : List VlessUser
users =
    record { id = codes "nobody"; email = none; flow = none }
    ∷ record { id = codes "123e4567-e89b-12d3-a456-426614174000"; email = none; flow = none }
    ∷ []

authenticate_lem_example :
    ((authenticate octets_eq users uuid ≡ ok none)
      × All (λ user. parse_uuid user.id ≢ ok uuid) users)
    ⊎ ((user : VlessUser) × (authenticate octets_eq users uuid ≡ ok (some user))
        × IsFirstUser uuid users user)
authenticate_lem_example = authenticate_lem octets_eq octets_eq-IsEquality uuid refl users
