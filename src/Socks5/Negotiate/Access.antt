-- ===== src/Socks5/Negotiate/Access.antt =====
-- Who gets through `negotiate` of socks5.rs.
use skadi_core.Prelude.{
  ℕ, ◌≡◌, ◌⊎◌, inl, inr, refl, sym, ap, ◌∙◌, ◌&&◌, Bool, true, false, not, Bool-cases, ◌==◌, List,
  [], ◌∷◌, ◌++◌, Option, none, some, length, drop, arith,
}
use mathlib.Core.List.{append-nil}
use skadi_core.Prelude.Bytes.{IsBytes, codes}
use skadi_core.Prelude.Outcome.{ok}
use skadi_core.Stream.{Conn, with_input, with_output, ignore}
use skadi_core.Stream.Reads.{IsReader}
use skadi_core.Stream.Uses.{
  Uses, Uses-bind, Uses-fail_when, Uses-pure, Uses-fail, Uses-if, Uses-write, Uses-weaken,
  Uses-last_check,
}
use skadi_core.Endpoint.{IsEquality}
use skadi_core.Socks5.{
  Socks5Request, parse_greeting, parse_auth, parse_request, auth_version, cmd_bind,
  cmd_udp_associate,
}
use skadi_core.Socks5.Negotiate.{
  authentication_failed, unwritable, no_acceptable_method, bind_disabled, udp_associate_disabled,
  rep_command_not_supported, send_error, user_pass, method_user_pass, method_no_acceptable,
  Socks5Config, lookup, expected_password, constant_time_eq, read_greeting, read_auth,
  read_socks5_request, select_method, contains, wanted_method, perform_auth, check_command,
  read_request, negotiate_selected, negotiate,
}
use skadi_core.Socks5.Negotiate.Greeting.{read_greeting-IsReader, read_greeting-Uses}
use skadi_core.Socks5.Negotiate.Auth.{read_auth-IsReader, read_auth-Uses}
use skadi_core.Socks5.Negotiate.Target.{read_socks5_request-IsReader, read_socks5_request-Uses}

-- The SOCKS5 handlers refine the parsers: each reads the message that its parser finds at the front of
-- the stream and not a byte more, and where it returns a message, its parser finds it there.
pub readers-IsReader :
    IsReader parse_greeting read_greeting
    × IsReader parse_auth read_auth
    × IsReader parse_request read_socks5_request
readers-IsReader = (read_greeting-IsReader, read_auth-IsReader, read_socks5_request-IsReader)

-- The credentials that `perform_auth` accepts: those of a user of the configuration, and an unknown
-- user's with the password that stands for none.
abbrev pub Accepted : Socks5Config → List ℕ → List ℕ → Type 0
Accepted config uname passwd =
    (lookup config.users uname ≡ some passwd)
    ⊎ (lookup config.users uname ≡ none) × (passwd ≡ codes "__no_such_user__")

-- The commands that the configuration allows.
abbrev pub IsAllowed : Socks5Config → Socks5Request → Type 0
IsAllowed config request =
    (request.command ≡ cmd_bind → config.bind ≡ true)
    × (request.command ≡ cmd_udp_associate → config.udp_associate ≡ true)

-- The bytes of a negotiation with a password: a greeting, accepted credentials, and an allowed request.
abbrev pub Passed : Socks5Config → List ℕ → Socks5Request → Type 0
Passed config used request =
    (greeting credentials rest : List ℕ) × (used ≡ greeting ++ (credentials ++ rest))
    × ((methods : List ℕ) × (n : ℕ) × (parse_greeting greeting ≡ ok (methods, n)))
    × ((uname passwd : List ℕ) × (n : ℕ) × (parse_auth credentials ≡ ok ((uname, passwd), n))
        × Accepted config uname passwd)
    × ((n : ℕ) × (parse_request rest ≡ ok (request, n)) × IsAllowed config request)

expected_password_unique :
    (config : Socks5Config) (uname passwd : List ℕ)
    → Accepted config uname passwd
    → expected_password config uname ≡ passwd
unfolding expected_password
expected_password_unique config uname passwd (inl e) =
    ap (λ found. elim found [ none ↦ codes "__no_such_user__" | some password ↦ password ]) e
expected_password_unique config uname passwd (inr (e, s)) =
    ap (λ found. elim found [ none ↦ codes "__no_such_user__" | some password ↦ password ]) e
    ∙ sym s

module _ (ct_eq : List ℕ → List ℕ → Bool) (equality : IsEquality ct_eq) where
  constant_time_eq-same : (a b : List ℕ) → constant_time_eq ct_eq a b ≡ true → a ≡ b
  unfolding constant_time_eq
  constant_time_eq-same a b e = elim (Bool-cases (length a == length b)) [
    | inl h ↦ (equality a b (ground arith)).0 (rw h at e)
    | inr h ↦ let no = rw h at e in cc
  ]

  expected_password-Accepted :
      (config : Socks5Config) (uname passwd : List ℕ)
      → constant_time_eq ct_eq (expected_password config uname) passwd ≡ true
      → Accepted config uname passwd
  unfolding expected_password
  expected_password-Accepted config uname passwd e =
      go (lookup config.users uname) refl
        (constant_time_eq-same (expected_password config uname) passwd e)
    where
      go :
          (found : Option (List ℕ))
          → lookup config.users uname ≡ found
          → elim found [ none ↦ codes "__no_such_user__" | some password ↦ password ] ≡ passwd
          → Accepted config uname passwd
      go none h same = inr (h, sym same)
      go (some password) h same = inl (h ∙ ap some same)

  perform_auth-Uses :
      (config : Socks5Config)
      → Uses
          (λ used _.
            (credentials : List ℕ × List ℕ) × (n : ℕ) × (parse_auth used ≡ ok (credentials, n))
            × Accepted config credentials.0 credentials.1)
          (perform_auth ct_eq config)
  unfolding perform_auth
  perform_auth-Uses config = Uses-bind _ _ read_auth-Uses λ used credentials (n, parsed).
      Uses-write unwritable _ _ (
        Uses-last_check _ authentication_failed λ e. (
          credentials,
          n,
          rw (append-nil used) parsed,
          expected_password-Accepted config credentials.0 credentials.1 (ground arith),
        ))

  select_method-user_pass :
      (methods : List ℕ) (config : Socks5Config)
      → config.auth ≡ user_pass
      → (select_method methods config == method_no_acceptable) ≡ false
      → (select_method methods config == method_user_pass) ≡ true
  unfolding select_method wanted_method
  select_method-user_pass methods config h e =
      elim (Bool-cases (contains methods method_user_pass)) [
        | inl p ↦ rw (h, p) refl
        | inr p ↦ let no = rw (h, p) at e in cc
      ]

  read_request-Uses :
      (config : Socks5Config)
      → Uses
          (λ used request.
            (n : ℕ) × (parse_request used ≡ ok (request, n)) × IsAllowed config request)
          (read_request config)
  unfolding read_request check_command
  read_request-Uses config = Uses-bind _ _ read_socks5_request-Uses λ used request (n, parsed).
      Uses-if (request.command == cmd_bind && not config.bind) _ _
        (λ _. Uses-fail (ignore (send_error rep_command_not_supported)) bind_disabled)
        λ p.
          Uses-if (request.command == cmd_udp_associate && not config.udp_associate) _ _
            (λ _. Uses-fail (ignore (send_error rep_command_not_supported)) udp_associate_disabled)
            λ q.
              Uses-pure request
                (n, rw (append-nil used) parsed, ((λ e. ground arith), (λ e. ground arith)))

  negotiate-Uses :
      (config : Socks5Config)
      → config.auth ≡ user_pass
      → Uses (Passed config) (negotiate ct_eq config)
  unfolding negotiate negotiate_selected select_method
  negotiate-Uses config password = Uses-bind _ _ read_greeting-Uses λ greeting methods greeted.
      Uses-write unwritable _ _ (
        Uses-fail_when (select_method methods config == method_no_acceptable) no_acceptable_method _
          λ e.
            Uses-bind _ _
              (Uses-if (select_method methods config == method_user_pass) _ _
                (λ _. perform_auth-Uses config)
                λ other. let chosen = select_method-user_pass methods config password e in cc)
              λ credentials u (sent, n, parsed, accepted).
                Uses-weaken (read_request-Uses config) λ rest request asked. (
                  greeting,
                  credentials,
                  rest,
                  refl,
                  (methods, greeted.0, greeted.1),
                  (sent.0, sent.1, n, parsed, accepted),
                  asked,
                ))

  -- Where the configuration asks for a password, the handler returns a request only if what it has read
  -- is a greeting, credentials that it accepts and that request, each as its parser finds it, and only
  -- a request that the configuration allows.
  pub negotiate-authenticated :
      (config : Socks5Config) (c after : Conn) (request : Socks5Request)
      → config.auth ≡ user_pass
      → negotiate ct_eq config c ≡ (ok request, after)
      → (used : List ℕ) × (c.input ≡ used ++ after.input) × Passed config used request
  negotiate-authenticated config c after request password e =
      (negotiate-Uses config password).uses c after request e

  constant_time_eq_refl : (a : List ℕ) → constant_time_eq ct_eq a a ≡ true
  unfolding constant_time_eq
  constant_time_eq_refl a = ground (arith, (equality a a refl).1 refl)

  -- Credentials that are accepted get the reply 0x00: the user's own password, and for every unknown
  -- user name the password `__no_such_user__`.
  pub perform_auth-Accepted :
      (config : Socks5Config) (c : Conn) (uname passwd : List ℕ) (n : ℕ)
      → IsBytes c.input
      → c.writable ≡ true
      → parse_auth c.input ≡ ok ((uname, passwd), n)
      → Accepted config uname passwd
      → perform_auth ct_eq config c ≡ (
        ok tt,
        with_output (with_input c (drop n c.input)) (c.output ++ (auth_version ∷ 0x00 ∷ [])),
      )
  unfolding perform_auth
  perform_auth-Accepted config c uname passwd n b w e a = ground (
    arith,
    w,
    read_auth-IsReader.takes c (uname, passwd) n b e,
    ap (λ x. constant_time_eq ct_eq x passwd) (expected_password_unique config uname passwd a)
        ∙ constant_time_eq_refl passwd,
  )
