-- ===== src/Config/Parts.antt =====
-- The tests that the checks of crates/skadi-config/src/lib.rs share, and what they accept.
use skadi_core.Prelude.{
  ℕ, ◌≡◌, ◌≢◌, ◌<◌, refl, ◌==◌, not, ltb, Bool, true, false, Bool-cases, inl, inr, List, [], ◌∷◌,
  Option, none, some, All, length, arith,
}
use skadi_core.Prelude.Bytes.{codes}
use skadi_core.Prelude.Outcome.{Outcome, ok, err, panic, ◌>>=◌, fail_if}
use skadi_core.Vless.Users.{VlessUser, UuidParseError, parse_uuid}
use skadi_core.Vless.Users.Uuid.{parse_uuid-ne-panic}
use skadi_core.Config.Common.{
  Platform, ConfigError, is_empty, is_invalid, ok_or, is_some, is_nil, is_set_zero, is_blank,
  required, ensure_readable_file, kex_mode_of, parse_tls_kex_mode,
}
use skadi_core.Config.Checks.{readable_if_set, discard, check_user_ids, check_vless_users, crossed}
use skadi_core.Config.Backends.{check_uuid}
use skadi_core.Config.Accepts.{
  Accepts, return, Accepts-weaken, Accepts-ok, Accepts-fail_if, Accepts-then, Accepts-discard,
}
use skadi_core.Config.Spec.{
  IsText, IsPositive, IsGiven, HasKexMode, HasUuid, HasVlessUsers, IsOrdered, IsReadable,
  IsReadableIfSet, HasText,
}

pub Accepts-zero : (n : ℕ) (e : ConfigError) → Accepts (fail_if (n == 0) e) (0 < n)
Accepts-zero n e =
    Accepts-weaken (λ h. ground (arith, h)) (λ h. ground (arith, h)) (Accepts-fail_if (n == 0) e)

pub Accepts-set_zero :
    (value : Option ℕ) (e : ConfigError)
    → Accepts (fail_if (is_set_zero value) e) (IsPositive value)
Accepts-set_zero none e = Accepts-weaken (λ h. tt) (λ h. refl) (Accepts-fail_if false e)
Accepts-set_zero (some n) e = Accepts-zero n e

pub Accepts-nil :
    {A : Type 0} (xs : List A) (e : ConfigError) → Accepts (fail_if (is_nil xs) e) (xs ≢ [])
Accepts-nil [] e = Accepts-weaken (λ h. absurd cc) (λ h. absurd (h refl)) (Accepts-fail_if true e)
Accepts-nil (x ∷ xs) e = Accepts-weaken (λ h p. cc) (λ h. refl) (Accepts-fail_if false e)

pub Accepts-not : (b : Bool) (e : ConfigError) → Accepts (fail_if (not b) e) (b ≡ true)
Accepts-not true e = Accepts-weaken (λ h. refl) (λ h. refl) (Accepts-fail_if false e)
Accepts-not false e = Accepts-weaken (λ h. cc) (λ h. cc) (Accepts-fail_if true e)

pub Accepts-length :
    {A : Type 0} (xs : List A) (n : ℕ) (e : ConfigError)
    → Accepts (fail_if (not (length xs == n)) e) (length xs ≡ n)
Accepts-length xs n e =
    Accepts-weaken (λ h. ground (arith, h)) (λ h. ground (arith, h))
      (Accepts-not (length xs == n) e)

pub Accepts-some :
    {A : Type 0} (x : Option A) (e : ConfigError)
    → Accepts (fail_if (not (is_some x)) e) (IsGiven x)
Accepts-some none e = Accepts-weaken (λ h. absurd cc) (λ (a, h). absurd cc) (Accepts-fail_if true e)
Accepts-some (some a) e = Accepts-weaken (λ h. (a, refl)) (λ h. refl) (Accepts-fail_if false e)

pub Accepts-set : {A : Type 0} (x : Option A) (e : ConfigError) → Accepts (ok_or x e) (IsGiven x)
Accepts-set none e = record {
  sound = λ r. let never = r.returned in cc;
  complete = λ (a, h). absurd cc;
  calm = λ p. cc;
}
Accepts-set (some a) e = record {
  sound = λ r. (a, refl);
  complete = λ p. return (ok a) a refl;
  calm = λ p. cc;
}

pub Accepts-IsOrdered :
    (bounds : Option (ℕ × ℕ)) (e : ConfigError)
    → Accepts (fail_if (crossed bounds) e) (IsOrdered bounds)
Accepts-IsOrdered none e = Accepts-weaken (λ h. tt) (λ h. refl) (Accepts-fail_if false e)
Accepts-IsOrdered (some (least, most)) e =
    Accepts-weaken (λ h. ground (arith, h)) (λ h. ground (arith, h))
      (Accepts-fail_if (ltb most least) e)

pub Accepts-kex_mode :
    (value field : List ℕ) → Accepts (discard (parse_tls_kex_mode value field)) (HasKexMode value)
unfolding parse_tls_kex_mode
Accepts-kex_mode value field =
    Accepts-discard (parse_tls_kex_mode value field)
      (Accepts-set (kex_mode_of value) (is_invalid field))

Accepts-check_uuid :
    (r : Outcome UuidParseError (List ℕ)) (field : List ℕ)
    → r ≢ panic
    → Accepts (check_uuid r field) ((uuid : List ℕ) × (r ≡ ok uuid))
unfolding check_uuid
Accepts-check_uuid (ok uuid) field h = Accepts-weaken (λ p. (uuid, refl)) (λ p. tt) (Accepts-ok tt)
Accepts-check_uuid (err e) field h = record {
  sound = λ r. let never = r.returned in cc;
  complete = λ (a, p). absurd cc;
  calm = λ p. cc;
}
Accepts-check_uuid panic field h = absurd (h refl)

pub Accepts-uuid :
    (text field : List ℕ) → Accepts (check_uuid (parse_uuid text) field) (HasUuid text)
Accepts-uuid text field = Accepts-check_uuid (parse_uuid text) field (parse_uuid-ne-panic text)

pub Accepts-user_ids :
    (users : List VlessUser) → Accepts (check_user_ids users) (All (λ user. HasUuid user.id) users)
unfolding check_user_ids
Accepts-user_ids [] = Accepts-ok tt
Accepts-user_ids (user ∷ users) =
    Accepts-then (check_uuid (parse_uuid user.id) (codes "protocol.vless.users"))
      (check_user_ids users) (Accepts-uuid user.id (codes "protocol.vless.users"))
      (λ h. Accepts-user_ids users)

pub Accepts-vless_users :
    (users : List VlessUser) → Accepts (check_vless_users users) (HasVlessUsers users)
unfolding check_vless_users
Accepts-vless_users users =
    Accepts-then (fail_if (is_nil users) (is_empty (codes "protocol.vless.users")))
      (check_user_ids users) (Accepts-nil users (is_empty (codes "protocol.vless.users")))
      (λ h. Accepts-user_ids users)

module _ (platform : Platform) where
  pub Accepts-file :
      (path field : List ℕ)
      → Accepts (ensure_readable_file platform path field) (IsReadable platform path)
  unfolding ensure_readable_file
  Accepts-file path field =
      Accepts-then _ _ (Accepts-not (platform.is_file path) _)
        λ h. Accepts-not (platform.can_open path) _

  pub Accepts-file_if_set :
      (path : Option (List ℕ)) (field : List ℕ)
      → Accepts (readable_if_set platform path field) (IsReadableIfSet platform path)
  Accepts-file_if_set none field = Accepts-ok tt
  Accepts-file_if_set (some path) field = Accepts-file path field

  pub Accepts-required :
      (value : Option (List ℕ)) (field : List ℕ)
      → Accepts (required platform value field) (HasText platform value)
  unfolding required
  Accepts-required none field = record {
    sound = λ r. let never = r.returned in cc;
    complete = λ (a, p, t). absurd cc;
    calm = λ p. cc;
  }
  Accepts-required (some v) field = elim (Bool-cases (is_blank platform v)) [
    | inl e ↦ rw e (record {
      sound = λ r. let never = r.returned in cc;
      complete = λ (a, p, t). absurd cc;
      calm = λ p. cc;
    })
    | inr e ↦
        rw e (record {
          sound = λ r. (v, refl, e);
          complete = λ p. return (ok v) v refl;
          calm = λ p. cc;
        })
  ]

  -- A setting that the rest depends on.
  pub Accepts-required-bind :
      {B : Type 0} {Q : List ℕ → Type 0} (value : Option (List ℕ)) (field : List ℕ)
      (f : List ℕ → Outcome ConfigError B)
      → ((text : List ℕ) → Accepts (f text) (Q text))
      → Accepts
          (required platform value field >>= f)
          ((text : List ℕ) × (value ≡ some text) × (IsText platform text × Q text))
  unfolding required
  Accepts-required-bind none field f h = record {
    sound = λ r. let never = r.returned in cc;
    complete = λ (a, never, q). absurd cc;
    calm = λ p. cc;
  }
  Accepts-required-bind (some v) field f h = elim (Bool-cases (is_blank platform v)) [
    | inl e ↦ rw e (record {
      sound = λ r. let never = r.returned in cc;
      complete = λ (a, p, (t, q)). absurd cc;
      calm = λ p. cc;
    })
    | inr e ↦ rw e (record {
      sound = λ r. (v, refl, (e, (h v).sound r));
      complete = λ (a, p, (t, q)).
          let r = (h a).complete q in return (f v) r.value (let x = r.returned in cc);
      calm = (h v).calm;
    })
  ]
