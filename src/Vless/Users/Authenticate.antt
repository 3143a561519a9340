-- ===== src/Vless/Users/Authenticate.antt =====
-- Which user `authenticate` of vless/config.rs finds. The comparison of the package `subtle` is a
-- parameter: on lists of one length it tells whether they are equal.
use skadi_core.Prelude.{
  ℕ, ◌≡◌, ◌≢◌, refl, ap, sym, ◌∙◌, Bool, List, [], ◌∷◌, ◌++◌, All, Option, none, some, ◌⊎◌, inl,
  inr, Bool-cases, length,
}
use skadi_core.Prelude.Outcome.{Outcome, ok, err, panic}
use skadi_core.Endpoint.{IsEquality}
use skadi_core.Vless.Users.{UuidParseError, VlessUser, parse_uuid, offer, authenticate}
use skadi_core.Vless.Users.Uuid.{parse_uuid-ne-panic, parse_uuid-length}

-- The first user whose identifier parses to the one that the request names.
pub record IsFirstUser (candidate : List ℕ) (users : List VlessUser) (user : VlessUser)
    : Type 0 where
  pub before : List VlessUser
  pub after : List VlessUser
  pub split : users ≡ before ++ (user ∷ after)
  pub others : All (λ other. parse_uuid other.id ≢ ok candidate) before
  pub named : parse_uuid user.id ≡ ok candidate

ok_same : (a b : List ℕ) (r : Outcome UuidParseError (List ℕ)) → r ≡ ok a → r ≡ ok b → a ≡ b
ok_same a b r p q = cc

module _ (ct_eq : List ℕ → List ℕ → Bool) (equality : IsEquality ct_eq) (candidate : List ℕ)
    (sixteen : length candidate ≡ 16) where
  offer_lem :
      (user : VlessUser) (rest : Outcome UuidParseError (Option VlessUser))
      (r : Outcome UuidParseError (List ℕ))
      → r ≢ panic
      → ((uuid : List ℕ) → r ≡ ok uuid → length uuid ≡ 16)
      → ((r ≡ ok candidate) × (offer ct_eq candidate user rest r ≡ ok (some user)))
        ⊎ ((r ≢ ok candidate) × (offer ct_eq candidate user rest r ≡ rest))
  unfolding offer
  offer_lem user rest (ok uuid) n l = elim (Bool-cases (ct_eq uuid candidate)) [
    | inl e ↦ inl (ap ok ((equality uuid candidate (l uuid refl ∙ sym sixteen)).0 e), rw e refl)
    | inr e ↦ inr (
      (λ p.
          let same =
            (equality uuid candidate (l uuid refl ∙ sym sixteen)).1
              (ok_same uuid candidate _ refl p) in
          cc),
      rw e refl,
    )
  ]
  offer_lem user rest (err e) n l = inr ((λ p. cc), refl)
  offer_lem user rest panic n l = absurd (n refl)

  -- The user that a UUID of sixteen bytes is authenticated as is the first one in the list whose identifier
  -- parses to it, and none is found only where there is none; identifiers that do not parse are passed over. The
  -- comparison of the package is equality on slices of one length.
  pub authenticate_lem :
      (users : List VlessUser)
      → ((authenticate ct_eq users candidate ≡ ok none)
          × All (λ user. parse_uuid user.id ≢ ok candidate) users)
        ⊎ ((user : VlessUser) × (authenticate ct_eq users candidate ≡ ok (some user))
            × IsFirstUser candidate users user)
  unfolding authenticate
  authenticate_lem [] = inl (refl, tt)
  authenticate_lem (user ∷ users) =
      elim (offer_lem user (authenticate ct_eq users candidate) (parse_uuid user.id)
        (parse_uuid-ne-panic user.id) (λ uuid e. parse_uuid-length user.id uuid e)) [
          | inl (named, e) ↦ inr (
            user,
            e,
            record { before = []; after = users; split = refl; others = tt; named = named },
          )
          | inr (other, e) ↦ elim (authenticate_lem users) [
            | inl (f, all) ↦ inl (e ∙ f, (other, all))
            | inr (found, f, first) ↦ inr (
              found,
              e ∙ f,
              record {
                before = user ∷ first.before;
                after = first.after;
                split = ap (◌∷◌ user) first.split;
                others = (other, first.others);
                named = first.named;
              },
            )
          ]
        ]
