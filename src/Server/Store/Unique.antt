-- ===== src/Server/Store/Unique.antt =====
-- The users of store.rs under the operations of the API.
use skadi_core.Prelude.{
  ℕ, ◌≡◌, ◌≢◌, sym, false, Bool-cases, inl, inr, List, [], ◌∷◌, ◌++◌, All, arith,
}
use mathlib.Core.Path.{subst⁻¹}
use skadi_core.Prelude.Outcome.{Outcome, ok, err, panic, >>=-returns}
use skadi_core.Endpoint.{octets_eq, octets_eq_refl}
use skadi_core.Vless.Users.{VlessUser, UuidParseError, parse_uuid}
use skadi_core.Socks5.Negotiate.{UserCredential}
use skadi_core.Server.Store.{
  StoreState, any_named, retain_others, vless_id, socks_name, add_vless_user, remove_vless_user,
  add_socks5_user, remove_socks5_user, invalid_id, is_empty, with_vless, with_socks,
}

module _ {U : Type 0} (key : U → List ℕ) where
  -- A name that no user of a list has.
  abbrev pub IsNew : List ℕ → List U → Type 0
  IsNew name = All (λ u. key u ≢ name)

  -- No two users of a list share a name.
  abbrev pub IsUnique : List U → Type 0
  IsUnique [] = Unit {0}
  IsUnique (u ∷ users) = IsNew (key u) users × IsUnique users

  octets-differ : (a b : List ℕ) → octets_eq a b ≡ false → a ≢ b
  octets-differ a b h = λ same. let yes = octets_eq_refl b in let no = rw same at h in cc

  any_named-IsNew :
      (name : List ℕ) (users : List U) → any_named key name users ≡ false → IsNew name users
  unfolding any_named
  any_named-IsNew name [] h = tt
  any_named-IsNew name (v ∷ users) h = elim (Bool-cases (octets_eq (key v) name)) [
    | inl e ↦ let no = rw e at h in cc
    | inr e ↦ (octets-differ (key v) name e, any_named-IsNew name users (rw e at h))
  ]

  IsNew-append :
      (name : List ℕ) (users : List U) (u : U)
      → IsNew name users
      → key u ≢ name
      → IsNew name (users ++ (u ∷ []))
  IsNew-append name [] u h k = (k, tt)
  IsNew-append name (v ∷ users) u (d, h) k = (d, IsNew-append name users u h k)

  append_new-IsUnique :
      (users : List U) (u : U) → IsUnique users → IsNew (key u) users → IsUnique (users ++ (u ∷ []))
  append_new-IsUnique [] u h k = (tt, tt)
  append_new-IsUnique (v ∷ users) u (h, i) (d, k) =
      (IsNew-append (key v) users u h (λ e. d (sym e)), append_new-IsUnique users u i k)

  pub append-IsUnique :
      (users : List U) (u : U)
      → IsUnique users
      → any_named key (key u) users ≡ false
      → IsUnique (users ++ (u ∷ []))
  append-IsUnique users u h k = append_new-IsUnique users u h (any_named-IsNew (key u) users k)

  pub retain_others-All {μ} :
      (P : U → Type μ) (name : List ℕ) (users : List U)
      → All P users
      → All P (retain_others key name users)
  unfolding retain_others
  retain_others-All P name [] h = tt
  retain_others-All P name (v ∷ users) (h, i) = elim (Bool-cases (octets_eq (key v) name)) [
    | inl f ↦ rw f (retain_others-All P name users i)
    | inr f ↦ rw f (h, retain_others-All P name users i)
  ]

  pub retain_others-IsUnique :
      (name : List ℕ) (users : List U) → IsUnique users → IsUnique (retain_others key name users)
  unfolding retain_others
  retain_others-IsUnique name [] h = tt
  retain_others-IsUnique name (v ∷ users) (h, i) = elim (Bool-cases (octets_eq (key v) name)) [
    | inl f ↦ rw f (retain_others-IsUnique name users i)
    | inr f ↦
        rw f
          (retain_others-All (λ u. key u ≢ key v) name users h, retain_others-IsUnique name users i)
  ]

append-All {ℓ μ} :
    {U : Type ℓ} (P : U → Type μ) (users : List U) (u : U)
    → All P users
    → P u
    → All P (users ++ (u ∷ []))
append-All P [] u h p = (p, tt)
append-All P (v ∷ users) u (h, i) p = (h, append-All P users u i p)

-- What the operations keep of the users: identifiers that parse, names and passwords that are there, and
-- no name twice in a list.
pub record IsValid (state : StoreState) : Type 0 where
  pub vless_unique : IsUnique vless_id state.vless_users
  pub vless_parsed : All (λ u. (id : List ℕ) × (parse_uuid u.id ≡ ok id)) state.vless_users
  pub socks_unique : IsUnique socks_name state.socks_users
  pub socks_named :
      All (λ u. (is_empty u.username ≡ false) × (is_empty u.password ≡ false)) state.socks_users

-- The operations of the API that succeed, in any order.
pub data Reaches : StoreState → StoreState → Type 0 where
  unchanged : (s : StoreState) → Reaches s s
  vless_added :
      (s now after : StoreState) (u : VlessUser)
      → Reaches s now
      → add_vless_user now u ≡ ok after
      → Reaches s after
  vless_removed :
      (s now after : StoreState) (id : List ℕ)
      → Reaches s now
      → remove_vless_user now id ≡ ok after
      → Reaches s after
  socks_added :
      (s now after : StoreState) (u : UserCredential)
      → Reaches s now
      → add_socks5_user now u ≡ ok after
      → Reaches s after
  socks_removed :
      (s now after : StoreState) (username : List ℕ)
      → Reaches s now
      → remove_socks5_user now username ≡ ok after
      → Reaches s after

invalid_id-ok : {A : Type 0} (r : Outcome UuidParseError A) (a : A) → invalid_id r ≡ ok a → r ≡ ok a
invalid_id-ok (ok b) a e = cc
invalid_id-ok (err x) a e = cc
invalid_id-ok panic a e = cc

add_vless_user-ok :
    (s t : StoreState) (u : VlessUser)
    → add_vless_user s u ≡ ok t
    → ((id : List ℕ) × (parse_uuid u.id ≡ ok id))
      × (any_named vless_id u.id s.vless_users ≡ false)
      × (t ≡ with_vless s (s.vless_users ++ (u ∷ [])))
unfolding add_vless_user
add_vless_user-ok s t u e =
    let (id, p, q) = >>=-returns (invalid_id (parse_uuid u.id)) _ t e in
    let parsed = invalid_id-ok (parse_uuid u.id) id p in
    elim (Bool-cases (any_named vless_id u.id s.vless_users)) [
      | inl h ↦ let no = rw h at q in cc
      | inr h ↦ let same = rw h at q in ((id, parsed), h, cc)
    ]

remove_vless_user-ok :
    (s t : StoreState) (id : List ℕ)
    → remove_vless_user s id ≡ ok t
    → t ≡ with_vless s (retain_others vless_id id s.vless_users)
unfolding remove_vless_user
remove_vless_user-ok s t id e = ground arith

pub add_socks5_user-ok :
    (s t : StoreState) (u : UserCredential)
    → add_socks5_user s u ≡ ok t
    → (is_empty u.username ≡ false)
      × (is_empty u.password ≡ false)
      × (any_named socks_name u.username s.socks_users ≡ false)
      × (t ≡ with_socks s (s.socks_users ++ (u ∷ [])))
unfolding add_socks5_user
add_socks5_user-ok s t u e = ground arith

pub remove_socks5_user-ok :
    (s t : StoreState) (username : List ℕ)
    → remove_socks5_user s username ≡ ok t
    → t ≡ with_socks s (retain_others socks_name username s.socks_users)
unfolding remove_socks5_user
remove_socks5_user-ok s t username e = ground arith

-- Whatever users the API adds and removes, the identifiers of the VLESS users parse and no two of them are
-- the same text, and the SOCKS5 users have names of which no two are the same, and a password, where this
-- held at the start.
pub Reaches-IsValid : (s t : StoreState) → Reaches s t → IsValid s → IsValid t
Reaches-IsValid s _ (unchanged _) v = v
Reaches-IsValid s t (vless_added _ now _ u r e) v =
    let w = Reaches-IsValid s now r v in
    let (parsed, new, same) = add_vless_user-ok now t u e in
    subst⁻¹ IsValid same (record {
      vless_unique = append-IsUnique vless_id now.vless_users u w.vless_unique new;
      vless_parsed = append-All _ now.vless_users u w.vless_parsed parsed;
      socks_unique = w.socks_unique;
      socks_named = w.socks_named;
    })
Reaches-IsValid s t (vless_removed _ now _ id r e) v =
    let w = Reaches-IsValid s now r v in
    subst⁻¹ IsValid (remove_vless_user-ok now t id e) (record {
      vless_unique = retain_others-IsUnique vless_id id now.vless_users w.vless_unique;
      vless_parsed = retain_others-All vless_id _ id now.vless_users w.vless_parsed;
      socks_unique = w.socks_unique;
      socks_named = w.socks_named;
    })
Reaches-IsValid s t (socks_added _ now _ u r e) v =
    let w = Reaches-IsValid s now r v in
    let (name, password, new, same) = add_socks5_user-ok now t u e in
    subst⁻¹ IsValid same (record {
      vless_unique = w.vless_unique;
      vless_parsed = w.vless_parsed;
      socks_unique = append-IsUnique socks_name now.socks_users u w.socks_unique new;
      socks_named = append-All _ now.socks_users u w.socks_named (name, password);
    })
Reaches-IsValid s t (socks_removed _ now _ username r e) v =
    let w = Reaches-IsValid s now r v in
    subst⁻¹ IsValid (remove_socks5_user-ok now t username e) (record {
      vless_unique = w.vless_unique;
      vless_parsed = w.vless_parsed;
      socks_unique = retain_others-IsUnique socks_name username now.socks_users w.socks_unique;
      socks_named = retain_others-All socks_name _ username now.socks_users w.socks_named;
    })
