-- ===== src/Server/Store/Access.antt =====
-- What the operations of store.rs change for those who log in over SOCKS5.
use skadi_core.Prelude.{
  ℕ, ◌≡◌, refl, ap, ◌∙◌, false, Bool-cases, inl, inr, List, [], ◌∷◌, ◌++◌, none, some, arith,
  length-append,
}
use skadi_core.Prelude.Outcome.{ok}
use skadi_core.Endpoint.{octets_eq, octets_eq_refl}
use skadi_core.Socks5.Negotiate.{UserCredential, lookup}
use skadi_core.Server.Store.{
  StoreState, any_named, retain_others, socks_name, add_socks5_user, remove_socks5_user,
  socks5_config, with_socks,
}
use skadi_core.Server.Store.Unique.{add_socks5_user-ok}

lookup_last :
    (users : List UserCredential) (u : UserCredential)
    → any_named socks_name u.username users ≡ false
    → lookup (users ++ (u ∷ [])) u.username ≡ some u.password
unfolding lookup any_named
lookup_last [] u h = rw (octets_eq_refl u.username) refl
lookup_last (v ∷ users) u h = elim (Bool-cases (octets_eq v.username u.username)) [
  | inl e ↦ let no = rw e at h in cc
  | inr e ↦ rw e (lookup_last users u (rw e at h))
]

lookup_before :
    (users : List UserCredential) (u : UserCredential) (other : List ℕ)
    → octets_eq u.username other ≡ false
    → lookup (users ++ (u ∷ [])) other ≡ lookup users other
unfolding lookup
lookup_before [] u other h = rw h refl
lookup_before (v ∷ users) u other h = elim (Bool-cases (octets_eq v.username other)) [
  | inl e ↦ rw e refl
  | inr e ↦ rw e (lookup_before users u other h)
]

lookup-none :
    (users : List UserCredential) (name : List ℕ)
    → any_named socks_name name users ≡ false
    → lookup users name ≡ none
unfolding lookup any_named
lookup-none [] name h = refl
lookup-none (v ∷ users) name h = elim (Bool-cases (octets_eq v.username name)) [
  | inl e ↦ let no = rw e at h in cc
  | inr e ↦ rw e (lookup-none users name (rw e at h))
]

retain_others-append :
    (users : List UserCredential) (u : UserCredential)
    → any_named socks_name u.username users ≡ false
    → retain_others socks_name u.username (users ++ (u ∷ [])) ≡ users
unfolding retain_others any_named
retain_others-append [] u h = rw (octets_eq_refl u.username) refl
retain_others-append (v ∷ users) u h = elim (Bool-cases (octets_eq v.username u.username)) [
  | inl e ↦ let no = rw e at h in cc
  | inr e ↦ rw e (ap (◌∷◌ v) (retain_others-append users u (rw e at h)))
]

remove_undo :
    (s : StoreState) (u : UserCredential)
    → any_named socks_name u.username s.socks_users ≡ false
    → remove_socks5_user (with_socks s (s.socks_users ++ (u ∷ []))) u.username ≡ ok s
unfolding remove_socks5_user
remove_undo s u h =
    ground (arith, retain_others-append s.socks_users u h, length-append s.socks_users (u ∷ []))

-- A SOCKS5 user that was added was unknown, logs in with its password, and is removed without a trace;
-- what any other user logs in with does not change.
pub remove-add :
    (s t : StoreState) (u : UserCredential) (other : List ℕ)
    → add_socks5_user s u ≡ ok t
    → octets_eq u.username other ≡ false
    → (lookup (socks5_config s).users u.username ≡ none)
      × (lookup (socks5_config t).users u.username ≡ some u.password)
      × (lookup (socks5_config t).users other ≡ lookup (socks5_config s).users other)
      × (remove_socks5_user t u.username ≡ ok s)
unfolding socks5_config
remove-add s t u other e h =
    let (_, _, new, same) = add_socks5_user-ok s t u e in
    (
      lookup-none s.socks_users u.username new,
      ap (λ x. lookup x.socks_users u.username) same ∙ lookup_last s.socks_users u new,
      ap (λ x. lookup x.socks_users other) same ∙ lookup_before s.socks_users u other h,
      ap (λ x. remove_socks5_user x u.username) same ∙ remove_undo s u new,
    )
