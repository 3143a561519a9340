-- ===== src/Server/Store/Tests.antt =====
-- The store of store.rs on concrete users.
use skadi_core.Prelude.{◌≡◌, refl, true, false, List, [], ◌∷◌, some, none}
use skadi_core.Prelude.Bytes.{codes}
use skadi_core.Prelude.Outcome.{ok}
use skadi_core.Endpoint.{octets_eq}
use skadi_core.Socks5.Negotiate.{user_pass, UserCredential, lookup}
use skadi_core.Server.Store.{
  StoreState, any_named, add_socks5_user, remove_socks5_user, retain_others, socks5_config,
}
use skadi_core.Server.Store.Unique.{IsValid, unchanged, socks_added, socks_removed, Reaches-IsValid}
use skadi_core.Server.Store.Access.{remove-add}

abbrev ann : UserCredential
ann = record { username = codes "ann"; password = codes "pw" }

abbrev bob : UserCredential
bob = record { username = codes "bob"; password = codes "qu" }

abbrev store : List UserCredential → StoreState
store users = record {
  vless_enabled = false;
  socks_enabled = true;
  socks_auth = user_pass;
  socks_bind = false;
  socks_udp_associate = true;
  vless_users = [];
  socks_users = users;
}

bob_added : add_socks5_user (store (ann ∷ [])) bob ≡ ok (store (ann ∷ bob ∷ []))
unfolding add_socks5_user any_named octets_eq
bob_added = refl

ann_removed : remove_socks5_user (store (ann ∷ bob ∷ [])) (codes "ann") ≡ ok (store (bob ∷ []))
unfolding remove_socks5_user retain_others octets_eq
ann_removed = refl

ann-IsValid : IsValid (store (ann ∷ []))
ann-IsValid = record {
  vless_unique = tt;
  vless_parsed = tt;
  socks_unique = (tt, tt);
  socks_named = ((refl, refl), tt);
}

remove-add_example :
    (lookup (socks5_config (store (ann ∷ []))).users (codes "bob") ≡ none)
    × (lookup (socks5_config (store (ann ∷ bob ∷ []))).users (codes "bob") ≡ some (codes "qu"))
    × (lookup (socks5_config (store (ann ∷ bob ∷ []))).users (codes "ann")
        ≡ lookup (socks5_config (store (ann ∷ []))).users (codes "ann"))
    × (remove_socks5_user (store (ann ∷ bob ∷ [])) (codes "bob") ≡ ok (store (ann ∷ [])))
unfolding octets_eq
remove-add_example =
    remove-add (store (ann ∷ [])) (store (ann ∷ bob ∷ [])) bob (codes "ann") bob_added refl

Reaches-IsValid_example : IsValid (store (bob ∷ []))
Reaches-IsValid_example =
    Reaches-IsValid (store (ann ∷ [])) (store (bob ∷ []))
      (socks_removed _ _ _ (codes "ann")
        (socks_added _ _ _ bob (unchanged (store (ann ∷ []))) bob_added) ann_removed)
      ann-IsValid
