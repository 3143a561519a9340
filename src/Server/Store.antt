-- ===== src/Server/Store.antt =====
-- crates/skadi-server/src/store.rs: the users of the server, which the API changes while it runs. An
-- operation that fails leaves the store as it was.
pub mod Unique
pub mod Access
mod Tests
use skadi_core.Prelude.{ℕ, ◌==◌, not, Bool, true, false, List, [], ◌∷◌, ◌++◌, if◌then◌else◌, length}
use skadi_core.Prelude.Outcome.{Outcome, ok, err, panic, ◌>>=◌, ◌>>◌, fail_if}
use skadi_core.Endpoint.{octets_eq}
use skadi_core.Vless.Users.{VlessUser, VlessConfig, UuidParseError, parse_uuid}
use skadi_core.Socks5.Negotiate.{AuthMethod, UserCredential, Socks5Config}

-- `skadi_config::ProtocolConfig`
pub record ProtocolConfig : Type 0 where
  pub vless : VlessConfig
  pub socks5 : Socks5Config

pub record StoreState : Type 0 where
  pub vless_enabled : Bool
  pub socks_enabled : Bool
  pub socks_auth : AuthMethod
  pub socks_bind : Bool
  pub socks_udp_associate : Bool
  pub vless_users : List VlessUser
  pub socks_users : List UserCredential

-- The errors of the store, which the code writes as texts.
pub data StoreError : Type 0 where
  invalid_vless_id : UuidParseError → StoreError
  vless_user_exists : List ℕ → StoreError
  vless_user_not_found : List ℕ → StoreError
  empty_username : StoreError
  empty_password : StoreError
  socks5_user_exists : List ℕ → StoreError
  socks5_user_not_found : List ℕ → StoreError

pub reload_from_protocol : StoreState → ProtocolConfig → StoreState
reload_from_protocol state protocol = record {
  vless_enabled = protocol.vless.enabled;
  socks_enabled = protocol.socks5.enabled;
  socks_auth = protocol.socks5.auth;
  socks_bind = protocol.socks5.bind;
  socks_udp_associate = protocol.socks5.udp_associate;
  vless_users = protocol.vless.users;
  socks_users = protocol.socks5.users;
}

pub from_protocol : ProtocolConfig → StoreState
from_protocol protocol =
    reload_from_protocol
      (record {
        vless_enabled = protocol.vless.enabled;
        socks_enabled = protocol.socks5.enabled;
        socks_auth = protocol.socks5.auth;
        socks_bind = protocol.socks5.bind;
        socks_udp_associate = protocol.socks5.udp_associate;
        vless_users = [];
        socks_users = [];
      })
      protocol

unfoldable pub vless_config : StoreState → VlessConfig
vless_config state = record { enabled = state.vless_enabled; users = state.vless_users }

unfoldable pub socks5_config : StoreState → Socks5Config
socks5_config state = record {
  enabled = state.socks_enabled;
  auth = state.socks_auth;
  users = state.socks_users;
  bind = state.socks_bind;
  udp_associate = state.socks_udp_associate;
}

abbrev pub with_vless : StoreState → List VlessUser → StoreState
with_vless state users = record {
  vless_enabled = state.vless_enabled;
  socks_enabled = state.socks_enabled;
  socks_auth = state.socks_auth;
  socks_bind = state.socks_bind;
  socks_udp_associate = state.socks_udp_associate;
  vless_users = users;
  socks_users = state.socks_users;
}

abbrev pub with_socks : StoreState → List UserCredential → StoreState
with_socks state users = record {
  vless_enabled = state.vless_enabled;
  socks_enabled = state.socks_enabled;
  socks_auth = state.socks_auth;
  socks_bind = state.socks_bind;
  socks_udp_associate = state.socks_udp_associate;
  vless_users = state.vless_users;
  socks_users = users;
}

-- `users.iter().any(|u| key(u) == name)` and `users.retain(|u| key(u) != name)`
module _ {U : Type 0} (key : U → List ℕ) (name : List ℕ) where
  pub any_named : List U → Bool
  any_named [] = false
  any_named (u ∷ users) =
      let rest = any_named users in if octets_eq (key u) name then true else rest

  pub retain_others : List U → List U
  retain_others [] = []
  retain_others (u ∷ users) =
      let rest = retain_others users in if octets_eq (key u) name then rest else u ∷ rest

abbrev pub vless_id : VlessUser → List ℕ
vless_id u = u.id

abbrev pub socks_name : UserCredential → List ℕ
socks_name u = u.username

abbrev pub is_empty : List ℕ → Bool
is_empty [] = true
is_empty (_ ∷ _) = false

-- `.map_err(|e| anyhow!("invalid VLESS user id: {}", e))`
abbrev pub invalid_id : {A : Type 0} → Outcome UuidParseError A → Outcome StoreError A
invalid_id (ok a) = ok a
invalid_id (err e) = err (invalid_vless_id e)
invalid_id panic = panic

pub add_vless_user : StoreState → VlessUser → Outcome StoreError StoreState
add_vless_user state user = do
  _ ← invalid_id (parse_uuid user.id)
  fail_if (any_named vless_id user.id state.vless_users) (vless_user_exists user.id)
  ok (with_vless state (state.vless_users ++ (user ∷ [])))

pub remove_vless_user : StoreState → List ℕ → Outcome StoreError StoreState
remove_vless_user state id = do
  let users = retain_others vless_id id state.vless_users
  fail_if (length users == length state.vless_users) (vless_user_not_found id)
  ok (with_vless state users)

pub add_socks5_user : StoreState → UserCredential → Outcome StoreError StoreState
add_socks5_user state user = do
  fail_if (is_empty user.username) empty_username
  fail_if (is_empty user.password) empty_password
  fail_if (any_named socks_name user.username state.socks_users) (socks5_user_exists user.username)
  ok (with_socks state (state.socks_users ++ (user ∷ [])))

pub remove_socks5_user : StoreState → List ℕ → Outcome StoreError StoreState
remove_socks5_user state username = do
  let users = retain_others socks_name username state.socks_users
  fail_if (length users == length state.socks_users) (socks5_user_not_found username)
  ok (with_socks state users)
