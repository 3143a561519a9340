-- ===== src/Inbound/Tests.antt =====
-- `handshake_inbound` of inbound.rs on the stream of a VLESS client.
use skadi_core.Prelude.{ℕ, ◌≡◌, refl, true, false, List, [], ◌∷◌, ◌++◌}
use skadi_core.Prelude.Outcome.{ok}
use skadi_core.Endpoint.{octets_eq, octets_eq-IsEquality}
use skadi_core.Protocol.{vless}
use skadi_core.Socks5.Negotiate.{user_pass}
use skadi_core.Vless.Handler.Tests.{users, client, served, result, client_passes}
use skadi_core.Server.Store.{StoreState, socks5_config, vless_config}
use skadi_core.Inbound.{from_vless, handshake_vless, handshake_inbound}
use skadi_core.Inbound.Access.{Admitted, handshake_inbound-authenticated}

abbrev pub store : StoreState
store = record {
  vless_enabled = true;
  socks_enabled = false;
  socks_auth = user_pass;
  socks_bind = false;
  socks_udp_associate = false;
  vless_users = users;
  socks_users = [];
}

store_users : (vless_config store).users ≡ users
unfolding vless_config
store_users = refl

pub store_auth : store.socks_auth ≡ user_pass
store_auth = refl

client_admitted :
    handshake_inbound octets_eq vless (socks5_config store) (vless_config store) client
    ≡ (ok (from_vless result), served)
unfolding handshake_inbound handshake_vless vless_config
client_admitted = rw client_passes refl

client_let_in :
    (used : List ℕ) × (client.input ≡ used ++ (71 ∷ []))
    × Admitted store used (from_vless result) vless
client_let_in =
    handshake_inbound-authenticated octets_eq octets_eq-IsEquality store vless client served
      (from_vless result) store_auth client_admitted
