-- ===== src/Inbound/Access.antt =====
-- Who gets through `handshake_inbound` of inbound.rs, with the users of the server's store.
use skadi_core.Prelude.{ℕ, ◌≡◌, refl, Bool, List, ◌++◌}
use skadi_core.Prelude.Outcome.{Outcome, ok, err, panic}
use skadi_core.Endpoint.{IsEquality}
use skadi_core.Stream.{Conn, Action, ◌>>=◌, pure}
use skadi_core.Protocol.{Protocol, socks5, vless}
use skadi_core.Socks5.{Socks5Request}
use skadi_core.Socks5.Negotiate.{Socks5Config, user_pass, negotiate}
use skadi_core.Socks5.Negotiate.Access.{negotiate-authenticated}
use skadi_core.Socks5.Negotiate.Access as Socks
use skadi_core.Vless.Handler.{VlessHandshake, handshake}
use skadi_core.Vless.Handler.Access.{handshake-authenticated}
use skadi_core.Vless.Handler.Access as Vless
use skadi_core.Server.Store.{StoreState, socks5_config, vless_config}
use skadi_core.Inbound.{
  InboundRequest, InboundError, by_socks5, by_vless, errors_of, from_socks5, from_vless,
  handshake_socks5, handshake_vless, handshake_inbound,
}

-- The settings of SOCKS5 and the users as they stand in the store.
abbrev pub of_store : StoreState → Socks5Config
of_store state = record {
  enabled = state.socks_enabled;
  auth = state.socks_auth;
  users = state.socks_users;
  bind = state.socks_bind;
  udp_associate = state.socks_udp_associate;
}

-- What the bytes hold of a connection that is let in.
abbrev pub Admitted : StoreState → List ℕ → InboundRequest → Protocol → Type 0
Admitted state used r socks5 =
    (request : Socks5Request) × (r ≡ from_socks5 request)
    × Socks.Passed (of_store state) used request
Admitted state used r vless =
    (hs : VlessHandshake) × (r ≡ from_vless hs) × Vless.Passed state.vless_users used hs

errors_of-returns :
    {E A B : Type 0} (f : E → InboundError) (m : Action E A) (g : A → B) (c after : Conn) (b : B)
    → (errors_of f m >>= λ a. pure (g a)) c ≡ (ok b, after)
    → (a : A) × (m c ≡ (ok a, after)) × (b ≡ g a)
errors_of-returns {E = E} {A = A} {B = B} f m g c after b e = go (m c).0 (m c).1 refl e
  where
    go :
        (r : Outcome E A) (now : Conn)
        → m c ≡ (r, now)
        → (errors_of f (λ _. (r, now)) >>= λ a. pure (g a)) c ≡ (ok b, after)
        → (a : A) × (m c ≡ (ok a, after)) × (b ≡ g a)
    go (ok a) now p q = (a, cc, cc)
    go (err x) now p q = cc
    go panic now p q = cc

module _ (ct_eq : List ℕ → List ℕ → Bool) (equality : IsEquality ct_eq) where
  -- Whichever protocol a connection speaks, where SOCKS5 asks for a password: the handshake lets it in only if the
  -- bytes that it has read hold credentials of that protocol that the users of the store accept, and with them
  -- the request that is returned.
  pub handshake_inbound-authenticated :
      (state : StoreState) (protocol : Protocol) (c after : Conn) (r : InboundRequest)
      → state.socks_auth ≡ user_pass
      → handshake_inbound ct_eq protocol (socks5_config state) (vless_config state) c
        ≡ (ok r, after)
      → (used : List ℕ) × (c.input ≡ used ++ after.input) × Admitted state used r protocol
  unfolding handshake_inbound handshake_socks5 handshake_vless socks5_config vless_config
  handshake_inbound-authenticated state socks5 c after r password e =
      let (request, p, same) =
        errors_of-returns by_socks5 (negotiate ct_eq (socks5_config state)) from_socks5 c after r
          e in
      let (used, all, passed) =
        negotiate-authenticated ct_eq equality (socks5_config state) c after request password p in
      (used, all, (request, same, passed))
  handshake_inbound-authenticated state vless c after r password e =
      let (hs, p, same) =
        errors_of-returns by_vless (handshake ct_eq (vless_config state).users) from_vless c after r
          e in
      let (used, all, passed) =
        handshake-authenticated ct_eq equality (vless_config state).users c after hs p in
      (used, all, (hs, same, passed))
