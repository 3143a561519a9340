-- ===== src/Config/Fresh.antt =====
-- A configuration that sets only its users (crates/skadi-config/src/lib.rs).
use skadi_core.Prelude.{◌≡◌, inl, inr, true, false, arith}
use skadi_core.Prelude.Outcome.{ok}
use skadi_core.Server.Store.{ProtocolConfig}
use skadi_core.Config.{ListenAddrs}
use skadi_core.Config.Common.{Platform}
use skadi_core.Config.Validate.{validate}
use skadi_core.Config.Spec.{IsListen, HasLimits, HasVlessUsers}
use skadi_core.Config.Correct.{validate_lem}
use skadi_core.Config.Defaults.{
  with_listen, default_config, default_transport, default_tls, default_reality, default_xhttp,
  default_awg, default_hysteria2, default_tuic, default_api, default_metrics, default_outbound,
  default_outbound_tls, default_timeouts, default_auth_rate_limit,
}

limited : (listen : ListenAddrs) → HasLimits (with_listen listen)
unfolding with_listen default_timeouts default_auth_rate_limit
limited listen =
    (omega arith, tt, tt, (λ on. (omega arith, omega arith, omega arith, omega arith)), tt)

-- With addresses to listen at and VLESS users whose identifiers parse, and SOCKS5 off, everything else may
-- be left to the defaults.
pub default_config-validate :
    (platform : Platform) (listen : ListenAddrs) (protocol : ProtocolConfig)
    → IsListen platform listen
    → protocol.socks5.enabled ≡ false
    → protocol.vless.enabled ≡ true
    → HasVlessUsers protocol.vless.users
    → validate platform (default_config listen protocol) ≡ ok tt
unfolding default_config with_listen default_transport default_tls default_reality default_xhttp
    default_awg default_hysteria2 default_tuic default_api default_metrics default_outbound
    default_outbound_tls
default_config-validate platform listen protocol e off on users =
    (validate_lem platform (default_config listen protocol)).0.1 (record {
      listen = e;
      limits = limited listen;
      service = inr (inl on);
      socks_users = λ p q. absurd cc;
      vless_users = λ p. users;
      one_camouflage = λ p. cc;
      xhttp = λ p. absurd cc;
      awg = λ p. absurd cc;
      hysteria2 = λ p. absurd cc;
      tuic = λ p. absurd cc;
      outbound_tls = λ p. absurd cc;
      tls = λ p. absurd cc;
      reality = λ p. absurd cc;
      api = λ p. absurd cc;
      metrics = λ p. absurd cc;
    })
