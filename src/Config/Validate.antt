-- ===== src/Config/Validate.antt =====
-- crates/skadi-config/src/lib.rs: `Config::validate`, which the server runs before it starts: the checks in
-- their order.
use skadi_core.Prelude.{ℕ, ◌&&◌, ◌||◌, not, ◌==◌, Bool, List, [], ◌∷◌, ltb, length}
use skadi_core.Prelude.Bytes.{codes}
use skadi_core.Prelude.Outcome.{Outcome, ok, ◌>>=◌, ◌>>◌, fail_if}
use skadi_core.Config.{Config, ServerConfig, RealityConfig}
use skadi_core.Config.Common.{
  Platform, ConfigError, missing, is_empty, is_zero, is_invalid, is_conflict, ok_or, when, is_nil,
  is_set_zero, contains, is_blank, parse_tls_kex_mode, decode_base64_32,
}
use skadi_core.Config.Runtime.{tls_server_config}
use skadi_core.Config.Backends.{reality_server_config}
use skadi_core.Config.Checks.{
  discard, is_user_pass, check_auth_rate_limit, check_vless_users, validate_listen,
  validate_metrics, validate_api, validate_tls, validate_outbound_tls, validate_xhttp, validate_awg,
  validate_hysteria2, validate_tuic,
}

-- `server.listen` apart, the tests of the section `server`.
unfoldable pub check_server : ServerConfig → Outcome ConfigError (Unit {0})
check_server server = do
  fail_if (server.timeouts.connect_timeout_secs == 0) (is_zero (codes "connect_timeout_secs"))
  fail_if (is_set_zero server.timeouts.idle_timeout_secs) (is_zero (codes "idle_timeout_secs"))
  fail_if (is_set_zero server.max_connections) (is_zero (codes "max_connections"))
  when server.auth_rate_limit.enabled (check_auth_rate_limit server.auth_rate_limit)
  fail_if (is_set_zero server.timeouts.max_session_lifetime_secs)
      (is_zero (codes "max_session_lifetime_secs"))

unfoldable pub nothing_enabled : Config → Bool
nothing_enabled config =
    not config.protocol.socks5.enabled
    && not config.protocol.vless.enabled
    && not config.transport.awg.enabled
    && not config.transport.hysteria2.enabled
    && not config.transport.tuic.enabled

unfoldable pub no_socks_users : Config → Bool
no_socks_users config =
    config.protocol.socks5.enabled
    && is_user_pass config.protocol.socks5.auth
    && is_nil config.protocol.socks5.users

module _ (platform : Platform) where
  unfoldable pub check_short_ids : List (List ℕ) → Outcome ConfigError (Unit {0})
  check_short_ids [] = ok tt
  check_short_ids (sid ∷ sids) = do
    bytes ← ok_or (platform.hex_decode sid) (is_invalid (codes "transport.reality.short_ids"))
    fail_if (is_nil bytes || ltb 8 (length bytes))
        (is_invalid (codes "transport.reality.short_ids"))
    check_short_ids sids

  unfoldable pub validate_reality : RealityConfig → Outcome ConfigError (Unit {0})
  validate_reality reality = do
    dest ← ok_or reality.dest (missing (codes "transport.reality.dest"))
    fail_if (is_blank platform dest) (is_empty (codes "transport.reality.dest"))
    fail_if (not (contains b':' dest)) (is_invalid (codes "transport.reality.dest"))
    fail_if (is_nil reality.server_names) (is_empty (codes "transport.reality.server_names"))
    key ← ok_or reality.private_key (missing (codes "transport.reality.private_key"))
    discard (decode_base64_32 platform key (codes "transport.reality.private_key"))
    fail_if (is_nil reality.short_ids) (is_empty (codes "transport.reality.short_ids"))
    check_short_ids reality.short_ids
    discard (parse_tls_kex_mode reality.kex_mode (codes "transport.reality.kex_mode"))

  unfoldable pub validate : Config → Outcome ConfigError (Unit {0})
  validate config = do
    validate_listen platform config.server.listen
    check_server config.server
    fail_if (nothing_enabled config) (missing (codes "protocol or transport"))
    fail_if (no_socks_users config) (is_empty (codes "protocol.socks5.users"))
    when config.protocol.vless.enabled (check_vless_users config.protocol.vless.users)
    fail_if (config.transport.tls.enabled && config.transport.reality.enabled)
        (is_conflict (codes "transport.tls"))
    validate_xhttp platform config.transport.xhttp
    validate_awg platform config
    validate_hysteria2 platform config
    validate_tuic platform config
    validate_outbound_tls platform config.outbound.tls
    when config.transport.tls.enabled
        (validate_tls platform config.transport.tls >> discard (tls_server_config config))
    when config.transport.reality.enabled (
        validate_reality config.transport.reality
        >> discard (reality_server_config platform config))
    when config.api.enabled (validate_api platform config.api)
    when config.metrics.enabled (validate_metrics platform config.metrics)
