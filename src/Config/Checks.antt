-- ===== src/Config/Checks.antt =====
-- crates/skadi-config/src/lib.rs: the checks of the parts of a configuration.
use skadi_core.Prelude.{
  ℕ, ◌&&◌, ◌||◌, not, ◌==◌, Bool, true, false, List, [], ◌∷◌, Option, none, some, ltb,
}
use skadi_core.Prelude.Bytes.{codes}
use skadi_core.Prelude.Outcome.{Outcome, ok, err, ◌>>=◌, ◌>>◌, fail_if}
use skadi_core.Endpoint.{octets_eq}
use skadi_core.Socks5.Negotiate.{AuthMethod, no_auth, user_pass}
use skadi_core.Server.AuthRateLimit.{AuthRateLimitConfig}
use skadi_core.Vless.Users.{VlessUser, parse_uuid}
use skadi_core.Config.{
  Config, ListenAddrs, TlsConfig, TlsSniCertConfig, OutboundTlsConfig, ApiConfig, ApiTlsConfig,
  MetricsConfig, XhttpFileConfig,
}
use skadi_core.Config.Common.{
  Platform, ConfigError, missing, is_empty, is_zero, is_invalid, is_duplicate, is_conflict,
  not_loopback, ParsedAddr, addr_eq, ok_or, when, is_some, is_nil, is_set_zero, is_blank,
  to_ascii_lowercase, parse_tls_kex_mode, xhttp_mode_of, is_loopback_ip, ensure_readable_file,
  parse_listen, starts_with, ends_with,
}
use skadi_core.Config.Runtime.{awg_server_config, hysteria2_server_config}
use skadi_core.Config.Backends.{tuic_server_config, check_uuid}
use skadi_core.Config.Awg.{AwgServerConfig, AwgPeerConfig, render_server_conf}
use skadi_core.Config.Hysteria2.{render_server_yaml}
use skadi_core.Config.Tuic.{render_server_toml}

-- `let _ = value?`
abbrev pub discard : {A : Type 0} → Outcome ConfigError A → Outcome ConfigError (Unit {0})
discard m = m >>= λ _. ok tt

-- `auth == AuthMethod::UserPass`
abbrev pub is_user_pass : AuthMethod → Bool
is_user_pass no_auth = false
is_user_pass user_pass = true

-- The tests of the settings that have nothing to do with files.
unfoldable pub check_auth_rate_limit : AuthRateLimitConfig → Outcome ConfigError (Unit {0})
check_auth_rate_limit limit = do
  fail_if (is_set_zero limit.max_failures) (is_zero (codes "max_failures"))
  fail_if (limit.window_secs == 0) (is_zero (codes "window_secs"))
  fail_if (limit.ban_base_secs == 0) (is_zero (codes "ban_base_secs"))
  fail_if (limit.ban_max_secs == 0) (is_zero (codes "ban_max_secs"))

unfoldable pub check_user_ids : List VlessUser → Outcome ConfigError (Unit {0})
check_user_ids [] = ok tt
check_user_ids (user ∷ users) = do
  check_uuid (parse_uuid user.id) (codes "protocol.vless.users")
  check_user_ids users

unfoldable pub check_vless_users : List VlessUser → Outcome ConfigError (Unit {0})
check_vless_users users = do
  fail_if (is_nil users) (is_empty (codes "protocol.vless.users"))
  check_user_ids users

-- `seen.insert(x)`: whether `x` was not there.
module _ {A : Type 0} (eq : A → A → Bool) where
  unfoldable pub member : A → List A → Bool
  member x [] = false
  member x (y ∷ ys) = eq x y || member x ys

abbrev pub crossed : Option (ℕ × ℕ) → Bool
crossed none = false
crossed (some (least, most)) = ltb most least

-- `if let Some(path) = &file { ensure_readable_file(path, field)?; }`
abbrev pub readable_if_set : Platform → Option (List ℕ) → List ℕ → Outcome ConfigError (Unit {0})
readable_if_set platform none field = ok tt
readable_if_set platform (some path) field = ensure_readable_file platform path field

module _ (platform : Platform) where
  -- `ListenAddrs::validate`, from the loop on.
  unfoldable pub check_listen : List ParsedAddr → List (List ℕ) → Outcome ConfigError (Unit {0})
  check_listen seen [] = ok tt
  check_listen seen (text ∷ texts) = do
    addr ← parse_listen platform text (codes "server.listen")
    fail_if (member addr_eq addr seen) (is_duplicate (codes "server.listen"))
    check_listen (addr ∷ seen) texts

  unfoldable pub validate_listen : ListenAddrs → Outcome ConfigError (Unit {0})
  validate_listen listen = do
    fail_if (is_nil listen.addrs) (is_empty (codes "server.listen"))
    check_listen [] listen.addrs

  unfoldable pub validate_metrics : MetricsConfig → Outcome ConfigError (Unit {0})
  validate_metrics metrics = do
    addr ← parse_listen platform metrics.listen (codes "metrics.listen")
    fail_if (not (is_loopback_ip addr.ip)) (not_loopback (codes "metrics.listen"))

  unfoldable pub check_api_tls : ApiTlsConfig → Bool → Outcome ConfigError (Unit {0})
  check_api_tls tls true = do
    cert ← ok_or tls.cert (missing (codes "api.tls.cert"))
    key ← ok_or tls.key (missing (codes "api.tls.key"))
    ensure_readable_file platform cert (codes "api.tls.cert")
    ensure_readable_file platform key (codes "api.tls.key")
  check_api_tls tls false =
      fail_if (is_some tls.cert || is_some tls.key) (is_conflict (codes "api.tls"))

  unfoldable pub validate_api : ApiConfig → Outcome ConfigError (Unit {0})
  validate_api api = do
    addr ← parse_listen platform api.listen (codes "api.listen")
    fail_if (not (is_loopback_ip addr.ip)) (not_loopback (codes "api.listen"))
    token ← ok_or api.token (missing (codes "api.token"))
    fail_if (is_blank platform token) (is_empty (codes "api.token"))
    check_api_tls api.tls api.tls.enabled
    fail_if (is_set_zero api.rate_limit_per_sec) (is_zero (codes "api.rate_limit_per_sec"))

  -- `name.trim().to_ascii_lowercase()`
  unfoldable pub normalized : List ℕ → List ℕ
  normalized name = to_ascii_lowercase (platform.trim name)

  -- The loop over the names of one certificate: the names seen so far, behind it.
  unfoldable pub check_names : List (List ℕ) → List (List ℕ) → Outcome ConfigError (List (List ℕ))
  check_names seen [] = ok seen
  check_names seen (name ∷ names) = do
    fail_if (is_nil (normalized name)) (is_empty (codes "server_names"))
    fail_if (member octets_eq (normalized name) seen) (is_duplicate (codes "server_names"))
    check_names (normalized name ∷ seen) names

  unfoldable pub check_certificates :
      List (List ℕ) → List TlsSniCertConfig → Outcome ConfigError (Unit {0})
  check_certificates seen [] = ok tt
  check_certificates seen (entry ∷ entries) = do
    fail_if (is_nil entry.server_names) (is_empty (codes "server_names"))
    ensure_readable_file platform entry.cert (codes "transport.tls.certificates.cert")
    ensure_readable_file platform entry.key (codes "transport.tls.certificates.key")
    names ← check_names seen entry.server_names
    check_certificates names entries

  unfoldable pub validate_tls : TlsConfig → Outcome ConfigError (Unit {0})
  validate_tls tls = do
    fail_if
        ((is_some tls.cert || is_some tls.key) && (not (is_some tls.cert) || not (is_some tls.key)))
        (missing (codes "transport.tls.cert"))
    fail_if (not (is_some tls.cert) && is_nil tls.certificates)
        (missing (codes "transport.tls.certificates"))
    readable_if_set platform tls.cert (codes "transport.tls.cert")
    readable_if_set platform tls.key (codes "transport.tls.key")
    discard (parse_tls_kex_mode tls.kex_mode (codes "transport.tls.kex_mode"))
    check_certificates [] tls.certificates

  unfoldable pub check_client_cert :
      Option (List ℕ) → Option (List ℕ) → Outcome ConfigError (Unit {0})
  check_client_cert (some cert) (some key) = do
    ensure_readable_file platform cert (codes "outbound.tls.cert")
    ensure_readable_file platform key (codes "outbound.tls.key")
  check_client_cert none none = ok tt
  check_client_cert _ _ = err (missing (codes "outbound.tls.cert"))

  unfoldable pub validate_outbound_tls : OutboundTlsConfig → Outcome ConfigError (Unit {0})
  validate_outbound_tls tls = when tls.enabled (do
    check_client_cert tls.cert tls.key
    readable_if_set platform tls.ca_file (codes "outbound.tls.ca_file")
    discard (parse_tls_kex_mode tls.kex_mode (codes "outbound.tls.kex_mode")))

  unfoldable pub validate_xhttp : XhttpFileConfig → Outcome ConfigError (Unit {0})
  validate_xhttp xhttp = when xhttp.enabled (do
    fail_if (is_blank platform xhttp.path) (is_empty (codes "transport.xhttp.path"))
    fail_if (not (is_some (xhttp_mode_of xhttp.mode))) (is_invalid (codes "transport.xhttp.mode"))
    fail_if (crossed xhttp.x_padding_bytes) (is_invalid (codes "transport.xhttp.x_padding_bytes")))

  unfoldable pub awg_key_is_placeholder : List ℕ → Bool
  awg_key_is_placeholder key =
      starts_with b'<' (platform.trim key) && ends_with b'>' (platform.trim key)

  unfoldable pub any_placeholder : List AwgPeerConfig → Bool
  any_placeholder [] = false
  any_placeholder (peer ∷ peers) = awg_key_is_placeholder peer.public_key || any_placeholder peers

  unfoldable pub awg_uses_placeholder_keys : AwgServerConfig → Bool
  awg_uses_placeholder_keys runtime =
      awg_key_is_placeholder runtime.private_key || any_placeholder runtime.peers

  unfoldable pub check_awg_conf : AwgServerConfig → Outcome ConfigError (Unit {0})
  check_awg_conf runtime =
      when (not (awg_uses_placeholder_keys runtime)) (discard (render_server_conf platform runtime))

  unfoldable pub validate_awg : Config → Outcome ConfigError (Unit {0})
  validate_awg config =
      when config.transport.awg.enabled (awg_server_config platform config >>= check_awg_conf)

  unfoldable pub validate_hysteria2 : Config → Outcome ConfigError (Unit {0})
  validate_hysteria2 config = when config.transport.hysteria2.enabled (
      hysteria2_server_config platform config >>= λ runtime.
      discard (render_server_yaml platform runtime))

  unfoldable pub validate_tuic : Config → Outcome ConfigError (Unit {0})
  validate_tuic config = when config.transport.tuic.enabled (
      tuic_server_config platform config >>= λ runtime.
      discard (render_server_toml platform runtime))
