-- ===== src/Config/Tests.antt =====
-- Concrete configurations of crates/skadi-config/src/lib.rs.
use skadi_core.Prelude.{
  Bool, ℕ, ◌≡◌, refl, true, false, List, [], ◌∷◌, Option, none, some, if◌then◌else◌,
}
use skadi_core.Prelude.Bytes.{codes}
use skadi_core.Prelude.Outcome.{ok, err}
use skadi_core.Endpoint.{v4, octets_eq}
use skadi_core.Socks5.Negotiate.{no_auth}
use skadi_core.Vless.Users.{VlessUser, parse_uuid, without_dashes, parse_bytes, hex_val}
use skadi_core.Server.Store.{ProtocolConfig}
use skadi_core.Config.{Config}
use skadi_core.Config.Common.{Platform, ParsedAddr, is_zero}
use skadi_core.Config.Common.{parse_listen, xhttp_mode_of, is_blank, is_loopback_ip, addr_eq}
use skadi_core.Config.Checks.{
  validate_listen, check_listen, check_auth_rate_limit, check_vless_users, check_user_ids,
  validate_xhttp, validate_awg, validate_hysteria2, validate_tuic, validate_outbound_tls,
  validate_metrics, member,
}
use skadi_core.Config.Backends.{check_uuid, tuic_server_config, reality_server_config}
use skadi_core.Config.Runtime.{
  socket_addrs, xhttp_config, tls_server_config, awg_server_config, hysteria2_server_config,
}
use skadi_core.Config.Accepts.{Returns}
use skadi_core.Config.Distinct.{IsDistinct}
use skadi_core.Config.Spec.{IsListen, HasUuid}
use skadi_core.Config.Validate.{validate, check_server, nothing_enabled, no_socks_users}
use skadi_core.Config.Defaults.{default_config}
use skadi_core.Config.Fresh.{default_config-validate}
use skadi_core.Config.Outbound.{TlsClientConfig, IsBuilt}
use skadi_core.Config.Startup.{validate-starts}

-- A system whose only address is 127.0.0.1:1080, with no files.
abbrev local_addr : ParsedAddr
local_addr = record {
  ip = v4 (record { a = 127; b = 0; c = 0; d = 1 });
  port = 1080;
  flowinfo = 0;
  scope_id = 0;
}

abbrev parse_local : List ℕ → Option ParsedAddr
parse_local text = if octets_eq text (codes "127.0.0.1:1080") then some local_addr else none

abbrev bare_platform : Platform
bare_platform = record {
  parse_addr = parse_local;
  display_addr = λ addr. codes "127.0.0.1:1080";
  display_ip = λ ip. codes "127.0.0.1";
  display_port = λ port. codes "1080";
  parse_u32 = λ text. none;
  trim = λ text. text;
  is_file = λ path. false;
  can_open = λ path. false;
  read_file = λ path. none;
  extension = λ path. none;
  pem_certs = λ bytes. none;
  base64_decode = λ text. none;
  hex_decode = λ text. none;
  private_key = λ text. none;
  public_key = λ text. none;
  preshared_key = λ text. none;
  ip_net = λ text. none;
  settings_build = λ settings. false;
  settings_validate = λ settings. false;
}

-- The values that the file gets where it says nothing, SOCKS5 without a password, and VLESS with the
-- users given.
abbrev config_of : List (List ℕ) → ℕ → List VlessUser → Config
config_of listen window users = record {
  server = record {
    listen = record { addrs = listen };
    timeouts = record {
      connect_timeout_secs = 10;
      idle_timeout_secs = none;
      max_session_lifetime_secs = none;
    };
    max_connections = none;
    auth_rate_limit = record {
      enabled = true;
      max_failures = some 10;
      window_secs = window;
      ban_base_secs = 60;
      ban_max_secs = 3600;
    };
  };
  protocol = record {
    vless = record { enabled = true; users = users };
    socks5 = record {
      enabled = true;
      auth = no_auth;
      users = [];
      bind = false;
      udp_associate = false;
    };
  };
  transport = record {
    tls = record {
      enabled = false;
      cert = none;
      key = none;
      alpn = [];
      certificates = [];
      kex_mode = codes "classic";
    };
    reality = record {
      enabled = false;
      dest = none;
      server_names = [];
      private_key = none;
      short_ids = [];
      impersonate_cert = none;
      fetch_impersonate_cert = true;
      kex_mode = codes "classic";
    };
    xhttp = record {
      enabled = true;
      path = codes "/xhttp";
      host = none;
      mode = codes "auto";
      no_sse_header = false;
      x_padding_bytes = some (100, 200);
    };
    awg = record {
      enabled = false;
      listen = codes "0.0.0.0:51820";
      interface = codes "skadiwg0";
      private_key = none;
      address = codes "10.8.0.1/24";
      mtu = some 1420;
      jc = 8;
      jmin = 64;
      jmax = 1024;
      s1 = 32;
      s2 = 32;
      s3 = 16;
      s4 = 16;
      h1 = codes "1-10000000";
      h2 = codes "10000001-20000000";
      h3 = codes "20000001-30000000";
      h4 = codes "30000001-40000000";
      peers = [];
      nat = record { enabled = false; egress_interface = none; subnet = codes "10.8.0.0/24" };
    };
    hysteria2 = record {
      enabled = false;
      listen = codes ":443";
      password = none;
      cert = none;
      key = none;
      masquerade_url = none;
    };
    tuic = record {
      enabled = false;
      listen = codes "0.0.0.0:8443";
      uuid = none;
      password = none;
      certificate = none;
      private_key = none;
      congestion_control = codes "bbr";
      alpn = codes "h3" ∷ [];
    };
  };
  api = record {
    enabled = false;
    listen = codes "127.0.0.1:10085";
    token = none;
    tls = record { enabled = false; cert = none; key = none };
    rate_limit_per_sec = none;
    audit_log = true;
  };
  metrics = record { enabled = true; listen = codes "127.0.0.1:1080" };
  outbound = record {
    tls = record {
      enabled = false;
      ca_file = none;
      cert = none;
      key = none;
      kex_mode = codes "classic";
    };
    allow_private = false;
  };
}

abbrev user : VlessUser
user = record { id = codes "b831381d-6324-4d53-ad4f-8cda48b30811"; email = none; flow = none }

abbrev config : Config
config = config_of (codes "127.0.0.1:1080" ∷ []) 600 (user ∷ [])

config_valid : validate bare_platform config ≡ ok tt
unfolding validate validate_listen check_listen parse_listen check_server check_auth_rate_limit
    nothing_enabled no_socks_users check_vless_users check_user_ids check_uuid parse_uuid
    without_dashes parse_bytes hex_val validate_xhttp xhttp_mode_of validate_awg validate_hysteria2
    validate_tuic validate_outbound_tls validate_metrics member is_blank octets_eq is_loopback_ip
    addr_eq
config_valid = refl

-- Two users with one identifier pass, which the API refuses.
duplicate_user_valid :
    validate bare_platform (config_of (codes "127.0.0.1:1080" ∷ []) 600 (user ∷ user ∷ [])) ≡ ok tt
unfolding validate validate_listen check_listen parse_listen check_server check_auth_rate_limit
    nothing_enabled no_socks_users check_vless_users check_user_ids check_uuid parse_uuid
    without_dashes parse_bytes hex_val validate_xhttp xhttp_mode_of validate_awg validate_hysteria2
    validate_tuic validate_outbound_tls validate_metrics member is_blank octets_eq is_loopback_ip
    addr_eq
duplicate_user_valid = refl

zero_window :
    validate bare_platform (config_of (codes "127.0.0.1:1080" ∷ []) 0 (user ∷ []))
    ≡ err (is_zero (codes "window_secs"))
unfolding validate validate_listen check_listen parse_listen check_server check_auth_rate_limit
    nothing_enabled no_socks_users check_vless_users check_user_ids check_uuid parse_uuid
    without_dashes parse_bytes hex_val validate_xhttp xhttp_mode_of validate_awg validate_hysteria2
    validate_tuic validate_outbound_tls validate_metrics member is_blank octets_eq is_loopback_ip
    addr_eq
zero_window = refl

validate-starts_example :
    ((addrs : List ParsedAddr) × (socket_addrs bare_platform config.server.listen ≡ ok addrs)
      × IsDistinct addrs)
    × (config.transport.xhttp.enabled ≡ true → Returns (xhttp_config config))
    × (config.transport.tls.enabled ≡ true → Returns (tls_server_config config))
    × (config.transport.reality.enabled ≡ true
        → Returns (reality_server_config bare_platform config))
    × (config.transport.awg.enabled ≡ true → Returns (awg_server_config bare_platform config))
    × (config.transport.hysteria2.enabled ≡ true
        → Returns (hysteria2_server_config bare_platform config))
    × (config.transport.tuic.enabled ≡ true → Returns (tuic_server_config bare_platform config))
    × ((builds : TlsClientConfig → Bool) → IsBuilt builds config)
validate-starts_example = validate-starts bare_platform config config_valid

abbrev only_vless : ProtocolConfig
only_vless = record {
  vless = record { enabled = true; users = user ∷ [] };
  socks5 = record {
    enabled = false;
    auth = no_auth;
    users = [];
    bind = false;
    udp_associate = false;
  };
}

user-HasUuid : HasUuid (codes "b831381d-6324-4d53-ad4f-8cda48b30811")
unfolding parse_uuid without_dashes parse_bytes hex_val
user-HasUuid = (_, refl)

here-IsListen : IsListen bare_platform (record { addrs = codes "127.0.0.1:1080" ∷ [] })
unfolding octets_eq
here-IsListen = ((λ p. cc), ((local_addr ∷ []), refl, (tt, tt)))

default_config_passes :
    validate bare_platform
      (default_config (record { addrs = codes "127.0.0.1:1080" ∷ [] }) only_vless)
    ≡ ok tt
default_config_passes =
    default_config-validate bare_platform (record { addrs = codes "127.0.0.1:1080" ∷ [] })
      only_vless here-IsListen refl refl ((λ p. cc), (user-HasUuid, tt))
