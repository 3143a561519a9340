-- ===== src/Config/Defaults.antt =====
-- crates/skadi-config/src/lib.rs: the values that the settings have where the file says nothing.
use skadi_core.Prelude.{ℕ, true, false, List, [], ◌∷◌, none, some}
use skadi_core.Prelude.Bytes.{codes}
use skadi_core.Server.AuthRateLimit.{AuthRateLimitConfig}
use skadi_core.Server.Store.{ProtocolConfig}
use skadi_core.Config.{
  Config, ListenAddrs, ServerTimeoutsConfig, ServerConfig, MetricsConfig, ApiTlsConfig, ApiConfig,
  OutboundTlsConfig, OutboundConfig, TlsConfig, RealityConfig, XhttpFileConfig, AwgNatFileConfig,
  AwgFileConfig, Hysteria2FileConfig, TuicFileConfig, TransportConfig,
}

unfoldable pub single : List ℕ → ListenAddrs
single addr = record { addrs = addr ∷ [] }

unfoldable pub default_listen : ListenAddrs
default_listen = record { addrs = codes "127.0.0.1:0" ∷ [] }

unfoldable pub default_metrics : MetricsConfig
default_metrics = record { enabled = false; listen = codes "127.0.0.1:9090" }

unfoldable pub default_api_tls : ApiTlsConfig
default_api_tls = record { enabled = false; cert = none; key = none }

unfoldable pub default_api : ApiConfig
default_api = record {
  enabled = false;
  listen = codes "127.0.0.1:10085";
  token = none;
  tls = record { enabled = false; cert = none; key = none };
  rate_limit_per_sec = none;
  audit_log = true;
}

unfoldable pub default_auth_rate_limit : AuthRateLimitConfig
default_auth_rate_limit = record {
  enabled = true;
  max_failures = some 10;
  window_secs = 600;
  ban_base_secs = 60;
  ban_max_secs = 3600;
}

unfoldable pub default_timeouts : ServerTimeoutsConfig
default_timeouts = record {
  connect_timeout_secs = 10;
  idle_timeout_secs = none;
  max_session_lifetime_secs = none;
}

unfoldable pub default_server : ServerConfig
unfolding default_listen default_timeouts default_auth_rate_limit
default_server = record {
  listen = default_listen;
  timeouts = default_timeouts;
  max_connections = none;
  auth_rate_limit = default_auth_rate_limit;
}

-- `ServerConfig::with_listen`
unfoldable pub with_listen : ListenAddrs → ServerConfig
unfolding default_timeouts default_auth_rate_limit
with_listen listen = record {
  listen = listen;
  timeouts = default_timeouts;
  max_connections = none;
  auth_rate_limit = default_auth_rate_limit;
}

unfoldable pub default_kex_mode : List ℕ
default_kex_mode = codes "classic"

unfoldable pub default_outbound_tls : OutboundTlsConfig
unfolding default_kex_mode
default_outbound_tls = record {
  enabled = false;
  ca_file = none;
  cert = none;
  key = none;
  kex_mode = default_kex_mode;
}

unfoldable pub default_outbound : OutboundConfig
unfolding default_outbound_tls
default_outbound = record { tls = default_outbound_tls; allow_private = false }

unfoldable pub default_tls : TlsConfig
unfolding default_kex_mode
default_tls = record {
  enabled = false;
  cert = none;
  key = none;
  alpn = [];
  certificates = [];
  kex_mode = default_kex_mode;
}

unfoldable pub default_reality : RealityConfig
unfolding default_kex_mode
default_reality = record {
  enabled = false;
  dest = none;
  server_names = [];
  private_key = none;
  short_ids = [];
  impersonate_cert = none;
  fetch_impersonate_cert = true;
  kex_mode = default_kex_mode;
}

unfoldable pub default_xhttp : XhttpFileConfig
default_xhttp = record {
  enabled = false;
  path = codes "/xhttp";
  host = none;
  mode = codes "auto";
  no_sse_header = false;
  x_padding_bytes = none;
}

-- `#[derive(Default)]` leaves `subnet` empty; `default_awg_nat_subnet` is for a table `nat` without one.
unfoldable pub default_awg_nat : AwgNatFileConfig
default_awg_nat = record { enabled = false; egress_interface = none; subnet = [] }

unfoldable pub default_awg : AwgFileConfig
unfolding default_awg_nat
default_awg = record {
  enabled = false;
  listen = codes "0.0.0.0:51820";
  interface = codes "skadiwg0";
  private_key = none;
  address = codes "10.8.0.1/24";
  mtu = some 1420;
  jc = 8;
  jmin = 64;
  jmax = 1024;
  s1 = 32;
  s2 = 32;
  s3 = 16;
  s4 = 16;
  h1 = codes "1-10000000";
  h2 = codes "10000001-20000000";
  h3 = codes "20000001-30000000";
  h4 = codes "30000001-40000000";
  peers = [];
  nat = default_awg_nat;
}

unfoldable pub default_hysteria2 : Hysteria2FileConfig
default_hysteria2 = record {
  enabled = false;
  listen = codes ":443";
  password = none;
  cert = none;
  key = none;
  masquerade_url = none;
}

unfoldable pub default_tuic : TuicFileConfig
default_tuic = record {
  enabled = false;
  listen = codes "0.0.0.0:8443";
  uuid = none;
  password = none;
  certificate = none;
  private_key = none;
  congestion_control = codes "bbr";
  alpn = codes "h3" ∷ [];
}

unfoldable pub default_transport : TransportConfig
unfolding default_tls default_reality default_xhttp default_awg default_hysteria2 default_tuic
default_transport = record {
  tls = default_tls;
  reality = default_reality;
  xhttp = default_xhttp;
  awg = default_awg;
  hysteria2 = default_hysteria2;
  tuic = default_tuic;
}

-- What serde makes of a file that sets `server.listen` and the section `protocol`, and nothing else.
unfoldable pub default_config : ListenAddrs → ProtocolConfig → Config
unfolding with_listen default_transport default_api default_metrics default_outbound
default_config listen protocol = record {
  server = with_listen listen;
  protocol = protocol;
  transport = default_transport;
  api = default_api;
  metrics = default_metrics;
  outbound = default_outbound;
}
