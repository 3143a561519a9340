-- ===== src/Config.antt =====
-- crates/skadi-config/src/lib.rs: the configuration file of the server as serde reads it.
pub mod Common
pub mod Runtime
pub mod Backends
pub mod Awg
pub mod Texts
pub mod Hysteria2
pub mod Tuic
pub mod Checks
pub mod Validate
pub mod Accepts
pub mod Distinct
pub mod Spec
pub mod Parts
pub mod Sections
pub mod Certificates
pub mod Daemons
pub mod AmneziaWg
pub mod Reality
pub mod Correct
pub mod Defaults
pub mod Fresh
pub mod Startup
pub mod Outbound
mod Tests
use skadi_core.Prelude.{ℕ, Bool, List, Option}
use skadi_core.Server.AuthRateLimit.{AuthRateLimitConfig}
use skadi_core.Server.Store.{ProtocolConfig}

-- The addresses to listen at, as texts.
pub record ListenAddrs : Type 0 where
  pub addrs : List (List ℕ)

pub record ServerTimeoutsConfig : Type 0 where
  pub connect_timeout_secs : ℕ
  pub idle_timeout_secs : Option ℕ
  pub max_session_lifetime_secs : Option ℕ

pub record ServerConfig : Type 0 where
  pub listen : ListenAddrs
  pub timeouts : ServerTimeoutsConfig
  pub max_connections : Option ℕ
  pub auth_rate_limit : AuthRateLimitConfig

pub record MetricsConfig : Type 0 where
  pub enabled : Bool
  pub listen : List ℕ

pub record ApiTlsConfig : Type 0 where
  pub enabled : Bool
  pub cert : Option (List ℕ)
  pub key : Option (List ℕ)

pub record ApiConfig : Type 0 where
  pub enabled : Bool
  pub listen : List ℕ
  pub token : Option (List ℕ)
  pub tls : ApiTlsConfig
  pub rate_limit_per_sec : Option ℕ
  pub audit_log : Bool

pub record OutboundTlsConfig : Type 0 where
  pub enabled : Bool
  pub ca_file : Option (List ℕ)
  pub cert : Option (List ℕ)
  pub key : Option (List ℕ)
  pub kex_mode : List ℕ

pub record OutboundConfig : Type 0 where
  pub tls : OutboundTlsConfig
  pub allow_private : Bool

pub record TlsSniCertConfig : Type 0 where
  pub server_names : List (List ℕ)
  pub cert : List ℕ
  pub key : List ℕ

pub record TlsConfig : Type 0 where
  pub enabled : Bool
  pub cert : Option (List ℕ)
  pub key : Option (List ℕ)
  pub alpn : List (List ℕ)
  pub certificates : List TlsSniCertConfig
  pub kex_mode : List ℕ

pub record RealityConfig : Type 0 where
  pub enabled : Bool
  pub dest : Option (List ℕ)
  pub server_names : List (List ℕ)
  pub private_key : Option (List ℕ)
  pub short_ids : List (List ℕ)
  pub impersonate_cert : Option (List ℕ)
  pub fetch_impersonate_cert : Bool
  pub kex_mode : List ℕ

pub record XhttpFileConfig : Type 0 where
  pub enabled : Bool
  pub path : List ℕ
  pub host : Option (List ℕ)
  pub mode : List ℕ
  pub no_sse_header : Bool
  pub x_padding_bytes : Option (ℕ × ℕ)

pub record AwgNatFileConfig : Type 0 where
  pub enabled : Bool
  pub egress_interface : Option (List ℕ)
  pub subnet : List ℕ

pub record AwgPeerFileConfig : Type 0 where
  pub public_key : List ℕ
  pub allowed_ips : List (List ℕ)
  pub preshared_key : Option (List ℕ)
  pub endpoint : Option (List ℕ)
  pub persistent_keepalive : Option ℕ

pub record AwgFileConfig : Type 0 where
  pub enabled : Bool
  pub listen : List ℕ
  pub interface : List ℕ
  pub private_key : Option (List ℕ)
  pub address : List ℕ
  pub mtu : Option ℕ
  pub jc : ℕ
  pub jmin : ℕ
  pub jmax : ℕ
  pub s1 : ℕ
  pub s2 : ℕ
  pub s3 : ℕ
  pub s4 : ℕ
  pub h1 : List ℕ
  pub h2 : List ℕ
  pub h3 : List ℕ
  pub h4 : List ℕ
  pub peers : List AwgPeerFileConfig
  pub nat : AwgNatFileConfig

pub record Hysteria2FileConfig : Type 0 where
  pub enabled : Bool
  pub listen : List ℕ
  pub password : Option (List ℕ)
  pub cert : Option (List ℕ)
  pub key : Option (List ℕ)
  pub masquerade_url : Option (List ℕ)

pub record TuicFileConfig : Type 0 where
  pub enabled : Bool
  pub listen : List ℕ
  pub uuid : Option (List ℕ)
  pub password : Option (List ℕ)
  pub certificate : Option (List ℕ)
  pub private_key : Option (List ℕ)
  pub congestion_control : List ℕ
  pub alpn : List (List ℕ)

pub record TransportConfig : Type 0 where
  pub tls : TlsConfig
  pub reality : RealityConfig
  pub xhttp : XhttpFileConfig
  pub awg : AwgFileConfig
  pub hysteria2 : Hysteria2FileConfig
  pub tuic : TuicFileConfig

pub record Config : Type 0 where
  pub server : ServerConfig
  pub protocol : ProtocolConfig
  pub transport : TransportConfig
  pub api : ApiConfig
  pub metrics : MetricsConfig
  pub outbound : OutboundConfig
