-- ===== src/Config/Runtime.antt =====
-- crates/skadi-config/src/lib.rs: what the server builds from its configuration when it starts. A
-- duration is a number of seconds.
use skadi_core.Prelude.{
  ℕ, ◌&&◌, Bool, true, false, List, [], ◌∷◌, ◌++◌, Option, none, some, leb, ltb, if◌then◌else◌,
}
use skadi_core.Prelude.Bytes.{codes}
use skadi_core.Prelude.Outcome.{Outcome, ok, err, panic, ◌>>=◌, ◌>>◌, fail_if}
use skadi_core.Protocol.{EnabledProtocols}
use skadi_core.Config.{Config, ListenAddrs, AwgFileConfig, AwgPeerFileConfig, TlsSniCertConfig}
use skadi_core.Config.Common.{
  Platform, ConfigError, missing, is_empty, is_invalid, ParsedAddr, AwgObfuscationConfig,
  TlsKexMode, parse_tls_kex_mode, XhttpMode, xhttp_mode_of, ok_or, is_nil, is_blank, required,
  parse_listen,
}
use skadi_core.Config.Awg.{AwgPeerConfig, AwgServerConfig}
use skadi_core.Config.Hysteria2.{Hysteria2ServerConfig}

pub record PaddingRange : Type 0 where
  pub min : ℕ
  pub max : ℕ

pub record XhttpConfig : Type 0 where
  pub path : List ℕ
  pub host : Option (List ℕ)
  pub mode : XhttpMode
  pub padding : PaddingRange
  pub no_sse_header : Bool

pub record TlsCertPaths : Type 0 where
  pub cert_path : List ℕ
  pub key_path : List ℕ

pub record TlsSniCert : Type 0 where
  pub server_names : List (List ℕ)
  pub cert_path : List ℕ
  pub key_path : List ℕ

pub record TlsServerConfig : Type 0 where
  pub default : Option TlsCertPaths
  pub sni_certs : List TlsSniCert
  pub alpn : List (List ℕ)
  pub kex_mode : TlsKexMode

pub record RealityServerConfig : Type 0 where
  pub private_key : List ℕ
  pub dest : List ℕ
  pub server_names : List (List ℕ)
  pub short_ids : List (List ℕ)
  pub impersonate_cert : Option (List ℕ)
  pub connect_timeout : ℕ
  pub idle_timeout : Option ℕ
  pub max_session_lifetime : Option ℕ
  pub kex_mode : TlsKexMode

-- `value.filter(|&n| n > 0)`
abbrev pub filter_positive : Option ℕ → Option ℕ
filter_positive none = none
filter_positive (some n) = if ltb 0 n then some n else none

pub connect_timeout : Config → ℕ
connect_timeout config = config.server.timeouts.connect_timeout_secs

pub idle_timeout : Config → Option ℕ
idle_timeout config = filter_positive config.server.timeouts.idle_timeout_secs

pub max_session_lifetime : Config → Option ℕ
max_session_lifetime config = filter_positive config.server.timeouts.max_session_lifetime_secs

unfoldable pub max_connections : Config → Option ℕ
max_connections config = filter_positive config.server.max_connections

unfoldable pub enabled_protocols : Config → EnabledProtocols
enabled_protocols config = record {
  has_socks5 = config.protocol.socks5.enabled;
  has_vless = config.protocol.vless.enabled;
}

unfoldable pub padding_of : Option (ℕ × ℕ) → Outcome ConfigError PaddingRange
padding_of none = ok (record { min = 100; max = 1000 })
padding_of (some (least, most)) =
    if leb least most
    then ok (record { min = least; max = most })
    else err (is_invalid (codes "transport.xhttp.x_padding_bytes"))

unfoldable pub xhttp_config : Config → Outcome ConfigError XhttpConfig
xhttp_config config = do
  let xhttp = config.transport.xhttp
  mode ← ok_or (xhttp_mode_of xhttp.mode) (is_invalid (codes "transport.xhttp.mode"))
  padding ← padding_of xhttp.x_padding_bytes
  ok (record {
    path = xhttp.path;
    host = xhttp.host;
    mode = mode;
    padding = padding;
    no_sse_header = xhttp.no_sse_header;
  })

unfoldable pub default_cert :
    Option (List ℕ) → Option (List ℕ) → Outcome ConfigError (Option TlsCertPaths)
default_cert (some cert) (some key) = ok (some (record { cert_path = cert; key_path = key }))
default_cert none none = ok none
default_cert _ _ = err (missing (codes "transport.tls.cert"))

unfoldable pub sni_certs : List TlsSniCertConfig → List TlsSniCert
sni_certs [] = []
sni_certs (entry ∷ entries) =
    record { server_names = entry.server_names; cert_path = entry.cert; key_path = entry.key }
    ∷ sni_certs entries

abbrev pub no_cert : Option TlsCertPaths → Bool
no_cert none = true
no_cert (some paths) = false

unfoldable pub tls_server_config : Config → Outcome ConfigError TlsServerConfig
tls_server_config config = do
  let tls = config.transport.tls
  default ← default_cert tls.cert tls.key
  let certs = sni_certs tls.certificates
  fail_if (no_cert default && is_nil certs) (missing (codes "transport.tls.certificates"))
  kex_mode ← parse_tls_kex_mode tls.kex_mode (codes "transport.tls.kex_mode")
  ok (record { default = default; sni_certs = certs; alpn = tls.alpn; kex_mode = kex_mode })

-- `Option::unwrap`
abbrev pub unwrap : {A : Type 0} → Option A → Outcome ConfigError A
unwrap none = panic
unwrap (some a) = ok a

module _ (platform : Platform) where
  -- `socket_addrs` of `ListenAddrs`
  unfoldable pub socket_addrs_of : List (List ℕ) → Outcome ConfigError (List ParsedAddr)
  socket_addrs_of [] = ok []
  socket_addrs_of (text ∷ texts) = do
    addr ← parse_listen platform text (codes "server.listen")
    rest ← socket_addrs_of texts
    ok (addr ∷ rest)

  unfoldable pub socket_addrs : ListenAddrs → Outcome ConfigError (List ParsedAddr)
  socket_addrs listen = socket_addrs_of listen.addrs

  unfoldable pub awg_peers : List AwgPeerFileConfig → Outcome ConfigError (List AwgPeerConfig)
  awg_peers [] = ok []
  awg_peers (peer ∷ peers) = do
    fail_if (is_blank platform peer.public_key)
        (is_empty (codes "transport.awg.peers[].public_key"))
    fail_if (is_nil peer.allowed_ips) (is_empty (codes "transport.awg.peers[].allowed_ips"))
    rest ← awg_peers peers
    ok (
        record {
          public_key = peer.public_key;
          allowed_ips = peer.allowed_ips;
          preshared_key = peer.preshared_key;
          endpoint = peer.endpoint;
          persistent_keepalive = peer.persistent_keepalive;
        }
        ∷ rest)

  abbrev pub obfuscation_of : AwgFileConfig → AwgObfuscationConfig
  obfuscation_of awg = record {
    jc = awg.jc;
    jmin = awg.jmin;
    jmax = awg.jmax;
    s1 = awg.s1;
    s2 = awg.s2;
    s3 = awg.s3;
    s4 = awg.s4;
    h1 = awg.h1;
    h2 = awg.h2;
    h3 = awg.h3;
    h4 = awg.h4;
  }

  unfoldable pub awg_server_config : Config → Outcome ConfigError AwgServerConfig
  awg_server_config config = do
    let awg = config.transport.awg
    listen ← parse_listen platform awg.listen (codes "transport.awg.listen")
    private_key ← required platform awg.private_key (codes "transport.awg.private_key")
    fail_if (is_blank platform awg.interface) (is_empty (codes "transport.awg.interface"))
    fail_if (is_nil awg.peers) (is_empty (codes "transport.awg.peers"))
    peers ← awg_peers awg.peers
    ok (record {
      listen = listen;
      interface_name = awg.interface;
      private_key = private_key;
      address = awg.address;
      mtu = awg.mtu;
      obfuscation = obfuscation_of awg;
      peers = peers;
    })

  -- `.parse().or_else(|_| format!("0.0.0.0{}", ..).parse())`
  unfoldable pub hysteria2_listen : List ℕ → Option ParsedAddr → Outcome ConfigError ParsedAddr
  hysteria2_listen text (some addr) = ok addr
  hysteria2_listen text none =
      parse_listen platform (codes "0.0.0.0" ++ text) (codes "transport.hysteria2.listen")

  unfoldable pub hysteria2_server_config : Config → Outcome ConfigError Hysteria2ServerConfig
  hysteria2_server_config config = do
    let hy2 = config.transport.hysteria2
    listen ← hysteria2_listen hy2.listen (platform.parse_addr hy2.listen)
    password ← required platform hy2.password (codes "transport.hysteria2.password")
    cert ← required platform hy2.cert (codes "transport.hysteria2.cert")
    key ← required platform hy2.key (codes "transport.hysteria2.key")
    ok (record {
      listen = listen;
      password = password;
      cert_path = cert;
      key_path = key;
      masquerade_url = hy2.masquerade_url;
    })
