-- ===== src/Config/Awg.antt =====
-- The texts that are made of the configuration for the daemons: crates/skadi-transport/src/awg/render.rs
-- (render_server_conf up to the text, which wireguard_conf writes)).
use skadi_core.Prelude.{ℕ, not, List, [], ◌∷◌, Option, none, some, ltb, ◌==◌, if◌then◌else◌}
use skadi_core.Prelude.Bytes.{codes}
use skadi_core.Prelude.Outcome.{Outcome, ok, ◌>>=◌, ◌>>◌, fail_if}
use skadi_core.Config.Common.{
  Platform, ConfigError, is_empty, is_invalid, ParsedAddr, HRange, AwgObfuscationConfig,
  AmneziaSettings, ok_or, is_blank, parse_listen,
}

-- `AwgPeerConfig`
pub record AwgPeerConfig : Type 0 where
  pub public_key : List ℕ
  pub allowed_ips : List (List ℕ)
  pub preshared_key : Option (List ℕ)
  pub endpoint : Option (List ℕ)
  pub persistent_keepalive : Option ℕ

pub record AwgServerConfig : Type 0 where
  pub listen : ParsedAddr
  pub interface_name : List ℕ
  pub private_key : List ℕ
  pub address : List ℕ
  pub mtu : Option ℕ
  pub obfuscation : AwgObfuscationConfig
  pub peers : List AwgPeerConfig

-- `wireguard_conf::Interface`, which the code builds and prints.
pub record Interface : Type 0 where
  pub private_key : List ℕ
  pub address : List ℕ
  pub listen_port : ℕ
  pub amnezia_settings : AmneziaSettings
  pub mtu : Option ℕ
  pub peers : List AwgPeerConfig

-- `text.split_once(c)`
abbrev pub with_first : ℕ → Option (List ℕ × List ℕ) → Option (List ℕ × List ℕ)
with_first x none = none
with_first x (some (lo, hi)) = some (x ∷ lo, hi)

unfoldable pub split_once : ℕ → List ℕ → Option (List ℕ × List ℕ)
split_once c [] = none
split_once c (x ∷ xs) =
    let rest = split_once c xs in if x == c then some ([], xs) else with_first x rest

abbrev pub settings_of : AwgObfuscationConfig → HRange → HRange → HRange → HRange → AmneziaSettings
settings_of obf h1 h2 h3 h4 = record { obfuscation = obf; h1 = h1; h2 = h2; h3 = h3; h4 = h4 }

module _ (platform : Platform) where
  unfoldable pub parse_bounds : List ℕ → List ℕ → List ℕ → Outcome ConfigError HRange
  parse_bounds field lo hi = do
    least ← ok_or (platform.parse_u32 (platform.trim lo)) (is_invalid field)
    most ← ok_or (platform.parse_u32 (platform.trim hi)) (is_invalid field)
    fail_if (ltb most least) (is_invalid field)
    ok (record { min = least; max = most })

  unfoldable pub parse_single : List ℕ → List ℕ → Outcome ConfigError HRange
  parse_single field trimmed = do
    single ← ok_or (platform.parse_u32 trimmed) (is_invalid field)
    ok (record { min = single; max = single })

  unfoldable pub parse_range :
      List ℕ → List ℕ → Option (List ℕ × List ℕ) → Outcome ConfigError HRange
  parse_range field trimmed none = parse_single field trimmed
  parse_range field trimmed (some (lo, hi)) = parse_bounds field lo hi

  unfoldable pub parse_h_range : List ℕ → List ℕ → Outcome ConfigError HRange
  parse_h_range value field = do
    fail_if (is_blank platform value) (is_empty field)
    parse_range field (platform.trim value) (split_once b'-' (platform.trim value))

  unfoldable pub parse_ipnet : List ℕ → List ℕ → Outcome ConfigError (List ℕ)
  parse_ipnet value field = ok_or (platform.ip_net value) (is_invalid field)

  unfoldable pub parse_ipnets : List (List ℕ) → List ℕ → Outcome ConfigError (List (List ℕ))
  parse_ipnets [] field = ok []
  parse_ipnets (value ∷ values) field = do
    net ← parse_ipnet value field
    nets ← parse_ipnets values field
    ok (net ∷ nets)

  unfoldable pub build_preshared_key : Option (List ℕ) → Outcome ConfigError (Option (List ℕ))
  build_preshared_key none = ok none
  build_preshared_key (some psk) = do
    key ← ok_or (platform.preshared_key psk) (is_invalid (codes "preshared_key"))
    ok (some key)

  unfoldable pub build_endpoint : Option (List ℕ) → Outcome ConfigError (Option (List ℕ))
  build_endpoint none = ok none
  build_endpoint (some endpoint) = do
    addr ← parse_listen platform endpoint (codes "endpoint")
    ok (some (platform.display_addr addr))

  unfoldable pub build_peer : AwgPeerConfig → Outcome ConfigError AwgPeerConfig
  build_peer peer = do
    public_key ← ok_or (platform.public_key peer.public_key) (is_invalid (codes "public_key"))
    allowed_ips ← parse_ipnets peer.allowed_ips (codes "allowed_ips")
    preshared_key ← build_preshared_key peer.preshared_key
    endpoint ← build_endpoint peer.endpoint
    ok (record {
      public_key = public_key;
      allowed_ips = allowed_ips;
      preshared_key = preshared_key;
      endpoint = endpoint;
      persistent_keepalive = peer.persistent_keepalive;
    })

  unfoldable pub build_peers : List AwgPeerConfig → Outcome ConfigError (List AwgPeerConfig)
  build_peers [] = ok []
  build_peers (peer ∷ peers) = do
    built ← build_peer peer
    rest ← build_peers peers
    ok (built ∷ rest)

  -- `build` and `validate` of the settings.
  unfoldable pub checked_settings : AmneziaSettings → Outcome ConfigError AmneziaSettings
  checked_settings settings = do
    fail_if (not (platform.settings_build settings)) (is_invalid (codes "obfuscation"))
    fail_if (not (platform.settings_validate settings)) (is_invalid (codes "obfuscation"))
    ok settings

  unfoldable pub build_amnezia_settings : AwgObfuscationConfig → Outcome ConfigError AmneziaSettings
  build_amnezia_settings obf = do
    h1 ← parse_h_range obf.h1 (codes "h1")
    h2 ← parse_h_range obf.h2 (codes "h2")
    h3 ← parse_h_range obf.h3 (codes "h3")
    h4 ← parse_h_range obf.h4 (codes "h4")
    checked_settings (settings_of obf h1 h2 h3 h4)

  unfoldable pub render_server_conf : AwgServerConfig → Outcome ConfigError Interface
  render_server_conf config = do
    private_key ← ok_or (platform.private_key config.private_key) (is_invalid (codes "private_key"))
    address ← parse_ipnet config.address (codes "address")
    awg ← build_amnezia_settings config.obfuscation
    peers ← build_peers config.peers
    ok (record {
      private_key = private_key;
      address = address;
      listen_port = config.listen.port;
      amnezia_settings = awg;
      mtu = config.mtu;
      peers = peers;
    })
