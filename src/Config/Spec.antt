-- ===== src/Config/Spec.antt =====
-- What a valid configuration is, stated without the order of the checks of crates/skadi-config/src/lib.rs.
use skadi_core.Prelude.{
  ℕ, ◌≡◌, ◌≢◌, ◌<◌, ◌≤◌, ◌⊎◌, Bool, true, false, ◌||◌, List, [], ◌∷◌, ◌++◌, map, Option, none, some,
  All, length,
}
use skadi_core.Prelude.Bytes.{codes}
use skadi_core.Prelude.Outcome.{ok}
use skadi_core.Socks5.Negotiate.{user_pass}
use skadi_core.Vless.Users.{VlessUser, parse_uuid}
use skadi_core.Server.AuthRateLimit.{AuthRateLimitConfig}
use skadi_core.Config.{
  Config, ListenAddrs, ServerConfig, TlsConfig, TlsSniCertConfig, OutboundTlsConfig, ApiConfig,
  ApiTlsConfig, RealityConfig, XhttpFileConfig, AwgFileConfig, AwgPeerFileConfig,
  Hysteria2FileConfig, TuicFileConfig,
}
use skadi_core.Config.Common.{
  Platform, ParsedAddr, TlsKexMode, kex_mode_of, XhttpMode, xhttp_mode_of, contains, is_blank,
  HRange, AwgObfuscationConfig, is_loopback_ip,
}
use skadi_core.Config.Runtime.{awg_server_config}
use skadi_core.Config.Backends.{is_pem, has_prefix}
use skadi_core.Config.Checks.{normalized, awg_uses_placeholder_keys}
use skadi_core.Config.Awg.{AwgServerConfig, AwgPeerConfig, settings_of, split_once}
use skadi_core.Config.Distinct.{IsDistinct}

abbrev pub IsPositive : Option ℕ → Type 0
IsPositive none = Unit {0}
IsPositive (some n) = 0 < n

abbrev pub IsGiven : {A : Type 0} → Option A → Type 0
IsGiven {A} x = (a : A) × (x ≡ some a)

abbrev pub HasKexMode : List ℕ → Type 0
HasKexMode value = (mode : TlsKexMode) × (kex_mode_of value ≡ some mode)

abbrev pub HasUuid : List ℕ → Type 0
HasUuid text = (uuid : List ℕ) × (parse_uuid text ≡ ok uuid)

-- The limits of the section `server`.
abbrev pub HasBanLimits : AuthRateLimitConfig → Type 0
HasBanLimits limit =
    IsPositive limit.max_failures
    × (0 < limit.window_secs)
    × (0 < limit.ban_base_secs)
    × (0 < limit.ban_max_secs)

abbrev pub HasLimits : ServerConfig → Type 0
HasLimits server =
    (0 < server.timeouts.connect_timeout_secs)
    × IsPositive server.timeouts.idle_timeout_secs
    × IsPositive server.max_connections
    × (server.auth_rate_limit.enabled ≡ true → HasBanLimits server.auth_rate_limit)
    × IsPositive server.timeouts.max_session_lifetime_secs

-- One of the protocols or of the daemons is on.
abbrev pub HasService : Config → Type 0
HasService config =
    (config.protocol.socks5.enabled ≡ true)
    ⊎ (config.protocol.vless.enabled ≡ true)
    ⊎ (config.transport.awg.enabled ≡ true)
    ⊎ (config.transport.hysteria2.enabled ≡ true)
    ⊎ (config.transport.tuic.enabled ≡ true)

abbrev pub HasSocksUsers : Config → Type 0
HasSocksUsers config =
    config.protocol.socks5.enabled ≡ true
    → config.protocol.socks5.auth ≡ user_pass
    → config.protocol.socks5.users ≢ []

abbrev pub HasVlessUsers : List VlessUser → Type 0
HasVlessUsers users = (users ≢ []) × All (λ user. HasUuid user.id) users

abbrev pub IsOrdered : Option (ℕ × ℕ) → Type 0
IsOrdered none = Unit {0}
IsOrdered (some (least, most)) = least ≤ most

module _ (platform : Platform) where
  abbrev pub IsText : List ℕ → Type 0
  IsText text = is_blank platform text ≡ false

  abbrev pub IsReadable : List ℕ → Type 0
  IsReadable path = (platform.is_file path ≡ true) × (platform.can_open path ≡ true)

  abbrev pub IsReadableIfSet : Option (List ℕ) → Type 0
  IsReadableIfSet none = Unit {0}
  IsReadableIfSet (some path) = IsReadable path

  -- The setting is there and more than blanks.
  abbrev pub HasText : Option (List ℕ) → Type 0
  HasText value = (text : List ℕ) × (value ≡ some text) × IsText text

  -- The texts are addresses, and these differ.
  abbrev pub HasAddresses : List (List ℕ) → Type 0
  HasAddresses texts =
      (addrs : List ParsedAddr) × (map (λ text. platform.parse_addr text) texts ≡ map some addrs)
      × IsDistinct addrs

  abbrev pub IsListen : ListenAddrs → Type 0
  IsListen listen = (listen.addrs ≢ []) × HasAddresses listen.addrs

  abbrev pub IsLocal : List ℕ → Type 0
  IsLocal text =
      (addr : ParsedAddr) × (platform.parse_addr text ≡ some addr) × (is_loopback_ip addr.ip ≡ true)

  abbrev pub HasApiTls : ApiTlsConfig → Bool → Type 0
  HasApiTls tls true =
      (cert : List ℕ) × (tls.cert ≡ some cert)
      × ((key : List ℕ) × (tls.key ≡ some key) × (IsReadable cert × IsReadable key))
  HasApiTls tls false = (tls.cert ≡ none) × (tls.key ≡ none)

  abbrev pub IsApi : ApiConfig → Type 0
  IsApi api =
      IsLocal api.listen
      × HasText api.token
      × HasApiTls api.tls api.tls.enabled
      × IsPositive api.rate_limit_per_sec

  -- The names of all certificates, as they are compared.
  abbrev pub names_of : List TlsSniCertConfig → List (List ℕ)
  names_of [] = []
  names_of (entry ∷ entries) =
      map (λ name. normalized platform name) entry.server_names ++ names_of entries

  abbrev pub IsCertificate : TlsSniCertConfig → Type 0
  IsCertificate entry = (entry.server_names ≢ []) × IsReadable entry.cert × IsReadable entry.key

  -- The certificate for unknown names has its key, or there is none and others are there.
  abbrev pub HasCertificates : TlsConfig → Type 0
  HasCertificates tls =
      ((cert : List ℕ) × (tls.cert ≡ some cert) × IsGiven tls.key)
      ⊎ ((tls.cert ≡ none) × (tls.key ≡ none) × (tls.certificates ≢ []))

  abbrev pub IsTls : TlsConfig → Type 0
  IsTls tls =
      HasCertificates tls
      × IsReadableIfSet tls.cert
      × IsReadableIfSet tls.key
      × HasKexMode tls.kex_mode
      × All IsCertificate tls.certificates
      × All (λ name. name ≢ []) (names_of tls.certificates)
      × IsDistinct (names_of tls.certificates)

  abbrev pub HasClientCert : Option (List ℕ) → Option (List ℕ) → Type 0
  HasClientCert (some cert) (some key) = IsReadable cert × IsReadable key
  HasClientCert none none = Unit {0}
  HasClientCert _ _ = ⊥

  abbrev pub IsOutboundTls : OutboundTlsConfig → Type 0
  IsOutboundTls tls =
      HasClientCert tls.cert tls.key × IsReadableIfSet tls.ca_file × HasKexMode tls.kex_mode

  abbrev pub IsXhttp : XhttpFileConfig → Type 0
  IsXhttp xhttp =
      IsText xhttp.path
      × ((mode : XhttpMode) × (xhttp_mode_of xhttp.mode ≡ some mode))
      × IsOrdered xhttp.x_padding_bytes

  abbrev pub IsKey32 : List ℕ → Type 0
  IsKey32 text =
      (key : List ℕ) × (platform.base64_decode (platform.trim text) ≡ some key) × (length key ≡ 32)

  abbrev pub IsShortId : List ℕ → Type 0
  IsShortId text =
      (bytes : List ℕ) × (platform.hex_decode text ≡ some bytes)
      × (0 < length bytes)
      × (length bytes ≤ 8)

  abbrev pub IsDest : List ℕ → Type 0
  IsDest dest = IsText dest × (contains b':' dest ≡ true)

  abbrev pub IsReality : RealityConfig → Type 0
  IsReality reality =
      ((dest : List ℕ) × (reality.dest ≡ some dest) × IsDest dest)
      × (reality.server_names ≢ [])
      × ((key : List ℕ) × (reality.private_key ≡ some key) × IsKey32 key)
      × (reality.short_ids ≢ [])
      × All IsShortId reality.short_ids
      × HasKexMode reality.kex_mode

  -- A file of PEM holds a certificate, another one holds something.
  abbrev pub HoldsCert : List ℕ → Bool → Type 0
  HoldsCert bytes true =
      (certs : List (List ℕ)) × (platform.pem_certs bytes ≡ some certs) × (certs ≢ [])
  HoldsCert bytes false = bytes ≢ []

  abbrev pub HasImpersonateCert : Option (List ℕ) → Type 0
  HasImpersonateCert none = Unit {0}
  HasImpersonateCert (some path) =
      (bytes : List ℕ) × (platform.read_file path ≡ some bytes)
      × HoldsCert bytes (is_pem (platform.extension path) || has_prefix (codes "-----BEGIN") bytes)

  -- The daemons.
  abbrev pub IsAddress : List ℕ → Type 0
  IsAddress text = IsGiven (platform.parse_addr text)

  abbrev pub IsPeer : AwgPeerFileConfig → Type 0
  IsPeer peer = IsText peer.public_key × (peer.allowed_ips ≢ [])

  abbrev pub IsAwgFile : AwgFileConfig → Type 0
  IsAwgFile awg =
      IsAddress awg.listen
      × HasText awg.private_key
      × IsText awg.interface
      × (awg.peers ≢ [])
      × All IsPeer awg.peers

  -- A number, or two of them about a dash, of which the first is not above the second.
  abbrev pub IsRangeIn : Option (List ℕ × List ℕ) → List ℕ → HRange → Type 0
  IsRangeIn none text h =
      (n : ℕ) × (platform.parse_u32 text ≡ some n) × (record { min = n; max = n } ≡ h)
  IsRangeIn (some (lo, hi)) text h =
      (least : ℕ) × (most : ℕ) × (platform.parse_u32 (platform.trim lo) ≡ some least)
      × (platform.parse_u32 (platform.trim hi) ≡ some most)
      × (least ≤ most)
      × (record { min = least; max = most } ≡ h)

  abbrev pub IsRange : List ℕ → HRange → Type 0
  IsRange text h =
      IsText text × IsRangeIn (split_once b'-' (platform.trim text)) (platform.trim text) h

  -- The four ranges make settings that AmneziaWG takes.
  abbrev pub HasSettings : AwgObfuscationConfig → Type 0
  HasSettings obf =
      (h1 : HRange) × (h2 : HRange) × (h3 : HRange) × (h4 : HRange) × IsRange obf.h1 h1
      × IsRange obf.h2 h2
      × IsRange obf.h3 h3
      × IsRange obf.h4 h4
      × (platform.settings_build (settings_of obf h1 h2 h3 h4) ≡ true)
      × (platform.settings_validate (settings_of obf h1 h2 h3 h4) ≡ true)

  abbrev pub IsPresharedKey : Option (List ℕ) → Type 0
  IsPresharedKey none = Unit {0}
  IsPresharedKey (some key) = IsGiven (platform.preshared_key key)

  abbrev pub IsAddressIfSet : Option (List ℕ) → Type 0
  IsAddressIfSet none = Unit {0}
  IsAddressIfSet (some text) = IsAddress text

  abbrev pub IsWirePeer : AwgPeerConfig → Type 0
  IsWirePeer peer =
      IsGiven (platform.public_key peer.public_key)
      × All (λ net. IsGiven (platform.ip_net net)) peer.allowed_ips
      × IsPresharedKey peer.preshared_key
      × IsAddressIfSet peer.endpoint

  abbrev pub IsWire : AwgServerConfig → Type 0
  IsWire runtime =
      IsGiven (platform.private_key runtime.private_key)
      × IsGiven (platform.ip_net runtime.address)
      × HasSettings runtime.obfuscation
      × All IsWirePeer runtime.peers

  -- The settings are there; and what the server makes of them has keys, networks and ranges that the
  -- daemon takes, unless a key is a placeholder.
  abbrev pub IsAwg : Config → Type 0
  IsAwg config =
      IsAwgFile config.transport.awg
      × ((runtime : AwgServerConfig)
          → awg_server_config platform config ≡ ok runtime
          → awg_uses_placeholder_keys platform runtime ≡ false
          → IsWire runtime)

  -- An address, or a port behind a colon.
  abbrev pub IsHysteria2 : Hysteria2FileConfig → Type 0
  IsHysteria2 hy2 =
      (IsAddress hy2.listen ⊎ IsAddress (codes "0.0.0.0" ++ hy2.listen))
      × HasText hy2.password
      × HasText hy2.cert
      × HasText hy2.key

  abbrev pub HasUuidText : Option (List ℕ) → Type 0
  HasUuidText value = (text : List ℕ) × (value ≡ some text) × (IsText text × HasUuid text)

  abbrev pub IsTuic : TuicFileConfig → Type 0
  IsTuic tuic =
      IsAddress tuic.listen
      × HasUuidText tuic.uuid
      × HasText tuic.password
      × HasText tuic.certificate
      × HasText tuic.private_key

  pub record IsValid (config : Config) : Type 0 where
    pub listen : IsListen config.server.listen
    pub limits : HasLimits config.server
    pub service : HasService config
    pub socks_users : HasSocksUsers config
    pub vless_users :
        config.protocol.vless.enabled ≡ true → HasVlessUsers config.protocol.vless.users
    pub one_camouflage :
        config.transport.tls.enabled ≡ true → config.transport.reality.enabled ≡ false
    pub xhttp : config.transport.xhttp.enabled ≡ true → IsXhttp config.transport.xhttp
    pub awg : config.transport.awg.enabled ≡ true → IsAwg config
    pub hysteria2 :
        config.transport.hysteria2.enabled ≡ true → IsHysteria2 config.transport.hysteria2
    pub tuic : config.transport.tuic.enabled ≡ true → IsTuic config.transport.tuic
    pub outbound_tls : config.outbound.tls.enabled ≡ true → IsOutboundTls config.outbound.tls
    pub tls : config.transport.tls.enabled ≡ true → IsTls config.transport.tls
    pub reality :
        config.transport.reality.enabled ≡ true
        → IsReality config.transport.reality
          × HasImpersonateCert config.transport.reality.impersonate_cert
    pub api : config.api.enabled ≡ true → IsApi config.api
    pub metrics : config.metrics.enabled ≡ true → IsLocal config.metrics.listen
