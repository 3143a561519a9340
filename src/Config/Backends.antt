-- ===== src/Config/Backends.antt =====
-- crates/skadi-config/src/lib.rs: the configurations of TUIC and of REALITY, and the certificate file of
-- crates/skadi-transport/src/reality/impersonate.rs that the second names.
use skadi_core.Prelude.{ℕ, ◌||◌, ◌&&◌, ◌==◌, Bool, true, false, List, [], ◌∷◌, Option, none, some}
use skadi_core.Prelude.Bytes.{codes}
use skadi_core.Prelude.Outcome.{Outcome, ok, err, panic, ◌>>=◌, ◌>>◌, fail_if}
use skadi_core.Endpoint.{octets_eq}
use skadi_core.Vless.Users.{UuidParseError, parse_uuid}
use skadi_core.Config.{Config}
use skadi_core.Config.Common.{
  Platform, ConfigError, is_invalid, is_empty, not_readable, bad_uuid, parse_tls_kex_mode, ok_or,
  is_nil, required, parse_listen, decode_base64_32,
}
use skadi_core.Config.Runtime.{
  RealityServerConfig, unwrap, connect_timeout, idle_timeout, max_session_lifetime,
}
use skadi_core.Config.Tuic.{TuicServerConfig}

-- `Uuid::parse(..).with_context(..)?`
unfoldable pub check_uuid :
    Outcome UuidParseError (List ℕ) → List ℕ → Outcome ConfigError (Unit {0})
check_uuid (ok uuid) field = ok tt
check_uuid (err e) field = err (bad_uuid field e)
check_uuid panic field = panic

-- `data.starts_with(prefix)`
unfoldable pub has_prefix : List ℕ → List ℕ → Bool
has_prefix [] bytes = true
has_prefix (p ∷ prefix) [] = false
has_prefix (p ∷ prefix) (d ∷ bytes) = (p == d) && has_prefix prefix bytes

abbrev pub is_pem : Option (List ℕ) → Bool
is_pem none = false
is_pem (some extension) = octets_eq extension (codes "pem")

module _ (platform : Platform) where
  unfoldable pub tuic_server_config : Config → Outcome ConfigError TuicServerConfig
  tuic_server_config config = do
    let tuic = config.transport.tuic
    listen ← parse_listen platform tuic.listen (codes "transport.tuic.listen")
    uuid ← required platform tuic.uuid (codes "transport.tuic.uuid")
    check_uuid (parse_uuid uuid) (codes "transport.tuic.uuid")
    password ← required platform tuic.password (codes "transport.tuic.password")
    cert ← required platform tuic.certificate (codes "transport.tuic.certificate")
    key ← required platform tuic.private_key (codes "transport.tuic.private_key")
    ok (record {
      listen = listen;
      uuid = uuid;
      password = password;
      cert_path = cert;
      key_path = key;
      congestion_control = tuic.congestion_control;
      alpn = tuic.alpn;
    })

  -- The first certificate of a PEM file.
  unfoldable pub first_cert : List (List ℕ) → Outcome ConfigError (List ℕ)
  first_cert [] = err (is_empty (codes "impersonate_cert"))
  first_cert (cert ∷ certs) = ok cert

  -- The certificate in a file that is PEM or is not.
  unfoldable pub cert_of_file : List ℕ → Bool → Outcome ConfigError (List ℕ)
  cert_of_file bytes true =
      ok_or (platform.pem_certs bytes) (is_invalid (codes "impersonate_cert")) >>= first_cert
  cert_of_file bytes false =
      fail_if (is_nil bytes) (is_empty (codes "impersonate_cert")) >> ok bytes

  unfoldable pub load_impersonate_cert_file : List ℕ → Outcome ConfigError (List ℕ)
  load_impersonate_cert_file path = do
    bytes ← ok_or (platform.read_file path) (not_readable (codes "impersonate_cert"))
    cert_of_file bytes (is_pem (platform.extension path) || has_prefix (codes "-----BEGIN") bytes)

  unfoldable pub decode_short_ids : List (List ℕ) → Outcome ConfigError (List (List ℕ))
  decode_short_ids [] = ok []
  decode_short_ids (sid ∷ sids) = do
    bytes ← ok_or (platform.hex_decode sid) (is_invalid (codes "short_id"))
    rest ← decode_short_ids sids
    ok (bytes ∷ rest)

  unfoldable pub load_impersonate_cert : Option (List ℕ) → Outcome ConfigError (Option (List ℕ))
  load_impersonate_cert none = ok none
  load_impersonate_cert (some path) = do cert ← load_impersonate_cert_file path; ok (some cert)

  unfoldable pub reality_server_config : Config → Outcome ConfigError RealityServerConfig
  reality_server_config config = do
    let reality = config.transport.reality
    text ← unwrap reality.private_key
    private_key ← decode_base64_32 platform text (codes "transport.reality.private_key")
    short_ids ← decode_short_ids reality.short_ids
    impersonate_cert ← load_impersonate_cert reality.impersonate_cert
    dest ← unwrap reality.dest
    kex_mode ← parse_tls_kex_mode reality.kex_mode (codes "transport.reality.kex_mode")
    ok (record {
      private_key = private_key;
      dest = dest;
      server_names = reality.server_names;
      short_ids = short_ids;
      impersonate_cert = impersonate_cert;
      connect_timeout = connect_timeout config;
      idle_timeout = idle_timeout config;
      max_session_lifetime = max_session_lifetime config;
      kex_mode = kex_mode;
    })
