-- ===== src/Config/Tuic.antt =====
-- crates/skadi-transport/src/tuic/render.rs: the texts for the TUIC daemon, as a server and as a client.
use skadi_core.Prelude.{ℕ, Bool, List, [], ◌++◌, Option, if◌then◌else◌, map}
use skadi_core.Prelude.Bytes.{codes}
use skadi_core.Prelude.Outcome.{Outcome, ok}
use skadi_core.Config.Common.{Platform, ConfigError, ParsedAddr}
use skadi_core.Config.Texts.{escape_toml_string, json_escape}
use skadi_core.Config.Hysteria2.{join, unless_blank}

pub record TuicServerConfig : Type 0 where
  pub listen : ParsedAddr
  pub uuid : List ℕ
  pub password : List ℕ
  pub cert_path : List ℕ
  pub key_path : List ℕ
  pub congestion_control : List ℕ
  pub alpn : List (List ℕ)

pub record TuicClientConfig : Type 0 where
  pub server : List ℕ
  pub uuid : List ℕ
  pub password : List ℕ
  pub socks5_listen : List ℕ
  pub ip : Option (List ℕ)
  pub congestion_control : List ℕ
  pub alpn : List (List ℕ)
  pub udp_relay_mode : List ℕ
  pub allow_insecure : Bool

-- `format!("\"{s}\"")`
abbrev pub in_quotes : List ℕ → List ℕ
in_quotes s = codes "\"" ++ (s ++ codes "\"")

-- A line that sets a name to a quoted text.
abbrev pub toml_line : List ℕ → List ℕ → List ℕ
toml_line name value = name ++ (codes " = " ++ (in_quotes value ++ codes "\n"))

abbrev pub json_line : List ℕ → List ℕ → List ℕ
json_line name value =
    codes "    "
    ++ (in_quotes name ++ (codes ": " ++ (in_quotes (json_escape value) ++ codes ",\n")))

unfoldable pub alpn_list : List (List ℕ) → List ℕ
alpn_list alpn = join (codes ", ") (map in_quotes alpn)

module _ (platform : Platform) where
  unfoldable pub render_server_toml : TuicServerConfig → Outcome ConfigError (List ℕ)
  render_server_toml config = ok (
      toml_line (codes "log_level") (codes "warn")
      ++ (toml_line (codes "server") (platform.display_addr config.listen)
          ++ (codes "udp_relay_ipv6 = false\ndual_stack = false\n\n[users]\n"
              ++ (toml_line (in_quotes config.uuid) (escape_toml_string config.password)
                  ++ (codes "\n[tls]\n"
                      ++ (toml_line (codes "certificate") config.cert_path
                          ++ (toml_line (codes "private_key") config.key_path
                              ++ (codes "alpn = ["
                                  ++ (alpn_list config.alpn
                                      ++ (codes "]\n\n[quic.congestion_control]\n"
                                          ++ (toml_line (codes "controller")
                                                config.congestion_control
                                              ++ codes
                                                  "\n[experimental]\ndrop_loopback = false\ndrop_private = false\n")))))))))))

  unfoldable pub relay_text : TuicClientConfig → List ℕ
  relay_text config =
      json_line (codes "server") config.server
      ++ (json_line (codes "uuid") config.uuid
          ++ (json_line (codes "password") config.password
              ++ (json_line (codes "udp_relay_mode") config.udp_relay_mode
                  ++ (json_line (codes "congestion_control") config.congestion_control
                      ++ (codes "    \"alpn\": ["
                          ++ (alpn_list config.alpn
                              ++ (codes "]"
                                  ++ (unless_blank platform config.ip ip_line
                                      ++ (if config.allow_insecure
                                          then codes ",\n    \"skip_cert_verify\": true"
                                          else [])))))))))
    where
      ip_line : List ℕ → List ℕ
      ip_line ip = codes ",\n    \"ip\": " ++ in_quotes (json_escape ip)

  unfoldable pub render_client_json : TuicClientConfig → Outcome ConfigError (List ℕ)
  render_client_json config = ok (
      codes "{\n  \"relay\": {\n"
      ++ (relay_text config
          ++ (codes "\n  },\n  \"local\": {\n    \"server\": "
              ++ (in_quotes (json_escape config.socks5_listen)
                  ++ codes "\n  },\n  \"log_level\": \"warn\"\n}\n"))))
