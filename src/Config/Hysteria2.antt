-- ===== src/Config/Hysteria2.antt =====
-- crates/skadi-transport/src/hysteria2/render.rs: the texts for the Hysteria 2 daemon, as a server and
-- as a client, and the address that a user is given.
use skadi_core.Prelude.{
  ℕ, not, ◌||◌, Bool, true, false, List, [], ◌∷◌, ◌++◌, Option, none, some, if◌then◌else◌,
}
use skadi_core.Prelude.Bytes.{codes}
use skadi_core.Prelude.Outcome.{Outcome, ok}
use skadi_core.Endpoint.{IpAddr, v4, v6}
use skadi_core.Endpoint.Policy.{is_unspecified, is_unspecified_ipv6}
use skadi_core.Config.Common.{Platform, ConfigError, ParsedAddr, is_blank, is_nil, is_some}
use skadi_core.Config.Texts.{yaml_quote, urlencoding_simple}

pub record Hysteria2ServerConfig : Type 0 where
  pub listen : ParsedAddr
  pub password : List ℕ
  pub cert_path : List ℕ
  pub key_path : List ℕ
  pub masquerade_url : Option (List ℕ)

pub record Hysteria2ClientConfig : Type 0 where
  pub server : List ℕ
  pub password : List ℕ
  pub socks5_listen : List ℕ
  pub http_listen : Option (List ℕ)
  pub sni : Option (List ℕ)
  pub ca_file : Option (List ℕ)
  pub insecure : Bool
  pub pin_sha256 : Option (List ℕ)
  pub bandwidth_up : Option (List ℕ)
  pub bandwidth_down : Option (List ℕ)

-- `IpAddr::is_unspecified` and `SocketAddr::is_ipv6`
abbrev pub is_unspecified_ip : IpAddr → Bool
is_unspecified_ip (v4 ip) = is_unspecified ip
is_unspecified_ip (v6 octets) = is_unspecified_ipv6 octets

abbrev pub is_ipv6 : IpAddr → Bool
is_ipv6 (v4 ip) = false
is_ipv6 (v6 octets) = true

-- `list.join(separator)`
unfoldable pub join : List ℕ → List (List ℕ) → List ℕ
join separator [] = []
join separator (x ∷ []) = x
join separator (x ∷ y ∷ xs) = x ++ (separator ++ join separator (y ∷ xs))

-- A line, if there is a value.
abbrev pub optional : Option (List ℕ) → (List ℕ → List ℕ) → List ℕ
optional none line = []
optional (some value) line = line value

module _ (platform : Platform) where
  unfoldable pub listen_text : ParsedAddr → List ℕ
  listen_text addr =
      if is_unspecified_ip addr.ip
      then codes ":" ++ platform.display_port addr.port
      else if is_ipv6 addr.ip
      then codes "["
        ++ (platform.display_ip addr.ip ++ (codes "]:" ++ platform.display_port addr.port))
      else platform.display_ip addr.ip ++ (codes ":" ++ platform.display_port addr.port)

  -- A line for a value that is not blank, with the value trimmed.
  abbrev pub unless_blank : Option (List ℕ) → (List ℕ → List ℕ) → List ℕ
  unless_blank none line = []
  unless_blank (some value) line =
      if is_blank platform value then [] else line (platform.trim value)

  unfoldable pub masquerade : List ℕ → List ℕ
  masquerade url =
      codes "\nmasquerade:\n  type: proxy\n  proxy:\n"
      ++ (codes "    url: " ++ (url ++ (codes "\n" ++ codes "    rewriteHost: true\n")))

  unfoldable pub render_server_yaml : Hysteria2ServerConfig → Outcome ConfigError (List ℕ)
  render_server_yaml config = ok (
      codes "listen: "
      ++ (listen_text config.listen
          ++ (codes "\n\ntls:\n  cert: "
              ++ (config.cert_path
                  ++ (codes "\n  key: "
                      ++ (config.key_path
                          ++ (codes "\n\nauth:\n  type: password\n  password: "
                              ++ (config.password
                                  ++ (codes "\n"
                                      ++ unless_blank config.masquerade_url masquerade)))))))))

  abbrev pub setting : List ℕ → List ℕ → List ℕ
  setting name value = name ++ (yaml_quote value ++ codes "\n")

  unfoldable pub need_tls : Hysteria2ClientConfig → Bool
  need_tls config =
      config.insecure || is_some config.ca_file || is_some config.sni || is_some config.pin_sha256

  unfoldable pub client_tls : Hysteria2ClientConfig → List ℕ
  client_tls config =
      codes "\ntls:\n"
      ++ (unless_blank config.sni (setting (codes "  sni: "))
          ++ (unless_blank config.ca_file (setting (codes "  ca: "))
              ++ ((if config.insecure then codes "  insecure: true\n" else [])
                  ++ unless_blank config.pin_sha256 (setting (codes "  pinSHA256: ")))))

  unfoldable pub client_bandwidth : Hysteria2ClientConfig → List ℕ
  client_bandwidth config =
      codes "\nbandwidth:\n"
      ++ (optional config.bandwidth_up (setting (codes "  up: "))
          ++ optional config.bandwidth_down (setting (codes "  down: ")))

  unfoldable pub render_client_yaml : Hysteria2ClientConfig → Outcome ConfigError (List ℕ)
  render_client_yaml config = ok (
      setting (codes "server: ") config.server
      ++ (setting (codes "auth: ") config.password
          ++ (setting (codes "\nsocks5:\n  listen: ") config.socks5_listen
              ++ (unless_blank config.http_listen (setting (codes "\nhttp:\n  listen: "))
                  ++ ((if need_tls config then client_tls config else [])
                      ++ (if is_some config.bandwidth_up || is_some config.bandwidth_down
                          then client_bandwidth config
                          else []))))))

-- `q.push(..)`, if the test holds
abbrev pub query : Bool → List ℕ → List (List ℕ) → List (List ℕ)
query true text rest = text ∷ rest
query false text rest = rest

abbrev pub sni_query : Option (List ℕ) → List (List ℕ) → List (List ℕ)
sni_query none rest = rest
sni_query (some sni) rest = query (not (is_nil sni)) (codes "sni=" ++ urlencoding_simple sni) rest

unfoldable pub render_share_uri : Hysteria2ClientConfig → List ℕ
render_share_uri config =
    let q = sni_query config.sni (query config.insecure (codes "insecure=1") []) in
    codes "hy2://"
    ++ (urlencoding_simple config.password
        ++ (codes "@"
            ++ (config.server ++ (if is_nil q then [] else codes "?" ++ join (codes "&") q))))
