-- ===== src/Config/Outbound.antt =====
-- crates/skadi-config/src/lib.rs: the transport to the targets that the server builds from its configuration.
-- What TlsOutboundTransport makes of the files that are named is a parameter.
use skadi_core.Prelude.{
  ℕ, ◌≡◌, ◌≢◌, refl, ap, sym, ◌∙◌, Bool, true, false, Bool-cases, inl, inr, List, Option, none,
  some, if◌then◌else◌,
}
use skadi_core.Prelude.Bytes.{codes}
use skadi_core.Prelude.Outcome.{Outcome, ok, err, panic, ◌>>=◌}
use skadi_core.Config.{Config}
use skadi_core.Config.Common.{Platform, ConfigError, is_invalid, TlsKexMode, kex_mode_of}
use skadi_core.Config.Runtime.{connect_timeout}
use skadi_core.Config.Accepts.{Returns, return}
use skadi_core.Config.Spec.{IsOutboundTls}

pub record TlsClientConfig : Type 0 where
  pub ca_file : Option (List ℕ)
  pub client_cert : Option (List ℕ)
  pub client_key : Option (List ℕ)
  pub kex_mode : TlsKexMode
  pub alpn_http1_only : Bool

pub data OutboundTcpTransport : Type 0 where
  plain_tcp : ℕ → Bool → OutboundTcpTransport
  tls_tcp : ℕ → TlsClientConfig → Bool → OutboundTcpTransport

-- `.expect(..)` panics on a mode that is none.
abbrev pub expected_mode : Option TlsKexMode → Outcome ConfigError TlsKexMode
expected_mode none = panic
expected_mode (some mode) = ok mode

unfoldable pub outbound_tls_client_config : Config → Outcome ConfigError TlsClientConfig
outbound_tls_client_config config = do
  let tls = config.outbound.tls
  kex_mode ← expected_mode (kex_mode_of tls.kex_mode)
  ok (record {
    ca_file = tls.ca_file;
    client_cert = tls.cert;
    client_key = tls.key;
    kex_mode = kex_mode;
    alpn_http1_only = false;
  })

abbrev pub tls_with_policy :
    (TlsClientConfig → Bool) → ℕ → TlsClientConfig → Bool → Outcome ConfigError OutboundTcpTransport
tls_with_policy builds timeout tls allow_private =
    if builds tls
    then ok (tls_tcp timeout tls allow_private)
    else err (is_invalid (codes "outbound.tls"))

unfoldable pub outbound_tcp_transport :
    (TlsClientConfig → Bool) → Config → Outcome ConfigError OutboundTcpTransport
outbound_tcp_transport builds config =
    if config.outbound.tls.enabled
    then (do
      tls ← outbound_tls_client_config config
      tls_with_policy builds (connect_timeout config) tls config.outbound.allow_private)
    else ok (plain_tcp (connect_timeout config) config.outbound.allow_private)

-- The transport is built where its files are such that TLS takes them, and its `expect` panics on none.
pub record IsBuilt (builds : TlsClientConfig → Bool) (config : Config) : Type 0 where
  pub calm : outbound_tcp_transport builds config ≢ panic
  pub built :
      ((tls : TlsClientConfig) → outbound_tls_client_config config ≡ ok tls → builds tls ≡ true)
      → Returns (outbound_tcp_transport builds config)

client_config-Returns :
    (platform : Platform) (config : Config)
    → IsOutboundTls platform config.outbound.tls
    → Returns (outbound_tls_client_config config)
unfolding outbound_tls_client_config
client_config-Returns platform config (c, f, (mode, m)) = rw m (return _ _ refl)

with_policy-ne-panic :
    (builds : TlsClientConfig → Bool) (timeout : ℕ) (tls : TlsClientConfig) (allow_private : Bool)
    → tls_with_policy builds timeout tls allow_private ≢ panic
with_policy-ne-panic builds timeout tls allow_private = elim (Bool-cases (builds tls)) [
  | inl e ↦ rw e (λ p. cc)
  | inr e ↦ rw e (λ p. cc)
]

if-true : {A : Type 0} (b : Bool) (x y : A) → b ≡ true → (if b then x else y) ≡ x
if-true b x y e = rw e refl

if-false : {A : Type 0} (b : Bool) (x y : A) → b ≡ false → (if b then x else y) ≡ y
if-false b x y e = rw e refl

takes-ok :
    (builds : TlsClientConfig → Bool) (timeout : ℕ) (tls : TlsClientConfig) (allow_private : Bool)
    → builds tls ≡ true
    → tls_with_policy builds timeout tls allow_private ≡ ok (tls_tcp timeout tls allow_private)
takes-ok builds timeout tls allow_private e = if-true (builds tls) _ _ e

pub outbound_tcp_transport-IsBuilt :
    (platform : Platform) (builds : TlsClientConfig → Bool) (config : Config)
    → (config.outbound.tls.enabled ≡ true → IsOutboundTls platform config.outbound.tls)
    → IsBuilt builds config
outbound_tcp_transport-IsBuilt platform builds config h =
    elim (Bool-cases config.outbound.tls.enabled) [
      | inl on ↦
          let r = client_config-Returns platform config (h on) in
          let e = over_tls r.value on r.returned in
          record {
            calm = λ p. with_policy-ne-panic builds timeout r.value allow_private (sym e ∙ p);
            built = λ takes.
                return _ _
                  (e ∙ takes-ok builds timeout r.value allow_private (takes r.value r.returned));
          }
      | inr off ↦ record {
        calm = λ p. (let never = sym (over_tcp off) ∙ p in cc);
        built = λ takes. return _ _ (over_tcp off);
      }
    ]
  where
    timeout : ℕ
    timeout = connect_timeout config

    allow_private : Bool
    allow_private = config.outbound.allow_private

    over_tls :
        (tls : TlsClientConfig)
        → config.outbound.tls.enabled ≡ true
        → outbound_tls_client_config config ≡ ok tls
        → outbound_tcp_transport builds config ≡ tls_with_policy builds timeout tls allow_private
    over_tls tls on e =
        unfold outbound_tcp_transport in
        if-true config.outbound.tls.enabled _ _ on
        ∙ ap (λ m. m >>= λ tls. tls_with_policy builds timeout tls allow_private) e

    over_tcp :
        config.outbound.tls.enabled ≡ false
        → outbound_tcp_transport builds config ≡ ok (plain_tcp timeout allow_private)
    over_tcp off = unfold outbound_tcp_transport in if-false config.outbound.tls.enabled _ _ off
