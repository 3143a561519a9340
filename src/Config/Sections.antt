-- ===== src/Config/Sections.antt =====
-- The checks of the sections `server`, `api`, `metrics`, `outbound.tls` and `transport.xhttp` of
-- crates/skadi-config/src/lib.rs, and what they accept.
use skadi_core.Prelude.{
  ℕ, ◌≡◌, refl, ap, ◌||◌, not, Bool, true, false, List, [], ◌∷◌, map, Option, none, some,
}
use skadi_core.Prelude.Outcome.{◌>>=◌, fail_if}
use skadi_core.Server.AuthRateLimit.{AuthRateLimitConfig}
use skadi_core.Config.{
  ListenAddrs, ServerConfig, OutboundTlsConfig, ApiConfig, ApiTlsConfig, MetricsConfig,
  XhttpFileConfig,
}
use skadi_core.Config.Common.{
  ParsedAddr, addr_eq, Platform, ConfigError, is_some, xhttp_mode_of, is_loopback_ip, is_blank,
  parse_listen,
}
use skadi_core.Config.Checks.{
  check_auth_rate_limit, member, check_listen, validate_listen, validate_metrics, check_api_tls,
  validate_api, check_client_cert, validate_outbound_tls, validate_xhttp,
}
use skadi_core.Config.Validate.{check_server}
use skadi_core.Config.Accepts.{
  Accepts, Accepts-weaken, Accepts-ok, Accepts-fail_if, Accepts-ok_or, Accepts-then, Accepts-when,
  flat3, flat4, flat5,
}
use skadi_core.Config.Distinct.{addr_eq-IsEq, IsFresh, IsFresh-IsDistinct}
use skadi_core.Config.Spec.{
  HasBanLimits, HasLimits, IsListen, IsLocal, HasApiTls, IsApi, HasClientCert, IsOutboundTls,
  IsXhttp,
}
use skadi_core.Config.Parts.{
  Accepts-zero, Accepts-set_zero, Accepts-nil, Accepts-not, Accepts-some, Accepts-IsOrdered,
  Accepts-kex_mode, Accepts-file, Accepts-file_if_set,
}

pub Accepts-auth_rate_limit :
    (limit : AuthRateLimitConfig) → Accepts (check_auth_rate_limit limit) (HasBanLimits limit)
unfolding check_auth_rate_limit
Accepts-auth_rate_limit limit = flat4 (
    Accepts-then _ _ (Accepts-set_zero limit.max_failures _) λ h.
      Accepts-then _ _ (Accepts-zero limit.window_secs _) λ h.
        Accepts-then _ _ (Accepts-zero limit.ban_base_secs _)
          λ h. Accepts-zero limit.ban_max_secs _)

pub Accepts-server : (server : ServerConfig) → Accepts (check_server server) (HasLimits server)
unfolding check_server
Accepts-server server =
    let times = server.timeouts in
    flat5 (
      Accepts-then _ _ (Accepts-zero times.connect_timeout_secs _) λ h.
        Accepts-then _ _ (Accepts-set_zero times.idle_timeout_secs _) λ h.
          Accepts-then _ _ (Accepts-set_zero server.max_connections _) λ h.
            Accepts-then _ _
              (Accepts-when server.auth_rate_limit.enabled _
                λ e. Accepts-auth_rate_limit server.auth_rate_limit)
              λ h. Accepts-set_zero times.max_session_lifetime_secs _)

unfoldable pub head_of : List (Option ParsedAddr) → Option ParsedAddr
head_of [] = none
head_of (x ∷ xs) = x

unfoldable pub tail_of : List (Option ParsedAddr) → List (Option ParsedAddr)
tail_of [] = []
tail_of (x ∷ xs) = xs

module _ (platform : Platform) where
  -- The scan of the addresses, with those seen so far.
  abbrev AreFresh : List ParsedAddr → List (List ℕ) → Type 0
  AreFresh seen texts =
      (addrs : List ParsedAddr) × (map (λ text. platform.parse_addr text) texts ≡ map some addrs)
      × IsFresh addr_eq seen addrs

  -- What it means for one text more.
  AreFresh-cons :
      (seen : List ParsedAddr) (text : List ℕ) (texts : List (List ℕ))
      → AreFresh seen (text ∷ texts)
      → (addr : ParsedAddr) × (platform.parse_addr text ≡ some addr)
        × ((member addr_eq addr seen ≡ false) × AreFresh (addr ∷ seen) texts)
  unfolding head_of tail_of
  AreFresh-cons seen text texts ([], es, fresh) = absurd cc
  AreFresh-cons seen text texts (addr ∷ addrs, es, (new, fresh)) =
      (addr, ap head_of es, (new, (addrs, ap tail_of es, fresh)))

  Accepts-check_listen :
      (seen : List ParsedAddr) (texts : List (List ℕ))
      → Accepts (check_listen platform seen texts) (AreFresh seen texts)
  unfolding check_listen parse_listen
  Accepts-check_listen seen [] = Accepts-weaken (λ h. ([], refl, tt)) (λ h. tt) (Accepts-ok tt)
  Accepts-check_listen seen (text ∷ texts) =
      Accepts-weaken
        (λ (addr, e, (new, (addrs, es, fresh))). (addr ∷ addrs, rw (e, es) refl, (new, fresh)))
        (AreFresh-cons seen text texts)
        (Accepts-ok_or (platform.parse_addr text) _ _ λ addr e.
          Accepts-then _ _ (Accepts-fail_if (member addr_eq addr seen) _)
            λ h. Accepts-check_listen (addr ∷ seen) texts)

  pub Accepts-IsListen :
      (listen : ListenAddrs) → Accepts (validate_listen platform listen) (IsListen platform listen)
  unfolding validate_listen
  Accepts-IsListen listen = Accepts-then _ _ (Accepts-nil listen.addrs _) λ h.
      Accepts-weaken
        (λ (addrs, e, fresh). (addrs, e, (IsFresh-IsDistinct addr_eq addr_eq-IsEq addrs).0 fresh))
        (λ (addrs, e, apart). (addrs, e, (IsFresh-IsDistinct addr_eq addr_eq-IsEq addrs).1 apart))
        (Accepts-check_listen [] listen.addrs)

  Accepts-IsLocal :
      (text field : List ℕ) (e : ConfigError)
      → Accepts
          (parse_listen platform text field >>= λ addr. fail_if (not (is_loopback_ip addr.ip)) e)
          (IsLocal platform text)
  unfolding parse_listen
  Accepts-IsLocal text field e =
      Accepts-ok_or (platform.parse_addr text) _ _ λ addr p. Accepts-not (is_loopback_ip addr.ip) e

  pub Accepts-metrics :
      (metrics : MetricsConfig)
      → Accepts (validate_metrics platform metrics) (IsLocal platform metrics.listen)
  unfolding validate_metrics
  Accepts-metrics metrics = Accepts-IsLocal metrics.listen _ _

  Accepts-unset :
      (x y : Option (List ℕ)) (e : ConfigError)
      → Accepts (fail_if (is_some x || is_some y) e) ((x ≡ none) × (y ≡ none))
  Accepts-unset none none e =
      Accepts-weaken (λ h. (refl, refl)) (λ h. refl) (Accepts-fail_if false e)
  Accepts-unset none (some y) e =
      Accepts-weaken (λ h. absurd cc) (λ (p, q). absurd cc) (Accepts-fail_if true e)
  Accepts-unset (some x) y e =
      Accepts-weaken (λ h. absurd cc) (λ (p, q). absurd cc) (Accepts-fail_if true e)

  Accepts-api_tls :
      (tls : ApiTlsConfig) (enabled : Bool)
      → Accepts (check_api_tls platform tls enabled) (HasApiTls platform tls enabled)
  unfolding check_api_tls
  Accepts-api_tls tls true = Accepts-ok_or tls.cert _ _ λ cert e.
      Accepts-ok_or tls.key _ _
        λ key k. Accepts-then _ _ (Accepts-file platform cert _) λ h. Accepts-file platform key _
  Accepts-api_tls tls false = Accepts-unset tls.cert tls.key _

  pub Accepts-IsApi : (api : ApiConfig) → Accepts (validate_api platform api) (IsApi platform api)
  unfolding validate_api parse_listen
  Accepts-IsApi api =
      Accepts-weaken
        (λ (addr, e, (local, (token, f, (text, (tls, limit))))).
          ((addr, e, local), (token, f, text), tls, limit))
        (λ ((addr, e, local), (token, f, text), tls, limit).
          (addr, e, (local, (token, f, (text, (tls, limit))))))
        (Accepts-ok_or (platform.parse_addr api.listen) _ _ λ addr p.
          Accepts-then _ _ (Accepts-not (is_loopback_ip addr.ip) _) λ h.
            Accepts-ok_or api.token _ _ λ token q.
              Accepts-then _ _ (Accepts-fail_if (is_blank platform token) _) λ h.
                Accepts-then _ _ (Accepts-api_tls api.tls api.tls.enabled)
                  λ h. Accepts-set_zero api.rate_limit_per_sec _)

  pub Accepts-IsXhttp :
      (xhttp : XhttpFileConfig)
      → Accepts (validate_xhttp platform xhttp) (xhttp.enabled ≡ true → IsXhttp platform xhttp)
  unfolding validate_xhttp
  Accepts-IsXhttp xhttp = Accepts-when xhttp.enabled _ λ e. flat3 (
      Accepts-then _ _ (Accepts-fail_if (is_blank platform xhttp.path) _) λ h.
        Accepts-then _ _ (Accepts-some (xhttp_mode_of xhttp.mode) _)
          λ h. Accepts-IsOrdered xhttp.x_padding_bytes _)

  Accepts-client_cert :
      (cert key : Option (List ℕ))
      → Accepts (check_client_cert platform cert key) (HasClientCert platform cert key)
  unfolding check_client_cert
  Accepts-client_cert (some cert) (some key) =
      Accepts-then _ _ (Accepts-file platform cert _) λ h. Accepts-file platform key _
  Accepts-client_cert none none = Accepts-ok tt
  Accepts-client_cert (some cert) none = record {
    sound = λ r. let never = r.returned in cc;
    complete = λ p. absurd p;
    calm = λ p. cc;
  }
  Accepts-client_cert none (some key) = record {
    sound = λ r. let never = r.returned in cc;
    complete = λ p. absurd p;
    calm = λ p. cc;
  }

  pub Accepts-IsOutboundTls :
      (tls : OutboundTlsConfig)
      → Accepts
          (validate_outbound_tls platform tls)
          (tls.enabled ≡ true → IsOutboundTls platform tls)
  unfolding validate_outbound_tls
  Accepts-IsOutboundTls tls = Accepts-when tls.enabled _ λ e. flat3 (
      Accepts-then _ _ (Accepts-client_cert tls.cert tls.key) λ h.
        Accepts-then _ _ (Accepts-file_if_set platform tls.ca_file _)
          λ h. Accepts-kex_mode tls.kex_mode _)
