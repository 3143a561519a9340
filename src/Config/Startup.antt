-- ===== src/Config/Startup.antt =====
-- What the server relies on when it starts with a configuration that `Config::validate` has passed
-- (crates/skadi-config/src/lib.rs): the calls that build its parts.
use skadi_core.Prelude.{
  ℕ, ◌≡◌, ◌≤◌, ap, refl, leb, Bool, true, false, List, [], ◌∷◌, map, Option, none, some, arith,
}
use skadi_core.Prelude.Outcome.{Outcome, ok, err, panic, ◌>>=◌}
use skadi_core.Config.{Config}
use skadi_core.Config.Common.{when, ConfigError, ParsedAddr, Platform, parse_listen}
use skadi_core.Config.Validate.{validate}
use skadi_core.Config.Runtime.{
  hysteria2_server_config, padding_of, xhttp_config, tls_server_config, socket_addrs_of,
  socket_addrs, awg_server_config,
}
use skadi_core.Config.Backends.{tuic_server_config, reality_server_config}
use skadi_core.Config.Accepts.{Returns, return}
use skadi_core.Config.Outbound.{TlsClientConfig, IsBuilt, outbound_tcp_transport-IsBuilt}
use skadi_core.Config.Distinct.{IsDistinct}
use skadi_core.Config.Spec.{IsHysteria2, IsTuic, IsOrdered, IsXhttp}
use skadi_core.Config.Daemons.{Accepts-awg_server_config, Accepts-hysteria2, Accepts-tuic}
use skadi_core.Config.Reality.{Accepts-reality_server_config, tls_server_config-Returns}
use skadi_core.Config.Sections.{head_of, tail_of}
use skadi_core.Config.Checks.{validate_hysteria2, validate_tuic}
use skadi_core.Config.Correct.{validate_lem}

ordered : (least most : ℕ) → least ≤ most → leb least most ≡ true
ordered least most h = ground (arith, h)

first-Returns :
    {A B : Type 0} (m : Outcome ConfigError A) (f : A → Outcome ConfigError B)
    → Returns (m >>= f)
    → Returns m
first-Returns (ok a) f r = return _ a refl
first-Returns (err e) f r = let never = r.returned in cc
first-Returns panic f r = let never = r.returned in cc

when-Returns :
    (b : Bool) (m : Outcome ConfigError (Unit {0})) → b ≡ true → Returns (when b m) → Returns m
when-Returns true m e r = r
when-Returns false m e r = cc

padding-Returns : (bounds : Option (ℕ × ℕ)) → IsOrdered bounds → Returns (padding_of bounds)
unfolding padding_of
padding-Returns none h = return _ _ refl
padding-Returns (some (least, most)) h = rw (ordered least most h) (return _ _ refl)

xhttp_config-Returns :
    (platform : Platform) (config : Config)
    → IsXhttp platform config.transport.xhttp
    → Returns (xhttp_config config)
unfolding xhttp_config
xhttp_config-Returns platform config (t, (mode, m), o) =
    let r = padding-Returns config.transport.xhttp.x_padding_bytes o in
    rw (m, r.returned) (return _ _ refl)

module _ (platform : Platform) where
  addrs_of-ok :
      (texts : List (List ℕ)) (addrs : List ParsedAddr)
      → map (λ text. platform.parse_addr text) texts ≡ map some addrs
      → socket_addrs_of platform texts ≡ ok addrs
  unfolding socket_addrs_of parse_listen head_of tail_of
  addrs_of-ok [] [] e = refl
  addrs_of-ok [] (a ∷ addrs) e = cc
  addrs_of-ok (t ∷ texts) [] e = cc
  addrs_of-ok (t ∷ texts) (a ∷ addrs) e =
      let first : platform.parse_addr t ≡ some a = ap head_of e in
      let others : map (λ text. platform.parse_addr text) texts ≡ map some addrs = ap tail_of e in
      rw (first, addrs_of-ok texts addrs others) refl

  hysteria2-Returns :
      (config : Config)
      → config.transport.hysteria2.enabled ≡ true
      → IsHysteria2 platform config.transport.hysteria2
      → Returns (hysteria2_server_config platform config)
  unfolding validate_hysteria2
  hysteria2-Returns config on h =
      let r = (Accepts-hysteria2 platform config).complete (λ e. h) in
      first-Returns _ _ (when-Returns config.transport.hysteria2.enabled _ on r)

  tuic-Returns :
      (config : Config)
      → config.transport.tuic.enabled ≡ true
      → IsTuic platform config.transport.tuic
      → Returns (tuic_server_config platform config)
  unfolding validate_tuic
  tuic-Returns config on h =
      let r = (Accepts-tuic platform config).complete (λ e. h) in
      first-Returns _ _ (when-Returns config.transport.tuic.enabled _ on r)

  -- Behind the check: the addresses to listen at are parsed and differ; the configurations of XHTTP, TLS,
  -- REALITY and the daemons are built where these are on; and the transport to the targets is built without
  -- a panic, and without an error where TLS takes the files that it names.
  pub validate-starts :
      (config : Config)
      → validate platform config ≡ ok tt
      → ((addrs : List ParsedAddr) × (socket_addrs platform config.server.listen ≡ ok addrs)
          × IsDistinct addrs)
        × (config.transport.xhttp.enabled ≡ true → Returns (xhttp_config config))
        × (config.transport.tls.enabled ≡ true → Returns (tls_server_config config))
        × (config.transport.reality.enabled ≡ true
            → Returns (reality_server_config platform config))
        × (config.transport.awg.enabled ≡ true → Returns (awg_server_config platform config))
        × (config.transport.hysteria2.enabled ≡ true
            → Returns (hysteria2_server_config platform config))
        × (config.transport.tuic.enabled ≡ true → Returns (tuic_server_config platform config))
        × ((builds : TlsClientConfig → Bool) → IsBuilt builds config)
  unfolding socket_addrs
  validate-starts config e =
      let v = (validate_lem platform config).0.0 e in
      let (n, (addrs, same, apart)) = v.listen in
      (
        (addrs, addrs_of-ok config.server.listen.addrs addrs same, apart),
        (λ on. xhttp_config-Returns platform config (v.xhttp on)),
        (λ on. tls_server_config-Returns platform config (v.tls on)),
        (λ on.
            let (r, i) = v.reality on in
            (Accepts-reality_server_config platform config r).complete i),
        (λ on. (Accepts-awg_server_config platform config).complete (v.awg on).0),
        (λ on. hysteria2-Returns config on (v.hysteria2 on)),
        (λ on. tuic-Returns config on (v.tuic on)),
        λ builds. outbound_tcp_transport-IsBuilt platform builds config v.outbound_tls,
      )
