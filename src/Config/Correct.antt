-- ===== src/Config/Correct.antt =====
-- `Config::validate` of crates/skadi-config/src/lib.rs as a whole.
use skadi_core.Prelude.{◌≡◌, ◌≢◌, ◌⊎◌, ◌↔◌, refl, ◌&&◌, not, Bool, true, false, inl, inr, List, []}
use skadi_core.Prelude.Outcome.{Outcome, ok, panic, ◌>>◌, fail_if}
use skadi_core.Socks5.Negotiate.{AuthMethod, no_auth, user_pass, UserCredential}
use skadi_core.Config.{Config}
use skadi_core.Config.Common.{Platform, ConfigError, is_nil}
use skadi_core.Config.Checks.{discard, is_user_pass, validate_tls}
use skadi_core.Config.Validate.{nothing_enabled, no_socks_users, validate_reality, validate}
use skadi_core.Config.Runtime.{tls_server_config}
use skadi_core.Config.Backends.{reality_server_config}
use skadi_core.Config.Accepts.{
  Returns, Accepts, return, Accepts-weaken, Accepts-fail_if, Accepts-then, Accepts-when,
  Accepts-discard, Accepts-returned,
}
use skadi_core.Config.Spec.{HasService, IsTls, IsReality, HasImpersonateCert, IsValid}
use skadi_core.Config.Parts.{Accepts-nil, Accepts-vless_users}
use skadi_core.Config.Sections.{
  Accepts-server, Accepts-IsListen, Accepts-metrics, Accepts-IsApi, Accepts-IsXhttp,
  Accepts-IsOutboundTls,
}
use skadi_core.Config.Certificates.{Accepts-IsTls}
use skadi_core.Config.Daemons.{Accepts-hysteria2, Accepts-tuic}
use skadi_core.Config.AmneziaWg.{Accepts-IsAwg}
use skadi_core.Config.Reality.{
  Accepts-validate_reality, Accepts-reality_server_config, tls_server_config-Returns,
}

unit_of : {m : Outcome ConfigError (Unit {0})} → Returns m → m ≡ ok tt
unit_of r = r.returned

-- Of five switches, one is on.
abbrev AnyOf : Bool → Bool → Bool → Bool → Bool → Type 0
AnyOf a b c d e = (a ≡ true) ⊎ (b ≡ true) ⊎ (c ≡ true) ⊎ (d ≡ true) ⊎ (e ≡ true)

any_of : (a b c d e : Bool) → (not a && not b && not c && not d && not e) ≡ false → AnyOf a b c d e
any_of true b c d e h = inl refl
any_of false true c d e h = inr (inl refl)
any_of false false true d e h = inr (inr (inl refl))
any_of false false false true e h = inr (inr (inr (inl refl)))
any_of false false false false true h = inr (inr (inr (inr refl)))
any_of false false false false false h = cc

none_of : (a b c d e : Bool) → AnyOf a b c d e → (not a && not b && not c && not d && not e) ≡ false
none_of true b c d e h = refl
none_of false true c d e h = refl
none_of false false true d e h = refl
none_of false false false true e h = refl
none_of false false false false true h = refl
none_of false false false false false h = elim h [
  | inl never ↦ cc
  | inr i ↦ elim i [
    | inl never ↦ cc
    | inr j ↦ elim j [ inl never ↦ cc | inr k ↦ elim k [ inl never ↦ cc | inr never ↦ cc ] ]
  ]
]

Accepts-service :
    (config : Config) (e : ConfigError)
    → Accepts (fail_if (nothing_enabled config) e) (HasService config)
unfolding nothing_enabled
Accepts-service config e =
    Accepts-weaken (any_of _ _ _ _ _) (none_of _ _ _ _ _) (Accepts-fail_if _ e)

Accepts-users :
    (on : Bool) (auth : AuthMethod) (users : List UserCredential) (e : ConfigError)
    → Accepts
        (fail_if (on && is_user_pass auth && is_nil users) e)
        (on ≡ true → auth ≡ user_pass → users ≢ [])
Accepts-users false auth users e = Accepts-weaken (λ h p. cc) (λ h. refl) (Accepts-fail_if false e)
Accepts-users true no_auth users e =
    Accepts-weaken (λ h p q. absurd cc) (λ h. refl) (Accepts-fail_if false e)
Accepts-users true user_pass users e =
    Accepts-weaken (λ h p q. h) (λ h. h refl refl) (Accepts-nil users e)

Accepts-camouflage :
    (a b : Bool) (e : ConfigError) → Accepts (fail_if (a && b) e) (a ≡ true → b ≡ false)
Accepts-camouflage false b e = Accepts-weaken (λ h p. cc) (λ h. refl) (Accepts-fail_if false e)
Accepts-camouflage true b e = Accepts-weaken (λ h p. h) (λ h. h refl) (Accepts-fail_if b e)

module _ (platform : Platform) where
  Accepts-tls_on :
      (config : Config)
      → Accepts
          (validate_tls platform config.transport.tls >> discard (tls_server_config config))
          (IsTls platform config.transport.tls)
  Accepts-tls_on config =
      Accepts-weaken (λ (t, u). t) (λ t. (t, tt))
        (Accepts-then _ _ (Accepts-IsTls platform config.transport.tls)
          λ t. Accepts-discard _ (Accepts-returned (tls_server_config-Returns platform config t)))

  Accepts-reality_on :
      (config : Config)
      → Accepts
          (validate_reality platform config.transport.reality
            >> discard (reality_server_config platform config))
          (IsReality platform config.transport.reality
            × HasImpersonateCert platform config.transport.reality.impersonate_cert)
  Accepts-reality_on config =
      Accepts-then _ _ (Accepts-validate_reality platform config.transport.reality)
        λ r. Accepts-discard _ (Accepts-reality_server_config platform config r)

  Accepts-validate :
      (config : Config) → Accepts (validate platform config) (IsValid platform config)
  unfolding validate no_socks_users
  Accepts-validate config =
      let transport = config.transport in
      Accepts-weaken
        (λ (l, (s, (o, (u, (v, (c, (x, (a, (h, (t, (b, (d, (r, (i, m)))))))))))))). record {
          listen = l;
          limits = s;
          service = o;
          socks_users = u;
          vless_users = v;
          one_camouflage = c;
          xhttp = x;
          awg = a;
          hysteria2 = h;
          tuic = t;
          outbound_tls = b;
          tls = d;
          reality = r;
          api = i;
          metrics = m;
        })
        (λ w. (
          w.listen,
          (
            w.limits,
            (
              w.service,
              (
                w.socks_users,
                (
                  w.vless_users,
                  (
                    w.one_camouflage,
                    (
                      w.xhttp,
                      (
                        w.awg,
                        (
                          w.hysteria2,
                          (w.tuic, (w.outbound_tls, (w.tls, (w.reality, (w.api, w.metrics))))),
                        ),
                      ),
                    ),
                  ),
                ),
              ),
            ),
          ),
        ))
        (Accepts-then _ _ (Accepts-IsListen platform config.server.listen) λ h.
          Accepts-then _ _ (Accepts-server config.server) λ h.
            Accepts-then _ _ (Accepts-service config _) λ h.
              Accepts-then _ _ (Accepts-users config.protocol.socks5.enabled _ _ _) λ h.
                Accepts-then _ _
                  (Accepts-when config.protocol.vless.enabled _
                    λ on. Accepts-vless_users config.protocol.vless.users)
                  λ h. Accepts-then _ _ (Accepts-camouflage transport.tls.enabled _ _) λ h.
                    Accepts-then _ _ (Accepts-IsXhttp platform transport.xhttp) λ h.
                      Accepts-then _ _ (Accepts-IsAwg platform config) λ h.
                        Accepts-then _ _ (Accepts-hysteria2 platform config) λ h.
                          Accepts-then _ _ (Accepts-tuic platform config) λ h.
                            Accepts-then _ _ (Accepts-IsOutboundTls platform config.outbound.tls)
                              λ h.
                                Accepts-then _ _
                                  (Accepts-when transport.tls.enabled _ λ on. Accepts-tls_on config)
                                  λ h.
                                    Accepts-then _ _
                                      (Accepts-when transport.reality.enabled _
                                        λ on. Accepts-reality_on config)
                                      λ h.
                                        Accepts-then _ _
                                          (Accepts-when config.api.enabled _
                                            λ on. Accepts-IsApi platform config.api)
                                          λ h.
                                            Accepts-when config.metrics.enabled _
                                              λ on. Accepts-metrics platform config.metrics)

  pub validate_lem :
      (config : Config)
      → ((validate platform config ≡ ok tt) ↔ IsValid platform config)
        × (validate platform config ≢ panic)
  validate_lem config =
      let h = Accepts-validate config in
      (((λ e. h.sound (return _ tt e)), λ v. unit_of (h.complete v)), h.calm)
