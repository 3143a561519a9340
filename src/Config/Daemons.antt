-- ===== src/Config/Daemons.antt =====
-- The configurations of the daemons that crates/skadi-config/src/lib.rs builds: what its checks accept.
use skadi_core.Prelude.{
  ℕ, ◌≡◌, ◌⊎◌, refl, true, inl, inr, List, [], ◌∷◌, ◌++◌, Option, none, some, All,
}
use skadi_core.Prelude.Bytes.{codes}
use skadi_core.Config.{Config, AwgPeerFileConfig}
use skadi_core.Config.Common.{ParsedAddr, Platform, is_blank, parse_listen}
use skadi_core.Config.Checks.{validate_hysteria2, validate_tuic}
use skadi_core.Config.Runtime.{
  awg_peers, awg_server_config, hysteria2_listen, hysteria2_server_config,
}
use skadi_core.Config.Backends.{tuic_server_config}
use skadi_core.Config.Hysteria2.{render_server_yaml}
use skadi_core.Config.Tuic.{render_server_toml}
use skadi_core.Config.Accepts.{
  Accepts-step, Accepts, Accepts-weaken, Accepts-ok, Accepts-fail_if, Accepts-then, Accepts-when,
}
use skadi_core.Config.Spec.{IsGiven, IsAddress, IsPeer, IsAwgFile, IsHysteria2, IsTuic}
use skadi_core.Config.Parts.{
  Accepts-required-bind, Accepts-nil, Accepts-set, Accepts-uuid, Accepts-required,
}

module _ (platform : Platform) where
  pub Accepts-IsAddress :
      (text field : List ℕ) → Accepts (parse_listen platform text field) (IsAddress platform text)
  unfolding parse_listen
  Accepts-IsAddress text field = Accepts-set (platform.parse_addr text) _

  Accepts-awg_peers :
      (peers : List AwgPeerFileConfig)
      → Accepts (awg_peers platform peers) (All (IsPeer platform) peers)
  unfolding awg_peers
  Accepts-awg_peers [] = Accepts-ok []
  Accepts-awg_peers (peer ∷ peers) =
      Accepts-weaken (λ (t, (i, (ps, u))). ((t, i), ps)) (λ ((t, i), ps). (t, (i, (ps, tt))))
        (Accepts-then _ _ (Accepts-fail_if (is_blank platform peer.public_key) _) λ h.
          Accepts-then _ _ (Accepts-nil peer.allowed_ips _)
            λ h. Accepts-step _ _ (Accepts-awg_peers peers) λ rest e. Accepts-ok _)

  -- The settings of AmneziaWG build a configuration of the daemon exactly where the address parses, the
  -- key and the name of the interface are there, and each peer has a key and networks.
  pub Accepts-awg_server_config :
      (config : Config)
      → Accepts (awg_server_config platform config) (IsAwgFile platform config.transport.awg)
  unfolding awg_server_config
  Accepts-awg_server_config config =
      let awg = config.transport.awg in
      Accepts-weaken (λ (a, (k, (i, (n, (ps, u))))). (a, k, i, n, ps))
        (λ (a, k, i, n, ps). (a, (k, (i, (n, (ps, tt))))))
        (Accepts-step _ _ (Accepts-IsAddress awg.listen _) λ listen e.
          Accepts-step _ _ (Accepts-required platform awg.private_key _) λ key e.
            Accepts-then _ _ (Accepts-fail_if (is_blank platform awg.interface) _) λ h.
              Accepts-then _ _ (Accepts-nil awg.peers _)
                λ h. Accepts-step _ _ (Accepts-awg_peers awg.peers) λ peers e. Accepts-ok _)

  Accepts-hysteria2_listen :
      (text : List ℕ) (x : Option ParsedAddr)
      → Accepts
          (hysteria2_listen platform text x)
          (IsGiven x ⊎ IsAddress platform (codes "0.0.0.0" ++ text))
  unfolding hysteria2_listen
  Accepts-hysteria2_listen text (some addr) =
      Accepts-weaken (λ h. inl (addr, refl)) (λ h. tt) (Accepts-ok addr)
  Accepts-hysteria2_listen text none =
      Accepts-weaken (λ h. inr h) (λ h. elim h [ inl (a, never) ↦ absurd cc | inr k ↦ k ])
        (Accepts-IsAddress (codes "0.0.0.0" ++ text) _)

  pub Accepts-hysteria2 :
      (config : Config)
      → Accepts (validate_hysteria2 platform config) (
          config.transport.hysteria2.enabled ≡ true
          → IsHysteria2 platform config.transport.hysteria2)
  unfolding validate_hysteria2 hysteria2_server_config render_server_yaml
  Accepts-hysteria2 config =
      let hy2 = config.transport.hysteria2 in
      Accepts-when hy2.enabled _ λ on.
        Accepts-weaken (λ ((l, (p, (c, (k, u)))), v). (l, p, c, k))
          (λ (l, p, c, k). ((l, (p, (c, (k, tt)))), tt))
          (Accepts-step _ _
            (Accepts-step _ _ (Accepts-hysteria2_listen hy2.listen (platform.parse_addr hy2.listen))
              λ listen e. Accepts-step _ _ (Accepts-required platform hy2.password _) λ password e.
                Accepts-step _ _ (Accepts-required platform hy2.cert _) λ cert e.
                  Accepts-step _ _ (Accepts-required platform hy2.key _) λ key e. Accepts-ok _)
            λ runtime e. Accepts-ok tt)

  pub Accepts-tuic :
      (config : Config)
      → Accepts
          (validate_tuic platform config)
          (config.transport.tuic.enabled ≡ true → IsTuic platform config.transport.tuic)
  unfolding validate_tuic tuic_server_config render_server_toml
  Accepts-tuic config =
      let tuic = config.transport.tuic in
      Accepts-when tuic.enabled _ λ on.
        Accepts-weaken
          (λ ((l, (v, e, (t, (i, (q, (c, (k, u))))))), w). (l, (v, e, (t, i)), q, c, k))
          (λ (l, (v, e, (t, i)), q, c, k). ((l, (v, e, (t, (i, (q, (c, (k, tt))))))), tt))
          (Accepts-step _ _
            (Accepts-step _ _ (Accepts-IsAddress tuic.listen _) λ listen e.
              Accepts-required-bind platform tuic.uuid _ _ λ uuid.
                Accepts-then _ _ (Accepts-uuid uuid _) λ h.
                  Accepts-step _ _ (Accepts-required platform tuic.password _) λ password e.
                    Accepts-step _ _ (Accepts-required platform tuic.certificate _) λ cert e.
                      Accepts-step _ _ (Accepts-required platform tuic.private_key _)
                        λ key e. Accepts-ok _)
            λ runtime e. Accepts-ok tt)
