-- ===== src/Config/AmneziaWg.antt =====
-- The check of `transport.awg` in crates/skadi-config/src/lib.rs, which tries to write the configuration of
-- the daemon (crates/skadi-transport/src/awg/render.rs): what it accepts.
use skadi_core.Prelude.{
  ℕ, ◌≡◌, ◌≤◌, ◌∙◌, refl, not, ltb, Bool, true, false, Bool-cases, inl, inr, List, [], ◌∷◌, Option,
  none, some, All, ltb→le, le→ltb, sym,
}
use mathlib.Core.Path.{subst}
use skadi_core.Prelude.Outcome.{Outcome, ok, ◌>>=◌, ◌>>◌, fail_if}
use skadi_core.Config.{Config}
use skadi_core.Config.Common.{
  AmneziaSettings, AwgObfuscationConfig, Platform, ConfigError, HRange, is_blank, ok_or,
}
use skadi_core.Config.Checks.{awg_uses_placeholder_keys, check_awg_conf, validate_awg}
use skadi_core.Config.Awg.{
  settings_of, checked_settings, parse_single, parse_bounds, AwgPeerConfig, AwgServerConfig,
  split_once, parse_range, parse_h_range, parse_ipnet, parse_ipnets, build_preshared_key,
  build_endpoint, build_peer, build_peers, build_amnezia_settings, render_server_conf,
}
use skadi_core.Config.Accepts.{
  Calm, Calm-ok, Calm-ok_or, Calm-fail_if, Calm-bind, return, Accepts, Accepts-ok, Accepts-weaken,
  Accepts-bind, Accepts-when, Accepts-discard, Accepts-step, Accepts-then, Accepts-fail_if,
}
use skadi_core.Config.Spec.{
  IsGiven, IsRangeIn, IsRange, HasSettings, IsPresharedKey, IsAddressIfSet, IsWirePeer, IsWire,
  IsAwg,
}
use skadi_core.Config.Parts.{Accepts-set}
use skadi_core.Config.Daemons.{Accepts-IsAddress, Accepts-awg_server_config}

not-true : (b : Bool) → not b ≡ true → b ≡ false
not-true true e = cc
not-true false e = refl

not-false : (b : Bool) → not b ≡ false → b ≡ true
not-false true e = refl
not-false false e = cc

same_ok : {A : Type 0} (a b : A) → ◌≡◌ {A = Outcome ConfigError A} (ok a) (ok b) → a ≡ b
same_ok a b p = cc

-- The two numbers of a range, once they are parsed.
single-lem :
    (x : Option ℕ) (e : ConfigError) (h : HRange)
    → ((ok_or x e >>= λ n. ok (record { min = n; max = n })) ≡ ok h
        → (n : ℕ) × (x ≡ some n) × (record { min = n; max = n } ≡ h))
      × ((n : ℕ) × (x ≡ some n) × (record { min = n; max = n } ≡ h)
          → (ok_or x e >>= λ n. ok (record { min = n; max = n })) ≡ ok h)
single-lem none e h = ((λ p. cc), λ (n, p, q). cc)
single-lem (some m) e h =
    ((λ p. (m, refl, cc)), λ (n, p, q). let same : m ≡ n = cc in rw (same, q) refl)

module _ (platform : Platform) where
  Calm-parse_single : (field text : List ℕ) → Calm (parse_single platform field text)
  unfolding parse_single
  Calm-parse_single field text =
      Calm-bind _ _ (Calm-ok_or (platform.parse_u32 text) _) λ single. Calm-ok _

  Calm-parse_bounds : (field lo hi : List ℕ) → Calm (parse_bounds platform field lo hi)
  unfolding parse_bounds
  Calm-parse_bounds field lo hi =
      Calm-bind _ _ (Calm-ok_or (platform.parse_u32 (platform.trim lo)) _) λ least.
        Calm-bind _ _ (Calm-ok_or (platform.parse_u32 (platform.trim hi)) _)
          λ most. Calm-bind _ _ (Calm-fail_if _ _) λ u. Calm-ok _

  Calm-parse_range :
      (field text : List ℕ) (parts : Option (List ℕ × List ℕ))
      → Calm (parse_range platform field text parts)
  unfolding parse_range
  Calm-parse_range field text none = Calm-parse_single field text
  Calm-parse_range field text (some (lo, hi)) = Calm-parse_bounds field lo hi

  Calm-parse_h_range : (value field : List ℕ) → Calm (parse_h_range platform value field)
  unfolding parse_h_range
  Calm-parse_h_range value field = Calm-bind _ _ (Calm-fail_if _ _) λ u. Calm-parse_range field _ _

  parse_bounds-lem :
      (field : List ℕ) (x y : Option ℕ) (e : ConfigError) (h : HRange)
      → let parsed : Outcome ConfigError HRange = ok_or x e >>= λ least. ok_or y e >>= λ most.
          fail_if (ltb most least) e >> ok (record { min = least; max = most }) in
        let Holds : Type 0 =
          (least : ℕ) × (most : ℕ) × (x ≡ some least)
          × (y ≡ some most)
          × (least ≤ most)
          × (record { min = least; max = most } ≡ h) in
        (parsed ≡ ok h → Holds) × (Holds → parsed ≡ ok h)
  parse_bounds-lem field none y e h = ((λ p. cc), λ (a, b, p, q, l, s). cc)
  parse_bounds-lem field (some a) none e h = ((λ p. cc), λ (a, b, p, q, l, s). cc)
  parse_bounds-lem field (some a) (some b) e h = elim (Bool-cases (ltb b a)) [
    | inl t ↦ (
      (λ p. let never = rw t at p in cc),
      λ (least, most, p, q, l, s).
          let first : a ≡ least = cc in
          let second : b ≡ most = cc in
          let no_less = le→ltb most least l in let differs = rw (first, second) at t in cc,
    )
    | inr t ↦ (
      (λ p. let same = rw t at p in (a, b, refl, refl, ltb→le b a t, cc)),
      λ (least, most, p, q, l, s).
          let first : a ≡ least = cc in
          let second : b ≡ most = cc in rw t (rw (first, second, s) refl),
    )
  ]

  range-lem :
      (field text : List ℕ) (parts : Option (List ℕ × List ℕ)) (h : HRange)
      → (parse_range platform field text parts ≡ ok h → IsRangeIn platform parts text h)
        × (IsRangeIn platform parts text h → parse_range platform field text parts ≡ ok h)
  unfolding parse_range parse_single parse_bounds
  range-lem field text none h = single-lem (platform.parse_u32 text) _ h
  range-lem field text (some (lo, hi)) h =
      parse_bounds-lem field (platform.parse_u32 (platform.trim lo))
        (platform.parse_u32 (platform.trim hi)) _ h

  h_range-lem :
      (text field : List ℕ) (h : HRange)
      → (parse_h_range platform text field ≡ ok h → IsRange platform text h)
        × (IsRange platform text h → parse_h_range platform text field ≡ ok h)
  unfolding parse_h_range
  h_range-lem text field h =
      let trimmed = platform.trim text in
      let (sound, complete) = range-lem field trimmed (split_once b'-' trimmed) h in
      elim (Bool-cases (is_blank platform text)) [
        | inl e ↦ ((λ p. let never = rw e at p in cc), λ (t, p). cc)
        | inr e ↦ ((λ p. (e, sound (rw e at p))), λ (t, p). rw e (complete p))
      ]

  Accepts-checked_settings :
      (settings : AmneziaSettings)
      → Accepts
          (checked_settings platform settings)
          ((platform.settings_build settings ≡ true) × (platform.settings_validate settings ≡ true))
  unfolding checked_settings
  Accepts-checked_settings settings =
      Accepts-weaken (λ (b, (v, u)). (not-false _ b, not-false _ v))
        (λ (b, v). (rw b refl, (rw v refl, tt)))
        (Accepts-then _ _ (Accepts-fail_if (not (platform.settings_build settings)) _) λ b.
          Accepts-then _ _ (Accepts-fail_if (not (platform.settings_validate settings)) _)
            λ v. Accepts-ok settings)

  Accepts-settings :
      (obf : AwgObfuscationConfig)
      → Accepts (build_amnezia_settings platform obf) (HasSettings platform obf)
  unfolding build_amnezia_settings
  Accepts-settings obf =
      Accepts-weaken
        (λ (h1, a, (h2, b, (h3, c, (h4, d, (x, y))))). (
          h1,
          h2,
          h3,
          h4,
          (h_range-lem obf.h1 _ h1).0 a,
          (h_range-lem obf.h2 _ h2).0 b,
          (h_range-lem obf.h3 _ h3).0 c,
          (h_range-lem obf.h4 _ h4).0 d,
          x,
          y,
        ))
        (λ (h1, h2, h3, h4, a, b, c, d, x, y). (
          h1,
          (h_range-lem obf.h1 _ h1).1 a,
          (
            h2,
            (h_range-lem obf.h2 _ h2).1 b,
            (h3, (h_range-lem obf.h3 _ h3).1 c, (h4, (h_range-lem obf.h4 _ h4).1 d, (x, y))),
          ),
        ))
        (Accepts-bind _ _ (Calm-parse_h_range obf.h1 _).never λ h1 a.
          Accepts-bind _ _ (Calm-parse_h_range obf.h2 _).never λ h2 b.
            Accepts-bind _ _ (Calm-parse_h_range obf.h3 _).never λ h3 c.
              Accepts-bind _ _ (Calm-parse_h_range obf.h4 _).never
                λ h4 d. Accepts-checked_settings (settings_of obf h1 h2 h3 h4))

  Accepts-ipnets :
      (values : List (List ℕ)) (field : List ℕ)
      → Accepts
          (parse_ipnets platform values field)
          (All (λ net. IsGiven (platform.ip_net net)) values)
  unfolding parse_ipnets parse_ipnet
  Accepts-ipnets [] field = Accepts-ok []
  Accepts-ipnets (value ∷ values) field =
      Accepts-weaken (λ (a, (b, u)). (a, b)) (λ (a, b). (a, (b, tt)))
        (Accepts-step _ _ (Accepts-set (platform.ip_net value) _)
          λ net e. Accepts-step _ _ (Accepts-ipnets values field) λ nets e. Accepts-ok _)

  Accepts-IsPresharedKey :
      (key : Option (List ℕ))
      → Accepts (build_preshared_key platform key) (IsPresharedKey platform key)
  unfolding build_preshared_key
  Accepts-IsPresharedKey none = Accepts-ok none
  Accepts-IsPresharedKey (some psk) =
      Accepts-weaken (λ (a, u). a) (λ a. (a, tt))
        (Accepts-step _ _ (Accepts-set (platform.preshared_key psk) _) λ key e. Accepts-ok _)

  Accepts-endpoint :
      (endpoint : Option (List ℕ))
      → Accepts (build_endpoint platform endpoint) (IsAddressIfSet platform endpoint)
  unfolding build_endpoint
  Accepts-endpoint none = Accepts-ok none
  Accepts-endpoint (some text) =
      Accepts-weaken (λ (a, u). a) (λ a. (a, tt))
        (Accepts-step _ _ (Accepts-IsAddress platform text _) λ addr e. Accepts-ok _)

  Accepts-peer :
      (peer : AwgPeerConfig) → Accepts (build_peer platform peer) (IsWirePeer platform peer)
  unfolding build_peer
  Accepts-peer peer =
      Accepts-weaken (λ (a, (b, (c, (d, u)))). (a, b, c, d))
        (λ (a, b, c, d). (a, (b, (c, (d, tt)))))
        (Accepts-step _ _ (Accepts-set (platform.public_key peer.public_key) _) λ key e.
          Accepts-step _ _ (Accepts-ipnets peer.allowed_ips _) λ ips e.
            Accepts-step _ _ (Accepts-IsPresharedKey peer.preshared_key)
              λ psk e. Accepts-step _ _ (Accepts-endpoint peer.endpoint) λ endpoint e. Accepts-ok _)

  Accepts-peers :
      (peers : List AwgPeerConfig)
      → Accepts (build_peers platform peers) (All (IsWirePeer platform) peers)
  unfolding build_peers
  Accepts-peers [] = Accepts-ok []
  Accepts-peers (peer ∷ peers) =
      Accepts-weaken (λ (a, (b, u)). (a, b)) (λ (a, b). (a, (b, tt)))
        (Accepts-step _ _ (Accepts-peer peer)
          λ built e. Accepts-step _ _ (Accepts-peers peers) λ rest e. Accepts-ok _)

  -- The configuration of the daemon can be written exactly where the daemon takes its parts.
  Accepts-render_server_conf :
      (runtime : AwgServerConfig)
      → Accepts (render_server_conf platform runtime) (IsWire platform runtime)
  unfolding render_server_conf parse_ipnet
  Accepts-render_server_conf runtime =
      Accepts-weaken (λ (a, (b, (c, (d, u)))). (a, b, c, d))
        (λ (a, b, c, d). (a, (b, (c, (d, tt)))))
        (Accepts-step _ _ (Accepts-set (platform.private_key runtime.private_key) _) λ key e.
          Accepts-step _ _ (Accepts-set (platform.ip_net runtime.address) _) λ address e.
            Accepts-step _ _ (Accepts-settings runtime.obfuscation)
              λ awg e. Accepts-step _ _ (Accepts-peers runtime.peers) λ peers e. Accepts-ok _)

  Accepts-awg_conf :
      (runtime : AwgServerConfig)
      → Accepts
          (check_awg_conf platform runtime)
          (awg_uses_placeholder_keys platform runtime ≡ false → IsWire platform runtime)
  unfolding check_awg_conf
  Accepts-awg_conf runtime =
      Accepts-weaken (λ h e. h (rw e refl))
        (λ h e. h (not-true (awg_uses_placeholder_keys platform runtime) e))
        (Accepts-when (not (awg_uses_placeholder_keys platform runtime)) _
          λ e. Accepts-discard _ (Accepts-render_server_conf runtime))

  pub Accepts-IsAwg :
      (config : Config)
      → Accepts
          (validate_awg platform config)
          (config.transport.awg.enabled ≡ true → IsAwg platform config)
  unfolding validate_awg
  Accepts-IsAwg config =
      let built = Accepts-awg_server_config platform config in
      Accepts-when config.transport.awg.enabled _ λ on.
        Accepts-weaken
          (λ (runtime, e, wire). (
            built.sound (return _ runtime e),
            λ other f p.
                let same : runtime ≡ other = same_ok runtime other (sym e ∙ f) in
                subst (IsWire platform) same (wire (rw same p)),
          ))
          (λ (file, wire).
            let r = built.complete file in (r.value, r.returned, wire r.value r.returned))
          (Accepts-bind _ _ built.calm λ runtime e. Accepts-awg_conf runtime)
