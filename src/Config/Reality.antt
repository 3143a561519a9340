-- ===== src/Config/Reality.antt =====
-- The check of `transport.reality` in crates/skadi-config/src/lib.rs, and what the server builds behind the
-- checks from `transport.tls` and `transport.reality`.
use skadi_core.Prelude.{
  ℕ, ◌≡◌, ◌≢◌, ◌↔◌, ◌<◌, ◌≤◌, refl, ◌||◌, ltb, Bool, true, false, inl, inr, List, [], ◌∷◌, Option,
  none, some, All, length, arith,
}
use skadi_core.Prelude.Bytes.{codes}
use skadi_core.Prelude.Outcome.{ok}
use skadi_core.Config.{Config, RealityConfig, TlsSniCertConfig}
use skadi_core.Config.Common.{
  Platform, is_nil, contains, parse_tls_kex_mode, is_blank, decode_base64_32,
}
use skadi_core.Config.Validate.{check_short_ids, validate_reality}
use skadi_core.Config.Runtime.{unwrap, default_cert, sni_certs, tls_server_config, unwrap}
use skadi_core.Config.Backends.{
  first_cert, cert_of_file, load_impersonate_cert_file, decode_short_ids, load_impersonate_cert,
  reality_server_config,
}
use skadi_core.Config.Accepts.{
  Accepts-returned, Accepts-step, Returns, Accepts, return, Accepts-weaken, Accepts-ok,
  Accepts-fail_if, Accepts-ok_or, Accepts-then, Accepts-discard,
}
use skadi_core.Config.Spec.{
  HasKexMode, IsTls, IsKey32, IsShortId, IsReality, HasImpersonateCert, HoldsCert,
}
use skadi_core.Config.Parts.{Accepts-nil, Accepts-not, Accepts-length, Accepts-kex_mode}

module _ (platform : Platform) where
  short_id_size :
      (bytes : List ℕ)
      → (is_nil bytes || ltb 8 (length bytes) ≡ false) ↔ ((0 < length bytes) × (length bytes ≤ 8))
  short_id_size [] = ((λ h. cc), λ (h, k). absurd (omega (arith, h)))
  short_id_size (b ∷ bs) = ((λ h. (omega arith, ground (arith, h))), λ (h, k). ground (arith, k))

  Accepts-short_ids :
      (sids : List (List ℕ))
      → Accepts (check_short_ids platform sids) (All (IsShortId platform) sids)
  unfolding check_short_ids
  Accepts-short_ids [] = Accepts-ok tt
  Accepts-short_ids (sid ∷ sids) =
      Accepts-weaken
        (λ (bytes, e, (h, hs)). let (p, q) = (short_id_size bytes).0 h in ((bytes, e, p, q), hs))
        (λ ((bytes, e, p, q), hs). (bytes, e, ((short_id_size bytes).1 (p, q), hs)))
        (Accepts-ok_or (platform.hex_decode sid) _ _
          λ bytes e. Accepts-then _ _ (Accepts-fail_if _ _) λ h. Accepts-short_ids sids)

  Accepts-base64 :
      (text field : List ℕ) → Accepts (decode_base64_32 platform text field) (IsKey32 platform text)
  unfolding decode_base64_32
  Accepts-base64 text field =
      Accepts-weaken (λ (key, e, (h, u)). (key, e, h)) (λ (key, e, h). (key, e, (h, tt)))
        (Accepts-ok_or (platform.base64_decode (platform.trim text)) _ _
          λ key e. Accepts-then _ _ (Accepts-length key 32 _) λ h. Accepts-ok key)

  pub Accepts-validate_reality :
      (reality : RealityConfig)
      → Accepts (validate_reality platform reality) (IsReality platform reality)
  unfolding validate_reality
  Accepts-validate_reality reality =
      Accepts-weaken
        (λ (dest, d, (t, (c, (n, (key, k, (b, (s, (ids, m)))))))).
          ((dest, d, (t, c)), n, (key, k, b), s, ids, m))
        (λ ((dest, d, (t, c)), n, (key, k, b), s, ids, m).
          (dest, d, (t, (c, (n, (key, k, (b, (s, (ids, m)))))))))
        (Accepts-ok_or reality.dest _ _ λ dest d.
          Accepts-then _ _ (Accepts-fail_if (is_blank platform dest) _) λ h.
            Accepts-then _ _ (Accepts-not (contains b':' dest) _) λ h.
              Accepts-then _ _ (Accepts-nil reality.server_names _) λ h.
                Accepts-ok_or reality.private_key _ _ λ key k.
                  Accepts-then _ _ (Accepts-discard _ (Accepts-base64 key _)) λ h.
                    Accepts-then _ _ (Accepts-nil reality.short_ids _) λ h.
                      Accepts-then _ _ (Accepts-short_ids reality.short_ids)
                        λ h. Accepts-kex_mode reality.kex_mode _)

  Accepts-first_cert : (certs : List (List ℕ)) → Accepts (first_cert platform certs) (certs ≢ [])
  unfolding first_cert
  Accepts-first_cert [] = record {
    sound = λ r. let never = r.returned in cc;
    complete = λ h. absurd (h refl);
    calm = λ p. cc;
  }
  Accepts-first_cert (cert ∷ certs) = Accepts-weaken (λ u same. cc) (λ h. tt) (Accepts-ok cert)

  Accepts-cert_of_file :
      (bytes : List ℕ) (pem : Bool)
      → Accepts (cert_of_file platform bytes pem) (HoldsCert platform bytes pem)
  unfolding cert_of_file
  Accepts-cert_of_file bytes true =
      Accepts-ok_or (platform.pem_certs bytes) _ _ λ certs e. Accepts-first_cert certs
  Accepts-cert_of_file bytes false =
      Accepts-weaken (λ (h, u). h) (λ h. (h, tt))
        (Accepts-then _ _ (Accepts-nil bytes _) λ h. Accepts-ok bytes)

  Accepts-impersonate_cert_file :
      (path : List ℕ)
      → Accepts (load_impersonate_cert_file platform path) (HasImpersonateCert platform (some path))
  unfolding load_impersonate_cert_file
  Accepts-impersonate_cert_file path =
      Accepts-ok_or (platform.read_file path) _ _ λ bytes e. Accepts-cert_of_file bytes _

  -- The certificate to show, if one is named.
  Accepts-impersonate_cert :
      (path : Option (List ℕ))
      → Accepts (load_impersonate_cert platform path) (HasImpersonateCert platform path)
  unfolding load_impersonate_cert
  Accepts-impersonate_cert none = Accepts-ok none
  Accepts-impersonate_cert (some path) =
      Accepts-weaken (λ (r, u). r) (λ r. (r, tt))
        (Accepts-step _ _ (Accepts-impersonate_cert_file path) λ cert e. Accepts-ok _)

  decode_short_ids-Returns :
      (sids : List (List ℕ))
      → All (IsShortId platform) sids
      → Returns (decode_short_ids platform sids)
  unfolding decode_short_ids
  decode_short_ids-Returns [] h = return _ [] refl
  decode_short_ids-Returns (sid ∷ sids) ((bytes, e, p, q), hs) =
      let r = decode_short_ids-Returns sids hs in
      return _ (bytes ∷ r.value) (let same = r.returned in rw (e, same) refl)

  Accepts-unwrap : {A : Type 0} (x : Option A) (a : A) → x ≡ some a → Accepts (unwrap x) Unit
  Accepts-unwrap none a e = absurd cc
  Accepts-unwrap (some b) a e = Accepts-ok b

  unwrap-same : {A : Type 0} (x : Option A) (a b : A) → x ≡ some a → unwrap x ≡ ok b → b ≡ a
  unwrap-same none a b e f = cc
  unwrap-same (some c) a b e f = cc

  key-Returns :
      (key text : List ℕ)
      → IsKey32 platform key
      → text ≡ key
      → Returns (decode_base64_32 platform text (codes "transport.reality.private_key"))
  key-Returns key text b same = rw same ((Accepts-base64 key _).complete b)

  mode-Returns :
      (value : List ℕ)
      → HasKexMode value
      → Returns (parse_tls_kex_mode value (codes "transport.reality.kex_mode"))
  unfolding parse_tls_kex_mode
  mode-Returns value (mode, m) = rw m (return _ mode refl)

  sni_certs-set : (certs : List TlsSniCertConfig) → certs ≢ [] → is_nil (sni_certs certs) ≡ false
  unfolding sni_certs
  sni_certs-set [] h = absurd (h refl)
  sni_certs-set (c ∷ cs) h = refl

  -- Behind `validate_reality` only the certificate is left to fail: the two `unwrap` never panic.
  pub Accepts-reality_server_config :
      (config : Config)
      → IsReality platform config.transport.reality
      → Accepts
          (reality_server_config platform config)
          (HasImpersonateCert platform config.transport.reality.impersonate_cert)
  unfolding reality_server_config
  Accepts-reality_server_config config ((dest, d, t), n, (key, k, b), s, ids, m) =
      let reality = config.transport.reality in
      Accepts-weaken (λ (u, (v, (w, (c, (x, (y, z)))))). c)
        (λ c. (tt, (tt, (tt, (c, (tt, (tt, tt)))))))
        (Accepts-step _ _ (Accepts-unwrap reality.private_key key k) λ text e.
          Accepts-step _ _ (Accepts-returned (key-Returns key text b (unwrap-same _ key text k e)))
            λ x e.
              Accepts-step _ _ (Accepts-returned (decode_short_ids-Returns reality.short_ids ids))
                λ x e. Accepts-step _ _ (Accepts-impersonate_cert reality.impersonate_cert) λ x e.
                  Accepts-step _ _ (Accepts-unwrap reality.dest dest d) λ x e.
                    Accepts-step _ _ (Accepts-returned (mode-Returns reality.kex_mode m))
                      λ x e. Accepts-ok _)

  -- Behind `validate_tls` nothing is left to fail.
  pub tls_server_config-Returns :
      (config : Config) → IsTls platform config.transport.tls → Returns (tls_server_config config)
  unfolding tls_server_config default_cert sni_certs parse_tls_kex_mode
  tls_server_config-Returns config (d, c, k, (mode, m), cs, ns, fs) = elim d [
    | inl (cert, p, (key, q)) ↦ rw (p, q, m) (return _ _ refl)
    | inr (p, q, e) ↦
        rw (p, q, sni_certs-set config.transport.tls.certificates e, m) (return _ _ refl)
  ]
