-- ===== src/Config/Certificates.antt =====
-- `validate_tls` and `tls_server_config` of crates/skadi-config/src/lib.rs: the certificates of the server.
use skadi_core.Prelude.{
  ℕ, ◌≡◌, ◌≢◌, ◌⊎◌, refl, ◌||◌, ◌&&◌, not, Bool, true, false, inl, inr, List, [], ◌∷◌, ◌++◌, map,
  Option, none, some, All,
}
use skadi_core.Prelude.Outcome.{Outcome, ok, ◌>>◌, fail_if}
use skadi_core.Endpoint.{octets_eq}
use skadi_core.Config.{TlsConfig, TlsSniCertConfig}
use skadi_core.Config.Common.{is_some, ConfigError, is_nil, Platform}
use skadi_core.Config.Checks.{
  validate_tls, member, normalized, check_names, check_certificates, validate_tls,
}
use skadi_core.Config.Accepts.{
  return, Accepts, Accepts-weaken, Accepts-ok, Accepts-fail_if, Accepts-bind, Accepts-then,
}
use skadi_core.Config.Distinct.{IsFresh-IsDistinct, octets_eq-IsEq, IsFresh}
use skadi_core.Config.Spec.{IsReadable, IsTls, IsGiven, names_of, IsCertificate}
use skadi_core.Config.Parts.{Accepts-file_if_set, Accepts-kex_mode, Accepts-nil, Accepts-file}

-- The values seen after a scan: the last on top.
abbrev pub seen_after : List (List ℕ) → List (List ℕ) → List (List ℕ)
seen_after seen [] = seen
seen_after seen (x ∷ xs) = seen_after (x ∷ seen) xs

abbrev Fresh : List (List ℕ) → List (List ℕ) → Type 0
Fresh = IsFresh octets_eq

abbrev Named : List (List ℕ) → Type 0
Named = All (λ name. name ≢ [])

-- A scan of two lists is one of the first and, from where it ends, one of the second.
Fresh-append :
    (seen xs ys : List (List ℕ))
    → Fresh seen (xs ++ ys)
    → Fresh seen xs × Fresh (seen_after seen xs) ys
Fresh-append seen [] ys h = (tt, h)
Fresh-append seen (x ∷ xs) ys (h, hs) = let (f, g) = Fresh-append (x ∷ seen) xs ys hs in ((h, f), g)

append-Fresh :
    (seen xs ys : List (List ℕ))
    → Fresh seen xs
    → Fresh (seen_after seen xs) ys
    → Fresh seen (xs ++ ys)
append-Fresh seen [] ys h g = g
append-Fresh seen (x ∷ xs) ys (h, hs) g = (h, append-Fresh (x ∷ seen) xs ys hs g)

Named-append : (xs ys : List (List ℕ)) → Named (xs ++ ys) → Named xs × Named ys
Named-append [] ys h = (tt, h)
Named-append (x ∷ xs) ys (h, hs) = let (f, g) = Named-append xs ys hs in ((h, f), g)

append-Named : (xs ys : List (List ℕ)) → Named xs → Named ys → Named (xs ++ ys)
append-Named [] ys h g = g
append-Named (x ∷ xs) ys (h, hs) g = (h, append-Named xs ys hs g)

passed :
    {B : Type 0} (b : Bool) (e : ConfigError) (k : Outcome ConfigError B) (out : B)
    → (fail_if b e >> k) ≡ ok out
    → k ≡ ok out
passed true e k out h = cc
passed false e k out h = h

module _ (platform : Platform) where
  abbrev names : List (List ℕ) → List (List ℕ)
  names = map (λ name. normalized platform name)

  Accepts-names :
      (seen texts : List (List ℕ))
      → Accepts (check_names platform seen texts) (Named (names texts) × Fresh seen (names texts))
  unfolding check_names
  Accepts-names seen [] = Accepts-weaken (λ h. (tt, tt)) (λ h. tt) (Accepts-ok seen)
  Accepts-names seen (text ∷ texts) =
      Accepts-weaken (λ (n, (f, (ns, fs))). ((n, ns), (f, fs)))
        (λ ((n, ns), (f, fs)). (n, (f, (ns, fs))))
        (Accepts-then _ _ (Accepts-nil (normalized platform text) _) λ h.
          Accepts-then _ _ (Accepts-fail_if (member octets_eq (normalized platform text) seen) _)
            λ h. Accepts-names (normalized platform text ∷ seen) texts)

  check_names-seen :
      (seen texts out : List (List ℕ))
      → check_names platform seen texts ≡ ok out
      → out ≡ seen_after seen (names texts)
  unfolding check_names
  check_names-seen seen [] out e = cc
  check_names-seen seen (text ∷ texts) out e =
      check_names-seen (normalized platform text ∷ seen) texts out (
        passed (member octets_eq (normalized platform text) seen) _ _ out
          (passed (is_nil (normalized platform text)) _ _ out e))

  abbrev Certified : List (List ℕ) → List TlsSniCertConfig → Type 0
  Certified seen entries =
      All (IsCertificate platform) entries
      × Named (names_of platform entries)
      × Fresh seen (names_of platform entries)

  -- What it means for one certificate more.
  Certified-cons :
      (seen : List (List ℕ)) (entry : TlsSniCertConfig) (entries : List TlsSniCertConfig)
      → Certified seen (entry ∷ entries)
      → (entry.server_names ≢ [])
        × (IsReadable platform entry.cert
            × (IsReadable platform entry.key
                × ((out : List (List ℕ)) × (check_names platform seen entry.server_names ≡ ok out)
                    × Certified out entries)))
  Certified-cons seen entry entries (((n, c, k), cs), ns, fs) =
      let (nm, nt) = Named-append (names entry.server_names) (names_of platform entries) ns in
      let (fr, ft) = Fresh-append seen (names entry.server_names) (names_of platform entries) fs in
      let r = (Accepts-names seen entry.server_names).complete (nm, fr) in
      let same = check_names-seen seen entry.server_names r.value r.returned in
      (n, (c, (k, (r.value, r.returned, (cs, nt, rw same ft)))))

  Accepts-certificates :
      (seen : List (List ℕ)) (entries : List TlsSniCertConfig)
      → Accepts (check_certificates platform seen entries) (Certified seen entries)
  unfolding check_certificates
  Accepts-certificates seen [] = Accepts-weaken (λ h. (tt, tt, tt)) (λ h. tt) (Accepts-ok tt)
  Accepts-certificates seen (entry ∷ entries) =
      Accepts-weaken
        (λ (n, (c, (k, (out, e, (cs, ns, fs))))).
          let (nm, fr) = (Accepts-names seen entry.server_names).sound (return _ out e) in
          let same = check_names-seen seen entry.server_names out e in
          (
            ((n, c, k), cs),
            append-Named (names entry.server_names) (names_of platform entries) nm ns,
            append-Fresh seen (names entry.server_names) (names_of platform entries) fr
                (rw same at fs),
          ))
        (Certified-cons seen entry entries)
        (Accepts-then _ _ (Accepts-nil entry.server_names _) λ h.
          Accepts-then _ _ (Accepts-file platform entry.cert _) λ h.
            Accepts-then _ _ (Accepts-file platform entry.key _) λ h.
              Accepts-bind (check_names platform seen entry.server_names) _
                (Accepts-names seen entry.server_names).calm
                λ out e. Accepts-certificates out entries)

  -- The two tests of the certificate for unknown names.
  Accepts-default :
      {B Q : Type 0} (cert key : Option (List ℕ)) (entries : List TlsSniCertConfig)
      (e f : ConfigError) (k : Outcome ConfigError B)
      → Accepts k Q
      → Accepts
          (fail_if ((is_some cert || is_some key) && (not (is_some cert) || not (is_some key))) e
            >> (fail_if (not (is_some cert) && is_nil entries) f >> k))
          ((((c : List ℕ) × (cert ≡ some c) × IsGiven key)
              ⊎ ((cert ≡ none) × (key ≡ none) × (entries ≢ [])))
            × Q)
  Accepts-default (some c) (some k) entries e f m h =
      Accepts-weaken (λ q. (inl (c, refl, (k, refl)), q)) (λ (p, q). q) h
  Accepts-default none none (entry ∷ entries) e f m h =
      Accepts-weaken (λ q. (inr (refl, refl, λ p. cc), q)) (λ (p, q). q) h
  Accepts-default none none [] e f m h = record {
    sound = λ r. let never = r.returned in cc;
    complete = λ (p, q). elim p [ inl (c, never, s) ↦ absurd cc | inr (x, y, n) ↦ absurd (n refl) ];
    calm = λ p. cc;
  }
  Accepts-default (some c) none entries e f m h = record {
    sound = λ r. let never = r.returned in cc;
    complete = λ (p, q). elim p [ inl (x, y, (z, never)) ↦ absurd cc | inr (x, y, n) ↦ absurd cc ];
    calm = λ p. cc;
  }
  Accepts-default none (some k) entries e f m h = record {
    sound = λ r. let never = r.returned in cc;
    complete = λ (p, q). elim p [ inl (x, y, z) ↦ absurd cc | inr (x, y, n) ↦ absurd cc ];
    calm = λ p. cc;
  }

  pub Accepts-IsTls : (tls : TlsConfig) → Accepts (validate_tls platform tls) (IsTls platform tls)
  unfolding validate_tls
  Accepts-IsTls tls =
      Accepts-weaken
        (λ (d, (c, (k, (m, (cs, ns, fs))))).
          (d, c, k, m, cs, ns, (IsFresh-IsDistinct octets_eq octets_eq-IsEq _).0 fs))
        (λ (d, c, k, m, cs, ns, fs).
          (d, (c, (k, (m, (cs, ns, (IsFresh-IsDistinct octets_eq octets_eq-IsEq _).1 fs))))))
        (Accepts-default tls.cert tls.key tls.certificates _ _ _ (
          Accepts-then _ _ (Accepts-file_if_set platform tls.cert _) λ h.
            Accepts-then _ _ (Accepts-file_if_set platform tls.key _) λ h.
              Accepts-then _ _ (Accepts-kex_mode tls.kex_mode _)
                λ h. Accepts-certificates [] tls.certificates))
