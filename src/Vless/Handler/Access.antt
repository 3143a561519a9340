-- ===== src/Vless/Handler/Access.antt =====
-- Who gets through `handshake` of vless/handler.rs.
use skadi_core.Prelude.{
  ℕ, ◌≡◌, ◌⊎◌, inl, inr, refl, sym, ap, ◌∙◌, Bool, not, List, [], ◌++◌, Option, none, some, ltb,
  ◌==◌, length, take, drop, arith, length-take, length-drop, take_grow, drop_grow,
}
use mathlib.Core.List.{append-nil}
use mathlib.Core.Path.{subst, subst⁻¹}
use skadi_core.Prelude.Outcome.{Outcome, ok, byte_at, slice}
use skadi_core.Endpoint.{IsEquality}
use skadi_core.Stream.{Conn, map_err}
use skadi_core.Stream.Reads.{map_err-returns}
use skadi_core.Stream.Uses.{
  Uses, Uses-bind, Uses-read, Uses-exact, Uses-lift, Uses-fail_when, Uses-pure, Uses-if, Uses-write,
  Uses-weaken,
}
use skadi_core.Vless.Request.{
  VlessRequest, parse_request, max_addons, max_domain, vless_version, cmd_mux, atyp_ipv4, atyp_ipv6,
  atyp_domain,
}
use skadi_core.Vless.Request.Identifier.{request_uuid}
use skadi_core.Vless.Addons.{VlessAddons, parse_addons, validate_flow}
use skadi_core.Vless.Users.{VlessUser, authenticate}
use skadi_core.Vless.Users.Authenticate.{IsFirstUser, authenticate_lem}
use skadi_core.Vless.Handler.{
  VlessHandshake, HandshakeError, no_prefix, bad_version, large_addons, no_addons, no_command,
  no_port, closed, long_address, no_address, bad_user_id, bad_request, bad_addons, bad_flow,
  unwritable, read_addr_len, read_target, read_header, accept, accept_found, handshake,
}

read_addr_len-Uses : (atyp : ℕ) → Uses (λ used r. used ≡ r.0) (read_addr_len atyp)
unfolding read_addr_len
read_addr_len-Uses atyp =
    Uses-if (atyp == atyp_ipv4) _ _ (λ _. Uses-pure _ refl)
      λ _.
        Uses-if (atyp == atyp_ipv6) _ _ (λ _. Uses-pure _ refl)
          λ _.
            Uses-if (atyp == atyp_domain) _ _
              (λ _.
                Uses-read closed 1 _
                  λ dlen _. Uses-lift (byte_at dlen 0) _ λ len _. Uses-pure _ (append-nil dlen))
              λ _. record { uses = λ c after b p. cc }

read_target-Uses : Uses (λ used bytes. used ≡ bytes) read_target
unfolding read_target
read_target-Uses = Uses-read no_port 3 _ λ port_atyp _. Uses-lift (byte_at port_atyp 2) _ λ atyp _.
    Uses-bind _ _ (read_addr_len-Uses atyp) λ before r same.
      Uses-fail_when (ltb max_domain r.1) (long_address r.1) _ λ _.
        Uses-read no_address r.1 _ λ address _. Uses-pure _ (rw (same, append-nil address) refl)

uuid_at :
    (head more uuid : List ℕ)
    → length head ≡ 18
    → slice {E = HandshakeError} head 1 17 ≡ ok uuid
    → take 16 (drop 1 (head ++ more)) ≡ uuid
uuid_at head more uuid h e =
    let cut : take 16 (drop 1 head) ≡ uuid = ground (arith, h) in
    rw
      (
        drop_grow 1 head more (omega arith),
        take_grow 16 (drop 1 head) more (omega (arith, length-drop 1 head)),
      )
      cut

uuid_length :
    (head uuid : List ℕ)
    → length head ≡ 18
    → slice {E = HandshakeError} head 1 17 ≡ ok uuid
    → length uuid ≡ 16
uuid_length head uuid h e =
    let cut : take 16 (drop 1 head) ≡ uuid = ground (arith, h) in
    omega (arith, ap length cut, length-take 16 (drop 1 head), length-drop 1 head)

-- The identifier of the user is the one that the bytes read hold.
read_header-Uses :
    Uses (λ used r. (used ≡ r.1) × (take 16 (drop 1 used) ≡ r.0) × (length r.0 ≡ 16)) read_header
unfolding read_header
read_header-Uses = Uses-read no_prefix 18 _ λ head size. Uses-lift (byte_at head 0) _ λ version _.
    Uses-fail_when (not (version == vless_version)) (bad_version version) _ λ _.
      Uses-lift (slice head 1 17) _ λ uuid e. Uses-lift (byte_at head 17) _ λ addons_len _.
        Uses-fail_when (ltb max_addons addons_len) (large_addons addons_len) _ λ _.
          Uses-bind _ _
            (Uses-if (ltb 0 addons_len) _ _ (λ _. Uses-exact no_addons addons_len)
              λ _. Uses-pure [] refl)
            λ used addons same. Uses-read no_command 1 _ λ command_buf _.
              Uses-lift (byte_at command_buf 0) _ λ command _.
                Uses-bind _ _
                  (Uses-if (not (command == cmd_mux)) _ _ (λ _. read_target-Uses)
                    λ _. Uses-pure [] refl)
                  λ used_2 rest same_2. Uses-pure _ (
                    (rw (same, same_2, append-nil rest) refl),
                    uuid_at head _ uuid size e,
                    uuid_length head uuid size e,
                  )

-- What the bytes of a handshake hold that a user has passed: a request of a user of the list, the first one
-- of its identifier, which asks for no flow.
pub record Passed (users : List VlessUser) (used : List ℕ) (h : VlessHandshake) : Type 0 where
  pub request : VlessRequest
  pub size : ℕ
  pub user : VlessUser
  pub addons : VlessAddons
  pub parsed : parse_request used ≡ ok (request, size)
  pub first : IsFirstUser request.uuid users user
  pub asked : parse_addons request.addons ≡ ok addons
  pub allowed : validate_flow addons.flow user.flow ≡ ok tt
  pub named : h ≡ record { command = request.command; target = request.target }

same_ok : {E A : Type 0} (a b : A) → ◌≡◌ {A = Outcome E A} (ok a) (ok b) → a ≡ b
same_ok a b e = cc

module _ (ct_eq : List ℕ → List ℕ → Bool) (equality : IsEquality ct_eq)
    (users : List VlessUser) where
  accept-Uses :
      (used : List ℕ) (uuid : List ℕ) (user : VlessUser)
      → take 16 (drop 1 used) ≡ uuid
      → IsFirstUser uuid users user
      → Uses (λ more h. (more ≡ []) × Passed users used h) (accept user used)
  unfolding accept
  accept-Uses used uuid user at first =
      Uses-lift (map_err bad_request (parse_request used)) _ λ r p.
        let parsed = map_err-returns bad_request (parse_request used) r p in
        Uses-lift (map_err bad_addons (parse_addons r.0.addons)) _ λ addons q.
          Uses-lift (map_err bad_flow (validate_flow addons.flow user.flow)) _ λ _ v.
            Uses-write unwritable _ _ (
              Uses-pure _ (
                refl,
                record {
                  request = r.0;
                  size = r.1;
                  user = user;
                  addons = addons;
                  parsed = parsed;
                  first =
                      subst (λ id. IsFirstUser id users user)
                        (sym at ∙ request_uuid used r.0 r.1 parsed) first;
                  asked = map_err-returns bad_addons (parse_addons r.0.addons) addons q;
                  allowed = map_err-returns bad_flow (validate_flow addons.flow user.flow) tt v;
                  named = refl;
                },
              ))

  found_first :
      (uuid : List ℕ) (found : Option VlessUser)
      → length uuid ≡ 16
      → authenticate ct_eq users uuid ≡ ok found
      → (found ≡ none) ⊎ ((user : VlessUser) × (found ≡ some user) × IsFirstUser uuid users user)
  found_first uuid found h e = elim (authenticate_lem ct_eq equality uuid h users) [
    | inl (p, _) ↦ inl (same_ok _ _ (sym e ∙ p))
    | inr (user, p, first) ↦ inr (user, same_ok _ _ (sym e ∙ p), first)
  ]

  found-Uses :
      (used uuid : List ℕ) (found : Option VlessUser)
      → take 16 (drop 1 used) ≡ uuid
      → (found ≡ none) ⊎ ((user : VlessUser) × (found ≡ some user) × IsFirstUser uuid users user)
      → Uses (λ more h. (more ≡ []) × Passed users used h) (accept_found found used)
  unfolding accept_found
  found-Uses used uuid found at (inl e) = rw e (record { uses = λ c after b p. cc })
  found-Uses used uuid found at (inr (user, e, first)) = rw e (accept-Uses used uuid user at first)

  handshake-Uses : Uses (Passed users) (handshake ct_eq users)
  unfolding handshake
  handshake-Uses = Uses-bind _ _ read_header-Uses λ used (uuid, full) (same, at, size).
      Uses-lift (map_err bad_user_id (authenticate ct_eq users uuid)) _ λ found e.
        Uses-weaken
          (subst (λ xs. Uses (λ more h. (more ≡ []) × Passed users used h) (accept_found found xs))
            same
            (found-Uses used uuid found at
              (found_first uuid found size (map_err-returns bad_user_id _ found e))))
          λ more h (empty, passed).
            subst⁻¹ (λ xs. Passed users xs h) (ap (◌++◌ used) empty ∙ append-nil used) passed

  pub handshake-authenticated :
      (c after : Conn) (h : VlessHandshake)
      → handshake ct_eq users c ≡ (ok h, after)
      → (used : List ℕ) × (c.input ≡ used ++ after.input) × Passed users used h
  handshake-authenticated c after h e = handshake-Uses.uses c after h e
