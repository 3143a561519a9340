-- ===== src/Vless/Handler/Silence.antt =====
-- What a client sees of a handshake that fails.
use skadi_core.Prelude.{
  ℕ, ◌≡◌, ◌≢◌, ◌⊎◌, inl, inr, refl, sym, Bool, Bool-cases, not, List, [], ◌∷◌, ◌++◌, Option, none,
  some, ltb, ◌==◌,
}
use skadi_core.Prelude.Outcome.{Outcome, ok, err, panic, byte_at, slice}
use skadi_core.Stream.{Conn, resume, ◌>>=◌, map_err}
use skadi_core.Stream.Quiet.{
  IsQuiet, IsQuiet-bind, IsQuiet-read, IsQuiet-lift, IsQuiet-fail_when, IsQuiet-if,
}
use skadi_core.Vless.Request.{
  parse_request, build_response_header, max_addons, max_domain, vless_version, cmd_mux, atyp_ipv4,
  atyp_ipv6, atyp_domain,
}
use skadi_core.Vless.Addons.{parse_addons, validate_flow}
use skadi_core.Vless.Users.{VlessUser, authenticate}
use skadi_core.Vless.Handler.{
  Handshake, HandshakeError, bad_request, bad_addons, bad_flow, no_prefix, bad_version,
  large_addons, no_addons, no_command, no_port, closed, long_address, no_address, bad_user_id,
  read_addr_len, read_target, read_header, accept, accept_found, handshake,
}

read_addr_len-IsQuiet : (atyp : ℕ) → IsQuiet (read_addr_len atyp)
unfolding read_addr_len
read_addr_len-IsQuiet atyp = IsQuiet-if (atyp == atyp_ipv4) _ _ (IsQuiet-lift _) (
    IsQuiet-if (atyp == atyp_ipv6) _ _ (IsQuiet-lift _) (
      IsQuiet-if (atyp == atyp_domain) _ _
        (IsQuiet-bind _ _ (IsQuiet-read closed 1)
          λ dlen. IsQuiet-bind _ _ (IsQuiet-lift (byte_at dlen 0)) λ len. IsQuiet-lift _)
        (IsQuiet-lift _)))

read_target-IsQuiet : IsQuiet read_target
unfolding read_target
read_target-IsQuiet = IsQuiet-bind _ _ (IsQuiet-read no_port 3) λ port_atyp.
    IsQuiet-bind _ _ (IsQuiet-lift (byte_at port_atyp 2)) λ atyp.
      IsQuiet-bind _ _ (read_addr_len-IsQuiet atyp) λ r.
        IsQuiet-bind _ _ (IsQuiet-fail_when (ltb max_domain r.1) (long_address r.1))
          λ _. IsQuiet-bind _ _ (IsQuiet-read no_address r.1) λ address. IsQuiet-lift _

read_header-IsQuiet : IsQuiet read_header
unfolding read_header
read_header-IsQuiet = IsQuiet-bind _ _ (IsQuiet-read no_prefix 18) λ head.
    IsQuiet-bind _ _ (IsQuiet-lift (byte_at head 0)) λ version.
      IsQuiet-bind _ _ (IsQuiet-fail_when (not (version == vless_version)) (bad_version version))
        λ _. IsQuiet-bind _ _ (IsQuiet-lift (slice head 1 17)) λ uuid.
          IsQuiet-bind _ _ (IsQuiet-lift (byte_at head 17)) λ addons_len.
            IsQuiet-bind _ _
              (IsQuiet-fail_when (ltb max_addons addons_len) (large_addons addons_len))
              λ _.
                IsQuiet-bind _ _
                  (IsQuiet-if (ltb 0 addons_len) _ _ (IsQuiet-read no_addons addons_len)
                    (IsQuiet-lift (ok [])))
                  λ addons. IsQuiet-bind _ _ (IsQuiet-read no_command 1) λ command_buf.
                    IsQuiet-bind _ _ (IsQuiet-lift (byte_at command_buf 0)) λ command.
                      IsQuiet-bind _ _
                        (IsQuiet-if (not (command == cmd_mux)) _ _ read_target-IsQuiet
                          (IsQuiet-lift (ok [])))
                        λ rest. IsQuiet-lift _

-- Either nothing is written and nothing is returned, or the answer is written and a result returned.
abbrev pub Answers : {A : Type 0} → List ℕ → Handshake A → Type 0
Answers {A = A} answer m =
    (c : Conn)
    → ((m c).1.output ≡ c.output) × ((a : A) → (m c).0 ≢ ok a)
      ⊎ (a : A) × ((m c).0 ≡ ok a) × ((m c).1.output ≡ c.output ++ answer)

Answers-bind :
    {A B : Type 0} (answer : List ℕ) (m : Handshake A) (f : A → Handshake B)
    → IsQuiet m
    → ((a : A) → Answers answer (f a))
    → Answers answer (m >>= f)
Answers-bind {A = A} {B = B} answer m f h k c = go (m c).0 (m c).1 (h.quiet c)
  where
    go :
        (r : Outcome HandshakeError A) (now : Conn)
        → now.output ≡ c.output
        → ((resume f r now).1.output ≡ c.output) × ((b : B) → (resume f r now).0 ≢ ok b)
          ⊎ (b : B) × ((resume f r now).0 ≡ ok b) × ((resume f r now).1.output ≡ c.output ++ answer)
    go (ok a) now e = rw (sym e) (k a now)
    go (err x) now e = inl (e, λ b p. cc)
    go panic now e = inl (e, λ b p. cc)

accept-Answers : (user : VlessUser) (full : List ℕ) → Answers (0 ∷ 0 ∷ []) (accept user full)
unfolding accept build_response_header
accept-Answers user full =
    Answers-bind _ _ _ (IsQuiet-lift (map_err bad_request (parse_request full))) λ r.
      Answers-bind _ _ _ (IsQuiet-lift (map_err bad_addons (parse_addons r.0.addons))) λ addons.
        Answers-bind _ _ _ (IsQuiet-lift (map_err bad_flow (validate_flow addons.flow user.flow)))
          λ _ c. elim (Bool-cases c.writable) [
            | inl w ↦ rw w (inr (_, refl, refl))
            | inr w ↦ rw w (inl (refl, λ b p. cc))
          ]

found-Answers :
    (found : Option VlessUser) (full : List ℕ) → Answers (0 ∷ 0 ∷ []) (accept_found found full)
unfolding accept_found
found-Answers none full c = inl (refl, λ b p. cc)
found-Answers (some user) full c = accept-Answers user full c

-- A handshake that fails writes nothing, whatever the reason; one that returns has written the response
-- header and nothing else.
pub handshake_silent :
    (ct_eq : List ℕ → List ℕ → Bool) (users : List VlessUser)
    → Answers (0 ∷ 0 ∷ []) (handshake ct_eq users)
unfolding handshake
handshake_silent ct_eq users = Answers-bind _ _ _ read_header-IsQuiet λ (uuid, full).
    Answers-bind _ _ _ (IsQuiet-lift (map_err bad_user_id (authenticate ct_eq users uuid)))
      λ found. found-Answers found full
