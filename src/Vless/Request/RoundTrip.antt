-- ===== src/Vless/Request/RoundTrip.antt =====
-- `parse_request` on a request written field by field, and after the builders of vless/parse.rs and
-- vless/client.rs.
use skadi_core.Prelude.{
  ℕ, ◌+◌, ◌<◌, ◌≤◌, ◌≡◌, refl, ◌∙◌, ◌⊎◌, List, [], ◌∷◌, ◌++◌, arith, length, length-append,
  take_front, get_elem?_behind, drop_behind, drop, get_elem?, le→ltb, some, ◌-◌, ap, false, true,
  not, ◌==◌, ◌&&◌, suc, get_elem?-append,
}
use skadi_core.Prelude.Outcome.{ok, ◌>>=◌, slice, byte_at, slice_some}
use skadi_core.Endpoint.{Endpoint, domain}
use skadi_core.Vless.Request.{
  ParseError, Parsed, VlessRequest, cmd_tcp, cmd_udp, cmd_mux, vless_version, max_addons,
  mux_placeholder_host, parse_addressed, parse_command, parse_addons_field, parse_request,
  parse_port_address,
}

abbrev pub request : List ℕ → ℕ → List ℕ → Endpoint → VlessRequest
request uuid command addons target = record {
  uuid = uuid;
  command = command;
  addons = addons;
  target = target;
}

-- The bytes of a request up to its command.
abbrev pub header : List ℕ → List ℕ → ℕ → List ℕ
header uuid addons command = vless_version ∷ (uuid ++ (length addons ∷ (addons ++ (command ∷ []))))

-- What `parse_request` makes of the answer about the address.
abbrev pub with_header : List ℕ → List ℕ → ℕ → Parsed Endpoint → Parsed VlessRequest
with_header uuid addons command r = r >>= λ p. ok (
  record { uuid = uuid; command = command; addons = addons; target = p.0 },
  19 + length addons + p.1,
)

module _ (uuid addons tail : List ℕ) (command : ℕ) where
  abbrev pub input : List ℕ
  input = vless_version ∷ (uuid ++ (length addons ∷ (addons ++ (command ∷ tail))))

  input-length : length uuid ≡ 16 → length input ≡ 19 + length addons + length tail
  input-length h = omega (
    arith,
    length-append uuid (length addons ∷ (addons ++ (command ∷ tail))),
    length-append addons (command ∷ tail),
  )

  drop_addons : length uuid ≡ 16 → drop 18 input ≡ addons ++ (command ∷ tail)
  drop_addons h = drop_behind 16 1 uuid _ h

  drop_tail : length uuid ≡ 16 → drop (19 + length addons) input ≡ tail
  drop_tail h =
      let e : 19 + length addons ≡ suc (16 + suc (length addons + 1)) = omega arith in
      rw e (
        drop_behind 16 (suc (length addons + 1)) uuid _ h
        ∙ drop_behind (length addons) 1 addons (command ∷ tail) refl)

  command_at : length uuid ≡ 16 → get_elem? input (18 + length addons) ≡ some command
  command_at h =
      let e : 18 + length addons ≡ suc (16 + suc (length addons)) = omega arith in
      rw e
        (get_elem?_behind 16 (suc (length addons)) uuid _ h ∙ get_elem?-append addons tail command)

  addressed_lem :
      length uuid ≡ 16
      → 3 ≤ length tail
      → parse_addressed input uuid addons command (19 + length addons)
        ≡ with_header uuid addons command (parse_port_address tail)
  unfolding parse_addressed
  addressed_lem h k = rw (
    le→ltb (length input) (19 + length addons + 3) (omega (arith, input-length h)),
    le→ltb (length input) (19 + length addons) (omega (arith, input-length h)),
    drop_tail h,
  )

  -- The two commands that carry an address.
  abbrev pub IsAddressed : Type 0
  IsAddressed = (command ≡ cmd_tcp) ⊎ (command ≡ cmd_udp)

  command_lem :
      length uuid ≡ 16
      → 3 ≤ length tail
      → IsAddressed
      → parse_command input uuid addons command (18 + length addons)
        ≡ with_header uuid addons command (parse_port_address tail)
  unfolding parse_command
  command_lem h k c =
      let not_mux : (command == cmd_mux) ≡ false = ground arith in
      let next : 18 + length addons + 1 ≡ 19 + length addons = omega arith in
      rw (not_mux, next) (addressed_lem h k)

  uuid_slice : length uuid ≡ 16 → slice {E = ParseError} input 1 17 ≡ ok uuid
  uuid_slice h =
      slice_some input 1 17 (omega arith) (omega (arith, input-length h))
      ∙ ap ok (take_front 16 uuid _ h)

  length_byte : length uuid ≡ 16 → byte_at {E = ParseError} input 17 ≡ ok (length addons)
  length_byte h =
      rw (get_elem?_behind 16 0 uuid (length addons ∷ (addons ++ (command ∷ tail))) h, byte_at)

  addons_slice : length uuid ≡ 16 → slice {E = ParseError} input 18 (18 + length addons) ≡ ok addons
  addons_slice h =
      let n : 18 + length addons - 18 ≡ length addons = omega arith in
      slice_some input 18 (18 + length addons) (omega arith) (omega (arith, input-length h))
      ∙ rw (drop_addons h, n) (ap ok (take_front (length addons) addons (command ∷ tail) refl))

  command_byte : length uuid ≡ 16 → byte_at {E = ParseError} input (18 + length addons) ≡ ok command
  command_byte h = rw (command_at h, byte_at)

  fields_lem :
      length uuid ≡ 16
      → 3 ≤ length tail
      → IsAddressed
      → parse_addons_field input uuid (length addons)
        ≡ with_header uuid addons command (parse_port_address tail)
  unfolding parse_addons_field
  fields_lem h k c =
      let known : (not (command == cmd_tcp) && not (command == cmd_udp) && not (command == cmd_mux))
          ≡ false =
        ground arith in
      rw
        (
          le→ltb (length input) (18 + length addons + 1) (omega (arith, input-length h)),
          addons_slice h,
          command_byte h,
          known,
        )
        (command_lem h k c)

  -- A TCP or UDP request that is written field by field, with a UUID of 16 bytes, less than 256 bytes of
  -- addons and 3 bytes at least behind the command, parses to those fields and to the endpoint that
  -- `parse_port_address` reads behind the command; an error of that parser is passed on as it is.
  pub parse_request-header :
      length uuid ≡ 16
      → length addons < 256
      → IsAddressed
      → 3 ≤ length tail
      → parse_request input ≡ with_header uuid addons command (parse_port_address tail)
  unfolding parse_request
  parse_request-header h a c k =
      rw
        (
          le→ltb (length input) 18 (omega (arith, input-length h)),
          uuid_slice h,
          length_byte h,
          le→ltb max_addons (length addons) (omega arith),
        )
        (fields_lem h k c)

  -- A Mux request that is written field by field, with a UUID of 16 bytes and less than 256 bytes of
  -- addons, ends with its command, whatever follows, and has the placeholder for its endpoint.
  pub parse_request-header_mux :
      length uuid ≡ 16
      → length addons < 256
      → command ≡ cmd_mux
      → parse_request input
        ≡ ok (request uuid command addons (domain mux_placeholder_host 0), 19 + length addons)
  unfolding parse_request parse_addons_field parse_command
  parse_request-header_mux h a c =
      let known : (not (command == cmd_tcp) && not (command == cmd_udp) && not (command == cmd_mux))
          ≡ false =
        ground arith in
      let mux : (command == cmd_mux) ≡ true = ground arith in
      let end : 18 + length addons + 1 ≡ 19 + length addons = omega arith in
      rw (
        le→ltb (length input) 18 (omega (arith, input-length h)),
        uuid_slice h,
        length_byte h,
        le→ltb max_addons (length addons) (omega arith),
        le→ltb (length input) (18 + length addons + 1) (omega (arith, input-length h)),
        addons_slice h,
        command_byte h,
        known,
        mux,
        end,
      )
