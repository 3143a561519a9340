-- ===== src/Server/Dispatch/Guarded.antt =====
-- What a connection can make the server of crates/skadi-server/src/lib.rs do.
use skadi_core.Prelude.{
  ℕ, ◌≡◌, refl, inl, inr, ◌==◌, ==_iff, ◌++◌, Bool, true, false, Bool-cases, List, [], ◌∷◌, Option,
  All,
}
use mathlib.Core.Path.{subst⁻¹}
use skadi_core.Prelude.Bytes.{codes}
use skadi_core.Prelude.Outcome.{Outcome, ok, err, panic}
use skadi_core.Stream.{Conn}
use skadi_core.Endpoint.{Endpoint, IpAddr}
use skadi_core.Endpoint.Policy.{Error, validate_outbound_literal}
use skadi_core.Protocol.{Protocol, socks5, vless, EnabledProtocols, needs_sniffing}
use skadi_core.Socks5.{cmd_bind, cmd_udp_associate}
use skadi_core.Socks5.Negotiate.{NegotiateError}
use skadi_core.Vless.Request.{cmd_udp, cmd_mux}
use skadi_core.Inbound.{InboundRequest, InboundError, handshake_inbound}
use skadi_core.Server.AuthRateLimit.{LimiterInner}
use skadi_core.Server.Prefixed.{prefixed-none, prefixed-some}
use skadi_core.Server.Store.{StoreState, socks5_config, vless_config}
use skadi_core.Server.Dispatch.{
  HandleError, record_auth_failure, is_auth_failure, dialed_tcp, dialed_udp, ran_bind,
  ran_associate, ran_mux, relayed, broke, connected, refused, rep_not_allowed, Event, RelayResult,
  Connected, Outside, Served, Handled, same_text, finish_relay, classify_connect_error,
  send_error_to,
}
use skadi_core.Server.Dispatch.Handle.{
  failed_handshake, read_prefix, handle_connection, shaken, chosen, read_first, replied,
  relay_connected, connected_tcp, connected_udp, serve_tcp, serve_udp, serve_mux, serve_command,
  checked, serve_target, serve_bind, serve_associate, serve_request,
}

-- Nothing was asked of a transport.
abbrev pub IsQuietEvent : Event → Type 0
IsQuietEvent (dialed_tcp t) = ⊥
IsQuietEvent (dialed_udp t) = ⊥
IsQuietEvent ran_bind = ⊥
IsQuietEvent ran_associate = ⊥
IsQuietEvent ran_mux = ⊥
IsQuietEvent _ = Unit {0}

module _ (allow_private : Bool) (command : ℕ) (target : Endpoint) where
  -- A transport was asked for what this command is, and for this target only, which the policy allows; the two
  -- commands of SOCKS5 that connect to no target are the exception.
  abbrev pub IsAllowed : Event → Type 0
  IsAllowed (dialed_tcp t) = (t ≡ target) × (validate_outbound_literal target allow_private ≡ ok tt)
  IsAllowed (dialed_udp t) = (t ≡ target) × (validate_outbound_literal target allow_private ≡ ok tt)
  IsAllowed ran_bind = command ≡ cmd_bind
  IsAllowed ran_associate = command ≡ cmd_udp_associate
  IsAllowed ran_mux = (command ≡ cmd_mux) × (validate_outbound_literal target allow_private ≡ ok tt)
  IsAllowed _ = Unit {0}

  abbrev pub Keeps : Handled → Type 0
  Keeps h = All IsAllowed h.1.log

  abbrev Allowed : Served → Type 0
  Allowed s = All IsAllowed s.log

  All-snoc :
      (log : List Event) (e : Event)
      → All IsAllowed log
      → IsAllowed e
      → All IsAllowed (log ++ (e ∷ []))
  All-snoc [] e h k = (k, tt)
  All-snoc (x ∷ log) e (h, hs) k = (h, All-snoc log e hs k)

  finish-Keeps :
      (label : List ℕ) (r : RelayResult) (s : Served) → Allowed s → Keeps (finish_relay label r s)
  unfolding finish_relay
  finish-Keeps label (relayed up down) s h = All-snoc s.log _ h tt
  finish-Keeps label (broke e) s h = elim (Bool-cases (same_text e (codes "idle timeout"))) [
    | inl p ↦ rw p (All-snoc s.log _ h tt)
    | inr p ↦ rw p (elim (Bool-cases (same_text e (codes "max session lifetime"))) [
      | inl q ↦ rw q (All-snoc s.log _ h tt)
      | inr q ↦ rw q (All-snoc s.log _ h tt)
    ])
  ]

  error-Allowed :
      (protocol : Protocol) (code : ℕ) (s : Served)
      → Allowed s
      → Allowed (send_error_to protocol code s)
  error-Allowed socks5 code s h = h
  error-Allowed vless code s h = h

  module _ (outside : Outside) where
    replied-Keeps :
        (label : List ℕ) (r : Outcome NegotiateError (Unit {0})) (s : Served)
        → Allowed s
        → Keeps (replied outside allow_private label r s)
    unfolding replied
    replied-Keeps label (ok done) s h = finish-Keeps label _ s h
    replied-Keeps label (err e) s h = h
    replied-Keeps label panic s h = h

    connected-Keeps :
        (protocol : Protocol) (label : List ℕ) (c : Connected) (s : Served)
        → Allowed s
        → Keeps (connected_tcp outside allow_private protocol label c s)
    unfolding connected_tcp relay_connected
    connected-Keeps socks5 label (connected local) s h = replied-Keeps label _ _ h
    connected-Keeps vless label (connected local) s h = finish-Keeps label _ s h
    connected-Keeps protocol label (refused text) s h =
        All-snoc _ _ (error-Allowed protocol (classify_connect_error text) s h) tt

    connected_udp-Keeps :
        (label : List ℕ) (c : Connected) (s : Served)
        → Allowed s
        → Keeps (connected_udp outside allow_private label c s)
    unfolding connected_udp
    connected_udp-Keeps label (connected local) s h = finish-Keeps label _ s h
    connected_udp-Keeps label (refused text) s h = All-snoc s.log _ h tt

    command-Keeps :
        (protocol : Protocol) (label : List ℕ) (s : Served)
        → validate_outbound_literal target allow_private ≡ ok tt
        → Allowed s
        → Keeps (serve_command outside allow_private protocol command target label s)
    unfolding serve_command serve_tcp serve_udp serve_mux
    command-Keeps socks5 label s v h =
        connected-Keeps socks5 label _ _ (All-snoc s.log _ h (refl, v))
    command-Keeps vless label s v h = elim (Bool-cases (command == cmd_mux)) [
      | inl e ↦ rw e (finish-Keeps label _ _ (All-snoc s.log _ h ((==_iff command cmd_mux).0 e, v)))
      | inr e ↦ rw e (elim (Bool-cases (command == cmd_udp)) [
        | inl f ↦ rw f (connected_udp-Keeps label _ _ (All-snoc s.log _ h (refl, v)))
        | inr f ↦ rw f (connected-Keeps vless label _ _ (All-snoc s.log _ h (refl, v)))
      ])
    ]

    checked-Keeps :
        (protocol : Protocol) (v : Outcome Error (Unit {0})) (s : Served)
        → validate_outbound_literal target allow_private ≡ v
        → Allowed s
        → Keeps (checked outside allow_private protocol command target v s)
    unfolding checked
    checked-Keeps protocol (ok passed) s e h = command-Keeps protocol _ _ e (All-snoc s.log _ h tt)
    checked-Keeps protocol (err x) s e h = error-Allowed protocol rep_not_allowed s h
    checked-Keeps protocol panic s e h = h

module _ (allow_private : Bool) (outside : Outside) where
  request-Keeps :
      (protocol : Protocol) (r : InboundRequest) (s : Served)
      → Allowed allow_private r.command r.target s
      → Keeps allow_private r.command r.target (serve_request outside allow_private protocol r s)
  unfolding serve_request serve_target serve_bind serve_associate
  request-Keeps socks5 r s h = elim (Bool-cases (r.command == cmd_bind)) [
    | inl e ↦ rw e (
        finish-Keeps _ _ _ _ _ _
          (All-snoc _ _ _ _ _ (All-snoc _ _ _ s.log _ h tt) ((==_iff r.command cmd_bind).0 e)))
    | inr e ↦ rw e (elim (Bool-cases (r.command == cmd_udp_associate)) [
      | inl f ↦ rw f (
          finish-Keeps _ _ _ _ _ _ (
            All-snoc _ _ _ _ _ (All-snoc _ _ _ s.log _ h tt)
              ((==_iff r.command cmd_udp_associate).0 f)))
      | inr f ↦ rw f (checked-Keeps allow_private r.command r.target outside socks5 _ s refl h)
    ])
  ]
  request-Keeps vless r s h =
      checked-Keeps allow_private r.command r.target outside vless _ s refl h

  module _ (ct_eq : List ℕ → List ℕ → Bool) (users : StoreState) (peer : IpAddr) (now : ℕ) where
    -- Either no transport was asked for anything, or the handshake returned a request, and transports were
    -- asked for its target only, which the policy allows.
    pub data IsGuarded (c : Conn) (h : Handled) : Type 0 where
      quiet : All IsQuietEvent h.1.log → IsGuarded c h
      served :
          (protocol : Protocol) (after : Conn) (r : InboundRequest)
          → handshake_inbound ct_eq protocol (socks5_config users) (vless_config users) c
            ≡ (ok r, after)
          → Keeps allow_private r.command r.target h
          → IsGuarded c h

    shaken-IsGuarded :
        (protocol : Protocol) (out : Outcome InboundError InboundRequest × Conn) (s : Served)
        → handshake_inbound ct_eq protocol (socks5_config users) (vless_config users) s.client ≡ out
        → s.log ≡ []
        → IsGuarded s.client (shaken outside allow_private ct_eq users peer now protocol out s)
    unfolding shaken failed_handshake record_auth_failure
    shaken-IsGuarded protocol (ok r, c) s e l =
        served protocol c r e (request-Keeps protocol r _ (subst⁻¹ (All _) l tt))
    shaken-IsGuarded protocol (err x, c) s e l = elim (Bool-cases (is_auth_failure x)) [
      | inl p ↦ rw p (quiet (rw l (tt, tt)))
      | inr p ↦ rw p (quiet (rw l tt))
    ]
    shaken-IsGuarded protocol (panic, c) s e l = quiet (rw l tt)

    chosen-IsGuarded :
        (p : Outcome HandleError Protocol) (s : Served)
        → s.log ≡ []
        → IsGuarded s.client (chosen outside allow_private ct_eq users peer now p s)
    unfolding chosen
    chosen-IsGuarded (ok protocol) s l = shaken-IsGuarded protocol _ s refl l
    chosen-IsGuarded (err e) s l = quiet (rw l tt)
    chosen-IsGuarded panic s l = quiet (rw l tt)

    first-IsGuarded :
        (enabled : EnabledProtocols) (sniff : Bool) (input : List ℕ) (writable : Bool)
        (output : List ℕ) (limiter : Option LimiterInner)
        → let c : Conn = record { input = input; writable = writable; output = output } in
          IsGuarded c (
            read_first outside allow_private ct_eq users peer now enabled
              (read_prefix sniff c)
              (record { client = c; limiter = limiter; log = [] }))
    unfolding read_first read_prefix
    first-IsGuarded enabled false input writable output limiter =
        let c : Conn = record { input = input; writable = writable; output = output } in
        rw (prefixed-none c) (chosen-IsGuarded _ _ refl)
    first-IsGuarded enabled true [] writable output limiter = quiet tt
    first-IsGuarded enabled true (b ∷ rest) writable output limiter =
        let c : Conn = record { input = rest; writable = writable; output = output } in
        rw (prefixed-some c b) (chosen-IsGuarded _ _ refl)

    pub handle_connection-IsGuarded :
        (enabled : EnabledProtocols) (c : Conn) (limiter : Option LimiterInner)
        → IsGuarded c (
            handle_connection outside allow_private ct_eq users peer now enabled
              (record { client = c; limiter = limiter; log = [] }))
    unfolding handle_connection
    handle_connection-IsGuarded enabled c limiter =
        first-IsGuarded enabled (needs_sniffing enabled) c.input c.writable c.output limiter
