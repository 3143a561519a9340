-- ===== src/Server/Dispatch/Handle.antt =====
-- crates/skadi-server/src/lib.rs: handle_connection, in its order. The comparison of passwords is a
-- parameter, as in the handshakes.
use skadi_core.Prelude.{
  ℕ, ◌==◌, Bool, true, false, List, [], ◌∷◌, Option, none, some, if◌then◌else◌,
}
use skadi_core.Prelude.Bytes.{codes}
use skadi_core.Prelude.Outcome.{Outcome, ok, err, panic}
use skadi_core.Stream.{Conn, with_input, map_err}
use skadi_core.Endpoint.{Endpoint, SocketAddr, IpAddr}
use skadi_core.Endpoint.Policy.{Error, validate_outbound_literal}
use skadi_core.Protocol.{
  Protocol, socks5, vless, EnabledProtocols, needs_sniffing, detect, sole, metric_label,
}
use skadi_core.Socks5.{cmd_bind, cmd_udp_associate}
use skadi_core.Socks5.Negotiate.{NegotiateError, send_reply}
use skadi_core.Vless.Request.{cmd_udp, cmd_mux}
use skadi_core.Inbound.{InboundRequest, InboundError, handshake_inbound}
use skadi_core.Server.Prefixed.{prefixed}
use skadi_core.Server.Store.{StoreState, socks5_config, vless_config}
use skadi_core.Server.Dispatch.{
  opened, failed, dialed_tcp, dialed_udp, ran_bind, ran_associate, ran_mux, Connected, connected,
  refused, Outside, HandleError, no_first_byte, undetected, by_inbound, by_policy, by_connect,
  by_reply, Served, Handled, note, with_client, finish_relay, vless_metric_label, is_auth_failure,
  record_auth_failure, classify_connect_error, io_other, bound_or_dummy, send_error_to,
  rep_not_allowed, rep_succeeded,
}

-- `client.read_exact(&mut first)`, if there is a choice: the byte, and the connection behind it.
unfoldable pub read_prefix : Bool → Conn → Outcome HandleError (Option ℕ) × Conn
read_prefix false c = (ok none, c)
read_prefix true c = elim c.input [
  | [] ↦ (err no_first_byte, c)
  | b ∷ rest ↦ (ok (some b), with_input c rest)
]

-- The two `expect` panic.
unfoldable pub choose_protocol : EnabledProtocols → Option ℕ → Outcome HandleError Protocol
choose_protocol enabled prefix =
    if needs_sniffing enabled
    then (elim prefix [ none ↦ panic | some byte ↦ map_err undetected (detect enabled byte) ])
    else elim (sole enabled) [ none ↦ panic | some protocol ↦ ok protocol ]

unfoldable pub failed_handshake : IpAddr → ℕ → Protocol → InboundError → Served → Handled
failed_handshake peer now protocol e s =
    if is_auth_failure e
    then (err (by_inbound e), record_auth_failure peer now (metric_label protocol) s)
    else (err (by_inbound e), s)

module _ (outside : Outside) (allow_private : Bool) where
  -- Behind the connection to the target: the reply, and the relay.
  unfoldable pub replied : List ℕ → Outcome NegotiateError (Unit {0}) → Served → Handled
  replied label (ok done) s = finish_relay label outside.relay_tcp s
  replied label (err e) s = (err (by_reply e), s)
  replied label panic s = (panic, s)

  unfoldable pub relay_connected : Protocol → List ℕ → Option SocketAddr → Served → Handled
  relay_connected socks5 label local s =
      let answer = send_reply rep_succeeded (bound_or_dummy local) s.client in
      replied label answer.0 (with_client answer.1 s)
  relay_connected vless label local s = finish_relay label outside.relay_tcp s

  unfoldable pub connected_tcp : Protocol → List ℕ → Connected → Served → Handled
  connected_tcp protocol label (connected local) s = relay_connected protocol label local s
  connected_tcp protocol label (refused text) s = (
    err (by_connect text),
    note (failed label) (send_error_to protocol (classify_connect_error text) s),
  )

  unfoldable pub connected_udp : List ℕ → Connected → Served → Handled
  connected_udp label (connected local) s = finish_relay label outside.relay_udp s
  connected_udp label (refused text) s = (err (by_connect text), note (failed label) s)

  unfoldable pub serve_tcp : Protocol → List ℕ → Endpoint → Served → Handled
  serve_tcp protocol label target s =
      connected_tcp protocol label (outside.connect_tcp target) (note (dialed_tcp target) s)

  unfoldable pub serve_udp : List ℕ → Endpoint → Served → Handled
  serve_udp label target s =
      connected_udp label (outside.connect_udp target) (note (dialed_udp target) s)

  unfoldable pub serve_mux : List ℕ → Served → Handled
  serve_mux label s = finish_relay label outside.relay_mux (note ran_mux s)

  -- Behind the check of the target.
  unfoldable pub serve_command : Protocol → ℕ → Endpoint → List ℕ → Served → Handled
  serve_command socks5 command target label s = serve_tcp socks5 label target s
  serve_command vless command target label s =
      if command == cmd_mux
      then serve_mux label s
      else if command == cmd_udp
      then serve_udp label target s
      else serve_tcp vless label target s

  unfoldable pub checked : Protocol → ℕ → Endpoint → Outcome Error (Unit {0}) → Served → Handled
  checked protocol command target (ok passed) s =
      let label = vless_metric_label protocol command in
      serve_command protocol command target label (note (opened label) s)
  checked protocol command target (err e) s =
      (err (by_policy e), send_error_to protocol rep_not_allowed s)
  checked protocol command target panic s = (panic, s)

  unfoldable pub serve_target : Protocol → ℕ → Endpoint → Served → Handled
  serve_target protocol command target s =
      checked protocol command target (validate_outbound_literal target allow_private) s

  unfoldable pub serve_bind : Served → Handled
  serve_bind s =
      finish_relay (codes "socks5-bind") (io_other outside.relay_bind)
        (note ran_bind (note (opened (codes "socks5-bind")) s))

  unfoldable pub serve_associate : Served → Handled
  serve_associate s =
      finish_relay (codes "socks5-udp") (io_other outside.relay_associate)
        (note ran_associate (note (opened (codes "socks5-udp")) s))

  unfoldable pub serve_request : Protocol → InboundRequest → Served → Handled
  serve_request socks5 r s =
      if r.command == cmd_bind
      then serve_bind s
      else if r.command == cmd_udp_associate
      then serve_associate s
      else serve_target socks5 r.command r.target s
  serve_request vless r s = serve_target vless r.command r.target s

  module _ (ct_eq : List ℕ → List ℕ → Bool) (users : StoreState) (peer : IpAddr) (now : ℕ) where
    unfoldable pub shaken : Protocol → Outcome InboundError InboundRequest × Conn → Served → Handled
    shaken protocol (ok r, c) s = serve_request protocol r (with_client c s)
    shaken protocol (err e, c) s = failed_handshake peer now protocol e (with_client c s)
    shaken protocol (panic, c) s = (panic, with_client c s)

    unfoldable pub chosen : Outcome HandleError Protocol → Served → Handled
    chosen (ok protocol) s =
        shaken protocol
          (handshake_inbound ct_eq protocol (socks5_config users) (vless_config users) s.client) s
    chosen (err e) s = (err e, s)
    chosen panic s = (panic, s)

    unfoldable pub read_first :
        EnabledProtocols → Outcome HandleError (Option ℕ) × Conn → Served → Handled
    read_first enabled (ok prefix, c) s =
        chosen (choose_protocol enabled prefix) (with_client (prefixed c prefix) s)
    read_first enabled (err e, c) s = (err e, with_client c s)
    read_first enabled (panic, c) s = (panic, with_client c s)

    unfoldable pub handle_connection : EnabledProtocols → Served → Handled
    handle_connection enabled s =
        read_first enabled (read_prefix (needs_sniffing enabled) s.client) s
