-- ===== src/Server/Dispatch.antt =====
-- crates/skadi-server/src/lib.rs: what becomes of one connection, from its first byte to the end of its
-- relay (handle_connection). What the transports and the relays answer is a parameter, the record
-- Outside; the metrics and what is asked of the transports is a list of events.
pub mod Handle
pub mod Guarded
pub mod Entitled
pub mod Chosen
mod Tests
use skadi_core.Prelude.{
  ℕ, ◌==◌, ◌&&◌, ◌||◌, Bool, true, false, List, [], ◌∷◌, ◌++◌, Option, none, some, if◌then◌else◌,
  length,
}
use skadi_core.Prelude.Bytes.{codes}
use skadi_core.Prelude.Outcome.{Outcome, ok, err, panic}
use skadi_core.Stream.{Conn, with_input, map_err}
use skadi_core.Endpoint.{Endpoint, SocketAddr, IpAddr, v4, octets_eq}
use skadi_core.Endpoint.Policy.{Error, validate_outbound_literal}
use skadi_core.Protocol.{
  Protocol, socks5, vless, EnabledProtocols, DetectError, needs_sniffing, detect, sole,
  metric_label,
}
use skadi_core.Socks5.{cmd_bind, cmd_udp_associate}
use skadi_core.Socks5.Negotiate.{NegotiateError, send_reply, send_error, rep_general_failure}
use skadi_core.Socks5.Negotiate as Socks
use skadi_core.Vless.Request.{cmd_udp}
use skadi_core.Vless.Request as Request
use skadi_core.Vless.Handler as Vless
use skadi_core.Inbound.{InboundRequest, InboundError, by_socks5, by_vless, handshake_inbound}
use skadi_core.Server.AuthRateLimit.{LimiterInner, record_failure}
use skadi_core.Server.Store.{StoreState, socks5_config, vless_config}

abbrev pub rep_succeeded : ℕ
rep_succeeded = 0x00

abbrev pub rep_not_allowed : ℕ
rep_not_allowed = 0x02

abbrev pub rep_host_unreachable : ℕ
rep_host_unreachable = 0x04

abbrev pub rep_connection_refused : ℕ
rep_connection_refused = 0x05

-- What a call of a metric or of a transport leaves behind.
pub data Event : Type 0 where
  opened failed auth_failed : List ℕ → Event
  closed : List ℕ → ℕ → ℕ → Event
  dialed_tcp dialed_udp : Endpoint → Event
  ran_bind ran_associate ran_mux : Event

-- `std::io::Error`: whether its kind is `TimedOut`, and its text.
pub record IoError : Type 0 where
  pub timed_out : Bool
  pub text : List ℕ

pub data RelayResult : Type 0 where
  relayed : ℕ → ℕ → RelayResult
  broke : IoError → RelayResult

-- The answer of a transport: the local address of the socket, if it is known, or the text of an error.
pub data Connected : Type 0 where
  connected : Option SocketAddr → Connected
  refused : List ℕ → Connected

pub record Outside : Type 0 where
  pub connect_tcp : Endpoint → Connected
  pub connect_udp : Endpoint → Connected
  pub relay_tcp : RelayResult
  pub relay_udp : RelayResult
  pub relay_mux : RelayResult
  pub relay_bind : RelayResult
  pub relay_associate : RelayResult

pub data HandleError : Type 0 where
  no_first_byte : HandleError
  undetected : DetectError → HandleError
  by_inbound : InboundError → HandleError
  by_policy : Error → HandleError
  by_connect : List ℕ → HandleError
  by_reply : NegotiateError → HandleError
  by_relay : IoError → HandleError

pub record Served : Type 0 where
  pub client : Conn
  pub limiter : Option LimiterInner
  pub log : List Event

abbrev pub Handled : Type 0
Handled = Outcome HandleError (Unit {0}) × Served

abbrev pub note : Event → Served → Served
note event s = record { client = s.client; limiter = s.limiter; log = s.log ++ (event ∷ []) }

abbrev pub with_client : Conn → Served → Served
with_client c s = record { client = c; limiter = s.limiter; log = s.log }

abbrev pub same_text : IoError → List ℕ → Bool
same_text e text = e.timed_out && octets_eq e.text text

unfoldable pub finish_relay : List ℕ → RelayResult → Served → Handled
finish_relay label (relayed up down) s = (ok tt, note (closed label up down) s)
finish_relay label (broke e) s =
    if same_text e (codes "idle timeout")
    then (ok tt, note (closed label 0 0) s)
    else if same_text e (codes "max session lifetime")
    then (ok tt, note (closed label 0 0) s)
    else (err (by_relay e), note (failed label) s)

unfoldable pub vless_metric_label : Protocol → ℕ → List ℕ
vless_metric_label socks5 command = metric_label socks5
vless_metric_label vless command =
    if command == cmd_udp
    then codes "vless-udp"
    else if command == Request.cmd_mux
    then codes "vless-mux"
    else metric_label vless

-- `err.to_string().contains(..)`: of the handlers' errors, those texts that hold the words.
unfoldable pub is_auth_failure : InboundError → Bool
is_auth_failure (by_socks5 Socks.authentication_failed) = true
is_auth_failure (by_socks5 _) = false
is_auth_failure (by_vless Vless.authentication_failed) = true
is_auth_failure (by_vless (Vless.bad_flow _)) = true
is_auth_failure (by_vless _) = false

abbrev pub failed_once : Option LimiterInner → IpAddr → ℕ → Option LimiterInner
failed_once none ip now = none
failed_once (some limiter) ip now = some (record_failure limiter ip now)

unfoldable pub record_auth_failure : IpAddr → ℕ → List ℕ → Served → Served
record_auth_failure ip now label s = record {
  client = s.client;
  limiter = failed_once s.limiter ip now;
  log = s.log ++ (auth_failed label ∷ []);
}

-- `text.contains(part)`
abbrev pub begins_with : List ℕ → List ℕ → Bool
begins_with [] text = true
begins_with (p ∷ part) [] = false
begins_with (p ∷ part) (c ∷ text) = (p == c) && begins_with part text

unfoldable pub contains_text : List ℕ → List ℕ → Bool
contains_text part [] = begins_with part []
contains_text part (c ∷ text) = begins_with part (c ∷ text) || contains_text part text

unfoldable pub classify_connect_error : List ℕ → ℕ
classify_connect_error msg =
    if contains_text (codes "forbidden destination") msg
    then rep_not_allowed
    else if contains_text (codes "refused") msg
    then rep_connection_refused
    else if contains_text (codes "unreachable") msg || contains_text (codes "timeout") msg
    then rep_host_unreachable
    else rep_general_failure

-- `.map_err(std::io::Error::other)`, and `.map(|_| (0, 0))`
abbrev pub io_other : RelayResult → RelayResult
io_other (relayed up down) = relayed 0 0
io_other (broke e) = broke (record { timed_out = false; text = e.text })

-- `unwrap_or_else(|_| "0.0.0.0:0".parse()..)`
abbrev pub bound_or_dummy : Option SocketAddr → SocketAddr
bound_or_dummy none = record { ip = v4 (record { a = 0; b = 0; c = 0; d = 0 }); port = 0 }
bound_or_dummy (some bound) = bound

-- `let _ = Socks5Handler::send_error(..).await`, if the protocol is SOCKS5.
abbrev pub send_error_to : Protocol → ℕ → Served → Served
send_error_to socks5 code s = with_client (send_error code s.client).1 s
send_error_to vless code s = s
