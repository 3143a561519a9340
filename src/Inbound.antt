-- ===== src/Inbound.antt =====
-- crates/skadi-protocol/src/inbound.rs: the handshake of whichever protocol a connection speaks.
pub mod Access
pub mod Tests
use skadi_core.Prelude.{ℕ, Bool, List, ◌==◌}
use skadi_core.Prelude.Outcome.{Outcome, ok, err}
use skadi_core.Endpoint.{Endpoint}
use skadi_core.Stream.{Conn, Action, ◌>>=◌, pure, map_err}
use skadi_core.Protocol.{Protocol, socks5, vless}
use skadi_core.Socks5.{Socks5Request, cmd_connect}
use skadi_core.Socks5.Negotiate.{NegotiateError, Socks5Config, negotiate}
use skadi_core.Vless.Request.{cmd_tcp}
use skadi_core.Vless.Users.{VlessConfig}
use skadi_core.Vless.Handler.{VlessHandshake, HandshakeError, handshake}

pub record InboundRequest : Type 0 where
  pub protocol : Protocol
  pub command : ℕ
  pub target : Endpoint

pub from_socks5 : Socks5Request → InboundRequest
from_socks5 req = record { protocol = socks5; command = req.command; target = req.target }

pub from_vless : VlessHandshake → InboundRequest
from_vless hs = record { protocol = vless; command = hs.command; target = hs.target }

pub is_tcp_connect : InboundRequest → Bool
is_tcp_connect req = elim req.protocol [
  | socks5 ↦ req.command == cmd_connect
  | vless ↦ req.command == cmd_tcp
]

-- `anyhow::Error` holds either.
pub data InboundError : Type 0 where
  by_socks5 : NegotiateError → InboundError
  by_vless : HandshakeError → InboundError

abbrev pub errors_of : {E A : Type 0} → (E → InboundError) → Action E A → Action InboundError A
errors_of f m c = (map_err f (m c).0, (m c).1)

-- The two `InboundHandler::handshake`.
pub handshake_socks5 : (List ℕ → List ℕ → Bool) → Socks5Config → Action InboundError InboundRequest
handshake_socks5 ct_eq config = do
  req ← errors_of by_socks5 (negotiate ct_eq config)
  pure (from_socks5 req)

pub handshake_vless : (List ℕ → List ℕ → Bool) → VlessConfig → Action InboundError InboundRequest
handshake_vless ct_eq config = do
  hs ← errors_of by_vless (handshake ct_eq config.users)
  pure (from_vless hs)

pub handshake_inbound :
    (List ℕ → List ℕ → Bool)
    → Protocol
    → Socks5Config
    → VlessConfig
    → Action InboundError InboundRequest
handshake_inbound ct_eq socks5 socks5_config vless_config = handshake_socks5 ct_eq socks5_config
handshake_inbound ct_eq vless socks5_config vless_config = handshake_vless ct_eq vless_config
