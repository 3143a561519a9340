-- ===== src/Vless/Request/Safety.antt =====
-- What the parsers of vless/parse.rs promise to the code that reads the stream.
use skadi_core.Prelude.{length, inl}
use skadi_core.Incremental.{IsIncremental, IsDecisive}
use skadi_core.Incremental.Rules.{IsIncremental-of, IsDecisive-of}
use skadi_core.Vless.Request.{waits, parse_port_address, parse_request}
use skadi_core.Vless.Request.Bounds.{parse_port_address-IsSound, parse_request-IsSound}
use skadi_core.Vless.Request.Grows.{parse_port_address-Grows, parse_request-Grows}

-- `parse_port_address` never panics on bytes, uses no more bytes than it is given, and asks, where it
-- asks, for more bytes than it is given and for no more than the address has. What it decides does
-- not depend on the bytes that follow.
pub parse_port_address-IsIncremental : IsIncremental waits parse_port_address
parse_port_address-IsIncremental =
    IsIncremental-of parse_port_address 3 (λ input h. parse_port_address-IsSound input 0 (inl h))
      parse_port_address-Grows

-- `parse_request` never panics on bytes, uses no more bytes than it is given, never asks for more bytes
-- than the request has, and what it decides does not depend on the bytes that follow.
pub parse_request-IsDecisive : IsDecisive waits parse_request
parse_request-IsDecisive =
    IsDecisive-of parse_request length 19 (λ input _. parse_request-IsSound input)
      parse_request-Grows
