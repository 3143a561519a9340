-- ===== src/Socks5/Safety.antt =====
-- What the parsers of socks5/parse.rs promise to the code that reads the stream.
use skadi_core.Incremental.{IsIncremental}
use skadi_core.Incremental.Rules.{IsIncremental-of}
use skadi_core.Socks5.{waits, parse_greeting, parse_auth, parse_request, parse_udp_datagram}
use skadi_core.Socks5.Bounds.{
  parse_greeting-IsSound, parse_auth-IsSound, parse_request-IsSound, parse_udp_datagram-IsSound,
}
use skadi_core.Socks5.Grows.{
  parse_greeting-Grows, parse_auth-Grows, parse_request-Grows, parse_udp_datagram-Grows,
}

pub parse_greeting-IsIncremental : IsIncremental waits parse_greeting
parse_greeting-IsIncremental =
    IsIncremental-of parse_greeting 3 (λ input _. parse_greeting-IsSound input) parse_greeting-Grows

pub parse_auth-IsIncremental : IsIncremental waits parse_auth
parse_auth-IsIncremental =
    IsIncremental-of parse_auth 5 (λ input _. parse_auth-IsSound input) parse_auth-Grows

pub parse_request-IsIncremental : IsIncremental waits parse_request
parse_request-IsIncremental =
    IsIncremental-of parse_request 4 (λ input _. parse_request-IsSound input) parse_request-Grows

pub parse_udp_datagram-IsIncremental : IsIncremental waits parse_udp_datagram
parse_udp_datagram-IsIncremental =
    IsIncremental-of parse_udp_datagram 4 (λ input _. parse_udp_datagram-IsSound input)
      parse_udp_datagram-Grows

-- The four parsers of the SOCKS5 messages never panic, use no more bytes than they are given, and
-- ask, where they ask, for more bytes than they are given and for no more than the message has. What
-- they decide does not depend on the bytes that follow.
pub parsers-IsIncremental :
    IsIncremental waits parse_greeting
    × IsIncremental waits parse_auth
    × IsIncremental waits parse_request
    × IsIncremental waits parse_udp_datagram
parsers-IsIncremental = (
  parse_greeting-IsIncremental, parse_auth-IsIncremental, parse_request-IsIncremental,
  parse_udp_datagram-IsIncremental,
)
